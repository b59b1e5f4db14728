-- ===== src/Address/Packing.antt =====
-- Packing an address and unpacking it (hilti/runtime/src/types/address.cc).
use mathlib.Core.List.{append_assoc}
use spicy.Base.{
  ℕ, ◌<◌, ◌≡◌, ◌≢◌, refl, sym, ap, subst, ◌∙◌, List, ◌++◌, inl, inr, Bool-cases, ok, length, arith,
  length-append, le→ltb_false,
}
use spicy.Integer.{ByteOrder, undef, Endian, Width, w32, w64, size_of, limit_of, unpack}
use spicy.Integer.Pack.{unpack-pack}
use spicy.Address.{
  AddressFamily, no_family, ipv4, ipv6, Address, low_first, from_halves, pack_address,
  unpack_address,
}
use native.Mathlib.Nat.{mod-eq_of_lt}

unpack6_halves :
    (system : Endian) (fmt : ByteOrder) (v w : ℕ) (x y rest : List ℕ)
    → length x ≡ 8
    → length y ≡ 8
    → unpack system w64 (x ++ (y ++ rest)) fmt ≡ ok (v, y ++ rest)
    → unpack system w64 (y ++ rest) fmt ≡ ok (w, rest)
    → unpack_address system ((x ++ y) ++ rest) ipv6 fmt
      ≡ ok (from_halves (low_first system fmt) v w, rest)
unfolding unpack_address
unpack6_halves system fmt v w x y rest m n p q =
    let long = length-append x (y ++ rest) in
    let long' = length-append y rest in
    rw (append_assoc x y rest, le→ltb_false (length (x ++ (y ++ rest))) 16 (omega arith), p, q) refl

-- The halves of an address of a family keep to the bytes that the family has.
abbrev pub Halves : ℕ → ℕ → AddressFamily → Type 0
Halves v w ipv4 = (v ≡ 0) × (w < limit_of w32)
Halves v w ipv6 = (v < limit_of w64) × (w < limit_of w64)
Halves v w no_family = ⊥

abbrev pub IsAddress : Address → Type 0
IsAddress a = Halves a.a1 a.a2 a.family

abbrev RoundTrip : Endian → (Width → List ℕ) → List ℕ → ByteOrder → Address → Type 0
RoundTrip system raw rest fmt a =
    (bytes : List ℕ) × (pack_address system raw a fmt ≡ ok bytes)
    × (unpack_address system (bytes ++ rest) a.family fmt ≡ ok (a, rest))

module _ (system : Endian) (raw : Width → List ℕ) (rest : List ℕ) (fmt : ByteOrder)
    (l : (w : Width) → length (raw w) ≡ size_of w) (d : fmt ≢ undef) where
  round_trip4 :
      (w : ℕ)
      → w < limit_of w32
      → RoundTrip system raw rest fmt (record { a1 = 0; a2 = w; family = ipv4 })
  unfolding pack_address unpack_address
  round_trip4 w h =
      let p = unpack-pack system w32 (raw w32) w rest fmt (l w32) h d in
      let long = length-append p.0 rest in
      (
        p.0,
        rw (mod-eq_of_lt h) p.1,
        rw (le→ltb_false (length (p.0 ++ rest)) 4 (omega (arith, long, p.2)), p.4) refl,
      )

  round_trip6 :
      (v w : ℕ)
      → v < limit_of w64
      → w < limit_of w64
      → RoundTrip system raw rest fmt (record { a1 = v; a2 = w; family = ipv6 })
  unfolding pack_address unpack_address
  round_trip6 v w h k = elim (Bool-cases (low_first system fmt)) [
    | inl e ↦
        let q = unpack-pack system w64 (raw w64) v rest fmt (l w64) h d in
        let p = unpack-pack system w64 (raw w64) w (q.0 ++ rest) fmt (l w64) k d in
        (
          p.0 ++ q.0,
          rw (q.1, p.1, e) refl,
          unpack6_halves system fmt w v p.0 q.0 rest p.2 q.2 p.4 q.4
              ∙ ap (λ b. ok (from_halves b w v, rest)) e,
        )
    | inr e ↦
        let q = unpack-pack system w64 (raw w64) w rest fmt (l w64) k d in
        let p = unpack-pack system w64 (raw w64) v (q.0 ++ rest) fmt (l w64) h d in
        (
          p.0 ++ q.0,
          rw (p.1, q.1, e) refl,
          unpack6_halves system fmt v w p.0 q.0 rest p.2 q.2 p.4 q.4
              ∙ ap (λ b. ok (from_halves b v w, rest)) e,
        )
  ]

  round_trip :
      (v w : ℕ) (f : AddressFamily)
      → Halves v w f
      → RoundTrip system raw rest fmt (record { a1 = v; a2 = w; family = f })
  round_trip v w ipv4 h =
      subst (λ z. RoundTrip system raw rest fmt (record { a1 = z; a2 = w; family = ipv4 }))
        (sym h.0) (round_trip4 w h.1)
  round_trip v w ipv6 h = round_trip6 v w h.0 h.1
  round_trip v w no_family h = absurd h

-- An address of either family that keeps to its bytes, packed in any byte order but `Undef`, is
-- unpacked from these bytes in the same byte order, and the bytes behind them are left.
pub unpack_address-pack_address :
    (system : Endian) (raw : Width → List ℕ) (a : Address) (rest : List ℕ) (fmt : ByteOrder)
    → ((w : Width) → length (raw w) ≡ size_of w)
    → IsAddress a
    → fmt ≢ undef
    → (bytes : List ℕ) × (pack_address system raw a fmt ≡ ok bytes)
      × (unpack_address system (bytes ++ rest) a.family fmt ≡ ok (a, rest))
unpack_address-pack_address system raw a rest fmt l h d =
    round_trip system raw rest fmt l d a.a1 a.a2 a.family h
