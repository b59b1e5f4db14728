-- ===== src/Integer/Pack.antt =====
-- Packing and unpacking, in every width and byte order.
use Prim.Native.Nat.{bit_and}
use spicy.Base.{
  ℕ, zero, suc, ◌/◌, ◌%◌, ◌<◌, ◌≡◌, refl, sym, ap, ap₂, subst, ◌∙◌, ◌≢◌, List, [], ◌∷◌, ◌++◌,
  length, take, drop, All, arith, length-append, ok, le→ltb_false,
}
use spicy.Integer.{
  Width, w8, w16, w32, w64, size_of, limit_of, ByteOrder, little, big, network, host, undef, Endian,
  little_endian, big_endian, resolve_host, elem_at, pack_loop, unpack_loop, big_indices,
  little_indices, pack_with, pack, unpack_with, unpack, pack_resolved, unpack_resolved,
}
use spicy.Integer.Bits.{and_255}
use spicy.Integer.Digits.{
  digits, reverse, value, IsByte, length-digits, value-digits, digits-value, value-lt,
  shifted_in-value,
}
use mathlib.Core.List.{append_assoc, append-nil}

abbrev tabulate : ℕ → (ℕ → ℕ) → List ℕ
tabulate zero f = []
tabulate (suc n) f = f 0 ∷ tabulate n (λ i. f (suc i))

tabulate-elem_at : (xs : List ℕ) → tabulate (length xs) (elem_at xs) ≡ xs
tabulate-elem_at [] = refl
tabulate-elem_at (x ∷ xs) = ap (λ t. x ∷ t) (tabulate-elem_at xs)

-- A list of known length has that many elements.
listed : (n : ℕ) (xs : List ℕ) → length xs ≡ n → tabulate n (elem_at xs) ≡ xs
listed n xs e = ap (λ k. tabulate k (elem_at xs)) (sym e) ∙ tabulate-elem_at xs

-- The digits as the packing loop computes them.
abbrev masked_digits : ℕ → ℕ → List ℕ
masked_digits zero v = []
masked_digits (suc n) v = masked_digits n (v / 256) ++ (bit_and v 255 ∷ [])

masked_digits-eq : (n v : ℕ) → masked_digits n v ≡ digits n v
masked_digits-eq zero v = refl
masked_digits-eq (suc n) v = ap₂ (λ t d. t ++ (d ∷ [])) (masked_digits-eq n (v / 256)) (and_255 v)

below_256 : (v : ℕ) → v < 256 → v ≡ v % 256
below_256 v h = omega arith

pack_big :
    (w : Width) (v : ℕ) (f : ℕ → ℕ)
    → v < limit_of w
    → pack_with w v (tabulate (size_of w) f) (big_indices w) ≡ digits (size_of w) v
unfolding pack_loop
pack_big w8 v f h = ap (λ t. t ∷ []) (below_256 v h)
pack_big w16 v f h = masked_digits-eq 2 v
pack_big w32 v f h = masked_digits-eq 4 v
pack_big w64 v f h = masked_digits-eq 8 v

pack_little :
    (w : Width) (v : ℕ) (f : ℕ → ℕ)
    → v < limit_of w
    → pack_with w v (tabulate (size_of w) f) (little_indices w) ≡ reverse (digits (size_of w) v)
unfolding pack_loop
pack_little w8 v f h = ap (λ t. t ∷ []) (below_256 v h)
pack_little w16 v f h = ap reverse (masked_digits-eq 2 v)
pack_little w32 v f h = ap reverse (masked_digits-eq 4 v)
pack_little w64 v f h = ap reverse (masked_digits-eq 8 v)

unpack_big :
    (w : Width) (f : ℕ → ℕ)
    → All IsByte (tabulate (size_of w) f)
    → unpack_with w (tabulate (size_of w) f) (big_indices w) ≡ value (tabulate (size_of w) f)
unfolding unpack_loop
unpack_big w8 f a = omega arith
unpack_big w16 f a = shifted_in-value 0 2 0 (tabulate 2 f) a (omega arith) (omega arith)
unpack_big w32 f a = shifted_in-value 0 4 0 (tabulate 4 f) a (omega arith) (omega arith)
unpack_big w64 f a = shifted_in-value 0 8 0 (tabulate 8 f) a (omega arith) (omega arith)

unpack_little :
    (w : Width) (f : ℕ → ℕ)
    → All IsByte (reverse (tabulate (size_of w) f))
    → unpack_with w (tabulate (size_of w) f) (little_indices w)
      ≡ value (reverse (tabulate (size_of w) f))
unfolding unpack_loop
unpack_little w8 f a = omega arith
unpack_little w16 f a =
    shifted_in-value 0 2 0 (reverse (tabulate 2 f)) a (omega arith) (omega arith)
unpack_little w32 f a =
    shifted_in-value 0 4 0 (reverse (tabulate 4 f)) a (omega arith) (omega arith)
unpack_little w64 f a =
    shifted_in-value 0 8 0 (reverse (tabulate 8 f)) a (omega arith) (omega arith)

pub reverse-append : (xs ys : List ℕ) → reverse (xs ++ ys) ≡ reverse ys ++ reverse xs
reverse-append [] ys = sym (append-nil (reverse ys))
reverse-append (x ∷ xs) ys =
    ap (λ t. t ++ (x ∷ [])) (reverse-append xs ys) ∙ append_assoc (reverse ys) (reverse xs) (x ∷ [])

reverse-reverse : (xs : List ℕ) → reverse (reverse xs) ≡ xs
reverse-reverse [] = refl
reverse-reverse (x ∷ xs) =
    reverse-append (reverse xs) (x ∷ []) ∙ ap (λ t. x ∷ t) (reverse-reverse xs)

pub length-reverse : (xs : List ℕ) → length (reverse xs) ≡ length xs
length-reverse [] = refl
length-reverse (x ∷ xs) = omega (arith, length-append (reverse xs) (x ∷ []), length-reverse xs)

All-append : (xs ys : List ℕ) → All IsByte xs → All IsByte ys → All IsByte (xs ++ ys)
All-append [] ys a b = b
All-append (x ∷ xs) ys (h, a) b = (h, All-append xs ys a b)

All-reverse : (xs : List ℕ) → All IsByte xs → All IsByte (reverse xs)
All-reverse [] a = tt
All-reverse (x ∷ xs) (h, a) = All-append (reverse xs) (x ∷ []) (All-reverse xs a) (h, tt)

digits-IsByte : (n v : ℕ) → All IsByte (digits n v)
digits-IsByte zero v = tt
digits-IsByte (suc n) v =
    All-append (digits n (v / 256)) (v % 256 ∷ []) (digits-IsByte n (v / 256)) (omega arith, tt)

-- The bytes of a number in a byte order, from its digits, and back.
abbrev pub arranged : ByteOrder → List ℕ → List ℕ
arranged little ds = reverse ds
arranged _ ds = ds

-- `pack` writes the number's digits in the byte order, whatever the memory held before.
pack-arranged :
    (system : Endian) (w : Width) (raw : List ℕ) (v : ℕ) (order : ByteOrder)
    → length raw ≡ size_of w
    → v < limit_of w
    → order ≢ undef
    → pack system w raw v order ≡ ok (arranged (resolve_host system order) (digits (size_of w) v))
unfolding pack
pack-arranged system w raw v order l h d = resolved system order d
  where
    as_big : pack_with w v raw (big_indices w) ≡ digits (size_of w) v
    as_big =
        ap (λ r. pack_with w v r (big_indices w)) (sym (listed (size_of w) raw l))
        ∙ pack_big w v (elem_at raw) h

    as_little : pack_with w v raw (little_indices w) ≡ reverse (digits (size_of w) v)
    as_little =
        ap (λ r. pack_with w v r (little_indices w)) (sym (listed (size_of w) raw l))
        ∙ pack_little w v (elem_at raw) h

    resolved :
        (system : Endian) (order : ByteOrder)
        → order ≢ undef
        → pack_resolved w raw v (resolve_host system order)
          ≡ ok (arranged (resolve_host system order) (digits (size_of w) v))
    resolved system little d = ap ok as_little
    resolved system big d = ap ok as_big
    resolved system network d = ap ok as_big
    resolved little_endian host d = ap ok as_little
    resolved big_endian host d = ap ok as_big
    resolved system undef d = absurd (d refl)

take_front : (xs ys : List ℕ) → take (length xs) (xs ++ ys) ≡ xs
take_front [] ys = refl
take_front (x ∷ xs) ys = ap (λ t. x ∷ t) (take_front xs ys)

drop_front : (xs ys : List ℕ) → drop (length xs) (xs ++ ys) ≡ ys
drop_front [] ys = refl
drop_front (x ∷ xs) ys = drop_front xs ys

-- `unpack` takes as many bytes as the type has, and reads them in the byte order.
unpack-value :
    (system : Endian) (w : Width) (bs rest : List ℕ) (order : ByteOrder)
    → length bs ≡ size_of w
    → All IsByte bs
    → order ≢ undef
    → unpack system w (bs ++ rest) order
      ≡ ok (value (arranged (resolve_host system order) bs), rest)
unfolding unpack
unpack-value system w bs rest order l a d =
    rw
      (
        le→ltb_false (length (bs ++ rest)) (size_of w) (omega (arith, l, length-append bs rest)),
        sym l,
        take_front bs rest,
        drop_front bs rest,
      )
      (resolved system order d)
  where
    as_big : unpack_with w bs (big_indices w) ≡ value bs
    as_big =
        subst (λ r. unpack_with w r (big_indices w) ≡ value r) (listed (size_of w) bs l)
          (unpack_big w (elem_at bs) (subst (All IsByte) (sym (listed (size_of w) bs l)) a))

    as_little : unpack_with w bs (little_indices w) ≡ value (reverse bs)
    as_little =
        subst (λ r. unpack_with w r (little_indices w) ≡ value (reverse r))
          (listed (size_of w) bs l)
          (unpack_little w (elem_at bs) (
            subst (λ r. All IsByte (reverse r)) (sym (listed (size_of w) bs l)) (All-reverse bs a)))

    resolved :
        (system : Endian) (order : ByteOrder)
        → order ≢ undef
        → unpack_resolved w bs rest (resolve_host system order)
          ≡ ok (value (arranged (resolve_host system order) bs), rest)
    resolved system little d = ap (λ t. ok (t, rest)) as_little
    resolved system big d = ap (λ t. ok (t, rest)) as_big
    resolved system network d = ap (λ t. ok (t, rest)) as_big
    resolved little_endian host d = ap (λ t. ok (t, rest)) as_little
    resolved big_endian host d = ap (λ t. ok (t, rest)) as_big
    resolved system undef d = absurd (d refl)

arranged-arranged : (o : ByteOrder) (ds : List ℕ) → arranged o (arranged o ds) ≡ ds
arranged-arranged little ds = reverse-reverse ds
arranged-arranged big ds = refl
arranged-arranged network ds = refl
arranged-arranged host ds = refl
arranged-arranged undef ds = refl

length-arranged : (o : ByteOrder) (ds : List ℕ) → length (arranged o ds) ≡ length ds
length-arranged little ds = length-reverse ds
length-arranged big ds = refl
length-arranged network ds = refl
length-arranged host ds = refl
length-arranged undef ds = refl

All-arranged : (o : ByteOrder) (ds : List ℕ) → All IsByte ds → All IsByte (arranged o ds)
All-arranged little ds a = All-reverse ds a
All-arranged big ds a = a
All-arranged network ds a = a
All-arranged host ds a = a
All-arranged undef ds a = a

-- Packing a number that fits the type, in any byte order but `Undef`, succeeds with as many bytes as
-- the type has, whatever the memory held before; and unpacking in that order, from these bytes and
-- any others behind them, gives the number back and the other bytes.
pub unpack-pack :
    (system : Endian) (w : Width) (raw : List ℕ) (v : ℕ) (rest : List ℕ) (order : ByteOrder)
    → length raw ≡ size_of w
    → v < limit_of w
    → order ≢ undef
    → (bytes : List ℕ) × (pack system w raw v order ≡ ok bytes)
      × (length bytes ≡ size_of w)
      × All IsByte bytes
      × (unpack system w (bytes ++ rest) order ≡ ok (v, rest))
unpack-pack system w raw v rest order l h d =
    let o = resolve_host system order in
    let ds = digits (size_of w) v in
    let n = length-arranged o ds ∙ length-digits (size_of w) v in
    let a = All-arranged o ds (digits-IsByte (size_of w) v) in
    (
      arranged o ds,
      pack-arranged system w raw v order l h d,
      n,
      a,
      unpack-value system w (arranged o ds) rest order n a d
          ∙ ap (λ t. ok (t, rest))
              (ap value (arranged-arranged o ds) ∙ value-digits (size_of w) v h),
    )

-- Unpacking as many bytes as the type has, with others behind them, in any byte order but `Undef`,
-- succeeds with a number that fits the type and the other bytes; and packing the number in that
-- order gives the bytes back.
pub pack-unpack :
    (system : Endian) (w : Width) (raw bs rest : List ℕ) (order : ByteOrder)
    → length raw ≡ size_of w
    → length bs ≡ size_of w
    → All IsByte bs
    → order ≢ undef
    → (v : ℕ) × (unpack system w (bs ++ rest) order ≡ ok (v, rest))
      × (v < limit_of w)
      × (pack system w raw v order ≡ ok bs)
pack-unpack system w raw bs rest order l k a d =
    let o = resolve_host system order in
    let n = length-arranged o bs ∙ k in
    let a' = All-arranged o bs a in
    let h = value-lt (size_of w) (arranged o bs) a' n in
    (
      value (arranged o bs),
      unpack-value system w bs rest order k a d,
      h,
      pack-arranged system w raw (value (arranged o bs)) order l h d
          ∙ ap (λ t. ok (arranged o t)) (digits-value (size_of w) (arranged o bs) a' n)
          ∙ ap ok (arranged-arranged o bs),
    )
