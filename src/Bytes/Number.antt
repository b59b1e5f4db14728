-- ===== src/Bytes/Number.antt =====
-- Bytes as an unsigned integer.
use spicy.Base.{
  ℕ, zero, suc, ◌+◌, ◌-◌, ◌*◌, ◌/◌, ◌≤◌, ◌<◌, ◌≡◌, ◌≢◌, refl, sym, ap, ◌∙◌, false, List, [], ◌∷◌,
  ◌++◌, length, replicate, All, arith, ◌==◌, ok, le→ltb_false, length-append, length-replicate,
  Bool, true, ltb, err, ◌&&◌, ◌||◌, ◌^◌, ==_iff, Result,
}
use spicy.Integer.{
  ByteOrder, little, big, network, host, undef, limit_of_bytes, Endian, little_endian, big_endian,
  system_byte_order,
}
use spicy.Integer.Digits.{
  digits, reverse, value, IsByte, shifted_in, digits-value, value_from-append, shifted_in-value,
}
use spicy.Integer.Pack.{arranged, reverse-append}
use spicy.Bytes.{shift_loop, flip64, shifted_right, flip, to_uint_ordered, to_uint, signed}
use mathlib.Core.List.{append_assoc, append-nil}

shift_loop-shifted_in : (b : List ℕ) (i : ℕ) → shift_loop i b ≡ shifted_in (limit_of_bytes 8) i b
unfolding shift_loop
shift_loop-shifted_in [] i = refl
shift_loop-shifted_in (c ∷ cs) i = shift_loop-shifted_in cs _

shift_loop-value : (b : List ℕ) → All IsByte b → length b ≤ 8 → shift_loop 0 b ≡ value b
shift_loop-value b a h =
    shift_loop-shifted_in b 0 ∙ shifted_in-value 0 8 0 b a (omega arith) (omega arith)

flip64-reverse : (v : ℕ) → flip64 v ≡ value (reverse (digits 8 v))
unfolding flip64
flip64-reverse v = refl

value-zeros : (k : ℕ) (b : List ℕ) → value (replicate k 0 ++ b) ≡ value b
value-zeros zero b = refl
value-zeros (suc k) b = value-zeros k b

zeros-IsByte : (k : ℕ) (b : List ℕ) → All IsByte b → All IsByte (replicate k 0 ++ b)
zeros-IsByte zero b a = a
zeros-IsByte (suc k) b a = (omega arith, zeros-IsByte k b a)

-- Eight digits of a number of fewer bytes begin with zeros.
padded :
    (k : ℕ) (b : List ℕ) → All IsByte b → k + length b ≡ 8 → digits 8 (value b) ≡ replicate k 0 ++ b
padded k b a e =
    ap (digits 8) (sym (value-zeros k b))
    ∙ digits-value 8 (replicate k 0 ++ b) (zeros-IsByte k b a)
        (length-append (replicate k 0) b ∙ ap (λ t. t + length b) (length-replicate k 0) ∙ e)

last_zero : (v : ℕ) → (v * 256 + 0) / 256 ≡ v
last_zero v = omega arith

-- A shift by whole bytes takes the zeros off the end.
shifted_right-zeros :
    (k : ℕ) (xs : List ℕ) → shifted_right (value (xs ++ reverse (replicate k 0))) k ≡ value xs
shifted_right-zeros zero xs = ap value (append-nil xs)
shifted_right-zeros (suc k) xs =
    ap (λ t. shifted_right (t / 256) k)
      (ap value (sym (append_assoc xs (reverse (replicate k 0)) (0 ∷ [])))
        ∙ value_from-append 0 (xs ++ reverse (replicate k 0)) (0 ∷ []))
    ∙ ap (λ t. shifted_right t k) (last_zero (value (xs ++ reverse (replicate k 0))))
    ∙ shifted_right-zeros k xs

flip-shifted_right : (v n : ℕ) → 0 < n → flip v n ≡ shifted_right (flip64 v) (8 - n)
unfolding flip
flip-shifted_right v n h = rw (not_zero n h) refl
  where
    not_zero : (n : ℕ) → 0 < n → (n == 0) ≡ false
    not_zero n h = ground arith

flip_none : (v : ℕ) → flip v 0 ≡ v
unfolding flip
flip_none v = refl

flip-reverse :
    (b : List ℕ) → All IsByte b → length b ≤ 8 → flip (value b) (length b) ≡ value (reverse b)
flip-reverse [] a h = flip_none 0
flip-reverse (c ∷ cs) a h =
    let b = c ∷ cs in
    let k = 8 - length b in
    flip-shifted_right (value b) (length b) (omega arith)
    ∙ ap (λ t. shifted_right t k)
        (flip64-reverse (value b)
          ∙ ap (λ t. value (reverse t)) (padded k b a (omega arith))
          ∙ ap value (reverse-append (replicate k 0) b))
    ∙ shifted_right-zeros k (reverse b)

-- `toUInt` of at most eight bytes, in a byte order that is neither `Host` nor `Undef`, is the number
-- whose base-256 digits the bytes are, the first or the last of them the highest.
pub to_uint-value :
    (system : Endian) (b : List ℕ) (order : ByteOrder)
    → All IsByte b
    → length b ≤ 8
    → order ≢ host
    → order ≢ undef
    → to_uint system b order ≡ ok (value (arranged order b))
unfolding to_uint to_uint_ordered
to_uint-value system b little a h n m =
    rw (le→ltb_false 8 (length b) h)
      (ap ok (ap (λ t. flip t (length b)) (shift_loop-value b a h) ∙ flip-reverse b a h))
to_uint-value system b big a h n m =
    rw (le→ltb_false 8 (length b) h) (ap ok (shift_loop-value b a h))
to_uint-value system b network a h n m =
    rw (le→ltb_false 8 (length b) h) (ap ok (shift_loop-value b a h))
to_uint-value system b host a h n m = absurd (n refl)
to_uint-value system b undef a h n m = absurd (m refl)

answers : Result ℕ → ℕ → Bool
answers (ok m) n = m == n
answers (err e) n = false

answers-eq : (r : Result ℕ) (n : ℕ) → answers r n ≡ true → r ≡ ok n
unfolding answers
answers-eq (ok m) n h = ap ok ((==_iff m n).0 h)
answers-eq (err e) n h = cc

-- A test that holds of all bytes.
checked : ℕ → (ℕ → Bool) → Bool
checked zero p = true
checked (suc n) p = p n && checked n p

checked_sound : (n : ℕ) (p : ℕ → Bool) (x : ℕ) → checked n p ≡ true → x < n → p x ≡ true
unfolding checked
checked_sound zero p x h k = absurd (omega arith)
checked_sound (suc n) p x h k = ground (arith, checked_sound n p x)

sign_extended : Endian → ℕ → Bool
unfolding to_uint answers flip64
sign_extended system c = ltb c 128 || answers (to_uint system (c ∷ []) host) (2 ^ 64 - 256 + c)

sign_extended_all : (system : Endian) → checked 256 (sign_extended system) ≡ true
unfolding checked sign_extended to_uint answers flip64 to_uint_ordered signed flip shift_loop
sign_extended_all little_endian = refl
sign_extended_all big_endian = refl

-- The unsigned number that `toUInt` gives for one byte from 128 on in the byte order `Host`, on any
-- machine, is the byte's sign extended to 64 bits, and not the byte as in the other orders.
pub to_uint_host_signed :
    (system : Endian) (c : ℕ)
    → 128 ≤ c
    → c < 256
    → (to_uint system (c ∷ []) host ≡ ok (2 ^ 64 - 256 + c))
      × (to_uint system (c ∷ []) (system_byte_order system) ≡ ok c)
unfolding sign_extended
to_uint_host_signed system c h k = (
  answers-eq (to_uint system (c ∷ []) host) (2 ^ 64 - 256 + c)
      (ground (arith, checked_sound 256 (sign_extended system) c (sign_extended_all system) k)),
  one_byte system c k,
)
  where
    only : (c : ℕ) → 0 + c ≡ c
    only c = omega arith

    one_byte :
        (system : Endian) (c : ℕ)
        → c < 256
        → to_uint system (c ∷ []) (system_byte_order system) ≡ ok c
    one_byte little_endian c k =
        to_uint-value little_endian (c ∷ []) little (k, tt) (omega arith) (λ e. cc) (λ e. cc)
        ∙ ap ok (only c)
    one_byte big_endian c k =
        to_uint-value big_endian (c ∷ []) big (k, tt) (omega arith) (λ e. cc) (λ e. cc)
        ∙ ap ok (only c)
