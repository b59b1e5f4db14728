-- ===== src/Integer/Digits.antt =====
-- Numbers as their base-256 digits, the first one first: what packing and unpacking amount to.
use Prim.Native.Nat.{bit_or}
use spicy.Base.{
  ℕ, zero, suc, ◌+◌, ◌*◌, ◌/◌, ◌%◌, ◌≤◌, ◌<◌, ◌≡◌, refl, sym, ap, ap₂, subst, ◌∙◌, List, [], ◌∷◌,
  ◌++◌, length, All, arith, length-append,
}
use spicy.Integer.{limit_of_bytes}
use spicy.Integer.Bits.{or_byte}
use mathlib.Core.List.{append_assoc, append-nil}
use native.Mathlib.Nat.{mod-eq_of_lt}

-- The lowest `n` digits of `v`, the highest of them first.
abbrev pub digits : ℕ → ℕ → List ℕ
digits zero v = []
digits (suc n) v = digits n (v / 256) ++ (v % 256 ∷ [])

abbrev pub reverse : List ℕ → List ℕ
reverse [] = []
reverse (x ∷ xs) = reverse xs ++ (x ∷ [])

-- The number that digits stand for, the first of them the highest.
abbrev pub value_from : ℕ → List ℕ → ℕ
value_from x [] = x
value_from x (d ∷ ds) = value_from (x * 256 + d) ds

abbrev pub value : List ℕ → ℕ
value ds = value_from 0 ds

abbrev pub IsByte : ℕ → Type 0
IsByte d = d < 256

-- One round of the unpacking loop for each digit.
abbrev pub shifted_in : ℕ → ℕ → List ℕ → ℕ
shifted_in limit x [] = x
shifted_in limit x (d ∷ ds) = shifted_in limit (bit_or (x * 256 % limit) d) ds

pub length-digits : (n v : ℕ) → length (digits n v) ≡ n
length-digits zero v = refl
length-digits (suc n) v =
    omega (arith, length-append (digits n (v / 256)) (v % 256 ∷ []), length-digits n (v / 256))

pub value_from-append :
    (x : ℕ) (ds es : List ℕ) → value_from x (ds ++ es) ≡ value_from (value_from x ds) es
value_from-append x [] es = refl
value_from-append x (d ∷ ds) es = value_from-append (x * 256 + d) ds es

div_limit : (v p : ℕ) → v < p * 256 → v / 256 < p
div_limit v p h = omega arith

-- The digits of a number stand for it.
pub value-digits : (n v : ℕ) → v < limit_of_bytes n → value (digits n v) ≡ v
value-digits zero v h = omega arith
value-digits (suc n) v h =
    value_from-append 0 (digits n (v / 256)) (v % 256 ∷ [])
    ∙ omega (arith, value-digits n (v / 256) (div_limit v (limit_of_bytes n) h))

abbrev count : ℕ → ℕ → ℕ
count zero n = n
count (suc l) n = count l (suc n)

count-eq : (l n : ℕ) → count l n ≡ l + n
count-eq zero n = omega arith
count-eq (suc l) n = omega (arith, count-eq l (suc n))

digit_of : (x d : ℕ) → d < 256 → (x * 256 + d) % 256 ≡ d
digit_of x d h = omega arith

rest_of : (x d : ℕ) → d < 256 → (x * 256 + d) / 256 ≡ x
rest_of x d h = omega arith

digits-value_from :
    (n x : ℕ) (ds : List ℕ)
    → All IsByte ds
    → digits (count (length ds) n) (value_from x ds) ≡ digits n x ++ ds
digits-value_from n x [] a = sym (append-nil (digits n x))
digits-value_from n x (d ∷ ds) (h, a) =
    digits-value_from (suc n) (x * 256 + d) ds a
    ∙ ap₂ (λ v e. (digits n v ++ (e ∷ [])) ++ ds) (rest_of x d h) (digit_of x d h)
    ∙ append_assoc (digits n x) (d ∷ []) ds

-- The digits of the number that bytes stand for are those bytes.
pub digits-value : (n : ℕ) (ds : List ℕ) → All IsByte ds → length ds ≡ n → digits n (value ds) ≡ ds
digits-value n ds a e =
    ap (λ k. digits k (value ds)) (sym e ∙ (omega arith) ∙ sym (count-eq (length ds) 0))
    ∙ digits-value_from 0 0 ds a

value_from-lt :
    (k x : ℕ) (ds : List ℕ)
    → All IsByte ds
    → x < limit_of_bytes k
    → value_from x ds < limit_of_bytes (count (length ds) k)
value_from-lt k x [] a h = h
value_from-lt k x (d ∷ ds) (b, a) h = value_from-lt (suc k) (x * 256 + d) ds a (omega arith)

-- Bytes stand for a number below the limit of as many bytes.
pub value-lt : (n : ℕ) (ds : List ℕ) → All IsByte ds → length ds ≡ n → value ds < limit_of_bytes n
value-lt n ds a e =
    subst (λ k. value ds < limit_of_bytes k) (count-eq (length ds) 0 ∙ (omega arith) ∙ e)
      (value_from-lt 0 0 ds a (omega arith))

limit_grows : (k m : ℕ) → k ≤ m → limit_of_bytes k ≤ limit_of_bytes m
limit_grows zero zero h = omega arith
limit_grows zero (suc m) h = omega (arith, limit_grows zero m (omega arith))
limit_grows (suc k) zero h = absurd (omega arith)
limit_grows (suc k) (suc m) h = omega (arith, limit_grows k m (omega arith))

keeps : (x limit : ℕ) → x * 256 < limit → x * 256 % limit ≡ x * 256
keeps x limit h = mod-eq_of_lt h

-- While the value fits into the type, the loop's shifts and ors lose nothing.
pub shifted_in-value :
    (k m x : ℕ) (ds : List ℕ)
    → All IsByte ds
    → x < limit_of_bytes k
    → k + length ds ≤ m
    → shifted_in (limit_of_bytes m) x ds ≡ value_from x ds
shifted_in-value k m x [] a h l = refl
shifted_in-value k m x (d ∷ ds) (b, a) h l =
    ap (λ t. shifted_in (limit_of_bytes m) t ds)
      (ap (λ t. bit_or t d)
          (keeps x (limit_of_bytes m) (omega (arith, limit_grows (suc k) m (omega arith))))
        ∙ or_byte x d b)
    ∙ shifted_in-value (suc k) m (x * 256 + d) ds a (omega arith) (omega arith)
