-- ===== src/Text/Numbers.antt =====
-- Reading a number in a base (`atoi_n` of hilti/runtime/include/util.h).
use spicy.Base.{
  ℕ, ◌+◌, ◌*◌, ◌%◌, ◌^◌, ◌≤◌, ◌<◌, ◌≡◌, refl, ap, ◌∙◌, true, false, List, [], ◌∷◌, map, none, some,
  ltb, if◌then◌else◌, ok, ◌>>=◌, All, arith, lt→ltb, ◌||◌, le→ltb_false,
}
use spicy.Text.{
  Number, int32, int64, store, scan_digit, digit_of, scan, sign_of, atoi_n, to_int_in_base,
  to_uint_in_base, Scan, Stored, stored, whole, unsigned,
}

-- The character of a digit, with small letters from ten on.
abbrev pub digit_char : ℕ → ℕ
digit_char d = if ltb d 10 then 48 + d else 87 + d

-- The number that digits have behind the number `n`.
abbrev pub value_behind : ℕ → ℕ → List ℕ → ℕ
value_behind base n [] = n
value_behind base n (d ∷ ds) = value_behind base (n * base + d) ds

pub digit_of-digit_char :
    (base d : ℕ) → base ≤ 36 → d < base → digit_of base (digit_char d) ≡ some d
unfolding digit_of
digit_of-digit_char base d h k = ground arith

digit_of_colon : (base : ℕ) → 10 < base → digit_of base 58 ≡ some 10
unfolding digit_of
digit_of_colon base h = ground arith

digit_of_a : (base : ℕ) → 17 < base → digit_of base 65 ≡ some 17
unfolding digit_of
digit_of_a base h = ground arith

grows : (base n d : ℕ) → 1 ≤ base → n ≤ n * base + d
grows base n d h = grind arith

value_behind_le : (base n : ℕ) (ds : List ℕ) → 1 ≤ base → n ≤ value_behind base n ds
value_behind_le base n [] h = omega arith
value_behind_le base n (d ∷ ds) h =
    omega (arith, value_behind_le base (n * base + d) ds h, grows base n d h)

-- A type of the result in which the numbers below a bound fit.
module _ (base : ℕ) (low : 2 ≤ base) (high : base ≤ 36) (w : Number) (bound : ℕ)
    (fits : (v : ℕ) → v < bound → store w v ≡ ok v) where
  pub scan-value_behind :
      (n : ℕ) (ds : List ℕ)
      → All (λ d. d < base) ds
      → value_behind base n ds < bound
      → scan w base (map digit_char ds) (some n) ≡ ok (some (value_behind base n ds), [])
  unfolding scan
  scan-value_behind n [] a h = refl
  scan-value_behind n (d ∷ ds) a h =
      let small : n * base + d < bound =
        omega (arith, value_behind_le base (n * base + d) ds (omega arith)) in
      ap
        (scan_digit w base (some n) (digit_char d) (map digit_char ds)
          (λ v. scan w base (map digit_char ds) v))
        (digit_of-digit_char base d high a.0)
      ∙ ap (λ x. x >>= (λ v. scan w base (map digit_char ds) (some v))) (fits (n * base + d) small)
      ∙ scan-value_behind (n * base + d) ds a.1 h

pub store-int64 : (v : ℕ) → v < 2 ^ 63 → store int64 v ≡ ok v
store-int64 v h = rw (lt→ltb v 9223372036854775808 (omega arith)) refl

pub store-int32 : (v : ℕ) → v < 2 ^ 31 → store int32 v ≡ ok v
store-int32 v h = rw (lt→ltb v 2147483648 (omega arith)) refl

module _ (base : ℕ) (low : 2 ≤ base) (high : base ≤ 36) where
  pub scan_first :
      (w : Number) (d : ℕ) (cs : List ℕ)
      → d < base
      → scan w base (digit_char d ∷ cs) none ≡ scan w base (digit_char d ∷ cs) (some 0)
  unfolding scan
  scan_first w d cs h = rw (digit_of-digit_char base d high h) refl

  in_range : (ltb base 2 || ltb 36 base) ≡ false
  in_range = rw (le→ltb_false base 2 low, le→ltb_false 36 base high) refl

  pub sign_of-digit_char :
      (d : ℕ) (cs : List ℕ) → sign_of (digit_char d ∷ cs) ≡ (false, digit_char d ∷ cs)
  sign_of-digit_char d cs = ground arith

pub atoi_n-scan :
    (w : Number) (base c : ℕ) (cs : List ℕ) {r : Scan}
    → 2 ≤ base
    → base ≤ 36
    → scan w base (sign_of (c ∷ cs)).1 none ≡ ok r
    → atoi_n w base (c ∷ cs) ≡ ok (stored (c ∷ cs) (sign_of (c ∷ cs)).0 r)
unfolding atoi_n
atoi_n-scan w base c cs low high e = rw (in_range base low high, e) refl

to_int_in_base-atoi_n :
    (base : ℕ) (s : List ℕ) {r : Stored}
    → base ≤ 36
    → atoi_n int64 base s ≡ ok r
    → to_int_in_base s base ≡ whole r
unfolding to_int_in_base
to_int_in_base-atoi_n base s h e =
    let same : base % 256 ≡ base = omega arith in
    ap (λ b. atoi_n int64 b s >>= whole) same ∙ ap (λ x. x >>= whole) e

scan_one :
    (base c d : ℕ)
    → d < 36
    → digit_of base c ≡ some d
    → scan int64 base (c ∷ []) none ≡ ok (some d, [])
unfolding scan
scan_one base c d h e =
    let same : 0 * base + d ≡ d = omega arith in
    rw (e, same, lt→ltb d 9223372036854775808 (omega arith)) refl

one_digit :
    (base c d : ℕ)
    → 2 ≤ base
    → base ≤ 36
    → d < 36
    → sign_of (c ∷ []) ≡ (false, c ∷ [])
    → digit_of base c ≡ some d
    → to_uint_in_base (c ∷ []) base ≡ ok d
unfolding to_uint_in_base
one_digit base c d low high small plain e =
    let read =
      atoi_n-scan int64 base c [] low high
        (ap (λ p. scan int64 base p.1 none) plain ∙ scan_one base c d small e) in
    ap (λ x. x >>= unsigned) (to_int_in_base-atoi_n base (c ∷ []) high read)
    ∙ ap (λ p. whole (stored (c ∷ []) p.0 (some d, [])) >>= unsigned) plain

-- In a base from 2 to 36, the digits of a number below 2 ^ 63, with small letters from ten on, are
-- read as this number, and as its negation where a minus stands before them.
pub to_int_in_base-value :
    (base d : ℕ) (ds : List ℕ)
    → 2 ≤ base
    → base ≤ 36
    → All (λ d. d < base) (d ∷ ds)
    → value_behind base 0 (d ∷ ds) < 2 ^ 63
    → (to_int_in_base (map digit_char (d ∷ ds)) base ≡ ok (false, value_behind base 0 (d ∷ ds)))
      × (to_int_in_base (45 ∷ map digit_char (d ∷ ds)) base
          ≡ ok (true, value_behind base 0 (d ∷ ds)))
to_int_in_base-value base d ds low high a h =
    let cs = map digit_char ds in
    let c = digit_char d in
    let read =
      scan_first base low high int64 d cs a.0
      ∙ scan-value_behind base low high int64 (2 ^ 63) store-int64 0 (d ∷ ds) a h in
    let plain = sign_of-digit_char base low high d cs in
    let positive : atoi_n int64 base (c ∷ cs)
        ≡ ok (stored (c ∷ cs) false (some (value_behind base 0 (d ∷ ds)), [])) =
      atoi_n-scan int64 base c cs low high (ap (λ p. scan int64 base p.1 none) plain ∙ read)
      ∙ ap (λ p. ok (stored (c ∷ cs) p.0 (some (value_behind base 0 (d ∷ ds)), []))) plain in
    (
      to_int_in_base-atoi_n base (c ∷ cs) high positive,
      to_int_in_base-atoi_n base (45 ∷ c ∷ cs) high
          (atoi_n-scan int64 base 45 (c ∷ cs) low high read),
    )

-- In a base above ten a colon is read as the digit ten, and in a base above seventeen the capital A
-- as the digit seventeen.
pub to_uint_in_base_misreads :
    (base : ℕ)
    → 10 < base
    → base ≤ 36
    → (to_uint_in_base (58 ∷ []) base ≡ ok 10)
      × (17 < base → to_uint_in_base (65 ∷ []) base ≡ ok 17)
to_uint_in_base_misreads base low high = (
  one_digit base 58 10 (omega arith) high (omega arith) refl (digit_of_colon base low),
  λ k. one_digit base 65 17 (omega arith) high (omega arith) refl (digit_of_a base k),
)
