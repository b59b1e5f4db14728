-- ===== src/Preprocessor/Conditions.antt =====
-- What `_parseIf` of hilti/toolchain/src/base/preprocessor.cc makes of a condition.
use spicy.Base.{
  Result, ℕ, ◌≤◌, ◌<◌, ◌^◌, ◌≡◌, refl, ap, ◌∙◌, Bool, true, false, not, ◌||◌, List, [], ◌∷◌, map,
  Option, none, some, ok, ◌>>=◌, All, arith, ℤ, pos, negsuc, less, same, of_sign,
}
use spicy.Text.{int32, atoi_n, Stored, scan}
use spicy.Text.Words.{same_text, is_space}
use spicy.Text.Splitting.{IsWord, join_words, split-join_words}
use spicy.Text.Numbers.{
  digit_char, value_behind, scan-value_behind, store-int32, scan_first, sign_of-digit_char,
  atoi_n-scan,
}
use spicy.Preprocessor.{
  Constants, constant_or_zero, not_text, equal_text, unequal_text, less_text, at_most_text,
  greater_text, at_least_text, compare_by, wanted, shifted, negate_if, test_words, test_shifted,
  parse_if,
}

pub data Comparison : Type 0 where
  equal unequal below at_most above at_least : Comparison

abbrev pub operator_text : Comparison → List ℕ
operator_text equal = equal_text
operator_text unequal = unequal_text
operator_text below = less_text
operator_text at_most = at_most_text
operator_text above = greater_text
operator_text at_least = at_least_text

abbrev pub compared : Comparison → ℤ → ℤ → Bool
compared equal m n = same m n
compared unequal m n = not (same m n)
compared below m n = less m n
compared at_most m n = less m n || same m n
compared above m n = less n m
compared at_least m n = less n m || same m n

-- A number as it is written: whether a minus stands first, and the digits.
pub record Numeral : Type 0 where
  pub minus : Bool
  pub first : ℕ
  pub further : List ℕ

abbrev pub sign_text : Bool → List ℕ → List ℕ
sign_text true s = 45 ∷ s
sign_text false s = s

abbrev pub numeral_text : Numeral → List ℕ
numeral_text n = sign_text n.minus (map digit_char (n.first ∷ n.further))

abbrev pub numeral_value : Numeral → ℤ
numeral_value n = of_sign (n.minus, value_behind 10 0 (n.first ∷ n.further))

abbrev pub IsNumeral : Numeral → Type 0
IsNumeral n =
    All (λ d. d < 10) (n.first ∷ n.further) × (value_behind 10 0 (n.first ∷ n.further) < 2 ^ 31)

pub record Condition : Type 0 where
  pub negated : Bool
  pub name : List ℕ
  pub test : Option (Comparison × Numeral)

abbrev pub IsTest : Option (Comparison × Numeral) → Type 0
IsTest none = Unit {0}
IsTest (some (op, n)) = IsNumeral n

abbrev pub IsCondition : Condition → Type 0
IsCondition c = IsWord c.name × (same_text c.name not_text ≡ false) × IsTest c.test

abbrev pub test_texts : Option (Comparison × Numeral) → List (List ℕ)
test_texts none = []
test_texts (some (op, n)) = operator_text op ∷ numeral_text n ∷ []

abbrev pub negated_words : Bool → List ℕ → List (List ℕ) → List ℕ × List (List ℕ)
negated_words true w ws = (not_text, w ∷ ws)
negated_words false w ws = (w, ws)

abbrev pub condition_words : Condition → List ℕ × List (List ℕ)
condition_words c = negated_words c.negated c.name (test_texts c.test)

abbrev pub written : Condition → List ℕ
written c = join_words ((condition_words c).0 ∷ (condition_words c).1)

abbrev pub test_holds : Option (Comparison × Numeral) → ℤ → Bool
test_holds none have = not (same have (pos 0))
test_holds (some (op, n)) have = compared op have (numeral_value n)

abbrev pub holds : Constants → Condition → Bool
holds constants c = negate_if c.negated (test_holds c.test (constant_or_zero constants c.name))

not-less : (m n : ℤ) → not (less n m) ≡ (less m n || same m n)
not-less (pos m) (pos n) = ground arith
not-less (pos m) (negsuc n) = refl
not-less (negsuc m) (pos n) = refl
not-less (negsuc m) (negsuc n) = ground arith

same_sym : (m n : ℤ) → same m n ≡ same n m
same_sym (pos m) (pos n) = ground arith
same_sym (pos m) (negsuc n) = refl
same_sym (negsuc m) (pos n) = refl
same_sym (negsuc m) (negsuc n) = ground arith

compare_by-operator_text :
    (op : Comparison) (m n : ℤ) → compare_by (operator_text op) m n ≡ ok (compared op m n)
unfolding compare_by
compare_by-operator_text equal m n = refl
compare_by-operator_text unequal m n = refl
compare_by-operator_text below m n = refl
compare_by-operator_text at_most m n = ap ok (not-less m n)
compare_by-operator_text above m n = refl
compare_by-operator_text at_least m n =
    ap ok (not-less n m ∙ ap (λ b. less n m || b) (same_sym n m))

-- The digits of a number that fits are read whole, with their sign.
atoi_n-digits :
    (minus : Bool) (d : ℕ) (ds : List ℕ)
    → All (λ d. d < 10) (d ∷ ds)
    → value_behind 10 0 (d ∷ ds) < 2 ^ 31
    → atoi_n int32 10 (sign_text minus (map digit_char (d ∷ ds)))
      ≡ ok (some (minus, value_behind 10 0 (d ∷ ds)), [])
atoi_n-digits minus d ds a h =
    let low : 2 ≤ 10 = omega arith in
    let high : 10 ≤ 36 = omega arith in
    let cs = map digit_char ds in
    let plain = sign_of-digit_char 10 low high d cs in
    let result : Bool × List ℕ → Result Stored =
      λ p. ok (some (p.0, value_behind 10 0 (d ∷ ds)), []) in
    let read =
      scan_first 10 low high int32 d cs a.0
      ∙ scan-value_behind 10 low high int32 (2 ^ 31) store-int32 0 (d ∷ ds) a h in
    elim minus
      as (λ b.
        atoi_n int32 10 (sign_text b (map digit_char (d ∷ ds)))
        ≡ ok (some (b, value_behind 10 0 (d ∷ ds)), [])) [
          | true ↦ atoi_n-scan int32 10 45 (digit_char d ∷ cs) low high read
          | false ↦
              atoi_n-scan int32 10 (digit_char d) cs low high
                (ap (λ p. scan int32 10 p.1 none) plain ∙ read)
              ∙ ap result plain
        ]

digit-no_space : (d : ℕ) → d < 10 → is_space (digit_char d) ≡ false
digit-no_space d h = ground arith

digits-no_space :
    (ds : List ℕ) → All (λ d. d < 10) ds → All (λ c. is_space c ≡ false) (map digit_char ds)
digits-no_space [] h = tt
digits-no_space (d ∷ ds) h = (digit-no_space d h.0, digits-no_space ds h.1)

numeral_text-IsWord :
    (minus : Bool) (d : ℕ) (ds : List ℕ)
    → All (λ d. d < 10) (d ∷ ds)
    → IsWord (sign_text minus (map digit_char (d ∷ ds)))
numeral_text-IsWord true d ds h = (omega arith, (refl, digits-no_space (d ∷ ds) h))
numeral_text-IsWord false d ds h = (omega arith, digits-no_space (d ∷ ds) h)

operator_text-IsWord : (op : Comparison) → IsWord (operator_text op)
operator_text-IsWord equal = (omega arith, (refl, (refl, tt)))
operator_text-IsWord unequal = (omega arith, (refl, (refl, tt)))
operator_text-IsWord below = (omega arith, (refl, tt))
operator_text-IsWord at_most = (omega arith, (refl, (refl, tt)))
operator_text-IsWord above = (omega arith, (refl, tt))
operator_text-IsWord at_least = (omega arith, (refl, (refl, tt)))

test_texts-IsWord : (t : Option (Comparison × Numeral)) → IsTest t → All IsWord (test_texts t)
test_texts-IsWord none h = tt
test_texts-IsWord (some (op, n)) h =
    (operator_text-IsWord op, (numeral_text-IsWord n.minus n.first n.further h.0, tt))

negated_words-IsWord :
    (b : Bool) (w : List ℕ) (ws : List (List ℕ))
    → All IsWord (w ∷ ws)
    → All IsWord ((negated_words b w ws).0 ∷ (negated_words b w ws).1)
negated_words-IsWord true w ws h = ((omega arith, (refl, tt)), h)
negated_words-IsWord false w ws h = h

pub condition_words-IsWord :
    (c : Condition) → IsCondition c → All IsWord ((condition_words c).0 ∷ (condition_words c).1)
condition_words-IsWord c h =
    negated_words-IsWord c.negated c.name (test_texts c.test) (h.0, test_texts-IsWord c.test h.2)

test_words-test_holds :
    (constants : Constants) (id : List ℕ) (t : Option (Comparison × Numeral))
    → IsTest t
    → test_words constants (id ∷ test_texts t) ≡ ok (test_holds t (constant_or_zero constants id))
unfolding test_words
test_words-test_holds constants id none h =
    compare_by-operator_text unequal (constant_or_zero constants id) (pos 0)
test_words-test_holds constants id (some (op, n)) h =
    ap
      (λ r.
        r
        >>= wanted
        >>= (λ want. compare_by (operator_text op) (constant_or_zero constants id) want))
      (atoi_n-digits n.minus n.first n.further h.0 h.1)
    ∙ compare_by-operator_text op (constant_or_zero constants id) (numeral_value n)

shifted-negated_words :
    (b : Bool) (w : List ℕ) (ws : List (List ℕ))
    → same_text w not_text ≡ false
    → shifted ((negated_words b w ws).0 ∷ (negated_words b w ws).1) ≡ (b, w ∷ ws)
shifted-negated_words true w ws h = refl
shifted-negated_words false w ws h = rw h refl

-- A condition with a name that is a word other than an exclamation mark, alone or compared with a
-- number below 2 ^ 31, is read as what it says: the constant, zero where there is none of the name,
-- compared with the number, or with zero; an exclamation mark in front negates it.
pub parse_if-written :
    (constants : Constants) (c : Condition)
    → IsCondition c
    → parse_if constants (written c) ≡ ok (holds constants c)
unfolding parse_if
parse_if-written constants c h =
    let (w, ws) = condition_words c in
    ap (λ r. r >>= (λ m. test_shifted constants (shifted m)))
      (split-join_words w ws (condition_words-IsWord c h))
    ∙ ap (test_shifted constants) (shifted-negated_words c.negated c.name (test_texts c.test) h.1)
    ∙ ap (λ r. r >>= (λ b. ok (negate_if c.negated b)))
        (test_words-test_holds constants c.name c.test h.2)
