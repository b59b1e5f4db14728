-- ===== src/Text/Expansion.antt =====
-- How much the in-place loop of `expandEscapes` (hilti/runtime/src/util.cc) reads and writes.
use spicy.Base.{
  ℕ, zero, suc, ◌+◌, ◌*◌, ◌≤◌, ◌<◌, ◌≡◌, refl, Bool, false, List, [], ◌∷◌, ◌++◌, Option, none, some,
  ◌==◌, ltb, Result, ok, err, Error, ◌>>=◌, arith, length, take, drop, Bool-cases, length-append,
  length-drop, inl, inr, ◌⊎◌, formatting_error, unicode_error, runtime_error, undefined,
}
use spicy.Text.{
  Number, char, int32, int64, below, store, digit_of, Scan, scan_digit, scan, sign_of, atoi_n,
  atoi_from, value_or_zero, Stored, stored, as_char, hex_escape, unicode_escape, encoded, all_read,
  Written, escape, other_escape, one_escape, simple_escape, piece, expand_loop, expand_escapes,
}

-- The exceptions of an escape sequence, and what is undefined: a code that does not fit an int.
abbrev pub IsThrown : Error → Type 0
IsThrown e = (e ≡ formatting_error) ⊎ (e ≡ unicode_error) ⊎ (e ≡ runtime_error) ⊎ (e ≡ undefined)

abbrev pub Ends {ℓ} : {A : Type ℓ} → Result A → Type 0
Ends (ok a) = Unit
Ends (err e) = IsThrown e

Ends-bind {ℓ κ} :
    {A : Type ℓ} {B : Type κ} (x : Result A) (k : A → Result B)
    → Ends x
    → ((a : A) → Ends (k a))
    → Ends (x >>= k)
Ends-bind (ok a) k h f = f a
Ends-bind (err e) k h f = h

not_lt : (n k : ℕ) → ltb k n ≡ false → n ≤ k
not_lt n k h = ground arith

below-Ends : (limit v : ℕ) → Ends (below limit v)
below-Ends limit v = elim (Bool-cases (ltb v limit)) [
  | inl k ↦ rw k tt
  | inr k ↦ rw k (inr (inr (inr refl)))
]

store-Ends : (w : Number) (v : ℕ) → Ends (store w v)
store-Ends char v = tt
store-Ends int32 v = below-Ends 2147483648 v
store-Ends int64 v = below-Ends 9223372036854775808 v

scan_digit-Ends :
    (w : Number) (base : ℕ) (n : Option ℕ) (c : ℕ) (cs : List ℕ) (next : Option ℕ → Result Scan)
    (d : Option ℕ)
    → ((v : Option ℕ) → Ends (next v))
    → Ends (scan_digit w base n c cs next d)
scan_digit-Ends w base n c cs next none h = tt
scan_digit-Ends w base n c cs next (some d) h =
    Ends-bind (store w (value_or_zero n * base + d)) (λ v. next (some v))
      (store-Ends w (value_or_zero n * base + d)) (λ v. h (some v))

scan-Ends : (w : Number) (base : ℕ) (s : List ℕ) (n : Option ℕ) → Ends (scan w base s n)
unfolding scan
scan-Ends w base [] n = tt
scan-Ends w base (c ∷ cs) n =
    scan_digit-Ends w base n c cs (λ v. scan w base cs v) (digit_of base c)
      (λ v. scan-Ends w base cs v)

atoi_from-Ends : (w : Number) (base c : ℕ) (cs : List ℕ) → Ends (atoi_from w base (c ∷ cs))
atoi_from-Ends w base c cs =
    Ends-bind (scan w base (sign_of (c ∷ cs)).1 none)
      (λ r. ok (stored (c ∷ cs) (sign_of (c ∷ cs)).0 r))
      (scan-Ends w base (sign_of (c ∷ cs)).1 none) (λ r. tt)

atoi_n-Ends : (w : Number) (c : ℕ) (cs : List ℕ) → Ends (atoi_n w 16 (c ∷ cs))
unfolding atoi_n
atoi_n-Ends w c cs = atoi_from-Ends w 16 c cs

take-Ends :
    (w : Number) (n : ℕ) (cs : List ℕ) → 1 ≤ n → n ≤ length cs → Ends (atoi_n w 16 (take n cs))
take-Ends w zero cs h k = absurd (omega arith)
take-Ends w (suc n) [] h k = absurd (omega arith)
take-Ends w (suc n) (c ∷ cs) h k = atoi_n-Ends w c (take n cs)

all_read-Ends : (exception : Error) (v : Stored) → IsThrown exception → Ends (all_read exception v)
all_read-Ends exception (some v, []) h = tt
all_read-Ends exception (some v, c ∷ cs) h = h
all_read-Ends exception (none, cs) h = h

-- An escape sequence with the text behind it has been `m` characters, and writes no more than the
-- sequence was long.
abbrev Fits : ℕ → Result Written → Type 0
Fits m (ok w) = (length w.0 + length w.1 ≤ m) × (length w.1 < m)
Fits m (err e) = IsThrown e

Fits-bind {ℓ} :
    {A : Type ℓ} (m : ℕ) (x : Result A) (k : A → Result Written)
    → Ends x
    → ((a : A) → Fits m (k a))
    → Fits m (x >>= k)
Fits-bind m (ok a) k h f = f a
Fits-bind m (err e) k h f = h

hex_escape-Fits : (cs : List ℕ) → Fits (suc (suc (length cs))) (hex_escape cs)
hex_escape-Fits [] = inl refl
hex_escape-Fits (c ∷ cs) =
    Fits-bind (suc (suc (suc (length cs))))
      (atoi_n char 16 (take 2 (c ∷ cs)) >>= all_read formatting_error)
      (λ v. ok (as_char v ∷ [], drop 2 (c ∷ cs)))
      (Ends-bind (atoi_n char 16 (take 2 (c ∷ cs))) (all_read formatting_error)
        (atoi_n-Ends char c (take 1 cs)) (λ v. all_read-Ends formatting_error v (inl refl)))
      (λ v. let l = length-drop 1 cs in (omega arith, omega arith))

-- The text that is written is not longer than `m`.
abbrev IsShort : ℕ → Result (List ℕ) → Type 0
IsShort m (ok s) = length s ≤ m
IsShort m (err e) = IsThrown e

module _ (encode : Bool × ℕ → List ℕ) (four : (v : Bool × ℕ) → length (encode v) ≤ 4) where
  encoded-Fits :
      (n : ℕ) (rest bs : List ℕ)
      → length bs ≤ 4
      → length rest + 4 ≤ n
      → Fits (suc (suc n)) (encoded rest bs)
  encoded-Fits n rest [] h k = inr (inl refl)
  encoded-Fits n rest (b ∷ bs) h k = (omega arith, omega arith)

  unicode_escape-Fits :
      (n : ℕ) (cs : List ℕ) → 4 ≤ n → Fits (suc (suc (length cs))) (unicode_escape encode n cs)
  unicode_escape-Fits n cs h = elim (Bool-cases (ltb (length cs) n)) [
    | inl k ↦ rw k (inr (inl refl))
    | inr k ↦
        let l = length-drop n cs in
        let enough : n ≤ length cs = not_lt n (length cs) k in
        rw k (
          Fits-bind (suc (suc (length cs))) (atoi_n int32 16 (take n cs) >>= all_read unicode_error)
            (λ v. encoded (drop n cs) (encode v))
            (Ends-bind (atoi_n int32 16 (take n cs)) (all_read unicode_error)
              (take-Ends int32 n cs (omega arith) enough)
              (λ v. all_read-Ends unicode_error v (inr (inl refl))))
            (λ v. encoded-Fits (length cs) (drop n cs) (encode v) (four v) (omega arith)))
  ]

  other_escape-Fits :
      (c : ℕ) (cs : List ℕ) → Fits (suc (suc (length cs))) (other_escape encode c cs)
  other_escape-Fits c cs = elim (Bool-cases (c == 117)) [
    | inl k ↦ rw k (unicode_escape-Fits 4 cs (omega arith))
    | inr k ↦ elim (Bool-cases (c == 85)) [
      | inl q ↦ rw (k, q) (unicode_escape-Fits 8 cs (omega arith))
      | inr q ↦ elim (Bool-cases (c == 120)) [
        | inl p ↦ rw (k, q, p) (hex_escape-Fits cs)
        | inr p ↦ rw (k, q, p) (inl refl)
      ]
    ]
  ]

  one_escape-Fits :
      (c : ℕ) (cs : List ℕ) (b : Option ℕ) → Fits (suc (suc (length cs))) (one_escape encode c cs b)
  one_escape-Fits c cs (some b) = (omega arith, omega arith)
  one_escape-Fits c cs none = other_escape-Fits c cs

  escape-Fits : (cs : List ℕ) → Fits (suc (length cs)) (escape encode cs)
  escape-Fits [] = inr (inr (inl refl))
  escape-Fits (c ∷ cs) = one_escape-Fits c cs (simple_escape c)

  piece-Fits : (c : ℕ) (cs : List ℕ) → Fits (suc (length cs)) (piece encode c cs)
  piece-Fits c cs = elim (Bool-cases (c == 92)) [
    | inl k ↦ rw k (escape-Fits cs)
    | inr k ↦ rw k (omega arith, omega arith)
  ]

  IsShort-bind :
      (m n : ℕ) (s : List ℕ) (x : Result (List ℕ))
      → length s + n ≤ m
      → IsShort n x
      → IsShort m (x >>= (λ r. ok (s ++ r)))
  IsShort-bind m n s (ok r) h k = let l = length-append s r in omega arith
  IsShort-bind m n s (err e) h k = k

  IsShort-continued :
      (m : ℕ) (x : Result Written) (k : List ℕ → Result (List ℕ))
      → Fits m x
      → ((s : List ℕ) → length s < m → IsShort (length s) (k s))
      → IsShort m (x >>= (λ w. k w.1 >>= (λ s. ok (w.0 ++ s))))
  IsShort-continued m (ok w) k h f = IsShort-bind m (length w.1) w.0 (k w.1) h.0 (f w.1 h.1)
  IsShort-continued m (err e) k h f = h

  expand_loop-IsShort :
      (fuel : ℕ) (s : List ℕ) → length s ≤ fuel → IsShort (length s) (expand_loop encode fuel s)
  unfolding expand_loop
  expand_loop-IsShort zero [] h = omega arith
  expand_loop-IsShort (suc fuel) [] h = omega arith
  expand_loop-IsShort zero (c ∷ cs) h = absurd (omega arith)
  expand_loop-IsShort (suc fuel) (c ∷ cs) h =
      IsShort-continued (suc (length cs)) (piece encode c cs) (λ s. expand_loop encode fuel s)
        (piece-Fits c cs) (λ s k. expand_loop-IsShort fuel s (omega arith))

short_or_error :
    (m : ℕ) (x : Result (List ℕ))
    → IsShort m x
    → ((r : List ℕ) × (x ≡ ok r) × (length r ≤ m)) ⊎ ((e : Error) × (x ≡ err e) × IsThrown e)
short_or_error m (ok r) h = inl (r, refl, h)
short_or_error m (err e) h = inr (e, refl, h)

-- If a code point is encoded in at most four bytes, the loop that writes over the text that it reads
-- ends on every text and does not overtake itself: the outcome is a text that is not longer, or a
-- FormattingError, UnicodeError or RuntimeError, or it is undefined, as where the code behind a
-- `\U` overflows an int.
pub expand_escapes-length :
    (encode : Bool × ℕ → List ℕ) (s : List ℕ)
    → ((v : Bool × ℕ) → length (encode v) ≤ 4)
    → ((r : List ℕ) × (expand_escapes encode s ≡ ok r) × (length r ≤ length s))
      ⊎ ((e : Error) × (expand_escapes encode s ≡ err e) × IsThrown e)
unfolding expand_escapes
expand_escapes-length encode s four =
    short_or_error (length s) (expand_loop encode (length s) s)
      (expand_loop-IsShort encode four (length s) s (omega arith))
