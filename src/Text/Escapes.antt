-- ===== src/Text/Escapes.antt =====
-- Escape sequences (`escapeBytes` and `expandEscapes` of hilti/runtime/src/util.cc).
use spicy.Base.{
  ℕ, zero, suc, ◌+◌, ◌*◌, ◌/◌, ◌%◌, ◌≤◌, ◌<◌, ◌≡◌, refl, sym, ap, subst, ◌∙◌, Bool, false, List, [],
  ◌∷◌, ◌++◌, none, some, ◌==◌, Result, ok, ◌>>=◌, All, arith, ◌&&◌, length, Bool-cases, and_true,
  ==_iff, length-append, inl, inr, ◌⊎◌, formatting_error,
}
use spicy.Text.{
  char, scan, sign_of, stored, as_char, hex_escape, all_read, Written, piece, expand_loop,
  expand_escapes, Formats, escape_byte, escape_bytes,
}
use spicy.Text.Numbers.{digit_char, digit_of-digit_char, atoi_n-scan}

-- The documented meaning of the format `%02x`, for a byte.
abbrev pub PrintsHex : (ℕ → List ℕ) → Type 0
PrintsHex hex = (c : ℕ) → c < 256 → hex c ≡ digit_char (c / 16) ∷ digit_char (c % 16) ∷ []

joined : (c : ℕ) → c < 256 → ((0 * 16 + c / 16) % 256 * 16 + c % 16) % 256 ≡ c
joined c h = omega arith

scan_hex :
    (c : ℕ)
    → c < 256
    → scan char 16 (digit_char (c / 16) ∷ digit_char (c % 16) ∷ []) none ≡ ok (some c, [])
unfolding scan
scan_hex c h =
    rw
      (
        digit_of-digit_char 16 (c / 16) (omega arith) (omega arith),
        digit_of-digit_char 16 (c % 16) (omega arith) (omega arith),
        joined c h,
      )
      refl

plain : (d : ℕ) (cs : List ℕ) → sign_of (digit_char d ∷ cs) ≡ (false, digit_char d ∷ cs)
plain d cs = ground arith

hex_escape-digits :
    (c : ℕ) (rest : List ℕ)
    → c < 256
    → hex_escape (digit_char (c / 16) ∷ digit_char (c % 16) ∷ rest) ≡ ok (c ∷ [], rest)
hex_escape-digits c rest h =
    let high = digit_char (c / 16) in
    let low = digit_char (c % 16) in
    let e =
      atoi_n-scan char 16 high (low ∷ []) (omega arith) (omega arith)
        (ap (λ p. scan char 16 p.1 none) (plain (c / 16) (low ∷ [])) ∙ scan_hex c h) in
    ap (λ x. x >>= all_read formatting_error >>= (λ v. ok (as_char v ∷ [], rest)))
      (e ∙ ap (λ p. ok (stored (high ∷ low ∷ []) p.0 (some c, []))) (plain (c / 16) (low ∷ [])))

-- What a byte is written as.
abbrev Shapes : Formats → List ℕ → ℕ → Type 0
Shapes f s c =
    ((s ≡ 92 ∷ 92 ∷ []) × (c ≡ 92))
    ⊎ ((s ≡ 92 ∷ 34 ∷ []) × (c ≡ 34))
    ⊎ ((s ≡ c ∷ []) × ((c == 92) ≡ false))
    ⊎ (s ≡ 92 ∷ 120 ∷ f.hex c)

escape_byte-Shapes :
    (f : Formats) (quotes : Bool) (c : ℕ) → Shapes f (escape_byte f quotes false c) c
escape_byte-Shapes f quotes c = elim (Bool-cases (c == 92)) [
  | inl k ↦ inl (rw k refl, (==_iff c 92).0 k)
  | inr k ↦ elim (Bool-cases (c == 34 && quotes)) [
    | inl q ↦ inr (inl (rw (k, q) refl, (==_iff c 34).0 (and_true (c == 34) quotes q).0))
    | inr q ↦ elim (Bool-cases (f.isprint c)) [
      | inl p ↦ inr (inr (inl (rw (k, q, p) refl, k)))
      | inr p ↦ inr (inr (inr (rw (k, q, p) refl)))
    ]
  ]
]

-- The rest of the text behind what one piece wrote.
abbrev continued : (Bool × ℕ → List ℕ) → ℕ → Result Written → Result (List ℕ)
continued encode fuel x = x >>= (λ w. expand_loop encode fuel w.1 >>= (λ s. ok (w.0 ++ s)))

module _ (encode : Bool × ℕ → List ℕ) where
  expand_loop-piece :
      (fuel c : ℕ) (cs : List ℕ) {x : Result Written}
      → piece encode c cs ≡ x
      → expand_loop encode (suc fuel) (c ∷ cs) ≡ continued encode fuel x
  unfolding expand_loop
  expand_loop-piece fuel c cs e = ap (continued encode fuel) e

  expand_loop_nil : (fuel : ℕ) → expand_loop encode fuel [] ≡ ok []
  unfolding expand_loop
  expand_loop_nil zero = refl
  expand_loop_nil (suc fuel) = refl

  expand_loop-escape_byte :
      (f : Formats) (quotes : Bool) (fuel c : ℕ) (rest : List ℕ)
      → PrintsHex f.hex
      → c < 256
      → expand_loop encode (suc fuel) (escape_byte f quotes false c ++ rest)
        ≡ continued encode fuel (ok (c ∷ [], rest))
  expand_loop-escape_byte f quotes fuel c rest hex h =
      let read = λ (s : List ℕ).
        expand_loop encode (suc fuel) (s ++ rest) ≡ continued encode fuel (ok (c ∷ [], rest)) in
      elim (escape_byte-Shapes f quotes c) [
        | inl k ↦
            subst read (sym k.0)
              (expand_loop-piece fuel 92 (92 ∷ rest) (ap (λ d. ok (d ∷ [], rest)) (sym k.1)))
        | inr (inl k) ↦
            subst read (sym k.0)
              (expand_loop-piece fuel 92 (34 ∷ rest) (ap (λ d. ok (d ∷ [], rest)) (sym k.1)))
        | inr (inr (inl k)) ↦
            subst read (sym k.0)
              (expand_loop-piece fuel c rest {x = ok (c ∷ [], rest)} (rw k.1 refl))
        | inr (inr (inr k)) ↦ subst read (sym (k ∙ ap (λ l. 92 ∷ 120 ∷ l) (hex c h))) (
            expand_loop-piece fuel 92 (120 ∷ digit_char (c / 16) ∷ digit_char (c % 16) ∷ rest)
              (hex_escape-digits c rest h))
      ]

  expand_loop-escape_bytes :
      (f : Formats) (quotes : Bool) (fuel : ℕ) (s : List ℕ)
      → PrintsHex f.hex
      → All (λ c. c < 256) s
      → length s ≤ fuel
      → expand_loop encode fuel (escape_bytes f quotes false s) ≡ ok s
  unfolding escape_bytes
  expand_loop-escape_bytes f quotes fuel [] hex a h = expand_loop_nil fuel
  expand_loop-escape_bytes f quotes zero (c ∷ cs) hex a h = absurd (omega arith)
  expand_loop-escape_bytes f quotes (suc fuel) (c ∷ cs) hex a h =
      expand_loop-escape_byte f quotes fuel c (escape_bytes f quotes false cs) hex a.0
      ∙ ap (λ x. x >>= (λ s. ok (c ∷ s)))
          (expand_loop-escape_bytes f quotes fuel cs hex a.1 (omega arith))

long : (f : Formats) (s : List ℕ) (c : ℕ) → Shapes f s c → 1 ≤ length s
long f s c (inl k) = rw k.0 (omega arith)
long f s c (inr (inl k)) = rw k.0 (omega arith)
long f s c (inr (inr (inl k))) = rw k.0 (omega arith)
long f s c (inr (inr (inr k))) = rw k (omega arith)

escape_byte_long : (f : Formats) (quotes : Bool) (c : ℕ) → 1 ≤ length (escape_byte f quotes false c)
escape_byte_long f quotes c =
    long f (escape_byte f quotes false c) c (escape_byte-Shapes f quotes c)

escape_bytes_longer :
    (f : Formats) (quotes : Bool) (s : List ℕ) → length s ≤ length (escape_bytes f quotes false s)
unfolding escape_bytes
escape_bytes_longer f quotes [] = omega arith
escape_bytes_longer f quotes (c ∷ cs) =
    let ih = escape_bytes_longer f quotes cs in
    let sum = length-append (escape_byte f quotes false c) (escape_bytes f quotes false cs) in
    let one = escape_byte_long f quotes c in omega arith

-- Whatever characters count as printable, expanding the escape sequences of bytes escaped with
-- hexadecimal codes gives the bytes back.
pub expand_escapes-escape_bytes :
    (encode : Bool × ℕ → List ℕ) (f : Formats) (quotes : Bool) (s : List ℕ)
    → PrintsHex f.hex
    → All (λ c. c < 256) s
    → expand_escapes encode (escape_bytes f quotes false s) ≡ ok s
unfolding expand_escapes
expand_escapes-escape_bytes encode f quotes s hex a =
    expand_loop-escape_bytes encode f quotes (length (escape_bytes f quotes false s)) s hex a
      (escape_bytes_longer f quotes s)
