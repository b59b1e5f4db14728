-- ===== src/Examples/Texts.antt =====
-- Numbers and escape sequences in concrete texts.
use spicy.Base.{
  ℕ, ◌+◌, ◌/◌, ◌%◌, ◌≤◌, ◌<◌, ◌≡◌, ◌⊎◌, refl, Bool, true, false, List, [], ◌∷◌, map, arith, ok, err,
  leb, ltb, ◌&&◌, length, Error, if◌then◌else◌, undefined,
}
use spicy.Text.{to_int_in_base, to_uint_in_base, Formats, escape_bytes, expand_escapes}
use spicy.Text.Numbers.{digit_char, to_int_in_base-value, to_uint_in_base_misreads}
use spicy.Text.Escapes.{expand_escapes-escape_bytes}
use spicy.Text.Expansion.{IsThrown, expand_escapes-length}

-- The least number of 64 bits overflows before it is negated.
least_number :
    to_int_in_base
      (45 ∷ 57 ∷ 50 ∷ 50 ∷ 51 ∷ 51 ∷ 55 ∷ 50 ∷ 48 ∷ 51 ∷ 54 ∷ 56 ∷ 53 ∷ 52 ∷ 55 ∷ 55 ∷ 53 ∷ 56 ∷ 48
        ∷ 56 ∷ [])
      10
    ≡ err undefined
unfolding to_int_in_base
least_number = refl

-- A base of 266 is one of 10.
large_base : to_int_in_base (49 ∷ 50 ∷ []) 266 ≡ ok (false, 12)
unfolding to_int_in_base
large_base = refl

to_int_in_base_example :
    (to_int_in_base (map digit_char (15 ∷ 3 ∷ [])) 16 ≡ ok (false, 243))
    × (to_int_in_base (45 ∷ map digit_char (15 ∷ 3 ∷ [])) 16 ≡ ok (true, 243))
to_int_in_base_example =
    to_int_in_base-value 16 15 (3 ∷ []) (omega arith) (omega arith) (omega arith, (omega arith, tt))
      (omega arith)

misreads_example :
    (to_uint_in_base (58 ∷ []) 36 ≡ ok 10) × (17 < 36 → to_uint_in_base (65 ∷ []) 36 ≡ ok 17)
misreads_example = to_uint_in_base_misreads 36 (omega arith) (omega arith)

abbrev c_locale : Formats
c_locale = record {
  isprint = λ c. leb 32 c && ltb c 127;
  hex = λ c. digit_char (c / 16) ∷ digit_char (c % 16) ∷ [];
  octal = λ c. (48 + c / 64) ∷ (48 + c / 8 % 8) ∷ (48 + c % 8) ∷ [];
}

-- Code points below 128 only.
abbrev ascii : Bool × ℕ → List ℕ
ascii (false, n) = if ltb n 128 then n ∷ [] else []
ascii (true, n) = []

ascii-length : (v : Bool × ℕ) → length (ascii v) ≤ 4
ascii-length (false, n) = ground arith
ascii-length (true, n) = omega arith

-- A sign is read as part of the hexadecimal number.
signed_escape : expand_escapes ascii (92 ∷ 120 ∷ 45 ∷ 53 ∷ []) ≡ ok (251 ∷ [])
unfolding expand_escapes
signed_escape = refl

-- An octal code is not expanded to its byte.
octal_escape :
    expand_escapes ascii (escape_bytes c_locale false true (7 ∷ [])) ≡ ok (0 ∷ 48 ∷ 55 ∷ [])
unfolding expand_escapes escape_bytes
octal_escape = refl

expand_escapes_example :
    expand_escapes ascii (escape_bytes c_locale true false (65 ∷ 92 ∷ 34 ∷ 255 ∷ []))
    ≡ ok (65 ∷ 92 ∷ 34 ∷ 255 ∷ [])
expand_escapes_example =
    expand_escapes-escape_bytes ascii c_locale true (65 ∷ 92 ∷ 34 ∷ 255 ∷ []) (λ c h. refl)
      (omega arith, (omega arith, (omega arith, (omega arith, tt))))

shorter_example :
    ((r : List ℕ) × (expand_escapes ascii (92 ∷ 110 ∷ 65 ∷ []) ≡ ok r) × (length r ≤ 3))
    ⊎ ((e : Error) × (expand_escapes ascii (92 ∷ 110 ∷ 65 ∷ []) ≡ err e) × IsThrown e)
shorter_example = expand_escapes-length ascii (92 ∷ 110 ∷ 65 ∷ []) ascii-length
