-- ===== src/Text.antt =====
-- Texts of hilti/runtime/include/util.h and hilti/runtime/src/util.cc, and the conversions of
-- hilti/runtime/src/types/bytes.cc that use them: numbers in a base, and escape sequences. A
-- character is a number, its code.
pub mod Words
pub mod Splitting
pub mod Numbers
pub mod Escapes
pub mod Expansion
use spicy.Base.{
  ℕ, zero, suc, ◌+◌, ◌-◌, ◌*◌, ◌%◌, ◌^◌, Bool, true, false, ◌&&◌, ◌||◌, List, [], ◌∷◌, ◌++◌, Option,
  none, some, ◌==◌, leb, ltb, if◌then◌else◌, Result, ok, err, Error, ◌>>=◌, length, take, drop,
  out_of_range, invalid_argument, runtime_error, overflow, undefined, diverges, unicode_error,
  formatting_error,
}

-- The type of `atoi_n`'s result. A char wraps around; an overflow of the others is undefined.
pub data Number : Type 0 where
  char int32 int64 : Number

abbrev pub below : ℕ → ℕ → Result ℕ
below limit v = if ltb v limit then ok v else err undefined

abbrev pub store : Number → ℕ → Result ℕ
store char v = ok (v % 256)
store int32 v = below 2147483648 v
store int64 v = below 9223372036854775808 v

-- The digit `d` of the loop's body, in a base from 2 to 36.
unfoldable pub digit_of : ℕ → ℕ → Option ℕ
digit_of base c =
    if leb 48 c && ltb c (48 + base)
    then some (c - 48)
    else if leb 97 c && ltb c (87 + base)
    then some (c - 87)
    else if leb 65 c && ltb c (55 + base)
    then some (c - 55)
    else none

abbrev pub value_or_zero : Option ℕ → ℕ
value_or_zero none = 0
value_or_zero (some n) = n

-- What is left and the number, if there was a digit.
abbrev pub Scan : Type 0
Scan = Option ℕ × List ℕ

abbrev pub scan_digit :
    Number → ℕ → Option ℕ → ℕ → List ℕ → (Option ℕ → Result Scan) → Option ℕ → Result Scan
scan_digit w base n c cs next none = ok (n, c ∷ cs)
scan_digit w base n c cs next (some d) =
    store w (value_or_zero n * base + d) >>= (λ v. next (some v))

-- The loop of `atoi_n`.
unfoldable pub scan : Number → ℕ → List ℕ → Option ℕ → Result Scan
unfolding digit_of
scan w base [] n = ok (n, [])
scan w base (c ∷ cs) n = scan_digit w base n c cs (λ v. scan w base cs v) (digit_of base c)

-- Where the text begins with a sign, and what is behind it.
abbrev pub sign_of : List ℕ → Bool × List ℕ
sign_of [] = (false, [])
sign_of (c ∷ cs) = if c == 45 then (true, cs) else if c == 43 then (false, cs) else (false, c ∷ cs)

-- A result, negated or not, if one was stored, and the position as the text that is left.
abbrev pub Stored : Type 0
Stored = Option (Bool × ℕ) × List ℕ

abbrev pub stored : List ℕ → Bool → Scan → Stored
stored s neg (none, rest) = (none, s)
stored s neg (some n, rest) = (some (neg, n), rest)

abbrev pub atoi_from : Number → ℕ → List ℕ → Result Stored
atoi_from w base [] = err invalid_argument
atoi_from w base (c ∷ cs) =
    scan w base (sign_of (c ∷ cs)).1 none >>= (λ r. ok (stored (c ∷ cs) (sign_of (c ∷ cs)).0 r))

unfoldable pub atoi_n : Number → ℕ → List ℕ → Result Stored
unfolding scan
atoi_n w base s = if ltb base 2 || ltb 36 base then err out_of_range else atoi_from w base s

-- The base is passed as a uint8_t. All of the text has to be used.
abbrev pub whole : Stored → Result (Bool × ℕ)
whole (some v, []) = ok v
whole _ = err runtime_error

unfoldable pub to_int_in_base : List ℕ → ℕ → Result (Bool × ℕ)
unfolding atoi_n
to_int_in_base s base = atoi_n int64 (base % 256) s >>= whole

-- The int64_t becomes a `safe<uint64_t>`, which throws where it is negative.
abbrev pub unsigned : Bool × ℕ → Result ℕ
unsigned (false, n) = ok n
unsigned (true, zero) = ok 0
unsigned (true, suc n) = err overflow

unfoldable pub to_uint_in_base : List ℕ → ℕ → Result ℕ
unfolding to_int_in_base
to_uint_in_base s base = to_int_in_base s base >>= unsigned

-- The escape sequences of one character, and what they stand for.
abbrev simple_escapes : List (ℕ × ℕ)
simple_escapes =
    (92, 92)
    ∷ (34, 34)
    ∷ (48, 0)
    ∷ (97, 7)
    ∷ (98, 8)
    ∷ (101, 27)
    ∷ (102, 12)
    ∷ (110, 10)
    ∷ (114, 13)
    ∷ (116, 9)
    ∷ (118, 11)
    ∷ []

abbrev pub find_escape : ℕ → List (ℕ × ℕ) → Option ℕ
find_escape c [] = none
find_escape c ((d, b) ∷ es) = if c == d then some b else find_escape c es

abbrev pub simple_escape : ℕ → Option ℕ
simple_escape c = find_escape c simple_escapes

-- What one escape sequence writes, and the text behind it.
abbrev pub Written : Type 0
Written = List ℕ × List ℕ

abbrev pub as_char : Bool × ℕ → ℕ
as_char (false, n) = n
as_char (true, n) = (256 - n) % 256

-- The code that was read to the end of its digits.
abbrev pub all_read : Error → Stored → Result (Bool × ℕ)
all_read exception (some v, []) = ok v
all_read exception _ = err exception

abbrev pub hex_escape : List ℕ → Result Written
hex_escape [] = err formatting_error
hex_escape (c ∷ cs) =
    atoi_n char 16 (take 2 (c ∷ cs))
    >>= all_read formatting_error
    >>= (λ v. ok (as_char v ∷ [], drop 2 (c ∷ cs)))

abbrev pub encoded : List ℕ → List ℕ → Result Written
encoded rest [] = err unicode_error
encoded rest (b ∷ bs) = ok (b ∷ bs, rest)

-- `encode` is `utf8proc_encode_char`, which yields no byte for what is not a code point.
abbrev pub unicode_escape : (Bool × ℕ → List ℕ) → ℕ → List ℕ → Result Written
unicode_escape encode n cs =
    if ltb (length cs) n
    then err unicode_error
    else atoi_n int32 16 (take n cs)
      >>= all_read unicode_error
      >>= (λ v. encoded (drop n cs) (encode v))

abbrev pub other_escape : (Bool × ℕ → List ℕ) → ℕ → List ℕ → Result Written
other_escape encode c cs =
    if c == 117
    then unicode_escape encode 4 cs
    else if c == 85
    then unicode_escape encode 8 cs
    else if c == 120
    then hex_escape cs
    else err formatting_error

abbrev pub one_escape : (Bool × ℕ → List ℕ) → ℕ → List ℕ → Option ℕ → Result Written
one_escape encode c cs (some b) = ok (b ∷ [], cs)
one_escape encode c cs none = other_escape encode c cs

-- Behind a backslash.
abbrev pub escape : (Bool × ℕ → List ℕ) → List ℕ → Result Written
escape encode [] = err runtime_error
escape encode (c ∷ cs) = one_escape encode c cs (simple_escape c)

abbrev pub piece : (Bool × ℕ → List ℕ) → ℕ → List ℕ → Result Written
piece encode c cs = if c == 92 then escape encode cs else ok (c ∷ [], cs)

unfoldable pub expand_loop : (Bool × ℕ → List ℕ) → ℕ → List ℕ → Result (List ℕ)
unfolding atoi_n
expand_loop encode fuel [] = ok []
expand_loop encode zero (c ∷ cs) = err diverges
expand_loop encode (suc fuel) (c ∷ cs) =
    piece encode c cs >>= (λ w. expand_loop encode fuel w.1 >>= (λ s. ok (w.0 ++ s)))

-- `expandEscapes`.
unfoldable pub expand_escapes : (Bool × ℕ → List ℕ) → List ℕ → Result (List ℕ)
unfolding expand_loop
expand_escapes encode s = expand_loop encode (length s) s

-- What `escapeBytes` takes from the C library: the test for a printable character, and the formats
-- `%02x` and `%03o`.
pub record Formats : Type 0 where
  pub isprint : ℕ → Bool
  pub hex : ℕ → List ℕ
  pub octal : ℕ → List ℕ

abbrev pub escape_byte : Formats → Bool → Bool → ℕ → List ℕ
escape_byte f escape_quotes use_octal c =
    if c == 92
    then 92 ∷ 92 ∷ []
    else if c == 34 && escape_quotes
    then 92 ∷ 34 ∷ []
    else if f.isprint c
    then c ∷ []
    else if use_octal
    then 92 ∷ f.octal c
    else 92 ∷ 120 ∷ f.hex c

-- `escapeBytes`.
unfoldable pub escape_bytes : Formats → Bool → Bool → List ℕ → List ℕ
escape_bytes f escape_quotes use_octal [] = []
escape_bytes f escape_quotes use_octal (c ∷ cs) =
    escape_byte f escape_quotes use_octal c ++ escape_bytes f escape_quotes use_octal cs
