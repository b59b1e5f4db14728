-- ===== src/Preprocessor.antt =====
-- The preprocessor for conditional parts of a source file (hilti/toolchain/src/base/preprocessor.cc)
-- and the parser's driver that feeds it (spicy/toolchain/src/compiler/parser/driver.cc).
pub mod Conditions
pub mod Documents
use spicy.Base.{
  ℕ, zero, suc, ◌+◌, Bool, true, false, not, List, [], ◌∷◌, ◌++◌, Option, none, some, ltb,
  if◌then◌else◌, Result, ok, err, ◌>>=◌, Error, result_error, ℤ, pos, less, same, of_sign,
}
use spicy.Text.{int32, atoi_n, Stored}
use spicy.Text.Words.{same_text, split, trim}

-- The entries of `_stack`: 1, 0 and -1.
pub data Mark : Type 0 where
  included excluded ignored : Mark

-- `_stack`, which is never empty: its last entry, and those below it.
abbrev pub Stack : Type 0
Stack = Mark × List Mark

pub data State : Type 0 where
  include skip : State

abbrev pub state_of : Stack → State
state_of (included, below) = include
state_of (_, below) = skip

abbrev pub Constants : Type 0
Constants = List (List ℕ × ℤ)

abbrev pub constant_or_zero : Constants → List ℕ → ℤ
constant_or_zero [] id = pos 0
constant_or_zero ((name, v) ∷ cs) id = if same_text name id then v else constant_or_zero cs id

-- The texts of the directives and the operators.
abbrev pub if_text : List ℕ
if_text = 64 ∷ 105 ∷ 102 ∷ []

abbrev pub else_text : List ℕ
else_text = 64 ∷ 101 ∷ 108 ∷ 115 ∷ 101 ∷ []

abbrev pub endif_text : List ℕ
endif_text = 64 ∷ 101 ∷ 110 ∷ 100 ∷ 105 ∷ 102 ∷ []

abbrev pub not_text : List ℕ
not_text = 33 ∷ []

abbrev pub equal_text : List ℕ
equal_text = 61 ∷ 61 ∷ []

abbrev pub unequal_text : List ℕ
unequal_text = 33 ∷ 61 ∷ []

abbrev pub less_text : List ℕ
less_text = 60 ∷ []

abbrev pub at_most_text : List ℕ
at_most_text = 60 ∷ 61 ∷ []

abbrev pub greater_text : List ℕ
greater_text = 62 ∷ []

abbrev pub at_least_text : List ℕ
at_least_text = 62 ∷ 61 ∷ []

unfoldable pub compare_by : List ℕ → ℤ → ℤ → Result Bool
compare_by op have want =
    if same_text op equal_text
    then ok (same have want)
    else if same_text op unequal_text
    then ok (not (same have want))
    else if same_text op less_text
    then ok (less have want)
    else if same_text op at_most_text
    then ok (not (less want have))
    else if same_text op greater_text
    then ok (less want have)
    else if same_text op at_least_text
    then ok (not (less have want))
    else err result_error

-- The integer has to be all of the text.
abbrev pub wanted : Stored → Result ℤ
wanted (some v, []) = ok (of_sign v)
wanted (none, []) = ok (pos 0)
wanted _ = err result_error

abbrev pub shifted : List (List ℕ) → Bool × List (List ℕ)
shifted [] = (false, [])
shifted (w ∷ ws) = if same_text w not_text then (true, ws) else (false, w ∷ ws)

abbrev pub negate_if : Bool → Bool → Bool
negate_if negate b = if negate then not b else b

unfoldable pub test_words : Constants → List (List ℕ) → Result Bool
unfolding atoi_n compare_by
test_words constants (id ∷ []) = compare_by unequal_text (constant_or_zero constants id) (pos 0)
test_words constants (id ∷ op ∷ n ∷ []) =
    atoi_n int32 10 n >>= wanted >>= (λ want. compare_by op (constant_or_zero constants id) want)
test_words constants _ = err result_error

abbrev pub test_shifted : Constants → Bool × List (List ℕ) → Result Bool
test_shifted constants (negate, m) = test_words constants m >>= (λ b. ok (negate_if negate b))

unfoldable pub parse_if : Constants → List ℕ → Result Bool
unfolding test_words split
parse_if constants expression = split expression >>= (λ m. test_shifted constants (shifted m))

abbrev pub mark_of : Bool → Mark
mark_of b = if b then included else excluded

abbrev pub push : Mark → Stack → Stack
push x (top, below) = (x, top ∷ below)

abbrev pub opened : Constants → List ℕ → Stack → State → Result Stack
opened constants expression s include =
    parse_if constants expression >>= (λ b. ok (push (mark_of b) s))
opened constants expression s skip = ok (push ignored s)

abbrev pub toggled : Mark → Mark
toggled included = excluded
toggled excluded = included
toggled ignored = ignored

abbrev pub alternated : List ℕ → Stack → Result Stack
alternated (c ∷ cs) s = err result_error
alternated [] (top, []) = err result_error
alternated [] (top, next ∷ below) = ok (toggled top, next ∷ below)

abbrev pub closed : List ℕ → Stack → Result Stack
closed (c ∷ cs) s = err result_error
closed [] (top, []) = err result_error
closed [] (top, next ∷ below) = ok (next, below)

-- The new stack; `state_of` it is what is returned.
unfoldable pub process_line : Constants → Stack → List ℕ → List ℕ → Result Stack
unfolding parse_if
process_line constants s directive expression =
    if same_text directive if_text
    then opened constants expression s (state_of s)
    else if same_text directive else_text
    then alternated expression s
    else if same_text directive endif_text
    then closed expression s
    else err result_error

abbrev pub initial : Stack
initial = (included, [])

-- `expectingDirective`.
abbrev pub expecting_directive : Stack → Bool
expecting_directive (top, []) = false
expecting_directive (top, next ∷ below) = true

-- What the scanner finds: code, or a directive and the rest of its line.
pub data Line : Type 0 where
  code : List ℕ → Line
  directive : List ℕ → List ℕ → Line

-- The preprocessor, whether the scanner is in the mode IGNORE, the code it has taken, and the number
-- of errors reported.
pub record Driver : Type 0 where
  pub stack : Stack
  pub ignoring : Bool
  pub taken : List (List ℕ)
  pub errors : ℕ

abbrev pub is_skip : State → Bool
is_skip include = false
is_skip skip = true

-- `processPreprocessorLine`. What is no `result::Error` is an exception.
abbrev pub after_line : Driver → Result Stack → Result Driver
after_line d (ok s) = ok (record d { stack = s; ignoring = is_skip (state_of s) })
after_line d (err result_error) = ok (record d { errors = suc d.errors })
after_line d (err e) = err e

unfoldable pub scan_line : Constants → Driver → Line → Result Driver
unfolding process_line trim
scan_line constants d (code text) =
    ok (if d.ignoring then d else record d { taken = d.taken ++ text ∷ [] })
scan_line constants d (directive name rest) =
    after_line d (process_line constants d.stack name (trim rest))

unfoldable pub scan_lines : Constants → Driver → List Line → Result Driver
unfolding scan_line
scan_lines constants d [] = ok d
scan_lines constants d (l ∷ ls) = scan_line constants d l >>= (λ next. scan_lines constants next ls)

abbrev pub fresh_driver : Driver
fresh_driver = record { stack = initial; ignoring = false; taken = []; errors = 0 }
