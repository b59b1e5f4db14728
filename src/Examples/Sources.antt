-- ===== src/Examples/Sources.antt =====
-- Source files with conditional parts.
use spicy.Base.{ℕ, ◌≡◌, refl, true, false, List, [], ◌∷◌, none, some, ok, arith, pos}
use spicy.Preprocessor.{
  Constants, included, fresh_driver, scan_lines, code, directive, if_text, else_text,
}
use spicy.Preprocessor.Conditions.{Condition, at_least}
use spicy.Preprocessor.Documents.{
  Document, nothing, then_code, choice, finished, otherwise, lines, chosen, IsDocument,
  scan_lines-lines,
}

-- V is 10800.
abbrev constants : Constants
constants = (86 ∷ [], pos 10800) ∷ []

abbrev version_at_least : ℕ → List ℕ → Condition
version_at_least d ds = record {
  negated = false;
  name = 86 ∷ [];
  test = some (at_least, record { minus = false; first = d; further = ds });
}

abbrev not_defined : Condition
not_defined = record { negated = true; name = 87 ∷ []; test = none }

-- @if V >= 10500, code 1, @if ! W, code 2, @endif, @else, code 3, @endif, code 4.
abbrev file : Document
file =
    choice (version_at_least 1 (0 ∷ 5 ∷ 0 ∷ 0 ∷ []))
      (then_code (1 ∷ []) (choice not_defined (then_code (2 ∷ []) nothing) finished nothing))
      (otherwise (then_code (3 ∷ []) nothing) finished) (then_code (4 ∷ []) nothing)

file-IsDocument : IsDocument file
unfolding IsDocument
file-IsDocument = (
  (
    (omega arith, (refl, tt)),
    refl,
    ((omega arith, (omega arith, (omega arith, (omega arith, (omega arith, tt))))), omega arith),
  ),
  (((omega arith, (refl, tt)), refl, tt), tt, tt, tt),
  (tt, tt),
  tt,
)

file_taken : chosen constants true file ≡ (1 ∷ []) ∷ (2 ∷ []) ∷ (4 ∷ []) ∷ []
unfolding chosen
file_taken = refl

-- A second @else includes the first part again, and an @if that is never closed is no error.
else_twice :
    scan_lines constants fresh_driver (
      directive if_text (32 ∷ 86 ∷ [])
      ∷ directive else_text []
      ∷ directive else_text []
      ∷ code (1 ∷ [])
      ∷ [])
    ≡ ok (record fresh_driver { stack = (included, included ∷ []); taken = (1 ∷ []) ∷ [] })
unfolding scan_lines
else_twice = refl

scan_lines_example :
    scan_lines constants fresh_driver (lines file)
    ≡ ok (record fresh_driver { taken = chosen constants true file })
scan_lines_example = scan_lines-lines constants file file-IsDocument
