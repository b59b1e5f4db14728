-- ===== src/Base/Results.antt =====
-- Exceptions as values. `diverges` is a loop of the source that does not end, and `undefined` what
-- the language leaves undefined (a null pointer that is read, an iterator never set).
use mathlib.Core.Bool.{Bool, true, false}

pub data Error : Type 0 where
  invalid_iterator frozen missing_data overflow out_of_range : Error
  invalid_argument runtime_error parse_error sink_error : Error
  assertion_failed undefined diverges : Error
  insufficient_data undefined_byte_order index_error : Error
  unicode_error formatting_error undefined_family : Error
  result_error invalid_mime_type internal_error abort_exception : Error

pub data Result {ℓ} (A : Type ℓ) : Type ℓ where
  err : Error → Result A
  ok : A → Result A

-- A test that throws unless it holds.
abbrev pub guard : Bool → Error → Result (Unit {0})
guard b exception = elim b [ false ↦ err exception | true ↦ ok tt ]

infixl 5 ◌>>=◌
abbrev pub ◌>>=◌ {ℓ ℓ'} : {X : Type ℓ} {Y : Type ℓ'} → Result X → (X → Result Y) → Result Y
err exception >>= next = err exception
ok value >>= next = next value

infixl 5 ◌>>◌
abbrev pub ◌>>◌ {ℓ} : {X : Type ℓ} → Result (Unit {0}) → Result X → Result X
err exception >> next = err exception
ok value >> next = next
