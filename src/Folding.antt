-- ===== src/Folding.antt =====
-- The folding of constant expressions (hilti/toolchain/src/compiler/visitors/constant-folder.cc), with
-- the constructors of Interval and Time that it calls (hilti/runtime/include/types/interval.h,
-- hilti/runtime/include/types/time.h). Floating point numbers are a parameter.
pub mod Evaluation
pub mod Steps
pub mod Durations
pub mod Agreement
use spicy.Base.{
  ℕ, zero, suc, ◌^◌, Bool, true, false, not, ◌&&◌, ◌||◌, Option, none, some, ltb, leb, ◌==◌,
  if◌then◌else◌, Result, ok, err, ◌>>=◌, Error, undefined, out_of_range, overflow, result_error, ℤ,
  pos, negsuc,
}
use spicy.Integer.{Width, w8, w16, w32, w64, limit_of}

-- What the C++ type `double` does: from an integer, multiplication by a billion, the comparison, and
-- what `safe<int64_t>` and `safe<uint64_t>` make of a number.
pub record Doubles (R : Type 0) : Type 0 where
  pub of_int : ℤ → R
  pub times_billion : R → R
  pub is_less : R → R → Bool
  pub opposite : R → R
  pub to_signed64 : R → Result ℤ
  pub to_unsigned64 : R → Result ℕ

pub data Signedness : Type 0 where
  signed unsigned : Signedness

-- Constructors that are rebuilt as they are, and all others, with what they hold.
pub data CtorKind : Type 0 where
  error_ctor port_ctor stream_ctor other_ctor : CtorKind

pub data Ctor (R : Type 0) : Type 0 where
  bool : Bool → Ctor R
  signed_integer : ℤ → Width → Ctor R
  unsigned_integer : ℕ → Width → Ctor R
  real : R → Ctor R
  interval : ℤ → Ctor R
  time : ℕ → Ctor R
  opaque : CtorKind → ℕ → Ctor R

-- What is negated, and what an interval or a time is made from.
pub data Negated : Type 0 where
  negated_signed negated_unsigned negated_real : Negated

pub data Argument : Type 0 where
  signed_secs unsigned_secs signed_ns unsigned_ns real_secs : Argument

-- `integer_ctor t s w` is the operator CtorS of the type T for w bits; the Boolean of `constant_id` is
-- whether its name begins with "__feat".
pub data Expression (R : Type 0) : Type 0 where
  ctor : Ctor R → Expression R
  grouping : Expression R → Expression R
  logical_or logical_and : Expression R → Expression R → Expression R
  logical_not : Expression R → Expression R
  constant_id : Bool → Expression R → Expression R
  other_id : ℕ → Expression R
  sign_neg : Negated → Expression R → Expression R
  integer_ctor : Signedness → Signedness → Width → Expression R → Expression R
  interval_ctor time_ctor : Argument → Expression R → Expression R
  rebuilt : CtorKind → Expression R → Expression R
  other : ℕ → Expression R

abbrev pub minus : ℤ → ℤ
minus (pos zero) = pos 0
minus (pos (suc n)) = negsuc n
minus (negsuc n) = pos (suc n)

-- `-` on an int64_t.
unfoldable pub negate64 : ℤ → Result ℤ
negate64 (pos n) = ok (minus (pos n))
negate64 (negsuc n) = if n == 9223372036854775807 then err undefined else ok (minus (negsuc n))

-- `safe_negate`.
unfoldable pub safe_negate : ℕ → Result ℤ
safe_negate n = if leb n 9223372036854775808 then ok (minus (pos n)) else err out_of_range

unfoldable pub to_int64 : ℕ → Result ℤ
to_int64 n = if ltb n 9223372036854775808 then ok (pos n) else err out_of_range

abbrev pub to_uint64 : ℤ → Result ℕ
to_uint64 (pos n) = ok n
to_uint64 (negsuc n) = err out_of_range

-- Into the checked integers of a time or an interval.
unfoldable pub safe_signed : ℕ → Result ℤ
safe_signed n = if ltb n 9223372036854775808 then ok (pos n) else err overflow

abbrev pub safe_unsigned : ℤ → Result ℕ
safe_unsigned (pos n) = ok n
safe_unsigned (negsuc n) = err overflow

abbrev pub same_kind : CtorKind → CtorKind → Bool
same_kind error_ctor error_ctor = true
same_kind port_ctor port_ctor = true
same_kind stream_ctor stream_ctor = true
same_kind _ _ = false

module _ {R : Type 0} where
  abbrev pub bind_some : {A : Type 0} → Option A → (A → Result (Ctor R)) → Result (Option (Ctor R))
  bind_some none f = ok none
  bind_some (some a) f = f a >>= (λ c. ok (some c))

  -- `tryAs`.
  abbrev pub as_bool : Option (Ctor R) → Option Bool
  as_bool (some (bool b)) = some b
  as_bool _ = none

  abbrev pub as_signed : Option (Ctor R) → Option (ℤ × Width)
  as_signed (some (signed_integer v w)) = some (v, w)
  as_signed _ = none

  abbrev pub as_unsigned : Option (Ctor R) → Option (ℕ × Width)
  as_unsigned (some (unsigned_integer v w)) = some (v, w)
  as_unsigned _ = none

  abbrev pub as_real : Option (Ctor R) → Option R
  as_real (some (real x)) = some x
  as_real _ = none

  abbrev pub as_kind : CtorKind → Option (Ctor R) → Option ℕ
  as_kind k (some (opaque l n)) = if same_kind k l then some n else none
  as_kind k _ = none

  abbrev pub both_bools : (Bool → Bool → Bool) → Option Bool → Option Bool → Option (Ctor R)
  both_bools f (some a) (some b) = some (bool (f a b))
  both_bools f _ _ = none

  abbrev pub not_bool : Option Bool → Option (Ctor R)
  not_bool (some b) = some (bool (not b))
  not_bool none = none

  abbrev pub is_resolved_id : Expression R → Bool
  is_resolved_id (constant_id feature e) = true
  is_resolved_id (other_id n) = true
  is_resolved_id _ = false

  -- An exception is caught; what is undefined is none.
  abbrev pub caught : Result (Option (Ctor R)) → Result (Option (Ctor R))
  caught (ok o) = ok o
  caught (err undefined) = err undefined
  caught (err e) = err result_error

  module _ (doubles : Doubles R) where
    open doubles use {of_int, times_billion, is_less, opposite, to_signed64, to_unsigned64}

    abbrev pub outside : R → ℤ → ℤ → Bool
    outside x low high = is_less x (of_int low) || is_less (of_int high) x

    -- `Interval(double, SecondTag)` and `Time(double, SecondTag)`.
    unfoldable pub interval_of_seconds : R → Result (Ctor R)
    interval_of_seconds secs =
        let x = times_billion secs in
        if outside x (negsuc 9223372036854775807) (pos 9223372036854775807)
        then err out_of_range
        else to_signed64 x >>= (λ ns. ok (interval ns))

    unfoldable pub time_of_seconds : R → Result (Ctor R)
    time_of_seconds secs =
        let x = times_billion secs in
        if outside x (pos 0) (pos 18446744073709551615)
        then err out_of_range
        else to_unsigned64 x >>= (λ ns. ok (time ns))

    unfoldable pub replace_interval : Argument → Option (Ctor R) → Result (Option (Ctor R))
    unfolding interval_of_seconds safe_signed
    replace_interval signed_secs o = bind_some (as_signed o) (λ x. interval_of_seconds (of_int x.0))
    replace_interval unsigned_secs o =
        bind_some (as_unsigned o) (λ x. interval_of_seconds (of_int (pos x.0)))
    replace_interval signed_ns o = bind_some (as_signed o) (λ x. ok (interval x.0))
    replace_interval unsigned_ns o =
        bind_some (as_unsigned o) (λ x. safe_signed x.0 >>= (λ ns. ok (interval ns)))
    replace_interval real_secs o = bind_some (as_real o) (λ x. interval_of_seconds x)

    unfoldable pub replace_time : Argument → Option (Ctor R) → Result (Option (Ctor R))
    unfolding time_of_seconds
    replace_time signed_secs o = bind_some (as_signed o) (λ x. time_of_seconds (of_int x.0))
    replace_time unsigned_secs o =
        bind_some (as_unsigned o) (λ x. time_of_seconds (of_int (pos x.0)))
    replace_time signed_ns o =
        bind_some (as_signed o) (λ x. safe_unsigned x.0 >>= (λ ns. ok (time ns)))
    replace_time unsigned_ns o = bind_some (as_unsigned o) (λ x. ok (time x.0))
    replace_time real_secs o = bind_some (as_real o) (λ x. time_of_seconds x)

    unfoldable pub negation : Negated → Option (Ctor R) → Result (Option (Ctor R))
    unfolding negate64 safe_negate
    negation negated_signed o =
        bind_some (as_signed o) (λ x. negate64 x.0 >>= (λ v. ok (signed_integer v x.1)))
    negation negated_unsigned o =
        bind_some (as_unsigned o) (λ x. safe_negate x.0 >>= (λ v. ok (signed_integer v x.1)))
    negation negated_real o = bind_some (as_real o) (λ x. ok (real (opposite x)))

    unfoldable pub replace_integer :
        Signedness → Signedness → Width → Option (Ctor R) → Result (Option (Ctor R))
    unfolding to_int64
    replace_integer signed signed w o = bind_some (as_signed o) (λ x. ok (signed_integer x.0 w))
    replace_integer signed unsigned w o =
        bind_some (as_unsigned o) (λ x. to_int64 x.0 >>= (λ v. ok (signed_integer v w)))
    replace_integer unsigned signed w o =
        bind_some (as_signed o) (λ x. to_uint64 x.0 >>= (λ v. ok (unsigned_integer v w)))
    replace_integer unsigned unsigned w o =
        bind_some (as_unsigned o) (λ x. ok (unsigned_integer x.0 w))

    -- The visitor.
    unfoldable pub visit : Expression R → Result (Option (Ctor R))
    unfolding negation replace_integer replace_interval replace_time
    visit (ctor c) = ok (some c)
    visit (grouping e) = visit e
    visit (logical_or a b) =
        visit a
        >>= (λ x. visit b >>= (λ y. ok (both_bools (λ p q. p || q) (as_bool x) (as_bool y))))
    visit (logical_and a b) =
        visit a
        >>= (λ x. visit b >>= (λ y. ok (both_bools (λ p q. p && q) (as_bool x) (as_bool y))))
    visit (logical_not e) = visit e >>= (λ x. ok (not_bool (as_bool x)))
    visit (constant_id feature e) = let x = visit e in if feature then ok none else x
    visit (other_id n) = ok none
    visit (sign_neg k e) = visit e >>= (λ x. negation k x)
    visit (integer_ctor t s w e) = visit e >>= (λ x. replace_integer t s w x)
    visit (interval_ctor a e) = visit e >>= (λ x. replace_interval a x)
    visit (time_ctor a e) = visit e >>= (λ x. replace_time a x)
    visit (rebuilt k e) = visit e >>= (λ x. bind_some (as_kind k x) (λ n. ok (opaque k n)))
    visit (other n) = ok none

    unfoldable pub fold_constant : Expression R → Result (Option (Ctor R))
    unfolding visit
    fold_constant e = if is_resolved_id e then ok none else caught (visit e)
