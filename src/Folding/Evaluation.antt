-- ===== src/Folding/Evaluation.antt =====
-- What constant expressions mean: an evaluation on the integers, with or without the limits of the
-- types.
use spicy.Base.{
  ℕ, Bool, true, not, ◌&&◌, ◌||◌, Option, none, some, ltb, if◌then◌else◌, Result, ok, err, ℤ, pos,
  negsuc,
}
use spicy.Integer.{Width, w8, w16, w32, w64, limit_of}
use spicy.Folding.{
  Doubles, Signedness, signed, unsigned, CtorKind, Ctor, signed_integer, unsigned_integer, real,
  interval, time, opaque, Negated, negated_signed, negated_unsigned, negated_real, Argument,
  signed_secs, unsigned_secs, signed_ns, unsigned_ns, real_secs, Expression, ctor, grouping,
  logical_or, logical_and, logical_not, constant_id, other_id, sign_neg, integer_ctor,
  interval_ctor, time_ctor, rebuilt, other, minus, as_bool, as_signed, as_unsigned, as_real,
  as_kind, both_bools, not_bool, interval_of_seconds, time_of_seconds,
}

-- 2 ^ (w - 1).
abbrev pub half_of : Width → ℕ
half_of w8 = 128
half_of w16 = 32768
half_of w32 = 2147483648
half_of w64 = 9223372036854775808

abbrev pub in_signed : ℤ → Width → Bool
in_signed (pos n) w = ltb n (half_of w)
in_signed (negsuc n) w = ltb n (half_of w)

-- The number that a constructor stands for.
abbrev pub number_of : {A : Type 0} → (A → ℤ) → Option (A × Width) → Option ℤ
number_of f none = none
number_of f (some (a, w)) = some (f a)

module _ {R : Type 0} where
  -- Whether a value is one of its type.
  abbrev pub fits : Ctor R → Bool
  fits (signed_integer v w) = in_signed v w
  fits (unsigned_integer v w) = ltb v (limit_of w)
  fits (interval v) = in_signed v w64
  fits (time v) = ltb v 18446744073709551616
  fits _ = true

  abbrev pub kept : Bool → Ctor R → Option (Ctor R)
  kept strict c = if not strict || fits c then some c else none

  abbrev pub then_some : {A : Type 0} → Option A → (A → Option (Ctor R)) → Option (Ctor R)
  then_some none f = none
  then_some (some a) f = f a

  abbrev pub unless_error : Result (Ctor R) → Option (Ctor R)
  unless_error (ok c) = some c
  unless_error (err e) = none

  abbrev pub integer_from : Signedness → Option (Ctor R) → Option ℤ
  integer_from signed o = number_of (λ z. z) (as_signed o)
  integer_from unsigned o = number_of pos (as_unsigned o)

  abbrev pub integer_to : Signedness → Width → Bool → ℤ → Option (Ctor R)
  integer_to signed w strict z = kept strict (signed_integer z w)
  integer_to unsigned w strict (pos n) = kept strict (unsigned_integer n w)
  integer_to unsigned w strict (negsuc n) = none

  abbrev pub time_to : Bool → ℤ → Option (Ctor R)
  time_to strict (pos n) = kept strict (time n)
  time_to strict (negsuc n) = none

  module _ (doubles : Doubles R) (strict : Bool) where
    open doubles use {of_int, opposite}

    abbrev pub value_negated : Negated → Option (Ctor R) → Option (Ctor R)
    value_negated negated_signed o =
        then_some (as_signed o) (λ x. kept strict (signed_integer (minus x.0) x.1))
    value_negated negated_unsigned o =
        then_some (as_unsigned o) (λ x. kept strict (signed_integer (minus (pos x.0)) x.1))
    value_negated negated_real o = then_some (as_real o) (λ x. some (real (opposite x)))

    abbrev pub value_integer : Signedness → Signedness → Width → Option (Ctor R) → Option (Ctor R)
    value_integer t s w o = then_some (integer_from s o) (λ z. integer_to t w strict z)

    unfoldable pub value_interval : Argument → Option (Ctor R) → Option (Ctor R)
    unfolding interval_of_seconds
    value_interval signed_secs o =
        then_some (integer_from signed o)
          (λ z. unless_error (interval_of_seconds doubles (of_int z)))
    value_interval unsigned_secs o =
        then_some (integer_from unsigned o)
          (λ z. unless_error (interval_of_seconds doubles (of_int z)))
    value_interval signed_ns o = then_some (integer_from signed o) (λ z. kept strict (interval z))
    value_interval unsigned_ns o =
        then_some (integer_from unsigned o) (λ z. kept strict (interval z))
    value_interval real_secs o =
        then_some (as_real o) (λ x. unless_error (interval_of_seconds doubles x))

    unfoldable pub value_time : Argument → Option (Ctor R) → Option (Ctor R)
    unfolding time_of_seconds
    value_time signed_secs o =
        then_some (integer_from signed o) (λ z. unless_error (time_of_seconds doubles (of_int z)))
    value_time unsigned_secs o =
        then_some (integer_from unsigned o) (λ z. unless_error (time_of_seconds doubles (of_int z)))
    value_time signed_ns o = then_some (integer_from signed o) (λ z. time_to strict z)
    value_time unsigned_ns o = then_some (integer_from unsigned o) (λ z. time_to strict z)
    value_time real_secs o = then_some (as_real o) (λ x. unless_error (time_of_seconds doubles x))

    abbrev pub value_rebuilt : CtorKind → Option (Ctor R) → Option (Ctor R)
    value_rebuilt k o = then_some (as_kind k o) (λ n. some (opaque k n))

    -- The value of an expression all of whose parts have one.
    unfoldable pub evaluate : Expression R → Option (Ctor R)
    unfolding value_interval value_time
    evaluate (ctor c) = kept strict c
    evaluate (grouping e) = evaluate e
    evaluate (logical_or a b) =
        both_bools (λ p q. p || q) (as_bool (evaluate a)) (as_bool (evaluate b))
    evaluate (logical_and a b) =
        both_bools (λ p q. p && q) (as_bool (evaluate a)) (as_bool (evaluate b))
    evaluate (logical_not e) = not_bool (as_bool (evaluate e))
    evaluate (constant_id feature e) = let x = evaluate e in if feature then none else x
    evaluate (other_id n) = none
    evaluate (sign_neg k e) = value_negated k (evaluate e)
    evaluate (integer_ctor t s w e) = value_integer t s w (evaluate e)
    evaluate (interval_ctor a e) = value_interval a (evaluate e)
    evaluate (time_ctor a e) = value_time a (evaluate e)
    evaluate (rebuilt k e) = value_rebuilt k (evaluate e)
    evaluate (other n) = none
