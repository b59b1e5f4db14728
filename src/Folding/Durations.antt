-- ===== src/Folding/Durations.antt =====
-- That the steps to an interval and to a time agree with the ones of the evaluation.
use spicy.Base.{◌≡◌, refl, true, false, none, some, Result, ok, err, ◌>>=◌, pos, arith}
use spicy.Folding.{
  Doubles, Ctor, signed_integer, unsigned_integer, real, Argument, signed_secs, unsigned_secs,
  signed_ns, unsigned_ns, real_secs, safe_signed, interval_of_seconds, time_of_seconds,
  replace_interval, replace_time,
}
use spicy.Folding.Evaluation.{unless_error, value_interval, value_time}
use spicy.Folding.Steps.{Sound, Complete}

module _ {R : Type 0} (doubles : Doubles R) where
  from_seconds_sound :
      (r : Result (Ctor R)) (c : Ctor R)
      → (r >>= (λ c. ok (some c))) ≡ ok (some c)
      → unless_error r ≡ some c
  from_seconds_sound (ok d) c h = cc
  from_seconds_sound (err e) c h = cc

  from_seconds_complete :
      (r : Result (Ctor R)) (c : Ctor R)
      → unless_error r ≡ some c
      → (r >>= (λ c. ok (some c))) ≡ ok (some c)
  from_seconds_complete (ok d) c h = cc
  from_seconds_complete (err e) c h = cc

  pub replace_interval-Sound :
      (a : Argument) → Sound (replace_interval doubles a) (value_interval doubles false a)
  unfolding replace_interval value_interval safe_signed
  replace_interval-Sound signed_secs (some (signed_integer v u)) c h =
      from_seconds_sound (interval_of_seconds doubles (doubles.of_int v)) c h
  replace_interval-Sound unsigned_secs (some (unsigned_integer v u)) c h =
      from_seconds_sound (interval_of_seconds doubles (doubles.of_int (pos v))) c h
  replace_interval-Sound signed_ns (some (signed_integer v u)) c h = cc
  replace_interval-Sound unsigned_ns (some (unsigned_integer v u)) c h = ground arith
  replace_interval-Sound real_secs (some (real x)) c h =
      from_seconds_sound (interval_of_seconds doubles x) c h
  replace_interval-Sound _ _ c h = cc

  pub replace_interval-Complete :
      (a : Argument) → Complete (replace_interval doubles a) (value_interval doubles true a)
  unfolding replace_interval value_interval safe_signed
  replace_interval-Complete signed_secs (some (signed_integer v u)) c h =
      from_seconds_complete (interval_of_seconds doubles (doubles.of_int v)) c h
  replace_interval-Complete unsigned_secs (some (unsigned_integer v u)) c h =
      from_seconds_complete (interval_of_seconds doubles (doubles.of_int (pos v))) c h
  replace_interval-Complete signed_ns (some (signed_integer v u)) c h = ground arith
  replace_interval-Complete unsigned_ns (some (unsigned_integer v u)) c h = ground arith
  replace_interval-Complete real_secs (some (real x)) c h =
      from_seconds_complete (interval_of_seconds doubles x) c h
  replace_interval-Complete _ _ c h = cc

  pub replace_time-Sound :
      (a : Argument) → Sound (replace_time doubles a) (value_time doubles false a)
  unfolding replace_time value_time
  replace_time-Sound signed_secs (some (signed_integer v u)) c h =
      from_seconds_sound (time_of_seconds doubles (doubles.of_int v)) c h
  replace_time-Sound unsigned_secs (some (unsigned_integer v u)) c h =
      from_seconds_sound (time_of_seconds doubles (doubles.of_int (pos v))) c h
  replace_time-Sound signed_ns (some (signed_integer (pos n) u)) c h = cc
  replace_time-Sound unsigned_ns (some (unsigned_integer v u)) c h = cc
  replace_time-Sound real_secs (some (real x)) c h =
      from_seconds_sound (time_of_seconds doubles x) c h
  replace_time-Sound _ _ c h = cc

  pub replace_time-Complete :
      (a : Argument) → Complete (replace_time doubles a) (value_time doubles true a)
  unfolding replace_time value_time
  replace_time-Complete signed_secs (some (signed_integer v u)) c h =
      from_seconds_complete (time_of_seconds doubles (doubles.of_int v)) c h
  replace_time-Complete unsigned_secs (some (unsigned_integer v u)) c h =
      from_seconds_complete (time_of_seconds doubles (doubles.of_int (pos v))) c h
  replace_time-Complete signed_ns (some (signed_integer (pos n) u)) c h = ground arith
  replace_time-Complete unsigned_ns (some (unsigned_integer v u)) c h = ground arith
  replace_time-Complete real_secs (some (real x)) c h =
      from_seconds_complete (time_of_seconds doubles x) c h
  replace_time-Complete _ _ c h = cc

  pub replace_interval-none : (a : Argument) → replace_interval doubles a none ≡ ok none
  unfolding replace_interval
  replace_interval-none signed_secs = refl
  replace_interval-none unsigned_secs = refl
  replace_interval-none signed_ns = refl
  replace_interval-none unsigned_ns = refl
  replace_interval-none real_secs = refl

  pub replace_time-none : (a : Argument) → replace_time doubles a none ≡ ok none
  unfolding replace_time
  replace_time-none signed_secs = refl
  replace_time-none unsigned_secs = refl
  replace_time-none signed_ns = refl
  replace_time-none unsigned_ns = refl
  replace_time-none real_secs = refl

  pub value_interval-none : (a : Argument) → value_interval doubles true a none ≡ none
  unfolding value_interval
  value_interval-none signed_secs = refl
  value_interval-none unsigned_secs = refl
  value_interval-none signed_ns = refl
  value_interval-none unsigned_ns = refl
  value_interval-none real_secs = refl

  pub value_time-none : (a : Argument) → value_time doubles true a none ≡ none
  unfolding value_time
  value_time-none signed_secs = refl
  value_time-none unsigned_secs = refl
  value_time-none signed_ns = refl
  value_time-none unsigned_ns = refl
  value_time-none real_secs = refl
