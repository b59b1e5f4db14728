-- ===== src/Folding/Agreement.antt =====
-- That folding agrees with evaluation.
use spicy.Base.{
  ◌≡◌, refl, sym, ap, ap₂, ◌∙◌, Bool, true, false, ◌&&◌, ◌||◌, Option, none, some, if◌then◌else◌,
  Result, ok, err, ◌>>=◌, undefined,
}
use spicy.Folding.{
  Doubles, Ctor, Expression, ctor, grouping, logical_or, logical_and, logical_not, constant_id,
  other_id, sign_neg, integer_ctor, interval_ctor, time_ctor, rebuilt, other, as_bool, both_bools,
  visit, is_resolved_id, caught, fold_constant,
}
use spicy.Folding.Evaluation.{fits, kept, evaluate}
use spicy.Folding.Steps.{
  step-Sound, step-Complete, negation-Sound, negation-Complete, replace_integer-Sound,
  replace_integer-Complete, rebuilds-Sound, rebuilds-Complete, negation-none, replace_integer-none,
  value_negated-none, value_integer-none, both_bools_sound,
}
use spicy.Folding.Durations.{
  replace_interval-Sound, replace_interval-Complete, replace_time-Sound, replace_time-Complete,
  replace_interval-none, replace_time-none, value_interval-none, value_time-none,
}

module _ {R : Type 0} where
  kept_same : (c d : Ctor R) → kept true c ≡ some d → ok (some c) ≡ ok (some d)
  kept_same c d h =
      (elim (fits c) as (λ b. (if b then some c else none) ≡ some d → ok (some c) ≡ ok (some d)) [
        | true ↦ λ h. cc
        | false ↦ λ h. cc
      ])
        h

  ok_injective : {o p : Option (Ctor R)} → ok o ≡ ok p → o ≡ p
  ok_injective h = cc

  some-not_none : {o : Option (Ctor R)} {c : Ctor R} → o ≡ some c → o ≡ none → ⊥
  some-not_none h k = cc

  both_bools_none :
      (f : Bool → Bool → Bool) (x : Option Bool)
      → ◌≡◌ {A = Option (Ctor R)} (both_bools f x none) none
  both_bools_none f none = refl
  both_bools_none f (some b) = refl

  -- Both operands of a logical operator.
  pair_sound :
      (f : Bool → Bool → Bool) (r s : Result (Option (Ctor R))) (o p : Option (Ctor R)) (c : Ctor R)
      → ((d : Ctor R) → r ≡ ok (some d) → o ≡ some d)
      → ((d : Ctor R) → s ≡ ok (some d) → p ≡ some d)
      → (r >>= (λ x. s >>= (λ y. ok (both_bools f (as_bool x) (as_bool y))))) ≡ ok (some c)
      → both_bools f (as_bool o) (as_bool p) ≡ some c
  pair_sound f (err e) s o p c ih1 ih2 h = cc
  pair_sound f (ok x) (err e) o p c ih1 ih2 h = cc
  pair_sound f (ok none) (ok y) o p c ih1 ih2 h = cc
  pair_sound f (ok (some a)) (ok none) o p c ih1 ih2 h =
      absurd (some-not_none (ok_injective h) (both_bools_none f (as_bool (some a))))
  pair_sound f (ok (some a)) (ok (some b)) o p c ih1 ih2 h =
      ap₂ (λ x y. both_bools f (as_bool x) (as_bool y)) (ih1 a refl) (ih2 b refl) ∙ ok_injective h

  pair_complete :
      (f : Bool → Bool → Bool) (r s : Result (Option (Ctor R))) (o p : Option (Ctor R)) (c : Ctor R)
      → ((d : Ctor R) → o ≡ some d → r ≡ ok (some d))
      → ((d : Ctor R) → p ≡ some d → s ≡ ok (some d))
      → both_bools f (as_bool o) (as_bool p) ≡ some c
      → (r >>= (λ x. s >>= (λ y. ok (both_bools f (as_bool x) (as_bool y))))) ≡ ok (some c)
  pair_complete f r s o p c ih1 ih2 h =
      let ((a, e), (b, k)) = both_bools_sound f o p c h in
      ap₂ (λ r s. r >>= (λ x. s >>= (λ y. ok (both_bools f (as_bool x) (as_bool y))))) (ih1 a e)
        (ih2 b k)
      ∙ ap ok (ap₂ (λ x y. both_bools f (as_bool x) (as_bool y)) (sym e) (sym k) ∙ h)

module _ {R : Type 0} (doubles : Doubles R) where
  -- What is folded is the value, without regard to the limits of the types.
  visit-evaluate :
      (e : Expression R) (c : Ctor R)
      → visit doubles e ≡ ok (some c)
      → evaluate doubles false e ≡ some c
  unfolding visit evaluate
  visit-evaluate (ctor d) c h = cc
  visit-evaluate (grouping e) c h = visit-evaluate e c h
  visit-evaluate (logical_or a b) c h =
      pair_sound (λ p q. p || q) (visit doubles a) (visit doubles b) (evaluate doubles false a)
        (evaluate doubles false b) c (visit-evaluate a) (visit-evaluate b) h
  visit-evaluate (logical_and a b) c h =
      pair_sound (λ p q. p && q) (visit doubles a) (visit doubles b) (evaluate doubles false a)
        (evaluate doubles false b) c (visit-evaluate a) (visit-evaluate b) h
  visit-evaluate (logical_not e) c h =
      step-Sound refl (λ o d k. ok_injective k) (visit-evaluate e) h
  visit-evaluate (constant_id true e) c h = cc
  visit-evaluate (constant_id false e) c h = visit-evaluate e c h
  visit-evaluate (other_id n) c h = cc
  visit-evaluate (sign_neg k e) c h =
      step-Sound (negation-none doubles k) (negation-Sound doubles k) (visit-evaluate e) h
  visit-evaluate (integer_ctor t s w e) c h =
      step-Sound (replace_integer-none doubles t s w) (replace_integer-Sound doubles t s w)
        (visit-evaluate e) h
  visit-evaluate (interval_ctor a e) c h =
      step-Sound (replace_interval-none doubles a) (replace_interval-Sound doubles a)
        (visit-evaluate e) h
  visit-evaluate (time_ctor a e) c h =
      step-Sound (replace_time-none doubles a) (replace_time-Sound doubles a) (visit-evaluate e) h
  visit-evaluate (rebuilt k e) c h = step-Sound refl (rebuilds-Sound doubles k) (visit-evaluate e) h
  visit-evaluate (other n) c h = cc

  -- What has a value within the limits is folded.
  evaluate-visit :
      (e : Expression R) (c : Ctor R)
      → evaluate doubles true e ≡ some c
      → visit doubles e ≡ ok (some c)
  unfolding visit evaluate
  evaluate-visit (ctor d) c h = kept_same d c h
  evaluate-visit (grouping e) c h = evaluate-visit e c h
  evaluate-visit (logical_or a b) c h =
      pair_complete (λ p q. p || q) (visit doubles a) (visit doubles b) (evaluate doubles true a)
        (evaluate doubles true b) c (evaluate-visit a) (evaluate-visit b) h
  evaluate-visit (logical_and a b) c h =
      pair_complete (λ p q. p && q) (visit doubles a) (visit doubles b) (evaluate doubles true a)
        (evaluate doubles true b) c (evaluate-visit a) (evaluate-visit b) h
  evaluate-visit (logical_not e) c h = step-Complete refl (λ o d k. ap ok k) (evaluate-visit e) h
  evaluate-visit (constant_id true e) c h = cc
  evaluate-visit (constant_id false e) c h = evaluate-visit e c h
  evaluate-visit (other_id n) c h = cc
  evaluate-visit (sign_neg k e) c h =
      step-Complete (value_negated-none doubles k) (negation-Complete doubles k) (evaluate-visit e)
        h
  evaluate-visit (integer_ctor t s w e) c h =
      step-Complete (value_integer-none doubles t s w) (replace_integer-Complete doubles t s w)
        (evaluate-visit e) h
  evaluate-visit (interval_ctor a e) c h =
      step-Complete (value_interval-none doubles a) (replace_interval-Complete doubles a)
        (evaluate-visit e) h
  evaluate-visit (time_ctor a e) c h =
      step-Complete (value_time-none doubles a) (replace_time-Complete doubles a) (evaluate-visit e)
        h
  evaluate-visit (rebuilt k e) c h =
      step-Complete refl (rebuilds-Complete doubles k) (evaluate-visit e) h
  evaluate-visit (other n) c h = cc

  caught-some :
      (r : Result (Option (Ctor R))) (c : Ctor R) → caught r ≡ ok (some c) → r ≡ ok (some c)
  caught-some (ok o) c h = h
  caught-some (err undefined) c h = cc
  caught-some (err _) c h = cc

  -- What a constant expression is folded to is its value as computed without the limits of the types:
  -- no step wraps around or goes wrong.
  pub fold_constant-evaluate :
      (e : Expression R) (c : Ctor R)
      → fold_constant doubles e ≡ ok (some c)
      → evaluate doubles false e ≡ some c
  unfolding fold_constant
  fold_constant-evaluate e c h =
      (elim (is_resolved_id e)
          as (λ b.
            (if b then ok none else caught (visit doubles e)) ≡ ok (some c)
            → evaluate doubles false e ≡ some c) [
              | true ↦ λ h. cc
              | false ↦ λ h. visit-evaluate e c (caught-some (visit doubles e) c h)
            ])
        h

  -- An expression that is no name and that has a value when all its parts are within the limits of
  -- their types is folded to this value, without an error.
  pub evaluate-fold_constant :
      (e : Expression R) (c : Ctor R)
      → is_resolved_id e ≡ false
      → evaluate doubles true e ≡ some c
      → fold_constant doubles e ≡ ok (some c)
  unfolding fold_constant
  evaluate-fold_constant e c n h = rw n (ap caught (evaluate-visit e c h))
