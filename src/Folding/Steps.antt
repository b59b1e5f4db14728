-- ===== src/Folding/Steps.antt =====
-- That each step of the folder agrees with the one of the evaluation.
use spicy.Base.{
  ℕ, zero, suc, ◌≤◌, ◌≡◌, refl, ap, ◌∙◌, Bool, true, false, Option, none, some, Result, ok, err,
  ◌>>=◌, pos, negsuc, arith,
}
use spicy.Integer.{Width, w8, w16, w32, w64}
use spicy.Folding.{
  Doubles, Signedness, signed, unsigned, CtorKind, Ctor, bool, signed_integer, unsigned_integer,
  real, opaque, Negated, negated_signed, negated_unsigned, negated_real, negate64, safe_negate,
  to_int64, bind_some, as_bool, as_kind, both_bools, negation, replace_integer,
}
use spicy.Folding.Evaluation.{half_of, value_negated, value_integer, value_rebuilt, then_some}

module _ {R : Type 0} where
  -- The folder's step gives what the evaluation's does, and the other way around.
  abbrev pub Sound :
      (Option (Ctor R) → Result (Option (Ctor R))) → (Option (Ctor R) → Option (Ctor R)) → Type 0
  Sound f g = (o : Option (Ctor R)) (c : Ctor R) → f o ≡ ok (some c) → g o ≡ some c

  abbrev pub Complete :
      (Option (Ctor R) → Result (Option (Ctor R))) → (Option (Ctor R) → Option (Ctor R)) → Type 0
  Complete f g = (o : Option (Ctor R)) (c : Ctor R) → g o ≡ some c → f o ≡ ok (some c)

  -- A step on a part of an expression.
  pub step-Sound :
      {f : Option (Ctor R) → Result (Option (Ctor R))} {g : Option (Ctor R) → Option (Ctor R)}
      {r : Result (Option (Ctor R))} {o : Option (Ctor R)} {c : Ctor R}
      → f none ≡ ok none
      → Sound f g
      → ((d : Ctor R) → r ≡ ok (some d) → o ≡ some d)
      → (r >>= f) ≡ ok (some c)
      → g o ≡ some c
  step-Sound {f = f} {g = g} {r = r} {o = o} {c = c} n s ih h =
      (elim r
          as (λ r.
            ((d : Ctor R) → r ≡ ok (some d) → o ≡ some d)
            → (r >>= f) ≡ ok (some c)
            → g o ≡ some c) [
              | err e ↦ λ ih h. cc
              | ok none ↦ λ ih h. cc (n, h)
              | ok (some d) ↦ λ ih h. ap g (ih d refl) ∙ s (some d) c h
            ])
        ih h

  pub step-Complete :
      {f : Option (Ctor R) → Result (Option (Ctor R))} {g : Option (Ctor R) → Option (Ctor R)}
      {r : Result (Option (Ctor R))} {o : Option (Ctor R)} {c : Ctor R}
      → g none ≡ none
      → Complete f g
      → ((d : Ctor R) → o ≡ some d → r ≡ ok (some d))
      → g o ≡ some c
      → (r >>= f) ≡ ok (some c)
  step-Complete {f = f} {g = g} {r = r} {o = o} {c = c} n s ih h =
      (elim o
          as (λ o.
            ((d : Ctor R) → o ≡ some d → r ≡ ok (some d))
            → g o ≡ some c
            → (r >>= f) ≡ ok (some c)) [
              | none ↦ λ ih h. cc (n, h)
              | some d ↦ λ ih h. ap (λ r. r >>= f) (ih d refl) ∙ s (some d) c h
            ])
        ih h

half_of-le : (w : Width) → half_of w ≤ 9223372036854775808
half_of-le w8 = omega arith
half_of-le w16 = omega arith
half_of-le w32 = omega arith
half_of-le w64 = omega arith

module _ {R : Type 0} (doubles : Doubles R) where
  pub negation-Sound : (k : Negated) → Sound (negation doubles k) (value_negated doubles false k)
  unfolding negation negate64 safe_negate
  negation-Sound negated_signed (some (signed_integer (pos n) w)) c h = cc
  negation-Sound negated_signed (some (signed_integer (negsuc n) w)) c h = ground arith
  negation-Sound negated_unsigned (some (unsigned_integer n w)) c h = ground arith
  negation-Sound negated_real (some (real x)) c h = cc
  negation-Sound _ _ c h = cc

  pub negation-Complete :
      (k : Negated) → Complete (negation doubles k) (value_negated doubles true k)
  unfolding negation negate64 safe_negate
  negation-Complete negated_signed (some (signed_integer (pos n) w)) c h = ground arith
  negation-Complete negated_signed (some (signed_integer (negsuc n) w)) c h =
      ground (arith, half_of-le w)
  negation-Complete negated_unsigned (some (unsigned_integer zero w)) c h =
      ground (arith, half_of-le w)
  negation-Complete negated_unsigned (some (unsigned_integer (suc n) w)) c h =
      ground (arith, half_of-le w)
  negation-Complete negated_real (some (real x)) c h = cc
  negation-Complete _ _ c h = cc

  pub replace_integer-Sound :
      (t s : Signedness) (w : Width)
      → Sound (replace_integer doubles t s w) (value_integer doubles false t s w)
  unfolding replace_integer to_int64
  replace_integer-Sound signed signed w (some (signed_integer v u)) c h = cc
  replace_integer-Sound signed unsigned w (some (unsigned_integer v u)) c h = ground arith
  replace_integer-Sound unsigned signed w (some (signed_integer (pos n) u)) c h = cc
  replace_integer-Sound unsigned unsigned w (some (unsigned_integer v u)) c h = cc
  replace_integer-Sound _ _ w _ c h = cc

  pub replace_integer-Complete :
      (t s : Signedness) (w : Width)
      → Complete (replace_integer doubles t s w) (value_integer doubles true t s w)
  unfolding replace_integer to_int64
  replace_integer-Complete signed signed w (some (signed_integer v u)) c h = ground arith
  replace_integer-Complete signed unsigned w (some (unsigned_integer v u)) c h =
      ground (arith, half_of-le w)
  replace_integer-Complete unsigned signed w (some (signed_integer (pos n) u)) c h = ground arith
  replace_integer-Complete unsigned unsigned w (some (unsigned_integer v u)) c h = ground arith
  replace_integer-Complete _ _ w _ c h = cc

module _ {R : Type 0} where
  abbrev pub rebuilds : CtorKind → Option (Ctor R) → Result (Option (Ctor R))
  rebuilds k x = bind_some (as_kind k x) (λ n. ok (opaque k n))

  held_sound :
      (k : CtorKind) (o : Option ℕ) (c : Ctor R)
      → bind_some o (λ n. ok (opaque k n)) ≡ ok (some c)
      → then_some o (λ n. some (opaque k n)) ≡ some c
  held_sound k none c h = cc
  held_sound k (some n) c h = cc

  held_complete :
      (k : CtorKind) (o : Option ℕ) (c : Ctor R)
      → then_some o (λ n. some (opaque k n)) ≡ some c
      → bind_some o (λ n. ok (opaque k n)) ≡ ok (some c)
  held_complete k none c h = cc
  held_complete k (some n) c h = cc

  pub both_bools_sound :
      (f : Bool → Bool → Bool) (x y : Option (Ctor R)) (c : Ctor R)
      → both_bools f (as_bool x) (as_bool y) ≡ some c
      → ((a : Ctor R) × (x ≡ some a)) × ((b : Ctor R) × (y ≡ some b))
  both_bools_sound f (some a) (some b) c h = ((a, refl), (b, refl))
  both_bools_sound f (some (bool a)) none c h = cc
  both_bools_sound f _ none c h = cc
  both_bools_sound f none _ c h = cc

module _ {R : Type 0} (doubles : Doubles R) where
  pub rebuilds-Sound : (k : CtorKind) → Sound (rebuilds k) (value_rebuilt doubles false k)
  rebuilds-Sound k o c h = held_sound k (as_kind k o) c h

  pub rebuilds-Complete : (k : CtorKind) → Complete (rebuilds k) (value_rebuilt doubles true k)
  rebuilds-Complete k o c h = held_complete k (as_kind k o) c h

  -- Where a part has no value, a step has none.
  pub negation-none : (k : Negated) → negation doubles k none ≡ ok none
  unfolding negation
  negation-none negated_signed = refl
  negation-none negated_unsigned = refl
  negation-none negated_real = refl

  pub replace_integer-none :
      (t s : Signedness) (w : Width) → replace_integer doubles t s w none ≡ ok none
  unfolding replace_integer
  replace_integer-none signed signed w = refl
  replace_integer-none signed unsigned w = refl
  replace_integer-none unsigned signed w = refl
  replace_integer-none unsigned unsigned w = refl

  pub value_negated-none : (k : Negated) → value_negated doubles true k none ≡ none
  value_negated-none negated_signed = refl
  value_negated-none negated_unsigned = refl
  value_negated-none negated_real = refl

  pub value_integer-none :
      (t s : Signedness) (w : Width) → value_integer doubles true t s w none ≡ none
  value_integer-none t signed w = refl
  value_integer-none t unsigned w = refl
