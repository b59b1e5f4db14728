-- ===== src/Address/Masks.antt =====
-- `mask` (hilti/runtime/src/types/address.cc) as arithmetic on the number of an address.
use Prim.Native.Nat.{bit_and}
use spicy.Base.{
  ℕ, zero, suc, ◌+◌, ◌-◌, ◌*◌, ◌/◌, ◌%◌, ◌≤◌, ◌<◌, ◌≡◌, refl, sym, ap, ap₂, subst, ◌∙◌, false, ◌==◌,
  inl, inr, Bool-cases, ==_iff, ok, arith, le→ltb_false, lt→ltb, le-or-lt,
}
use spicy.Integer.{power}
use spicy.Integer.Ranges.{power-pos, regroup, and_shifted, and_mask}
use spicy.Address.{Address, clear_low, mask}
use native.Mathlib.Nat.{
  mod-eq_of_lt, add-mul-mod_self_right, div-div-eq-div-mul, mul-add-div_right, div-lt_iff_lt-mul,
  div-eq_of_lt, div-mul-le_self,
}

power-mul : (r l : ℕ) → power r * power l ≡ power (r + l)
power-mul r zero = one (power r) ∙ ap power same
  where
    one : (a : ℕ) → a * 1 ≡ a
    one a = omega arith

    same : r ≡ r + 0
    same = omega arith
power-mul r (suc l) =
    regroup (power r) (power l) ∙ ap (λ t. t * 2) (power-mul r l) ∙ ap power (same r l)
  where
    same : (r l : ℕ) → suc (r + l) ≡ r + suc l
    same r l = omega arith

expand : (x q : ℕ) → (x + q) * suc q ≡ x + q * (x + suc q)
expand x q = grind arith

assoc : (a b c : ℕ) → a * b * c ≡ a * (b * c)
assoc a b c = grind arith

distribute : (a b c : ℕ) → (a + b) * c ≡ a * c + b * c
distribute a b c = grind arith

split_suc : (r q : ℕ) → suc r * suc q ≡ r * suc q + suc q
split_suc r q = grind arith

less_one : (r q : ℕ) → suc r * suc q - 1 ≡ r * suc q + q
less_one r q = omega (arith, split_suc r q)

pred : (r : ℕ) → suc r - 1 ≡ r
pred r = omega arith

-- The mask, for the limit `r * q` of the type.
mask_low : (r q : ℕ) → 0 < r → 0 < q → (r * q - 1) * q % (r * q) ≡ (r - 1) * q
mask_low zero q h k = absurd (omega arith)
mask_low (suc r) zero h k = absurd (omega arith)
mask_low (suc r) (suc q) h k =
    ap₂ (λ a b. a * suc q % b) (less_one r q) (split_suc r q)
    ∙ ap (λ a. a % (r * suc q + suc q)) (expand (r * suc q) q)
    ∙ add-mul-mod_self_right (r * suc q) q (r * suc q + suc q)
    ∙ mod-eq_of_lt (omega arith)
    ∙ ap (λ t. t * suc q) (sym (pred r))

limit_parts : (k : ℕ) → k ≤ 64 → power 64 ≡ power (64 - k) * power k
limit_parts k h = ap power (parts k h) ∙ sym (power-mul (64 - k) k)
  where
    parts : (k : ℕ) → k ≤ 64 → 64 ≡ 64 - k + k
    parts k h = omega arith

pub clear_low-eq : (k a : ℕ) → k ≤ 64 → a < power 64 → clear_low k a ≡ a / power k * power k
clear_low-eq k a h b =
    let r = power (64 - k) in
    let q = power k in
    let e = limit_parts k h in
    ap (λ t. bit_and a ((t - 1) * q % t)) e
    ∙ ap (bit_and a) (mask_low r q (power-pos (64 - k)) (power-pos k))
    ∙ and_shifted k a (r - 1)
    ∙ ap (λ t. t * q) (and_mask (64 - k) (a / q))
    ∙ ap (λ t. t * q) (mod-eq_of_lt ((div-lt_iff_lt-mul (power-pos k)).1 (subst (λ t. a < t) e b)))

-- The 128 bits of an address.
abbrev pub number : Address → ℕ
number a = a.a1 * power 64 + a.a2

abbrev pub InHalves : Address → Type 0
InHalves a = (a.a1 < power 64) × (a.a2 < power 64)

-- The number with its `k` lower bits cleared.
abbrev pub cleared : ℕ → ℕ → ℕ
cleared k n = n / power k * power k

cleared_high : (q p v w : ℕ) → 0 < p → w < p → v / q * q * p + 0 ≡ (v * p + w) / (p * q) * (p * q)
cleared_high q p v w h k = sym (
    ap (λ t. t * (p * q))
      (sym (div-div-eq-div-mul (v * p + w) p q)
        ∙ ap (λ t. t / q) (mul-add-div_right h v w ∙ ap (λ t. v + t) (div-eq_of_lt k))
        ∙ ap (λ t. t / q) (plus_zero v))
    ∙ regrouped (v / q) p q)
  where
    plus_zero : (a : ℕ) → a + 0 ≡ a
    plus_zero a = omega arith

    regrouped : (a p q : ℕ) → a * (p * q) ≡ a * q * p + 0
    regrouped a p q = grind arith

cleared_low : (r q v w : ℕ) → 0 < q → v * (r * q) + w / q * q ≡ (v * (r * q) + w) / q * q
cleared_low r q v w h = sym (
    ap (λ t. (t + w) / q * q) (sym (assoc v r q))
    ∙ ap (λ t. t * q) (mul-add-div_right h (v * r) w)
    ∙ distribute (v * r) (w / q) q
    ∙ ap (λ t. t + w / q * q) (assoc v r q))

-- What is left of an address: its family, and its number with the lower bits cleared.
abbrev pub IsMasked : Address → ℕ → Address → Type 0
IsMasked a width m =
    (m.family ≡ a.family) × InHalves m × (number m ≡ cleared (128 - width) (number a))

module _ (a : Address) (width : ℕ) (h : InHalves a) where
  IsMasked-high :
      width ≤ 64
      → IsMasked a width (record {
        a1 = a.a1 / power (64 - width) * power (64 - width);
        a2 = 0;
        family = a.family;
      })
  IsMasked-high k =
      let q = power (64 - width) in
      let whole = power-mul 64 (64 - width) ∙ ap power (bits k) in
      (
        refl,
        (omega (arith, div-mul-le_self a.a1 q, h.0), power-pos 64),
        cleared_high q (power 64) a.a1 a.a2 (power-pos 64) h.1 ∙ ap (λ t. number a / t * t) whole,
      )
    where
      bits : width ≤ 64 → 64 + (64 - width) ≡ 128 - width
      bits k = omega arith

  IsMasked-low :
      64 ≤ width
      → width ≤ 128
      → IsMasked a width (record {
        a1 = a.a1;
        a2 = a.a2 / power (128 - width) * power (128 - width);
        family = a.family;
      })
  IsMasked-low k l =
      let q = power (128 - width) in
      let r = power (64 - (128 - width)) in
      let e = limit_parts (128 - width) (omega arith) in
      (
        refl,
        (h.0, omega (arith, div-mul-le_self a.a2 q, h.1)),
        ap (λ t. a.a1 * t + a.a2 / q * q) e
            ∙ cleared_low r q a.a1 a.a2 (power-pos (128 - width))
            ∙ ap (λ t. (a.a1 * t + a.a2) / q * q) (sym e),
      )

  IsMasked-all : IsMasked a 0 (record { a1 = 0; a2 = 0; family = a.family })
  IsMasked-all = (refl, (omega arith, omega arith), omega (arith, h.0, h.1))

abbrev WithMask : Address → ℕ → Type 0
WithMask a width = (m : Address) × (mask a width ≡ ok m) × IsMasked a width m

module _ (a : Address) (h : InHalves a) where
  mask_zero : WithMask a 0
  unfolding mask
  mask_zero = (record { a1 = 0; a2 = 0; family = a.family }, refl, IsMasked-all a 0 h)

  mask_high : (width : ℕ) → (width == 0) ≡ false → width < 64 → WithMask a width
  unfolding mask
  mask_high width e l =
      let high : ℕ → Address = λ v. record { a1 = v; a2 = 0; family = a.family } in
      (
        high (a.a1 / power (64 - width) * power (64 - width)),
        rw
            (
              e,
              le→ltb_false 128 width (omega arith),
              lt→ltb width 64 l,
              le→ltb_false 64 width (omega arith),
            )
            (ap (λ v. ok (high v)) (clear_low-eq (64 - width) a.a1 (omega arith) h.0)),
        IsMasked-high a width h (omega arith),
      )

  mask_half : WithMask a 64
  unfolding mask
  mask_half = (
    record { a1 = a.a1; a2 = 0; family = a.family },
    refl,
    subst (λ v. IsMasked a 64 (record { a1 = v; a2 = 0; family = a.family })) (over_one a.a1)
        (IsMasked-high a 64 h (omega arith)),
  )
    where
      over_one : (v : ℕ) → v / 1 * 1 ≡ v
      over_one v = omega arith

  mask_low_half : (width : ℕ) → (width == 0) ≡ false → 64 < width → width ≤ 128 → WithMask a width
  unfolding mask
  mask_low_half width e l k =
      let low : ℕ → Address = λ v. record { a1 = a.a1; a2 = v; family = a.family } in
      (
        low (a.a2 / power (128 - width) * power (128 - width)),
        rw (e, le→ltb_false 128 width k, le→ltb_false width 64 (omega arith), lt→ltb 64 width l)
            (ap (λ v. ok (low v)) (clear_low-eq (128 - width) a.a2 (omega arith) h.1)),
        IsMasked-low a width h (omega arith) k,
      )

-- Masking an address to a width of at most 128 bits gives an address of the family whose number is
-- that of the address with all bits behind the first `width` cleared.
pub mask-IsMasked :
    (a : Address) (width : ℕ)
    → width ≤ 128
    → InHalves a
    → (m : Address) × (mask a width ≡ ok m) × IsMasked a width m
mask-IsMasked a width k h = elim (Bool-cases (width == 0)) [
  | inl e ↦ subst (WithMask a) (sym ((==_iff width 0).0 e)) (mask_zero a h)
  | inr e ↦ elim (le-or-lt width 64) [
    | inl l ↦ elim (le-or-lt 64 width) [
      | inl m ↦ let half : 64 ≡ width = omega arith in subst (WithMask a) half (mask_half a h)
      | inr m ↦ mask_high a h width e m
    ]
    | inr m ↦ mask_low_half a h width e m k
  ]
]
