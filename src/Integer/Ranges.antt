-- ===== src/Integer/Ranges.antt =====
-- Ranges of bits.
use Prim.Native.Nat.{bit_and}
use spicy.Base.{
  ℕ, zero, suc, ◌+◌, ◌-◌, ◌*◌, ◌/◌, ◌%◌, ◌≤◌, ◌<◌, ◌≡◌, ◌≢◌, refl, sym, ap, ap₂, ◌∙◌, inl, inr, min,
  true, false, arith, ◌==◌, ok, le→ltb_false, lt→leb_false, Bool-cases, ==_iff,
}
use spicy.Integer.{power, masked, BitOrder, lsb0, msb0, no_order, bits}
use spicy.Integer.Bits.{and_lowest, and_odd, and_none}
use native.Mathlib.Nat.{
  mod-eq_of_lt, add-mul-mod_self_right, div-div-eq-div-mul, mul-div_cancel, mod-lt, div-add-mod',
}

pub power-pos : (k : ℕ) → 0 < power k
power-pos zero = omega arith
power-pos (suc k) = omega (arith, power-pos k)

pub power_mono : (k m : ℕ) → k ≤ m → power k ≤ power m
power_mono zero m h = power-pos m
power_mono (suc k) zero h = absurd (omega arith)
power_mono (suc k) (suc m) h = omega (arith, power_mono k m (omega arith))

pub regroup : (a p : ℕ) → a * (p * 2) ≡ a * p * 2
regroup a p = omega arith

times_one : (a : ℕ) → a * 1 ≡ a
times_one a = omega arith

power-mul-le : (r l n : ℕ) → r + l ≤ n → power r * power l ≤ power n
power-mul-le r zero n h = omega (arith, times_one (power r), power_mono r n (omega arith))
power-mul-le r (suc l) zero h = absurd (omega arith)
power-mul-le r (suc l) (suc n) h =
    omega (arith, regroup (power r) (power l), power-mul-le r l n (omega arith))

swapped : (q p : ℕ) → q * p * 2 ≡ q * (p * 2)
swapped q p = sym (regroup q p)

-- A number by its half and its lowest bit, up to a power.
mod_double : (v p : ℕ) → 0 < p → v % (p * 2) ≡ v / 2 % p * 2 + v % 2
mod_double v p h =
    let r = v / 2 % p * 2 + v % 2 in
    ap (λ t. t % (p * 2)) parts
    ∙ add-mul-mod_self_right r (v / 2 / p) (p * 2)
    ∙ mod-eq_of_lt (omega (arith, mod-lt (v / 2) h))
  where
    parts : v ≡ v / 2 % p * 2 + v % 2 + v / 2 / p * (p * 2)
    parts = omega (arith, div-add-mod' (v / 2) p, regroup (v / 2 / p) p)

and_even : (v m : ℕ) → bit_and v (m * 2) ≡ bit_and (v / 2) m * 2
and_even v m =
    and_lowest v (m * 2)
    ∙ ap (λ t. bit_and (v / 2) t * 2 + min (v % 2) (m * 2 % 2)) (half m)
    ∙ (omega arith)
  where
    half : (m : ℕ) → m * 2 / 2 ≡ m
    half m = omega arith

over_one : (a : ℕ) → a / 1 ≡ a
over_one a = omega arith

pub and_shifted : (l v m : ℕ) → bit_and v (m * power l) ≡ bit_and (v / power l) m * power l
and_shifted zero v m =
    ap₂ bit_and (sym (over_one v)) (times_one m) ∙ sym (times_one (bit_and (v / 1) m))
and_shifted (suc l) v m =
    ap (bit_and v) (regroup m (power l))
    ∙ and_even v (m * power l)
    ∙ ap (λ t. t * 2) (and_shifted l (v / 2) m)
    ∙ ap (λ t. bit_and t m * power l * 2)
        (div-div-eq-div-mul v 2 (power l) ∙ ap (λ t. v / t) (twice (power l)))
    ∙ sym (regroup (bit_and (v / (power l * 2)) m) (power l))
  where
    twice : (p : ℕ) → 2 * p ≡ p * 2
    twice p = omega arith

pub and_mask : (k v : ℕ) → bit_and v (power k - 1) ≡ v % power k
and_mask zero v = and_none v v (omega arith) ∙ (omega arith)
and_mask (suc k) v =
    ap (bit_and v) (odd (power k) (power-pos k))
    ∙ and_odd v (power k - 1)
    ∙ ap (λ t. t * 2 + v % 2) (and_mask k (v / 2))
    ∙ sym (mod_double v (power k) (power-pos k))
  where
    odd : (p : ℕ) → 0 < p → p * 2 - 1 ≡ suc ((p - 1) * 2)
    odd p h = omega arith

product_below : (r l n : ℕ) → r + l ≤ n → (power r - 1) * power l < power n
product_below r l n h =
    omega (arith, less_one (power r) (power l) (power-pos r), power-mul-le r l n h, power-pos l)
  where
    pred : (a : ℕ) → suc a - 1 ≡ a
    pred a = omega arith

    less_one : (a b : ℕ) → 0 < a → (a - 1) * b + b ≡ a * b
    less_one zero b h = absurd (omega arith)
    less_one (suc a) b h = ap (λ t. t * b + b) (pred a) ∙ (omega arith)

-- The mask and the shift leave the bits from `lower` on, `range` of them.
masked-eq :
    (width v lower range : ℕ)
    → width ≤ 64
    → v < power width
    → lower + range ≤ width
    → 0 < range
    → masked width v lower range ≡ v / power lower % power range
masked-eq width v lower range w h k p = elim (Bool-cases (range == width)) [
  | inl e ↦ rw e (
      sym (
        ap₂ (λ l r. v / power l % power r) (none_below (same e)) (same e)
        ∙ ap (λ t. t % power width) (over_one v)
        ∙ mod-eq_of_lt h))
  | inr e ↦
      rw
        (
          e,
          mod-eq_of_lt {n = power range} {m = power 64} (strictly (narrower e)),
          mod-eq_of_lt {n = (power range - 1) * power lower} {m = power 64}
              (product_below range lower 64 (omega arith)),
        )
        (ap (λ t. t / power lower) (and_shifted lower v (power range - 1))
          ∙ mul-div_cancel (bit_and (v / power lower) (power range - 1)) (power-pos lower)
          ∙ and_mask range (v / power lower))
]
  where
    same : (range == width) ≡ true → range ≡ width
    same e = (==_iff range width).0 e

    none_below : range ≡ width → lower ≡ 0
    none_below e = omega arith

    narrower : (range == width) ≡ false → range < 64
    narrower e = ground arith

    strictly : range < 64 → power range < power 64
    strictly l = omega (arith, power-pos range, power_mono (suc range) 64 (omega arith))

-- Where the range begins, counted from the lowest bit.
abbrev pub first_bit : ℕ → ℕ → ℕ → BitOrder → ℕ
first_bit width lower upper msb0 = width - upper - 1
first_bit width lower upper _ = lower

-- `bits` of a value that fits a type of at most 64 bits, with limits in order and inside the type,
-- is, in both bit orders, the number that the bits between the limits are, the highest bit counting
-- as the first one where the order is MSB0.
pub bits-range :
    (width v lower upper : ℕ) (bo : BitOrder)
    → width ≤ 64
    → v < power width
    → lower ≤ upper
    → upper < width
    → bo ≢ no_order
    → bits width v lower upper bo
      ≡ ok (v / power (first_bit width lower upper bo) % power (upper - lower + 1))
unfolding bits
bits-range width v lower upper lsb0 w h k l n =
    rw (le→ltb_false upper lower k, lt→leb_false width upper l)
      (ap ok (masked-eq width v lower (upper - lower + 1) w h (omega arith) (omega arith)))
bits-range width v lower upper msb0 w h k l n =
    rw (le→ltb_false upper lower k, lt→leb_false width upper l)
      (ap ok (
        ap (masked width v (width - upper - 1)) mirrored
        ∙ masked-eq width v (width - upper - 1) (upper - lower + 1) w h (omega arith)
            (omega arith)))
  where
    mirrored : (width - lower - 1) - (width - upper - 1) + 1 ≡ upper - lower + 1
    mirrored = omega arith
bits-range width v lower upper no_order w h k l n = absurd (n refl)
