-- ===== src/Integer/Bits.antt =====
-- The bitwise operations, as arithmetic.
use Prim.Native.Nat.{max, bit_and, bit_or, digits, bit_and-bitwise, bit_or-bitwise}
use spicy.Base.{ℕ, zero, suc, ◌+◌, ◌*◌, ◌/◌, ◌%◌, ◌≤◌, ◌<◌, ◌≡◌, refl, sym, ap, ◌∙◌, min, arith}

module _ (z : ℕ → ℕ) (f : ℕ → ℕ → ℕ) where
  -- With digits enough to go, it does not matter how many.
  spare_digits : (a b n m : ℕ) → a ≤ n → a ≤ m → digits z f n a b ≡ digits z f m a b
  spare_digits zero b zero zero p q = refl
  spare_digits zero b zero (suc m) p q = refl
  spare_digits zero b (suc n) zero p q = refl
  spare_digits zero b (suc n) (suc m) p q = refl
  spare_digits (suc a) b zero m p q = absurd (omega arith)
  spare_digits (suc a) b (suc n) zero p q = absurd (omega arith)
  spare_digits (suc a) b (suc n) (suc m) p q =
      ap (λ t. t * 2 + f (suc a % 2) (b % 2))
        (spare_digits (suc a / 2) (b / 2) n m (omega arith) (omega arith))

or_zero_left : (b : ℕ) → bit_or 0 b ≡ b
or_zero_left b = bit_or-bitwise 0 b

or_lowest : (a b : ℕ) → bit_or a b ≡ bit_or (a / 2) (b / 2) * 2 + max (a % 2) (b % 2)
or_lowest zero b = omega (arith, or_zero_left b, or_zero_left (b / 2))
or_lowest (suc a) b =
    bit_or-bitwise (suc a) b
    ∙ ap (λ t. t * 2 + max (suc a % 2) (b % 2))
        (spare_digits (λ b. b) max (suc a / 2) (b / 2) a (suc a / 2) (omega arith) (omega arith)
          ∙ sym (bit_or-bitwise (suc a / 2) (b / 2)))

and_zero_left : (b : ℕ) → bit_and 0 b ≡ 0
and_zero_left b = bit_and-bitwise 0 b

pub and_lowest : (a b : ℕ) → bit_and a b ≡ bit_and (a / 2) (b / 2) * 2 + min (a % 2) (b % 2)
and_lowest zero b = omega (arith, and_zero_left b, and_zero_left (b / 2))
and_lowest (suc a) b =
    bit_and-bitwise (suc a) b
    ∙ ap (λ t. t * 2 + min (suc a % 2) (b % 2))
        (spare_digits (λ b. zero) min (suc a / 2) (b / 2) a (suc a / 2) (omega arith) (omega arith)
          ∙ sym (bit_and-bitwise (suc a / 2) (b / 2)))

or_none : (n a : ℕ) → a ≤ n → bit_or a 0 ≡ a
or_none n zero h = or_zero_left 0
or_none zero (suc a) h = absurd (omega arith)
or_none (suc n) (suc a) h = omega (arith, or_lowest (suc a) 0, or_none n (suc a / 2) (omega arith))

or_double : (a b : ℕ) → bit_or (a * 2) b ≡ bit_or a (b / 2) * 2 + b % 2
or_double a b =
    or_lowest (a * 2) b
    ∙ ap (λ t. bit_or t (b / 2) * 2 + max (a * 2 % 2) (b % 2)) (half a)
    ∙ (omega arith)
  where
    half : (a : ℕ) → a * 2 / 2 ≡ a
    half a = omega arith

twice : ℕ → ℕ
twice zero = 1
twice (suc k) = twice k * 2

regroup : (a p : ℕ) → a * (p * 2) ≡ a * p * 2
regroup a p = omega arith

or_shifted : (k a b : ℕ) → b < twice k → bit_or (a * twice k) b ≡ a * twice k + b
unfolding twice
or_shifted zero a b h =
    let e : b ≡ 0 = omega arith in
    ap (bit_or (a * 1)) e ∙ or_none (a * 1) (a * 1) (omega arith) ∙ (omega (arith, e))
or_shifted (suc k) a b h =
    ap (λ t. bit_or t b) (regroup a (twice k))
    ∙ or_double (a * twice k) b
    ∙ omega (arith, or_shifted k a (b / 2) (omega arith), regroup a (twice k))

-- A byte that is or-ed to a shifted number is added.
pub or_byte : (a b : ℕ) → b < 256 → bit_or (a * 256) b ≡ a * 256 + b
unfolding twice
or_byte a b h = or_shifted 8 a b h

pub and_odd : (a m : ℕ) → bit_and a (suc (m * 2)) ≡ bit_and (a / 2) m * 2 + a % 2
and_odd a m =
    and_lowest a (suc (m * 2))
    ∙ ap (λ t. bit_and (a / 2) t * 2 + min (a % 2) (suc (m * 2) % 2)) (half m)
    ∙ (omega arith)
  where
    half : (m : ℕ) → suc (m * 2) / 2 ≡ m
    half m = omega arith

pub and_none : (n a : ℕ) → a ≤ n → bit_and a 0 ≡ 0
and_none n zero h = and_zero_left 0
and_none zero (suc a) h = absurd (omega arith)
and_none (suc n) (suc a) h =
    omega (arith, and_lowest (suc a) 0, and_none n (suc a / 2) (omega arith))

and_15 : (a : ℕ) → bit_and a 15 ≡ a % 16
and_15 a = omega (
  arith,
  and_odd a 7,
  and_odd (a / 2) 3,
  and_odd (a / 2 / 2) 1,
  and_odd (a / 2 / 2 / 2) 0,
  and_none (a / 2 / 2 / 2 / 2) (a / 2 / 2 / 2 / 2) (omega arith),
)

pub and_255 : (a : ℕ) → bit_and a 255 ≡ a % 256
and_255 a = omega (
  arith,
  and_odd a 127,
  and_odd (a / 2) 63,
  and_odd (a / 2 / 2) 31,
  and_odd (a / 2 / 2 / 2) 15,
  and_15 (a / 2 / 2 / 2 / 2),
)
