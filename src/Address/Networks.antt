-- ===== src/Address/Networks.antt =====
-- Which addresses a network contains (hilti/runtime/include/types/network.h).
use spicy.Base.{
  pos, ℕ, ◌+◌, ◌-◌, ◌*◌, ◌/◌, ◌≤◌, ◌≡◌, ◌↔◌, refl, sym, ap, ◌∙◌, Bool, true, ◌==◌, and_true, ==_iff,
  ok, ◌>>=◌, arith, le→ltb_false,
}
use spicy.Integer.{power}
use spicy.Integer.Ranges.{power-pos}
use spicy.Address.{
  AddressFamily, no_family, ipv4, ipv6, Address, same_address, Network, masked_network, extra_bits,
  network_of, contains_address, prefix_length,
}
use spicy.Address.Masks.{number, InHalves, cleared, IsMasked, mask-IsMasked}
use native.Mathlib.Nat.{mul-div_cancel}

-- The lengths that a prefix of a family can have.
abbrev pub IsLength : AddressFamily → ℕ → Type 0
IsLength ipv4 n = n ≤ 32
IsLength ipv6 n = n ≤ 128
IsLength no_family n = ⊥

width_le : (f : AddressFamily) (n : ℕ) → IsLength f n → n + extra_bits f ≤ 128
width_le ipv4 n h = omega arith
width_le ipv6 n h = omega arith
width_le no_family n h = absurd h

network_of-masked_network :
    (p : Address) (n : ℕ) (f : AddressFamily)
    → p.family ≡ f
    → IsLength f n
    → network_of p (pos n) ≡ masked_network p (pos n) (extra_bits p.family)
unfolding network_of
network_of-masked_network p n ipv4 e h = rw (e, le→ltb_false 32 n h) refl
network_of-masked_network p n ipv6 e h = rw (e, le→ltb_false 128 n h) refl
network_of-masked_network p n no_family e h = absurd h

prefix_length_of :
    (q : Address) (n : ℕ) (f : AddressFamily)
    → q.family ≡ f
    → IsLength f n
    → prefix_length (record { prefix = q; length = n + extra_bits f }) ≡ n
prefix_length_of q n ipv4 e h = rw e (omega arith)
prefix_length_of q n ipv6 e h = rw e (omega arith)
prefix_length_of q n no_family e h = absurd h

same_address_iff :
    (a b : Address) → InHalves a → InHalves b → (same_address a b ≡ true) ↔ (number a ≡ number b)
same_address_iff a b h k = (
  λ e.
      let p = and_true (a.a1 == b.a1) (a.a2 == b.a2) e in
      let high = (==_iff a.a1 b.a1).0 p.0 in let low = (==_iff a.a2 b.a2).0 p.1 in omega arith,
  λ e.
      let high : a.a1 ≡ b.a1 = omega (arith, e, h.0, h.1, k.0, k.1) in
      let low : a.a2 ≡ b.a2 = omega (arith, e, h.0, h.1, k.0, k.1) in
      rw ((==_iff a.a1 b.a1).1 high, (==_iff a.a2 b.a2).1 low) refl,
)

cleared_iff : (k m n : ℕ) → (cleared k m ≡ cleared k n) ↔ (m / power k ≡ n / power k)
cleared_iff k m n = (
  λ e.
      sym (mul-div_cancel (m / power k) (power-pos k))
      ∙ ap (λ t. t / power k) e
      ∙ mul-div_cancel (n / power k) (power-pos k),
  λ e. ap (λ t. t * power k) e,
)

-- A network contains the addresses that agree with its prefix in the bits of its width.
abbrev pub Covers : Network → Address → Address → Type 0
Covers w p x =
    (b : Bool) × (contains_address w x ≡ ok b)
    × ((b ≡ true) ↔ (number x / power (128 - w.length) ≡ number p / power (128 - w.length)))

contains_address-Covers :
    (p q x : Address) (width : ℕ)
    → width ≤ 128
    → IsMasked p width q
    → InHalves x
    → Covers (record { prefix = q; length = width }) p x
unfolding contains_address
contains_address-Covers p q x width h m k =
    let y = mask-IsMasked x width h k in
    let same = same_address_iff y.0 q y.2.1 m.1 in
    let bits = cleared_iff (128 - width) (number x) (number p) in
    (
      same_address y.0 q,
      ap (λ z. z >>= (λ a. ok (same_address a q))) y.1,
      (λ e. bits.0 (sym y.2.2 ∙ same.0 e ∙ m.2), λ e. same.1 (y.2.2 ∙ bits.1 e ∙ sym m.2)),
    )

-- For an address of the families IPv4 and IPv6 and a length of at most 32 or 128, the network of this
-- prefix exists, has this length, and contains an address exactly if the two agree in all bits but
-- the lower ones that the length leaves out, IPv4 addresses being the lower 32 of 128 bits.
pub network_of-Covers :
    (p : Address) (n : ℕ)
    → InHalves p
    → IsLength p.family n
    → (w : Network) × (network_of p (pos n) ≡ ok w)
      × (prefix_length w ≡ n)
      × (w.length ≡ n + extra_bits p.family)
      × ((x : Address) → InHalves x → Covers w p x)
network_of-Covers p n h l =
    let width = n + extra_bits p.family in
    let m = mask-IsMasked p width (width_le p.family n l) h in
    (
      record { prefix = m.0; length = width },
      network_of-masked_network p n p.family refl l
          ∙ ap (λ z. z >>= (λ q. ok (record { prefix = q; length = width }))) m.1,
      prefix_length_of m.0 n p.family m.2.0 l,
      refl,
      λ x k. contains_address-Covers p m.0 x width (width_le p.family n l) m.2 k,
    )
