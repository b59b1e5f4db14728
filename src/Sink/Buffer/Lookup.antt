-- ===== src/Sink/Buffer/Lookup.antt =====
-- The buffer as a map from sequence numbers to bytes, and when it is in order.
use spicy.Base.{
  ℕ, ◌-◌, ◌≤◌, ◌<◌, ◌≡◌, refl, sym, ap, ◌∙◌, inl, inr, ◌&&◌, List, [], ◌∷◌, ◌++◌, length, get_elem?,
  Option, none, some, arith, leb, ltb, if◌then◌else◌, le→leb, lt→leb_false, lt→ltb, le-or-lt,
}
use spicy.Sink.Buffer.{Chunk, back_rupper, before, from}

-- What is known of one sequence number: nothing, that its byte is missing, or its byte.
abbrev byte_of : Option (List ℕ) → ℕ → Option ℕ
byte_of none i = none
byte_of (some d) i = get_elem? d i

abbrev pub or_else {ℓ} : {A : Type ℓ} → Option A → Option A → Option A
or_else none b = b
or_else (some a) b = some a

abbrev pub lookup_chunk : Chunk → ℕ → Option (Option ℕ)
lookup_chunk c s =
    if leb c.rseq s && ltb s c.rupper then some (byte_of c.bytes (s - c.rseq)) else none

abbrev pub lookup : List Chunk → ℕ → Option (Option ℕ)
lookup [] s = none
lookup (c ∷ cs) s = or_else (lookup_chunk c s) (lookup cs s)

-- The data is as long as the range of sequence numbers that it stands for.
abbrev pub Fills : Option (List ℕ) → ℕ → Type 0
Fills none n = Unit {0}
Fills (some d) n = length d ≡ n

-- The chunks come in order, do not overlap, are not empty, and begin at `lo` or behind it.
abbrev pub Ordered : ℕ → List Chunk → Type 0
Ordered lo [] = Unit {0}
Ordered lo (c ∷ cs) =
    (lo ≤ c.rseq) × (c.rseq < c.rupper) × Fills c.bytes (c.rupper - c.rseq) × Ordered c.rupper cs

abbrev pub end_of : ℕ → List Chunk → ℕ
end_of lo [] = lo
end_of lo (c ∷ cs) = end_of c.rupper cs

pub or_else_assoc {ℓ} :
    {A : Type ℓ} (a b c : Option A) → or_else (or_else a b) c ≡ or_else a (or_else b c)
or_else_assoc none b c = refl
or_else_assoc (some a) b c = refl

pub or_else-none {ℓ} : {A : Type ℓ} (a : Option A) → or_else a none ≡ a
or_else-none none = refl
or_else-none (some a) = refl

pub lookup-append :
    (xs ys : List Chunk) (s : ℕ) → lookup (xs ++ ys) s ≡ or_else (lookup xs s) (lookup ys s)
lookup-append [] ys s = refl
lookup-append (x ∷ xs) ys s =
    ap (or_else (lookup_chunk x s)) (lookup-append xs ys s)
    ∙ sym (or_else_assoc (lookup_chunk x s) (lookup xs s) (lookup ys s))

pub lookup_chunk_below : (c : Chunk) (s : ℕ) → s < c.rseq → lookup_chunk c s ≡ none
lookup_chunk_below c s h = rw (lt→leb_false _ _ h)

pub lookup_chunk_above : (c : Chunk) (s : ℕ) → c.rupper ≤ s → lookup_chunk c s ≡ none
lookup_chunk_above c s h = ground arith

pub lookup_chunk_inside :
    (c : Chunk) (s : ℕ)
    → c.rseq ≤ s
    → s < c.rupper
    → lookup_chunk c s ≡ some (byte_of c.bytes (s - c.rseq))
lookup_chunk_inside c s h k = rw (le→leb _ _ h, lt→ltb _ _ k)

pub Ordered-le : (lo : ℕ) (cs : List Chunk) → Ordered lo cs → lo ≤ end_of lo cs
Ordered-le lo [] o = omega arith
Ordered-le lo (c ∷ cs) o = omega (arith, Ordered-le c.rupper cs o.3)

pub lookup_below : (lo s : ℕ) (cs : List Chunk) → Ordered lo cs → s < lo → lookup cs s ≡ none
lookup_below lo s [] o h = refl
lookup_below lo s (c ∷ cs) o h =
    rw (lookup_chunk_below c s (omega arith)) (lookup_below c.rupper s cs o.3 (omega arith))

pub lookup_above :
    (lo s : ℕ) (cs : List Chunk) → Ordered lo cs → end_of lo cs ≤ s → lookup cs s ≡ none
lookup_above lo s [] o h = refl
lookup_above lo s (c ∷ cs) o h =
    rw (lookup_chunk_above c s (omega (arith, Ordered-le c.rupper cs o.3)))
      (lookup_above c.rupper s cs o.3 h)

pub Ordered-append :
    (lo : ℕ) (xs ys : List Chunk)
    → Ordered lo xs
    → Ordered (end_of lo xs) ys
    → Ordered lo (xs ++ ys)
Ordered-append lo [] ys o p = p
Ordered-append lo (x ∷ xs) ys o p = (o.0, o.1, o.2, Ordered-append x.rupper xs ys o.3 p)

pub end_of-append : (lo : ℕ) (xs ys : List Chunk) → end_of lo (xs ++ ys) ≡ end_of (end_of lo xs) ys
end_of-append lo [] ys = refl
end_of-append lo (x ∷ xs) ys = end_of-append x.rupper xs ys

pub Ordered-weaken : (lo hi : ℕ) (cs : List Chunk) → lo ≤ hi → Ordered hi cs → Ordered lo cs
Ordered-weaken lo hi [] h o = tt
Ordered-weaken lo hi (c ∷ cs) h o = (omega arith, o.1, o.2, o.3)

-- The chunk that a search stops at, and those before it.
pub before-from : (cs : List Chunk) (rseq : ℕ) → before cs rseq ++ from cs rseq ≡ cs
unfolding before from
before-from [] rseq = refl
before-from (c ∷ cs) rseq = ground (arith, before-from cs rseq)

pub Ordered-before : (lo rseq : ℕ) (cs : List Chunk) → Ordered lo cs → Ordered lo (before cs rseq)
unfolding before
Ordered-before lo rseq [] o = tt
Ordered-before lo rseq (c ∷ cs) o = elim (le-or-lt c.rupper rseq) [
  | inl h ↦ rw (le→leb _ _ h) (o.0, o.1, o.2, Ordered-before c.rupper rseq cs o.3)
  | inr h ↦ rw (lt→leb_false _ _ h) tt
]

pub end_of-before : (lo rseq : ℕ) (cs : List Chunk) → lo ≤ rseq → end_of lo (before cs rseq) ≤ rseq
unfolding before
end_of-before lo rseq [] h = h
end_of-before lo rseq (c ∷ cs) h = elim (le-or-lt c.rupper rseq) [
  | inl k ↦ rw (le→leb _ _ k) (end_of-before c.rupper rseq cs k)
  | inr k ↦ rw (lt→leb_false _ _ k) h
]

pub Ordered-from :
    (lo rseq : ℕ) (cs : List Chunk)
    → Ordered lo cs
    → Ordered (end_of lo (before cs rseq)) (from cs rseq)
unfolding before from
Ordered-from lo rseq [] o = tt
Ordered-from lo rseq (c ∷ cs) o = elim (le-or-lt c.rupper rseq) [
  | inl h ↦ rw (le→leb _ _ h) (Ordered-from c.rupper rseq cs o.3)
  | inr h ↦ rw (lt→leb_false _ _ h) o
]

pub from_head :
    (rseq : ℕ) (cs : List Chunk) {c : Chunk} {ds : List Chunk}
    → from cs rseq ≡ c ∷ ds
    → rseq < c.rupper
unfolding from
from_head rseq [] e = cc
from_head rseq (b ∷ bs) {c} {ds} e = ground (arith, from_head rseq bs {c = c} {ds = ds})

pub length-from : (rseq : ℕ) (cs : List Chunk) → length (from cs rseq) ≤ length cs
unfolding from
length-from rseq [] = omega arith
length-from rseq (c ∷ cs) = ground (arith, length-from rseq cs)

pub back_rupper_cons : (c : Chunk) (cs : List Chunk) → back_rupper (c ∷ cs) ≡ end_of c.rupper cs
back_rupper_cons c [] = refl
back_rupper_cons c (d ∷ cs) = back_rupper_cons d cs
