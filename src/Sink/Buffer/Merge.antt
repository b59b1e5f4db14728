-- ===== src/Sink/Buffer/Merge.antt =====
-- `_addAndCheck` as a whole: it returns, and merges the new data into the buffer.
use spicy.Base.{
  ℕ, zero, suc, ◌-◌, ◌≤◌, ◌<◌, ◌≡◌, refl, sym, ap, ◌∙◌, inl, inr, List, [], ◌∷◌, ◌++◌, length,
  Option, none, some, arith, ◌==◌, le→leb, lt→leb_false, le-or-lt, Result, ok, Bool-cases, ==_iff,
  subst,
}
use spicy.Sink.Buffer.{
  Chunk, chunk, Added, back_rupper, before, from, place, add_and_check, u64, appended,
}
use spicy.Sink.Buffer.Lookup.{
  or_else, lookup, lookup_chunk, Ordered, end_of, lookup-append, or_else-none, lookup_below,
  lookup_chunk_above, Ordered-append, end_of-append, before-from, Ordered-before, end_of-before,
  Ordered-from, from_head, length-from, back_rupper_cons, Ordered-le,
}
use spicy.Sink.Buffer.First.{Merges, resolve-Merges}
use mathlib.Core.List.{append_assoc, append-nil}

-- The new chunk goes to the end of the buffer.
appended-Merges :
    (lo rseq rupper : ℕ) (d : List ℕ) (cs : List Chunk)
    → Ordered lo cs
    → end_of lo cs ≤ rseq
    → rseq < rupper
    → rupper < u64
    → length d ≡ rupper - rseq
    → Merges lo cs (chunk (some d) rseq rupper) (ok (appended cs (chunk (some d) rseq rupper)))
appended-Merges lo rseq rupper d cs o h k l f =
    let new = chunk (some d) rseq rupper in
    (
      appended cs new,
      refl,
      Ordered-append lo cs (new ∷ []) o (h, k, f, tt),
      rw (end_of-append lo cs (new ∷ [])) l,
      λ n.
          lookup-append cs (new ∷ []) n
          ∙ ap (or_else (lookup cs n)) (or_else-none (lookup_chunk new n)),
    )

-- The new chunk comes completely before `c`, so the two have nothing in common.
apart :
    (rseq rupper n : ℕ) (d : List ℕ) (f : Option (Option ℕ)) (c : Chunk) (cs : List Chunk)
    → Ordered rupper (c ∷ cs)
    → or_else f (or_else (lookup_chunk (chunk (some d) rseq rupper) n) (lookup (c ∷ cs) n))
      ≡ or_else (or_else f (lookup (c ∷ cs) n)) (lookup_chunk (chunk (some d) rseq rupper) n)
apart rseq rupper n d f c cs o = elim (le-or-lt rupper n) [
  | inl above ↦
      rw (lookup_chunk_above (chunk (some d) rseq rupper) n above)
        (sym (or_else-none (or_else f (lookup (c ∷ cs) n))))
  | inr below ↦
      let e : lookup (c ∷ cs) n ≡ none = lookup_below rupper n (c ∷ cs) o below in
      ap (λ t. or_else f (or_else (lookup_chunk (chunk (some d) rseq rupper) n) t)) e
      ∙ ap (or_else f) (or_else-none _)
      ∙ ap (λ t. or_else t (lookup_chunk (chunk (some d) rseq rupper) n)) (sym (or_else-none f))
      ∙ ap (λ t. or_else (or_else f t) (lookup_chunk (chunk (some d) rseq rupper) n)) (sym e)
]

inserted-Merges :
    (lo rseq rupper : ℕ) (d : List ℕ) (front : List Chunk) (c : Chunk) (cs : List Chunk)
    → Ordered lo front
    → Ordered (end_of lo front) (c ∷ cs)
    → end_of c.rupper cs < u64
    → end_of lo front ≤ rseq
    → rseq < rupper
    → rupper ≤ c.rseq
    → length d ≡ rupper - rseq
    → Merges lo (front ++ (c ∷ cs)) (chunk (some d) rseq rupper) (
        ok (record {
          chunks = front ++ (chunk (some d) rseq rupper ∷ c ∷ cs);
          position = length front;
          events = [];
        }))
inserted-Merges lo rseq rupper d front c cs o p b h k m f =
    let new = chunk (some d) rseq rupper in
    (
      record { chunks = front ++ (new ∷ c ∷ cs); position = length front; events = [] },
      refl,
      Ordered-append lo front (new ∷ c ∷ cs) o (h, k, f, (m, p.1, p.2, p.3)),
      rw (end_of-append lo front (new ∷ c ∷ cs)) b,
      λ n.
          lookup-append front (new ∷ c ∷ cs) n
          ∙ apart rseq rupper n d (lookup front n) c cs (m, p.1, p.2, p.3)
          ∙ ap (λ t. or_else t (lookup_chunk new n)) (sym (lookup-append front (c ∷ cs) n)),
    )

at_end : (lo rseq : ℕ) (cs : List Chunk) → lo ≤ rseq → rseq ≡ back_rupper cs → end_of lo cs ≤ rseq
at_end lo rseq [] h e = h
at_end lo rseq (c ∷ cs) h e = omega (arith, back_rupper_cons c cs)

-- What a recursive call from the chunk `c` on has to do.
abbrev Continues : ℕ → ℕ → Chunk → List Chunk → (List Chunk → List ℕ → Result Added) → Type 0
Continues lo rupper c cs recurse =
    (front : List Chunk) (rest : List ℕ)
    → Ordered lo front
    → end_of lo front ≤ c.rseq
    → c.rupper < rupper
    → length rest ≡ rupper - c.rupper
    → Merges lo (front ++ (c ∷ cs)) (chunk (some rest) c.rupper rupper) (recurse front rest)

module _ (init lo rseq rupper : ℕ) (d : List ℕ) (not_empty : rseq < rupper) (bounded : rupper < u64)
    (fills : length d ≡ rupper - rseq) where
  place-Merges :
      (recurse : List Chunk → List Chunk → List ℕ → ℕ → Result Added) (front back : List Chunk)
      → Ordered lo front
      → Ordered (end_of lo front) back
      → end_of (end_of lo front) back < u64
      → end_of lo front ≤ rseq
      → ((c : Chunk) (cs : List Chunk) → back ≡ c ∷ cs → rseq < c.rupper)
      → ((c : Chunk) (cs : List Chunk)
          → back ≡ c ∷ cs
          → Continues lo rupper c cs (λ front' rest. recurse front' (c ∷ cs) rest c.rupper))
      → Merges lo
          (front ++ back)
          (chunk (some d) rseq rupper)
          (place recurse init (some d) rseq rupper front back)
  unfolding place
  place-Merges recurse front [] o p b h stops ih =
      rw append-nil (appended-Merges lo rseq rupper d front o h not_empty bounded fills)
  place-Merges recurse front (c ∷ cs) o p b h stops ih = elim (le-or-lt rupper c.rseq) [
    | inl k ↦
        rw (le→leb _ _ k) (inserted-Merges lo rseq rupper d front c cs o p b h not_empty k fills)
    | inr k ↦ rw (lt→leb_false _ _ k) (
        resolve-Merges lo init rseq rupper d front c cs o p b h not_empty bounded (stops c cs refl)
          k fills (λ front'. recurse front' (c ∷ cs)) (ih c cs refl))
  ]

length-from_self : (c : Chunk) (cs : List Chunk) → length (from (c ∷ cs) c.rupper) ≤ length cs
unfolding from
length-from_self c cs = ground (arith, length-from c.rupper cs)

-- Adding data to a buffer in order, below 2 ^ 64, with fuel for one more round than there are chunks
-- that the search does not pass over, returns a buffer in order, which has what it had, and where it
-- had nothing, the new data.
pub add_and_check-Merges :
    (fuel init lo rseq rupper : ℕ) (d : List ℕ) (front back : List Chunk)
    → Ordered lo front
    → Ordered (end_of lo front) back
    → end_of (end_of lo front) back < u64
    → end_of lo front ≤ rseq
    → rseq < rupper
    → rupper < u64
    → length d ≡ rupper - rseq
    → length (from back rseq) < fuel
    → Merges lo
        (front ++ back)
        (chunk (some d) rseq rupper)
        (add_and_check fuel init (some d) rseq rupper front back)
unfolding add_and_check
add_and_check-Merges zero init lo rseq rupper d front back o p b h k l f g = absurd (omega arith)
add_and_check-Merges (suc fuel) init lo rseq rupper d front back o p b h k l f g =
    elim (Bool-cases (rseq == back_rupper (front ++ back))) [
      | inl e ↦ rw e (
          appended-Merges lo rseq rupper d (front ++ back) (Ordered-append lo front back o p)
            (at_end lo rseq (front ++ back) (omega (arith, Ordered-le lo front o))
              ((==_iff _ _).0 e))
            k l f)
      | inr e ↦ rw e (
          subst
            (λ cs. Merges lo cs (chunk (some d) rseq rupper) (
              place
                (λ front' back' rest start.
                  add_and_check fuel init (some rest) start rupper front' back')
                init (some d) rseq rupper (front ++ before back rseq) (from back rseq)))
            (append_assoc front (before back rseq) (from back rseq)
              ∙ ap (λ t. front ++ t) (before-from back rseq))
            (place-Merges init lo rseq rupper d k l f
              (λ front' back' rest start.
                add_and_check fuel init (some rest) start rupper front' back')
              (front ++ before back rseq) (from back rseq)
              (Ordered-append lo front (before back rseq) o
                (Ordered-before (end_of lo front) rseq back p))
              (rw (end_of-append lo front (before back rseq))
                (Ordered-from (end_of lo front) rseq back p))
              (rw (end_of-append lo front (before back rseq)) whole_end)
              (rw (end_of-append lo front (before back rseq))
                (end_of-before (end_of lo front) rseq back h))
              (λ c cs q. from_head rseq back q)
              (λ c cs q front' rest o' h' k' f'.
                add_and_check-Merges fuel init lo c.rupper rupper rest front' (c ∷ cs) o'
                  (h', (rest_order q).1, (rest_order q).2, (rest_order q).3)
                  (subst (λ t. end_of stop t < u64) q whole_end) (omega (arith, (rest_order q).1))
                  k' l f' (omega (arith, length-from_self c cs, ap length q)))))
    ]
  where
    stop : ℕ
    stop = end_of (end_of lo front) (before back rseq)

    whole_end : end_of stop (from back rseq) < u64
    whole_end =
        subst (λ e. e < u64)
          (ap (end_of (end_of lo front)) (sym (before-from back rseq))
            ∙ end_of-append (end_of lo front) (before back rseq) (from back rseq))
          b

    rest_order : {c : Chunk} {cs : List Chunk} → from back rseq ≡ c ∷ cs → Ordered stop (c ∷ cs)
    rest_order q = subst (Ordered stop) q (Ordered-from (end_of lo front) rseq back p)
