-- ===== src/Sink/Buffer/First.antt =====
-- `_addAndCheck` implements the policy `First`: of two bytes for one sequence number the first stays.
use spicy.Base.{
  ℕ, ◌+◌, ◌-◌, ◌≤◌, ◌<◌, ◌≡◌, refl, sym, ap, ap₂, ◌∙◌, ◌⊎◌, inl, inr, List, [], ◌∷◌, ◌++◌, length,
  take, drop, Option, none, some, arith, lt→ltb, le→ltb_false, le-or-lt, Result, ok, length-drop,
}
use spicy.Sink.Buffer.{
  recursed, recurse_behind, Chunk, chunk, Added, Event, split_off, overlap_report, overlap_length,
  resolve, u64, sub64,
}
use spicy.Sink.Buffer.Lookup.{
  or_else, lookup, lookup_chunk, Ordered, end_of, lookup-append, or_else-none, lookup_chunk_below,
  lookup_chunk_above, Ordered-append, end_of-append, Ordered-le,
}
use mathlib.Core.List.{append_assoc}
use spicy.Sink.Buffer.Parts.{
  IsSplit, split_off-IsSplit, merge_at, hidden, covered_by, sub64-eq, overlap_length-eq,
  overlap_report-ok, sub_back, split_parts,
}

-- The call returns a buffer in order that has what `old` has, and `x` where `old` has nothing.
abbrev pub Merges : ℕ → List Chunk → Chunk → Result Added → Type 0
Merges lo old x r =
    (a : Added) × (r ≡ ok a)
    × Ordered lo a.chunks
    × (end_of lo a.chunks < u64)
    × ((s : ℕ) → lookup a.chunks s ≡ or_else (lookup old s) (lookup_chunk x s))

recurse_behind-ok :
    (recurse : List ℕ → Result Added) (d : List ℕ) (len new_len : ℕ) (after : Added → Added)
    (stay a : Added)
    → len < new_len
    → len ≤ length d
    → recurse (drop len d) ≡ ok a
    → recurse_behind recurse (some d) len new_len after stay ≡ ok (after a)
recurse_behind-ok recurse d len new_len after stay a h k e =
    rw (lt→ltb len new_len h, sub_back d len k, e) refl

module _ (lo init rseq rupper : ℕ) (d : List ℕ) (front : List Chunk) (c : Chunk) (cs : List Chunk)
    (front_in_order : Ordered lo front) (back_in_order : Ordered (end_of lo front) (c ∷ cs))
    (bounded : end_of c.rupper cs < u64) (front_ends : end_of lo front ≤ rseq)
    (not_empty : rseq < rupper) (upper_bounded : rupper < u64) (not_before : rseq < c.rupper)
    (not_behind : c.rseq < rupper) (fills : length d ≡ rupper - rseq) where
  -- The chunks before what is placed, in order up to `c`.
  with_inserted :
      (ins : List Chunk)
      → Ordered (end_of lo front) ins
      → end_of (end_of lo front) ins ≤ c.rseq
      → Ordered lo (front ++ (ins ++ (c ∷ cs)))
  with_inserted ins o h = Ordered-append lo front (ins ++ (c ∷ cs)) front_in_order (
      Ordered-append (end_of lo front) ins (c ∷ cs) o
        (h, back_in_order.1, back_in_order.2, back_in_order.3))

  end_bound : (ins : List Chunk) → end_of lo (front ++ (ins ++ (c ∷ cs))) < u64
  end_bound ins =
      rw (end_of-append lo front (ins ++ (c ∷ cs)), end_of-append (end_of lo front) ins (c ∷ cs))
        bounded

  looked_up :
      (ins : List Chunk) (n : ℕ)
      → lookup (front ++ (ins ++ (c ∷ cs))) n
        ≡ or_else (lookup front n) (or_else (lookup ins n) (lookup (c ∷ cs) n))
  looked_up ins n =
      lookup-append front (ins ++ (c ∷ cs)) n
      ∙ ap (or_else (lookup front n)) (lookup-append ins (c ∷ cs) n)

  -- The merge at one sequence number: what follows the overlap is `m`, the rest of the new data.
  merged :
      (ins : List Chunk) (rest : List ℕ) (start n : ℕ) (m : Option (Option ℕ))
      → IsSplit (end_of lo front) rseq rupper d c ins rest start
      → ((x : Option ℕ) × (lookup (c ∷ cs) n ≡ some x))
        ⊎ (lookup_chunk (chunk (some rest) start rupper) n ≡ m)
      → or_else (or_else (lookup front n) (or_else (lookup ins n) (lookup (c ∷ cs) n))) m
        ≡ or_else (lookup (front ++ (c ∷ cs)) n) (lookup_chunk (chunk (some d) rseq rupper) n)
  merged ins rest start n m p k =
      merge_at (lookup front n) (lookup ins n) (lookup (c ∷ cs) n)
        (lookup_chunk (chunk (some rest) start rupper) n) m
        (hidden (end_of lo front) n c cs ins
          (omega arith, back_in_order.1, back_in_order.2, back_in_order.3) p.ordered p.ends)
        k
      ∙ ap₂ or_else (sym (lookup-append front (c ∷ cs) n)) (sym (p.parts n))

  c_end : c.rupper < u64
  c_end = omega (arith, Ordered-le c.rupper cs back_in_order.3)

  -- The new data ends within `c`.
  ends_within :
      (recurse : List Chunk → List ℕ → ℕ → Result Added)
      → rupper ≤ c.rupper
      → (ins : List Chunk) (rest : List ℕ) (start : ℕ)
      → split_off (some d) rseq c ≡ ok (record { inserted = ins; rest = some rest; start = start })
      → IsSplit (end_of lo front) rseq rupper d c ins rest start
      → Merges lo
          (front ++ (c ∷ cs))
          (chunk (some d) rseq rupper)
          (resolve recurse init (some d) rseq rupper front c cs)
  unfolding resolve
  ends_within recurse h ins rest start e p =
      let (ev, r) =
        overlap_report-ok init start (overlap_length start rupper c) rest c back_in_order.2 p.starts
          (omega (arith, p.before_upper)) in
      let len =
        overlap_length-eq start rupper c (omega (arith, p.before_end))
          (omega (arith, p.before_upper)) upper_bounded c_end in
      let new_len = sub64-eq rupper start (omega (arith, p.before_end)) upper_bounded in
      (
        record { chunks = front ++ (ins ++ (c ∷ cs)); position = length front; events = ev ∷ [] },
        rw
            (
              e,
              r,
              le→ltb_false (overlap_length start rupper c) (sub64 rupper start)
                  (omega (arith, len, new_len)),
            )
            refl,
        with_inserted ins p.ordered p.ends,
        end_bound ins,
        λ n.
            looked_up ins n
            ∙ sym (or_else-none _)
            ∙ merged ins rest start n none p (elim (le-or-lt start n) [
              | inr below ↦ inr (lookup_chunk_below (chunk (some rest) start rupper) n below)
              | inl k ↦ elim (le-or-lt c.rupper n) [
                | inl above ↦
                    inr (lookup_chunk_above (chunk (some rest) start rupper) n (omega arith))
                | inr inside ↦ inl (covered_by start n c cs p.starts k inside)
              ]
            ]),
      )

  regrouped :
      (ins : List Chunk) (n : ℕ)
      → lookup ((front ++ ins) ++ (c ∷ cs)) n
        ≡ or_else (lookup front n) (or_else (lookup ins n) (lookup (c ∷ cs) n))
  regrouped ins n = ap (λ t. lookup t n) (append_assoc front ins (c ∷ cs)) ∙ looked_up ins n

  seen_behind :
      {ins : List Chunk} (rest : List ℕ) (start n : ℕ)
      → IsSplit (end_of lo front) rseq rupper d c ins rest start
      → c.rupper < rupper
      → ((x : Option ℕ) × (lookup (c ∷ cs) n ≡ some x))
        ⊎ (lookup_chunk (chunk (some rest) start rupper) n
            ≡ lookup_chunk (chunk (some (drop (c.rupper - start) rest)) c.rupper rupper) n)
  seen_behind rest start n p h = elim (le-or-lt start n) [
    | inr below ↦ inr (
        lookup_chunk_below (chunk (some rest) start rupper) n below
        ∙ sym (
            lookup_chunk_below (chunk (some behind) c.rupper rupper) n
              (omega (arith, p.before_upper))))
    | inl k ↦ elim (le-or-lt c.rupper n) [
      | inr inside ↦ inl (covered_by start n c cs p.starts k inside)
      | inl above ↦ inr (
          split_parts rest start rupper c.rupper n p.before_upper h p.fills
          ∙ ap
              (λ t. or_else (or_else t none) (lookup_chunk (chunk (some behind) c.rupper rupper) n))
              (lookup_chunk_above (chunk (some (take (c.rupper - start) rest)) start c.rupper) n
                above))
    ]
  ]
    where
      behind : List ℕ
      behind = drop (c.rupper - start) rest

  goes_on :
      (recurse : List Chunk → List ℕ → ℕ → Result Added) (ins : List Chunk) (rest : List ℕ)
      (start : ℕ) (ev : Event) (a : Added)
      → split_off (some d) rseq c ≡ ok (record { inserted = ins; rest = some rest; start = start })
      → overlap_report init (some rest) start c (overlap_length start rupper c) ≡ ok ev
      → overlap_length start rupper c ≡ c.rupper - start
      → IsSplit (end_of lo front) rseq rupper d c ins rest start
      → c.rupper < rupper
      → recurse (front ++ ins) (drop (c.rupper - start) rest) c.rupper ≡ ok a
      → resolve recurse init (some d) rseq rupper front c cs ≡ ok (recursed front ins ev a)
  unfolding resolve
  goes_on recurse ins rest start ev a e r len p h ea =
      rw (e, r)
        (recurse_behind-ok (λ t. recurse (front ++ ins) t (start + overlap_length start rupper c))
          rest (overlap_length start rupper c) (sub64 rupper start) (recursed front ins ev) _ a
          (omega (
            arith,
            len,
            p.before_upper,
            sub64-eq rupper start (omega (arith, p.before_end)) upper_bounded,
          ))
          (omega (arith, len, p.fills))
          (ap₂ (λ k m. recurse (front ++ ins) (drop k rest) m) len
              (omega (arith, len, p.before_upper))
            ∙ ea))

  -- The new data goes on behind `c`.
  goes_beyond :
      (recurse : List Chunk → List ℕ → ℕ → Result Added)
      → ((front' : List Chunk) (rest : List ℕ)
          → Ordered lo front'
          → end_of lo front' ≤ c.rseq
          → c.rupper < rupper
          → length rest ≡ rupper - c.rupper
          → Merges lo
              (front' ++ (c ∷ cs))
              (chunk (some rest) c.rupper rupper)
              (recurse front' rest c.rupper))
      → c.rupper < rupper
      → (ins : List Chunk) (rest : List ℕ) (start : ℕ)
      → split_off (some d) rseq c ≡ ok (record { inserted = ins; rest = some rest; start = start })
      → IsSplit (end_of lo front) rseq rupper d c ins rest start
      → Merges lo
          (front ++ (c ∷ cs))
          (chunk (some d) rseq rupper)
          (resolve recurse init (some d) rseq rupper front c cs)
  unfolding resolve
  goes_beyond recurse ih h ins rest start e p =
      let (ev, r) =
        overlap_report-ok init start (overlap_length start rupper c) rest c back_in_order.2 p.starts
          (omega (arith, p.before_upper)) in
      let len : overlap_length start rupper c ≡ c.rupper - start = omega (
        arith,
        overlap_length-eq start rupper c (omega (arith, p.before_end))
            (omega (arith, p.before_upper)) upper_bounded c_end,
      ) in
      let behind = drop (c.rupper - start) rest in
      let (a, ea, oa, ba, la) =
        ih (front ++ ins) behind (Ordered-append lo front ins front_in_order p.ordered)
          (rw (end_of-append lo front ins) p.ends) h
          (omega (arith, length-drop (c.rupper - start) rest, p.fills)) in
      (
        recursed front ins ev a,
        goes_on recurse ins rest start ev a e r len p h ea,
        oa,
        ba,
        λ n.
            la n
            ∙ ap (λ t. or_else t (lookup_chunk (chunk (some behind) c.rupper rupper) n))
                (regrouped ins n)
            ∙ merged ins rest start n (lookup_chunk (chunk (some behind) c.rupper rupper) n) p
                (seen_behind rest start n p h),
      )

  pub resolve-Merges :
      (recurse : List Chunk → List ℕ → ℕ → Result Added)
      → ((front' : List Chunk) (rest : List ℕ)
          → Ordered lo front'
          → end_of lo front' ≤ c.rseq
          → c.rupper < rupper
          → length rest ≡ rupper - c.rupper
          → Merges lo
              (front' ++ (c ∷ cs))
              (chunk (some rest) c.rupper rupper)
              (recurse front' rest c.rupper))
      → Merges lo
          (front ++ (c ∷ cs))
          (chunk (some d) rseq rupper)
          (resolve recurse init (some d) rseq rupper front c cs)
  resolve-Merges recurse ih =
      let (ins, rest, start, e, p) =
        split_off-IsSplit (end_of lo front) rseq rupper d c fills front_ends back_in_order.0
          not_empty not_before not_behind back_in_order.1 in
      elim (le-or-lt rupper c.rupper) [
        | inl within ↦ ends_within recurse within ins rest start e p
        | inr beyond ↦ goes_beyond recurse ih beyond ins rest start e p
      ]
