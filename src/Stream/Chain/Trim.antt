-- ===== src/Stream/Chain/Trim.antt =====
-- Trimming a chain, against the content that the chain stands for.
use spicy.Base.{
  ℕ, zero, suc, ◌+◌, ◌-◌, ◌≤◌, ◌<◌, ◌≡◌, refl, sym, subst, ap, ◌∙◌, ◌⊎◌, inl, inr, ◌≢◌, true, false,
  List, [], ◌∷◌, ◌++◌, length, drop, arith, All, ok, err, diverges, le-or-lt, le→leb, lt→leb_false,
  lt→ltb, length-drop, drop-append_left, drop-append_right, drop_all,
}
use spicy.Stream.Chunk.{Chunk, size, size_of, end_offset, in_range, is_gap, trim_payload, gap}
use spicy.Stream.Chunk
use spicy.Stream.Chunk.Content.{
  content_of, contents, Fits, length-content_of, trim_payload-Fits, content-trim_payload,
}
use spicy.Stream.Chain.{
  Chain, is_invalid, breaks, goes_on, trim_round, trim_rounds, trim_loop, trim,
}
use spicy.Stream.Chain.Linked.{Linked, IsWellFormed, content, ensure_valid-eq}

-- The offset does not lie strictly inside a gap.
abbrev pub OutsideGaps : ℕ → List Chunk → Type 0
OutsideGaps o = All (λ (c : Chunk). (is_gap c ≡ false) ⊎ (o ≤ c.offset) ⊎ (end_offset c ≤ o))

trim_payload-start :
    (p : Chunk.Payload)
    → Fits p
    → Fits (trim_payload p 0) × (content_of (trim_payload p 0) ≡ content_of p)
unfolding trim_payload
trim_payload-start (Chunk.array n b) h = (
  trim_payload-Fits (Chunk.array n b) 0 h (omega arith),
  content-trim_payload (Chunk.array n b) 0 h (omega arith) refl,
)
trim_payload-start (Chunk.vector b) h = (tt, refl)
trim_payload-start (Chunk.gap n) h = (tt, refl)

in_range-true : (c : Chunk) (o : ℕ) → c.offset ≤ o → o < end_offset c → in_range c o ≡ true
in_range-true c o h k = rw (le→leb _ _ h, lt→ltb _ _ k)

trim_chunk :
    (x : Chunk) (o : ℕ)
    → Fits x.payload
    → x.offset ≤ o
    → o < end_offset x
    → (is_gap x ≡ false) ⊎ (o ≤ x.offset) ⊎ (end_offset x ≤ o)
    → Fits (trim_payload x.payload (o - x.offset))
      × (content_of (trim_payload x.payload (o - x.offset))
          ≡ drop (o - x.offset) (content_of x.payload))
trim_chunk x o f h k (inl solid) = (
  trim_payload-Fits x.payload (o - x.offset) f (omega arith),
  content-trim_payload x.payload (o - x.offset) f (omega arith) solid,
)
trim_chunk x o f h k (inr (inl start)) =
    let e : o - x.offset ≡ 0 = omega arith in rw e (trim_payload-start x.payload f)
trim_chunk x o f h k (inr (inr passed)) = absurd (omega arith)

trim_chunk_end :
    (x : Chunk) (o : ℕ)
    → Fits x.payload
    → x.offset ≤ o
    → o < end_offset x
    → (is_gap x ≡ false) ⊎ (o ≤ x.offset) ⊎ (end_offset x ≤ o)
    → o + size_of (trim_payload x.payload (o - x.offset)) ≡ end_offset x
trim_chunk_end x o f h k g =
    let (f', e) = trim_chunk x o f h k g in
    omega (
      arith,
      length-content_of (trim_payload x.payload (o - x.offset)) f',
      length-content_of x.payload f,
      ap length e,
      length-drop (o - x.offset) (content_of x.payload),
    )

trim-eq :
    (x : Chunk) (o : ℕ)
    → x.offset ≤ o
    → o < end_offset x
    → Chunk.trim x o ≡ ok (record { offset = o; payload = trim_payload x.payload (o - x.offset) })
unfolding Chunk.trim
trim-eq x o h k = rw (in_range-true x o h k)

-- What is dropped from a chunk and its successors, where the whole chunk or a part of it goes.
drop_passed :
    (s o : ℕ) (x : Chunk) (xs : List Chunk)
    → Linked s (x ∷ xs)
    → end_offset x ≤ o
    → drop (o - s) (contents (x ∷ xs)) ≡ drop (o - end_offset x) (contents xs)
drop_passed s o x xs w h =
    ap (λ k. drop k (contents (x ∷ xs))) (omega (arith, length-content_of x.payload w.1))
    ∙ drop-append_right (o - end_offset x) (content_of x.payload) (contents xs)

drop_inside :
    (s o : ℕ) (x : Chunk) (xs : List Chunk)
    → Linked s (x ∷ xs)
    → s ≤ o
    → o < end_offset x
    → drop (o - s) (contents (x ∷ xs)) ≡ drop (o - x.offset) (content_of x.payload) ++ contents xs
drop_inside s o x xs w h k =
    ap (λ j. drop (o - j) (contents (x ∷ xs))) (sym w.0)
    ∙ drop-append_left (o - x.offset) (content_of x.payload) (contents xs)
        (omega (arith, length-content_of x.payload w.1))

abbrev pub cut : Chunk → ℕ → Chunk
cut x o = record { offset = o; payload = trim_payload x.payload (o - x.offset) }

-- What a round does with the head: it is passed, or trimmed, or neither.
pub round_passed :
    (n o : ℕ) (x : Chunk) (xs : List Chunk)
    → end_offset x ≤ o
    → trim_rounds (suc n) o (x ∷ xs) ≡ trim_rounds n o xs
unfolding trim_rounds trim_round
round_passed n o x xs h = rw (le→leb _ _ h) refl

pub round_inside :
    (n o : ℕ) (x : Chunk) (xs : List Chunk)
    → x.offset ≤ o
    → o < end_offset x
    → trim_rounds (suc n) o (x ∷ xs) ≡ ok (breaks (cut x o ∷ xs))
unfolding trim_rounds trim_round
round_inside n o x xs h k =
    rw (lt→leb_false _ _ k, in_range-true x o h k) (rw (trim-eq x o h k) refl)

pub round_before :
    (n o : ℕ) (x : Chunk) (xs : List Chunk)
    → o < x.offset
    → trim_rounds (suc n) o (x ∷ xs) ≡ trim_rounds n o (x ∷ xs)
unfolding trim_rounds trim_round
round_before n o x xs h =
    rw (lt→leb_false (end_offset x) o (omega arith), lt→leb_false x.offset o h) refl

trim_rounds_lem :
    (s o : ℕ) (cs : List Chunk)
    → Linked s cs
    → s ≤ o
    → OutsideGaps o cs
    → (cs' : List Chunk) × (trim_rounds (suc (length cs)) o cs ≡ ok (breaks cs'))
      × Linked o cs'
      × (contents cs' ≡ drop (o - s) (contents cs))
unfolding trim_rounds trim_round
trim_rounds_lem s o [] w h g = ([], refl, tt, sym (drop_all (o - s) [] (omega arith)))
trim_rounds_lem s o (x ∷ xs) w h g = elim (le-or-lt (end_offset x) o) [
  | inl passed ↦
      let (cs', e, w', k) = trim_rounds_lem (end_offset x) o xs w.2 passed g.1 in
      (
        cs',
        round_passed (suc (length xs)) o x xs passed ∙ e,
        w',
        k ∙ sym (drop_passed s o x xs w passed),
      )
  | inr inside ↦
      let (f, e) = trim_chunk x o w.1 (omega arith) inside g.0 in
      (
        cut x o ∷ xs,
        round_inside (suc (length xs)) o x xs (omega arith) inside,
        (
          refl,
          f,
          subst (λ k. Linked k xs) (sym (trim_chunk_end x o w.1 (omega arith) inside g.0)) w.2,
        ),
        ap (λ t. t ++ contents xs) e ∙ sym (drop_inside s o x xs w h inside),
      )
]

trim_loop_lem :
    (s o : ℕ) (cs : List Chunk)
    → Linked s cs
    → s ≤ o
    → OutsideGaps o cs
    → (cs' : List Chunk) × (trim_loop (suc (length cs)) o cs ≡ ok cs')
      × Linked o cs'
      × (contents cs' ≡ drop (o - s) (contents cs))
unfolding trim_loop
trim_loop_lem s o cs w h g =
    let (cs', e, w', k) = trim_rounds_lem s o cs w h g in (cs', rw e refl, w', k)

-- What a trim drops.
pub trim-drop :
    (c : Chain) (o : ℕ)
    → IsWellFormed c
    → c.state ≢ is_invalid
    → c.head_offset ≤ o
    → OutsideGaps o c.chunks
    → (c' : Chain) × (trim c o ≡ ok c')
      × IsWellFormed c'
      × (content c' ≡ drop (o - c.head_offset) (content c))
      × (c'.head_offset ≡ o)
      × (c'.state ≡ c.state)
unfolding trim
trim-drop c o w v h g =
    let (cs, e, w', k) = trim_loop_lem c.head_offset o c.chunks w h g in
    (record c { chunks = cs; head_offset = o }, rw (ensure_valid-eq c v, e), w', k, refl, refl)

rounds_before :
    (n o : ℕ) (x : Chunk) (xs : List Chunk)
    → o < x.offset
    → trim_rounds n o (x ∷ xs) ≡ ok (goes_on (x ∷ xs))
unfolding trim_rounds
rounds_before zero o x xs h = refl
rounds_before (suc n) o x xs h = round_before n o x xs h ∙ rounds_before n o x xs h

rounds_end :
    (s o : ℕ) (cs : List Chunk)
    → Linked s cs
    → s ≤ o
    → (cs' : List Chunk) × (trim_rounds (suc (length cs)) o cs ≡ ok (breaks cs'))
unfolding trim_rounds trim_round
rounds_end s o [] w h = ([], refl)
rounds_end s o (x ∷ xs) w h = elim (le-or-lt (end_offset x) o) [
  | inl passed ↦
      let (cs', e) = rounds_end (end_offset x) o xs w.2 passed in
      (cs', round_passed (suc (length xs)) o x xs passed ∙ e)
  | inr inside ↦ (cut x o ∷ xs, round_inside (suc (length xs)) o x xs (omega arith) inside)
]

trim-ended :
    (c : Chain) (o : ℕ) (cs : List Chunk)
    → c.state ≢ is_invalid
    → trim_rounds (suc (length c.chunks)) o c.chunks ≡ ok (breaks cs)
    → trim c o ≡ ok (record c { chunks = cs; head_offset = o })
unfolding trim trim_loop
trim-ended c o cs v e = rw (ensure_valid-eq c v, e) refl

trim-going_on :
    (c : Chain) (o : ℕ)
    → c.state ≢ is_invalid
    → trim_rounds (suc (length c.chunks)) o c.chunks ≡ ok (goes_on c.chunks)
    → trim c o ≡ err diverges
unfolding trim trim_loop
trim-going_on c o v e = rw (ensure_valid-eq c v, e) refl

rounds_none :
    (o : ℕ) (cs : List Chunk) → cs ≡ [] → trim_rounds (suc (length cs)) o cs ≡ ok (breaks [])
unfolding trim_rounds trim_round
rounds_none o cs e = rw e refl

chunks-cases : (cs : List Chunk) → (cs ≡ []) ⊎ ((x : Chunk) × (xs : List Chunk) × (cs ≡ x ∷ xs))
chunks-cases [] = inl refl
chunks-cases (x ∷ xs) = inr (x, xs, refl)

-- The loop of `trim` on a well-formed, valid chain: to an offset at or behind the chain's begin, or
-- on a chain without chunks, it ends, after at most one round more than there are chunks; to an offset
-- before the begin of a chain with chunks, any number `n` of rounds leaves the chunks as they are
-- and the loop going on, so that `trim` does not return.
pub trim_ends :
    (c : Chain) (o n : ℕ)
    → IsWellFormed c
    → c.state ≢ is_invalid
    → (((c.head_offset ≤ o) ⊎ (c.chunks ≡ []))
        × ((cs : List Chunk) × (trim_rounds (suc (length c.chunks)) o c.chunks ≡ ok (breaks cs))
            × (trim c o ≡ ok (record c { chunks = cs; head_offset = o }))))
      ⊎ ((o < c.head_offset)
          × (c.chunks ≢ [])
          × (trim_rounds n o c.chunks ≡ ok (goes_on c.chunks))
          × (trim c o ≡ err diverges))
trim_ends c o n w v = elim (le-or-lt c.head_offset o) [
  | inl h ↦
      let (cs, e) = rounds_end c.head_offset o c.chunks w h in
      inl (inl h, (cs, e, trim-ended c o cs v e))
  | inr h ↦ elim (chunks-cases c.chunks) [
    | inl none_left ↦
        let e = rounds_none o c.chunks none_left in
        inl (inr none_left, ([], e, trim-ended c o [] v e))
    | inr (x, xs, q) ↦
        let behind : o < x.offset =
          omega (arith, h, (subst (λ cs. Linked c.head_offset cs) q w).0) in
        inr (
          h,
          (λ k. cc),
          stays n x xs q behind,
          trim-going_on c o v (stays (suc (length c.chunks)) x xs q behind),
        )
  ]
]
  where
    stays :
        (m : ℕ) (x : Chunk) (xs : List Chunk)
        → c.chunks ≡ x ∷ xs
        → o < x.offset
        → trim_rounds m o c.chunks ≡ ok (goes_on c.chunks)
    stays m x xs q h = rw q (rounds_before m o x xs h)

-- Trimming a valid, well-formed chain to an offset strictly inside a gap that is its first chunk, and
-- that a further chunk follows, drops none of the content, and the chain is not well-formed any more.
pub trim_inside_gap :
    (c : Chain) (o n : ℕ) (y : Chunk) (ys : List Chunk)
    → IsWellFormed c
    → c.state ≢ is_invalid
    → c.chunks ≡ record { offset = c.head_offset; payload = Chunk.gap n } ∷ y ∷ ys
    → c.head_offset < o
    → o < c.head_offset + n
    → (c' : Chain) × (trim c o ≡ ok c') × (content c' ≡ content c) × (¬ IsWellFormed c')
unfolding trim
trim_inside_gap c o n y ys w v e h k = (
  record c { chunks = left; head_offset = o },
  rw (ensure_valid-eq c v, e) (rw trim_loop_gap refl),
  sym (ap contents e),
  λ w'. absurd (omega (arith, w'.2.0, (subst (λ cs. Linked c.head_offset cs) e w).2.0)),
)
  where
    left : List Chunk
    left = record { offset = o; payload = Chunk.gap n } ∷ y ∷ ys

    trim_loop_gap :
        trim_loop
          (suc (length (record { offset = c.head_offset; payload = Chunk.gap n } ∷ y ∷ ys)))
          o
          (record { offset = c.head_offset; payload = Chunk.gap n } ∷ y ∷ ys)
        ≡ ok left
    trim_loop_gap = unfold trim_loop trim_rounds trim_round Chunk.trim trim_payload in ground arith
