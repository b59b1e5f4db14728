-- ===== src/Stream/Blocks/Iteration.antt =====
-- The iteration over the blocks of a view (hilti/runtime/src/types/stream.cc).
use spicy.Base.{
  ℕ, zero, suc, ◌+◌, ◌-◌, ◌≤◌, ◌<◌, ◌≡◌, refl, sym, ap, subst, ◌∙◌, Bool, true, false, ◌||◌,
  le-or-lt, le→leb, lt→ltb, le→ltb_false, List, [], ◌∷◌, ◌++◌, map, length, take, drop, Option,
  none, some, leb, ◌==◌, if◌then◌else◌, ok, ◌>>=◌, ◌>>◌, arith, inl, inr, Bool-cases, map-take,
  map-drop, drop-take, drop-drop, drop-append_right, take-take, take-append_left, drop-append_left,
  take-append-drop, length-drop,
}
use spicy.Stream.Chunk.{Chunk, size, end_offset, data_of}
use spicy.Stream.Chunk.Content.{content_of, contents, Fits, length-content_of}
use spicy.Stream.Chain.{Chain, ensure_valid, end, end_of}
use spicy.Stream.Chain.Linked.{Linked, IsWellFormed, content}
use spicy.Stream.Blocks.{
  InputView, view_end, Block, no_chunks, ends_by, block_size, make_block, chunks_from, first_block,
  next_in, ensure_end_valid,
}
use spicy.Stream.Blocks.Parts.{data_of-part}
use spicy.Stream.Blocks.Sizes.{
  bytes_of, bytes_of_all, Consecutive, iterate, all_blocks, stop, Yields, append_none, AllFull,
  no_and, not_at_end, more_follow, middle_size, bind_some, bind_assoc, last_size,
}

module _ (c : Chain) (v : InputView) (valid : ensure_valid c ≡ ok tt) where
  end_valid : (e : Option ℕ) → ensure_end_valid c e ≡ ok tt
  end_valid none = refl
  end_valid (some e) = valid

  iterate-next_in :
      (fuel : ℕ) (b : Block)
      → iterate (suc fuel) c v (some b)
        ≡ (next_in c v.end_offset b.next >>= (λ n. iterate fuel c v n >>= (λ bs. ok (b ∷ bs))))
  unfolding iterate
  iterate-next_in fuel b =
      ap
        (λ g.
          (g >> next_in c v.end_offset b.next)
          >>= (λ n. iterate fuel c v n >>= (λ bs. ok (b ∷ bs))))
        (end_valid v.end_offset)

  iterate_end : (fuel : ℕ) → iterate fuel c v none ≡ ok []
  unfolding iterate
  iterate_end zero = refl
  iterate_end (suc fuel) = refl

  abbrev block : Bool → ℕ → Chunk → List Chunk → List ℕ → Bool → Block
  block first from x xs ds last = record {
    start = drop (from - x.offset) ds;
    size = block_size c v.end_offset last from x;
    offset = from;
    is_first = first;
    is_last = last;
    next = if last then [] else xs;
  }

  make_block-block :
      (first : Bool) (from : ℕ) (x : Chunk) (xs : List Chunk) (ds : List ℕ) (last : Bool)
      → data_of x.payload ≡ ok ds
      → (no_chunks xs || ends_by v.end_offset (end_offset x)) ≡ last
      → make_block c v.end_offset first from x xs ≡ ok (block first from x xs ds last)
  unfolding make_block
  make_block-block first from x xs ds last h k =
      ap
        (λ r. r >>= (λ bytes.
          ok (block first from x xs bytes (no_chunks xs || ends_by v.end_offset (end_offset x)))))
        h
      ∙ ap (λ l. ok (block first from x xs ds l)) k

  -- The part of the content that a chunk has.
  own_part :
      (x : Chunk) (rest : List (Option ℕ)) (k m : ℕ)
      → Fits x.payload
      → k + m ≤ size x
      → take m (drop k (content_of x.payload ++ rest)) ≡ take m (drop k (content_of x.payload))
  own_part x rest k m f h =
      let l = length-content_of x.payload f in
      let d = length-drop k (content_of x.payload) in
      ap (take m) (drop-append_left k (content_of x.payload) rest (omega arith))
      ∙ take-append_left m (drop k (content_of x.payload)) rest (omega arith)

  last_block :
      (fuel : ℕ) (first : Bool) (from : ℕ) (x : Chunk) (xs : List Chunk) (bytes : List ℕ)
      → Fits x.payload
      → end c ≡ end_of (end_offset x) xs
      → x.offset ≤ from
      → from < stop c v
      → (no_chunks xs || ends_by v.end_offset (end_offset x)) ≡ true
      → map some bytes ≡ take (stop c v - from) (drop (from - x.offset) (contents (x ∷ xs)))
      → Yields
          (make_block c v.end_offset first from x xs >>= (λ b. iterate (suc fuel) c v (some b)))
          from
          bytes
  last_block fuel first from x xs bytes f l a h k e =
      let z = last_size c v.end_offset from x xs l h k in
      let w =
        data_of-part x.payload (from - x.offset) (stop c v - from) bytes (omega (arith, z.1, a, h))
          (omega arith)
          (e
            ∙ own_part x (contents xs) (from - x.offset) (stop c v - from) f
                (omega (arith, z.1, a, h))) in
      let b = block first from x xs w.0 true in
      (
        b ∷ [],
        ap (λ r. r >>= (λ b. iterate (suc fuel) c v (some b)))
              (make_block-block first from x xs w.0 true w.1 k)
            ∙ iterate-next_in fuel b
            ∙ ap (λ r. r >>= (λ bs. ok (b ∷ bs))) (iterate_end fuel),
        refl,
        (refl, refl, tt),
        append_none (bytes_of b) ∙ ap (λ n. take n (drop (from - x.offset) w.0)) z.0 ∙ w.2,
      )

  -- The content of a chunk and of those behind it, parted.
  parted :
      (x : Chunk) (rest : List (Option ℕ)) (k m : ℕ) (bytes : List ℕ)
      → Fits x.payload
      → k ≤ size x
      → size x - k ≤ m
      → map some bytes ≡ take m (drop k (content_of x.payload ++ rest))
      → (map some (take (size x - k) bytes) ≡ take (size x - k) (drop k (content_of x.payload)))
        × (map some (drop (size x - k) bytes) ≡ take (m - (size x - k)) rest)
  parted x rest k m bytes f a b e =
      let s = size x - k in
      let whole = content_of x.payload ++ rest in
      let l = length-content_of x.payload f in
      let parts : m ≡ s + (m - s) = omega arith in
      let own : k + s ≡ length (content_of x.payload) + 0 = omega arith in
      (
        map-take some s bytes
            ∙ ap (take s) e
            ∙ take-take s m (drop k whole) b
            ∙ own_part x rest k s f (omega arith),
        map-drop some s bytes
            ∙ ap (drop s) e
            ∙ ap (λ t. drop s (take t (drop k whole))) parts
            ∙ drop-take s (m - s) (drop k whole)
            ∙ ap (take (m - s)) (drop-drop s k whole)
            ∙ ap (λ t. take (m - s) (drop t whole)) own
            ∙ ap (take (m - s)) (drop-append_right 0 (content_of x.payload) rest),
      )

  middle_block :
      (ys : List Chunk) (x y : Chunk) (fuel : ℕ) (first : Bool) (o from : ℕ) (bytes : List ℕ)
      → Linked o (x ∷ y ∷ ys)
      → AllFull (x ∷ y ∷ ys)
      → end c ≡ end_of (end_offset y) ys
      → x.offset ≤ from
      → from < end_offset x
      → ends_by v.end_offset (end_offset x) ≡ false
      → map some bytes ≡ take (stop c v - from) (drop (from - x.offset) (contents (x ∷ y ∷ ys)))
      → ((later : List ℕ)
          → map some later
            ≡ take (stop c v - y.offset) (drop (y.offset - y.offset) (contents (y ∷ ys)))
          → end_offset x < stop c v
          → Yields
              (make_block c v.end_offset false y.offset y ys >>= (λ b. iterate fuel c v (some b)))
              y.offset
              later)
      → Yields
          (make_block c v.end_offset first from x (y ∷ ys)
            >>= (λ b. iterate (suc fuel) c v (some b)))
          from
          bytes
  middle_block ys x y fuel first o from bytes h z l a i k e next =
      let s = size x - (from - x.offset) in
      let far = more_follow c v.end_offset x y ys l h.2 z.1.0 k in
      let p =
        parted x (contents (y ∷ ys)) (from - x.offset) (stop c v - from) bytes h.1 (omega arith)
          (omega (arith, far)) e in
      let w =
        data_of-part x.payload (from - x.offset) s (take s bytes) (omega arith) (omega arith) p.0 in
      let b = block first from x (y ∷ ys) w.0 false in
      let left : stop c v - from - s ≡ stop c v - y.offset = omega (arith, far, h.2.0, a, i) in
      let none_off : 0 ≡ y.offset - y.offset = omega arith in
      let ih =
        next (drop s bytes)
          (p.1
            ∙ ap (λ t. take t (contents (y ∷ ys))) left
            ∙ ap (λ t. take (stop c v - y.offset) (drop t (contents (y ∷ ys)))) none_off)
          far in
      let here = make_block c v.end_offset false y.offset y ys in
      let middle = middle_size c v.end_offset from x in
      let ends : y.offset ≡ from + b.size = omega (arith, middle, h.2.0, a, i) in
      let same : b.size ≡ s = omega (arith, middle, a, i) in
      (
        b ∷ ih.0,
        ap (λ r. r >>= (λ b. iterate (suc fuel) c v (some b)))
              (make_block-block first from x (y ∷ ys) w.0 false w.1 k)
            ∙ iterate-next_in fuel b
            ∙ bind_some here (λ n. iterate fuel c v n >>= (λ bs. ok (b ∷ bs)))
            ∙ bind_assoc here (λ d. iterate fuel c v (some d)) (λ bs. ok (b ∷ bs))
            ∙ ap (λ r. r >>= (λ bs. ok (b ∷ bs))) ih.1,
        refl,
        (refl, sym ih.2, subst (λ t. Consecutive t ih.0) ends ih.3),
        ap (λ t. t ++ bytes_of_all ih.0) (ap (λ n. take n (drop (from - x.offset) w.0)) same ∙ w.2)
            ∙ ap (λ t. take s bytes ++ t) ih.4
            ∙ take-append-drop s bytes,
      )

  blocks-Yields :
      (xs : List Chunk) (x : Chunk) (fuel : ℕ) (first : Bool) (o from : ℕ) (bytes : List ℕ)
      → length (x ∷ xs) ≤ fuel
      → Linked o (x ∷ xs)
      → AllFull (x ∷ xs)
      → end c ≡ end_of (end_offset x) xs
      → x.offset ≤ from
      → from < end_offset x
      → from < stop c v
      → map some bytes ≡ take (stop c v - from) (drop (from - x.offset) (contents (x ∷ xs)))
      → Yields
          (make_block c v.end_offset first from x xs >>= (λ b. iterate fuel c v (some b)))
          from
          bytes
  blocks-Yields xs x zero first o from bytes n h z l a i g e = absurd (omega arith)
  blocks-Yields [] x (suc fuel) first o from bytes n h z l a i g e =
      last_block fuel first from x [] bytes h.1 l a g refl e
  blocks-Yields (y ∷ ys) x (suc fuel) first o from bytes n h z l a i g e =
      elim (Bool-cases (ends_by v.end_offset (end_offset x))) [
        | inl k ↦ last_block fuel first from x (y ∷ ys) bytes h.1 l a g k e
        | inr k ↦ middle_block ys x y fuel first o from bytes h z l a i k e (λ later q far.
            blocks-Yields ys y fuel false (end_offset x) y.offset later (omega arith) h.2 z.1 l
              (omega arith) (omega (arith, z.1.0)) (omega (arith, far, h.2.0)) q)
      ]

-- The chunk that an offset lies in, and those behind it.
abbrev Suffix : ℕ → ℕ → List Chunk → Type 0
Suffix o b cs =
    (x : Chunk) × (xs : List Chunk) × (chunks_from b cs ≡ x ∷ xs)
    × (Linked x.offset (x ∷ xs) × AllFull (x ∷ xs))
    × ((x.offset ≤ b) × (b < end_offset x))
    × (end_of o cs ≡ end_of (end_offset x) xs)
    × (length (x ∷ xs) ≤ length cs)
    × (drop (b - o) (contents cs) ≡ drop (b - x.offset) (contents (x ∷ xs)))

chunks_from-Suffix :
    (o b : ℕ) (cs : List Chunk) → Linked o cs → AllFull cs → o ≤ b → b < end_of o cs → Suffix o b cs
unfolding chunks_from
chunks_from-Suffix o b [] h z l k = absurd (omega arith)
chunks_from-Suffix o b (x ∷ xs) h z l k = elim (le-or-lt (end_offset x) b) [
  | inr m ↦ (
    x,
    xs,
    rw (le→leb x.offset b (omega (arith, h.0)), lt→ltb b (end_offset x) m) refl,
    ((refl, h.1, h.2), z),
    (omega (arith, h.0), m),
    refl,
    omega arith,
    ap (λ t. drop (b - t) (contents (x ∷ xs))) (sym h.0),
  )
  | inl m ↦
      let w = chunks_from-Suffix (end_offset x) b xs h.2 z.1 m k in
      let n = length-content_of x.payload h.1 in
      let far : b - o ≡ length (content_of x.payload) + (b - end_offset x) = omega (arith, h.0) in
      (
        w.0,
        w.1,
        rw (le→ltb_false b (end_offset x) m, no_and (leb x.offset b)) w.2,
        w.3,
        w.4,
        w.5,
        omega (arith, w.6),
        ap (λ t. drop t (contents (x ∷ xs))) far
            ∙ drop-append_right (b - end_offset x) (content_of x.payload) (contents xs)
            ∙ w.7,
      )
]

-- In a valid and well-formed chain without empty chunks, going through the blocks of a view that
-- begins in the chain and before the view's end, and has no gap, ends, and gives blocks of which
-- each begins where the one before it ends, of which the last and no other is marked as last, and
-- which together are the bytes of the view that are there.
pub all_blocks-Yields :
    (c : Chain) (v : InputView) (bytes : List ℕ)
    → ensure_valid c ≡ ok tt
    → IsWellFormed c
    → AllFull c.chunks
    → c.head_offset ≤ v.offset
    → v.offset < stop c v
    → map some bytes ≡ take (stop c v - v.offset) (drop (v.offset - c.head_offset) (content c))
    → Yields (all_blocks c v) v.offset bytes
unfolding all_blocks first_block
all_blocks-Yields c v bytes valid h z l k e =
    let w = chunks_from-Suffix c.head_offset v.offset c.chunks h z l (omega arith) in
    let y =
      blocks-Yields c v valid w.1 w.0 (length c.chunks) true w.0.offset v.offset bytes w.6 w.3.0
        w.3.1 w.5 w.4.0 w.4.1 k (e ∙ ap (take (stop c v - v.offset)) w.7) in
    let differ : (v.offset == view_end c v) ≡ false = not_at_end c v k in
    (
      y.0,
      rw (valid, differ, w.2)
          (bind_some (make_block c v.end_offset true v.offset w.0 w.1)
              (λ b. iterate (length c.chunks) c v b)
            ∙ y.1),
      y.2,
      y.3,
      y.4,
    )
