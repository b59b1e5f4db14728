-- ===== src/Stream/Blocks.antt =====
-- `View` of hilti/runtime/include/types/stream.h and hilti/runtime/src/types/stream.cc: its size, and
-- the iteration over its blocks, which generated code uses for matching. A pointer to a chunk is
-- the list of chunks from there on.
pub mod Parts
pub mod Sizes
pub mod Iteration
use spicy.Base.{
  ℕ, zero, suc, ◌+◌, ◌-◌, Bool, true, false, ◌&&◌, ◌||◌, List, [], ◌∷◌, ◌++◌, take, drop, Option,
  none, some, leb, ltb, ◌==◌, min, if◌then◌else◌, Result, ok, err, ◌>>=◌, ◌>>◌,
}
use spicy.Stream.Chunk.{Chunk, size, end_offset, in_range, data_of}
use spicy.Stream.Chain.{Chain, ensure_valid, end}

-- A view: where it begins, and the end offset, if it has one.
pub record InputView : Type 0 where
  pub offset : ℕ
  pub end_offset : Option ℕ

abbrev pub up_to_tail : ℕ → Option ℕ → ℕ → ℕ
up_to_tail begin none tail = tail - begin
up_to_tail begin (some e) tail =
    if leb tail e then tail - begin else if ltb begin e then e - begin else 0

abbrev pub size_before : InputView → ℕ → List Chunk → ℕ
size_before w tail [] = 0
size_before w tail (c ∷ cs) = if ltb tail w.offset then 0 else up_to_tail w.offset w.end_offset tail

-- `View::size`.
unfoldable pub view_size : Chain → InputView → ℕ
view_size c w = size_before w (end c) c.chunks

-- `findChunk`, with the chunks behind the one that it finds.
unfoldable pub chunks_from : ℕ → List Chunk → List Chunk
chunks_from o [] = []
chunks_from o (x ∷ xs) = if in_range x o then x ∷ xs else chunks_from o xs

-- `start` has what can be read through the pointer, and `next` the chunks from `_block` on.
pub record Block : Type 0 where
  pub start : List ℕ
  pub size : ℕ
  pub offset : ℕ
  pub is_first : Bool
  pub is_last : Bool
  pub next : List Chunk

abbrev pub no_chunks : List Chunk → Bool
no_chunks [] = true
no_chunks (x ∷ xs) = false

abbrev pub ends_by : Option ℕ → ℕ → Bool
ends_by none o = false
ends_by (some e) o = leb e o

abbrev pub max : ℕ → ℕ → ℕ
max a b = if leb a b then b else a

-- The size of a block from `from` on, of the chunk `x`.
abbrev pub block_size : Chain → Option ℕ → Bool → ℕ → Chunk → ℕ
block_size c (some e) true from x = max (min e (end c)) from - from
block_size c _ _ from x = end_offset x - from

-- The block from the offset `from` on, in the first of the chunks.
unfoldable pub make_block : Chain → Option ℕ → Bool → ℕ → Chunk → List Chunk → Result Block
unfolding data_of
make_block c e first from x xs =
    let last = no_chunks xs || ends_by e (end_offset x) in
    data_of x.payload >>= (λ bytes. ok (record {
      start = drop (from - x.offset) bytes;
      size = block_size c e last from x;
      offset = from;
      is_first = first;
      is_last = last;
      next = if last then [] else xs;
    }))

abbrev pub block_in : Chain → Option ℕ → Bool → ℕ → List Chunk → Result (Option Block)
block_in c e first from [] = ok none
block_in c e first from (x ∷ xs) = make_block c e first from x xs >>= (λ b. ok (some b))

abbrev pub view_end : Chain → InputView → ℕ
view_end c v = elim v.end_offset [ none ↦ end c | some e ↦ e ]

-- `firstBlock`.
unfoldable pub first_block : Chain → InputView → Result (Option Block)
unfolding make_block chunks_from
first_block c v = do
  ensure_valid c
  if v.offset == view_end c v
      then ok none
      else block_in c v.end_offset true v.offset (chunks_from v.offset c.chunks)

-- `nextBlock`, which begins at its chunk's own offset.
abbrev pub next_in : Chain → Option ℕ → List Chunk → Result (Option Block)
next_in c e [] = ok none
next_in c e (x ∷ xs) = make_block c e false x.offset x xs >>= (λ b. ok (some b))

-- `_ensureValid`, which tests the end only.
abbrev pub ensure_end_valid : Chain → Option ℕ → Result (Unit {0})
ensure_end_valid c none = ok tt
ensure_end_valid c (some e) = ensure_valid c

unfoldable pub next_block : Chain → InputView → Option Block → Result (Option Block)
unfolding make_block
next_block c v none = ensure_end_valid c v.end_offset >> ok none
next_block c v (some b) = ensure_end_valid c v.end_offset >> next_in c v.end_offset b.next
