-- ===== src/Examples/Blocks.antt =====
-- Going through a view's blocks.
use spicy.Base.{inr, refl, [], ◌∷◌, some, arith}
use spicy.Stream.Chunk.{vector, from_bytes, set_offset}
use spicy.Stream.Chain.{Chain, is_mutable, is_frozen, append, freeze}
use spicy.Stream.Blocks.{InputView}
use spicy.Stream.Blocks.Sizes.{Yields, all_blocks}
use spicy.Stream.Blocks.Iteration.{all_blocks-Yields}
use spicy.Stream.Ops.{writes, freezes, step, append_bytes, of_bytes, of_chunk}
use spicy.Stream.Ops.Reachable.{IsNew, Reachable, begins, goes, IsGood, Reachable-IsGood}

abbrev two_chunks : Chain
two_chunks = record {
  state = is_mutable;
  chunks =
      record { offset = 4; payload = vector (10 ∷ 11 ∷ 12 ∷ []) }
      ∷ record { offset = 7; payload = vector (13 ∷ 14 ∷ 15 ∷ []) }
      ∷ [];
  head_offset = 4;
}

abbrev inner : InputView
inner = record { offset = 5; end_offset = some 9 }

all_blocks_example : Yields (all_blocks two_chunks inner) 5 (11 ∷ 12 ∷ 13 ∷ 14 ∷ [])
all_blocks_example =
    all_blocks-Yields two_chunks inner (11 ∷ 12 ∷ 13 ∷ 14 ∷ []) refl (refl, tt, (refl, tt, tt))
      (omega arith, (omega arith, tt)) (omega arith) (omega arith) refl

-- A stream of no bytes has an empty chunk, and keeps it in front until it is trimmed.
abbrev with_one : Chain
with_one = record {
  state = is_mutable;
  chunks = from_bytes 0 [] ∷ from_bytes 0 (10 ∷ []) ∷ [];
  head_offset = 0;
}

abbrev frozen_one : Chain
frozen_one = record with_one { state = is_frozen }

of_bytes-IsNew : IsNew (of_bytes [])
unfolding of_bytes of_chunk from_bytes
of_bytes-IsNew = inr ((from_bytes 0 []).payload, (omega arith, refl), refl)

with_one-Reachable : Reachable (of_bytes []) with_one
unfolding step from_bytes append_bytes append set_offset of_bytes of_chunk
with_one-Reachable = goes (writes (10 ∷ [])) begins tt refl

frozen_one-Reachable : Reachable (of_bytes []) frozen_one
unfolding step from_bytes freeze
frozen_one-Reachable = goes freezes with_one-Reachable tt refl

Reachable-IsGood_example : IsGood (of_bytes []) frozen_one
Reachable-IsGood_example =
    Reachable-IsGood (of_bytes []) frozen_one of_bytes-IsNew frozen_one-Reachable
