-- ===== src/Stream/Ops.antt =====
-- `Stream` of hilti/runtime/include/types/stream.h and hilti/runtime/src/types/stream.cc: what a host
-- does with a stream, as operations on its chain.
pub mod Refinement
pub mod Reachable
use spicy.Base.{ℕ, List, [], ◌∷◌, length, Result, ok, err, ◌==◌, if◌then◌else◌}
use spicy.Stream.Chunk.{Chunk, from_bytes, from_gap}
use spicy.Stream.Chain.{Chain, is_mutable, append, trim, freeze, unfreeze}

-- `Stream(Chunk&&)`, which the constructors from bytes, a vector, an array, a C string and a view call
-- with a chunk at offset 0.
unfoldable pub of_chunk : Chunk → Chain
of_chunk x = record { state = is_mutable; chunks = x ∷ []; head_offset = 0 }

-- `Stream(const Bytes&)`.
unfoldable pub of_bytes : List ℕ → Chain
unfolding of_chunk
of_bytes d = of_chunk (from_bytes 0 d)

-- `append(const Bytes&)`.
unfoldable pub append_bytes : Chain → List ℕ → Result Chain
append_bytes c [] = ok c
append_bytes c (b ∷ bs) = append c (from_bytes 0 (b ∷ bs) ∷ [])

-- `append(nullptr, len)`.
unfoldable pub append_gap : Chain → ℕ → Result Chain
append_gap c len = if len == 0 then ok c else append c (from_gap 0 len ∷ [])

pub data Op : Type 0 where
  writes : List ℕ → Op
  gaps trims : ℕ → Op
  freezes unfreezes : Op

unfoldable pub step : Chain → Op → Result Chain
step c (writes bytes) = append_bytes c bytes
step c (gaps len) = append_gap c len
step c (trims o) = trim c o
step c freezes = ok (freeze c)
step c unfreezes = ok (unfreeze c)
