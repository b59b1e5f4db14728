-- ===== src/Stream/Chain.antt =====
-- `Chain` of hilti/runtime/include/types/stream.h and hilti/runtime/src/types/stream.cc: the chunks
-- in order. `_tail` is the last of the list. A pointer to a chunk is its position in the list.
pub mod Linked
pub mod Append
pub mod Trim
pub mod Find
use spicy.Base.{
  ℕ, zero, suc, ◌+◌, ◌-◌, ◌≡◌, Bool, true, false, ◌&&◌, List, [], ◌∷◌, ◌++◌, length, drop,
  get_elem?, Option, none, some, leb, ltb, if◌then◌else◌, Result, ok, err, ◌>>=◌, ◌>>◌, guard,
  Error, invalid_iterator, frozen, missing_data, overflow, assertion_failed, undefined, diverges,
}
use spicy.Stream.Chunk.{Chunk, size, end_offset, in_range, is_gap, byte_at, set_offset}
use spicy.Stream.Chunk

pub data State : Type 0 where
  is_mutable is_frozen is_invalid : State

pub record Chain : Type 0 where
  pub state : State
  pub chunks : List Chunk
  pub head_offset : ℕ

abbrev pub empty : Chain
empty = record { state = is_mutable; chunks = []; head_offset = 0 }

abbrev pub valid_state : State → Bool
valid_state is_invalid = false
valid_state _ = true

abbrev mutable_state : State → Bool
mutable_state is_frozen = false
mutable_state _ = true

abbrev pub ensure_valid : Chain → Result (Unit {0})
ensure_valid c = guard (valid_state c.state) invalid_iterator

abbrev ensure_mutable : Chain → Result (Unit {0})
ensure_mutable c = guard (mutable_state c.state) frozen

-- The end offset of the last chunk, or `o` where there is none.
abbrev pub end_of : ℕ → List Chunk → ℕ
end_of o [] = o
end_of o (c ∷ cs) = end_of (end_offset c) cs

abbrev pub end : Chain → ℕ
end c = end_of c.head_offset c.chunks

unfoldable pub chain_size : Chain → Result ℕ
chain_size c = if leb c.head_offset (end c) then ok (end c - c.head_offset) else err overflow

-- The appended chunks are the chunk handed over and its successors.
unfoldable pub append : Chain → List Chunk → Result Chain
unfolding set_offset
append c [] = err undefined
append c (x ∷ xs) = do
  ensure_valid c
  ensure_mutable c
  ok (record c { chunks = c.chunks ++ set_offset (end c) (x ∷ xs) })

abbrev reset : Chain → Chain
reset c = empty

unfoldable pub invalidate : Chain → Chain
invalidate c = record { state = is_invalid; chunks = []; head_offset = 0 }

abbrev attach : Chain → Chain → List Chunk → List Chunk → Result (Chain × Chain)
attach c other cs [] = ok (c, other)
attach c other [] (x ∷ xs) = err undefined
attach c other (y ∷ ys) (x ∷ xs) =
    ok (record c { chunks = (y ∷ ys) ++ set_offset (end c) (x ∷ xs) }, reset other)

-- `append(Chain&&)`: where this chain has no chunk, `_tail` is null and is followed all the same.
unfoldable pub append_chain : Chain → Chain → Result (Chain × Chain)
append_chain c other = do
  ensure_valid c
  ensure_mutable c
  ensure_valid other
  attach c other c.chunks other.chunks

-- How a round of the loop in `trim` ends, with what is left of the chain.
pub data Round : Type 0 where
  breaks goes_on : List Chunk → Round

-- One round of that loop, its condition first. A head that begins behind the offset is neither deleted
-- nor trimmed.
unfoldable pub trim_round : ℕ → List Chunk → Result Round
trim_round o [] = ok (breaks [])
trim_round o (x ∷ xs) =
    if leb (end_offset x) o
    then ok (goes_on xs)
    else if in_range x o
    then (Chunk.trim x o >>= λ x'. ok (breaks (x' ∷ xs)))
    else ok (goes_on (x ∷ xs))

abbrev pub next_round : (List Chunk → Result Round) → Round → Result Round
next_round next (breaks cs) = ok (breaks cs)
next_round next (goes_on cs) = next cs

-- The first rounds, `n` at most.
unfoldable pub trim_rounds : ℕ → ℕ → List Chunk → Result Round
trim_rounds zero o cs = ok (goes_on cs)
trim_rounds (suc n) o cs = trim_round o cs >>= next_round (λ cs'. trim_rounds n o cs')

abbrev pub round_result : Round → Result (List Chunk)
round_result (breaks cs) = ok cs
round_result (goes_on cs) = err diverges

-- The loop, which goes on for ever where it has not ended after `n` rounds: `trim` gives one more
-- than there are chunks.
unfoldable pub trim_loop : ℕ → ℕ → List Chunk → Result (List Chunk)
trim_loop n o cs = trim_rounds n o cs >>= round_result

unfoldable pub trim : Chain → ℕ → Result Chain
unfolding trim_loop trim_rounds trim_round Chunk.trim
trim c o = do
  ensure_valid c
  cs ← trim_loop (suc (length c.chunks)) o c.chunks
  ok (record c { chunks = cs; head_offset = o })

unfoldable pub freeze : Chain → Chain
freeze c = if valid_state c.state then record c { state = is_frozen } else c

unfoldable pub unfreeze : Chain → Chain
unfreeze c = if valid_state c.state then record c { state = is_mutable } else c

-- The loop of `findChunk`.
unfoldable pub walk : ℕ → List Chunk → Option Chunk
walk o [] = none
walk o (x ∷ xs) = if in_range x o then some x else walk o xs

abbrev or_else {ℓ} : {A : Type ℓ} → Option A → Option A → Option A
or_else none b = b
or_else (some a) b = some a

-- The position of `_tail`.
abbrev tail_position : List Chunk → Option ℕ
tail_position [] = none
tail_position (x ∷ xs) = some (length xs)

abbrev start_from : List Chunk → ℕ → ℕ → Option Chunk → List Chunk
start_from cs o i none = cs
start_from cs o i (some h) = if leb h.offset o then drop i cs else cs

-- The chunks from where the search begins: from the hint, else from the tail, unless it begins
-- behind the offset.
abbrev search_start : List Chunk → ℕ → Option ℕ → List Chunk
search_start cs o none = cs
search_start cs o (some i) = start_from cs o i (get_elem? cs i)

unfoldable pub find_chunk : Chain → ℕ → Option ℕ → Result (Option Chunk)
unfolding walk
find_chunk c o hint = do
  ensure_valid c
  ok (walk o (search_start c.chunks o (or_else hint (tail_position c.chunks))))

abbrev found : ℕ → Option Chunk → Result ℕ
found o none = err invalid_iterator
found o (some x) = byte_at x o

-- `*data(offset, hint)`.
unfoldable pub data_at : Chain → ℕ → Option ℕ → Result ℕ
data_at c o hint = do x ← find_chunk c o hint; found o x

abbrev pub chain_in_range : Chain → ℕ → Bool
chain_in_range c o = leb c.head_offset o && ltb o (end c)

abbrev read_found : ℕ → Option Chunk → Result ℕ
read_found o none = err assertion_failed
read_found o (some x) = if is_gap x then err missing_data else byte_at x o

-- `SafeConstIterator::_dereference` of an iterator bound to the chain.
unfoldable pub dereference : Chain → ℕ → Option ℕ → Result ℕ
dereference c o hint = do
  ensure_valid c
  guard (chain_in_range c o) invalid_iterator
  x ← find_chunk c o hint
  read_found o x

append_copies : Chain → List Chunk → Result Chain
unfolding append
append_copies n [] = ok n
append_copies n (x ∷ xs) = append n (x ∷ []) >>= λ n'. append_copies n' xs

unfoldable pub deep_copy : Chain → Result Chain
unfolding append_copies
deep_copy c = do ensure_valid c; append_copies empty c.chunks

unfoldable pub number_of_chunks : Chain → ℕ
number_of_chunks c = length c.chunks
