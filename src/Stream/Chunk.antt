-- ===== src/Stream/Chunk.antt =====
-- `Chunk` of hilti/runtime/include/types/stream.h: one block of a stream, with its bytes in a buffer
-- of 32 bytes, in a vector, or missing (a gap). `_next` is the order of the list that a chunk stands
-- in, and `_chain` is not kept. Offsets stay below 2 ^ 64, where the source would throw.
pub mod Content
use spicy.Base.{
  ℕ, ◌+◌, ◌-◌, ◌≤◌, ◌≡◌, Bool, true, false, ◌&&◌, List, [], ◌∷◌, ◌++◌, length, take, drop,
  replicate, leb, ltb, if◌then◌else◌, Option, none, some, Error, missing_data, assertion_failed,
  undefined, Result, ok, err, get_elem?,
}

abbrev pub small_buffer_size : ℕ
small_buffer_size = 32

-- `array n buffer` uses the first `n` bytes of the buffer.
pub data Payload : Type 0 where
  array : ℕ → List ℕ → Payload
  vector : List ℕ → Payload
  gap : ℕ → Payload

pub record Chunk : Type 0 where
  pub offset : ℕ
  pub payload : Payload

abbrev pub size_of : Payload → ℕ
size_of (array n buffer) = n
size_of (vector bytes) = length bytes
size_of (gap n) = n

abbrev pub size : Chunk → ℕ
size c = size_of c.payload

abbrev pub end_offset : Chunk → ℕ
end_offset c = c.offset + size c

abbrev pub is_gap_payload : Payload → Bool
is_gap_payload (gap n) = true
is_gap_payload _ = false

abbrev pub is_gap : Chunk → Bool
is_gap c = is_gap_payload c.payload

abbrev pub in_range : Chunk → ℕ → Bool
in_range c o = leb c.offset o && ltb o (end_offset c)

-- The bytes from `data()` on; a buffer's unused bytes may be read through the pointer.
unfoldable pub data_of : Payload → Result (List ℕ)
data_of (array n buffer) = ok buffer
data_of (vector bytes) = ok bytes
data_of (gap n) = err missing_data

abbrev pub or_undefined {ℓ} : {A : Type ℓ} → Option A → Result A
or_undefined none = err undefined
or_undefined (some a) = ok a

abbrev read_at : Result (List ℕ) → ℕ → Result ℕ
read_at (ok bytes) i = or_undefined (get_elem? bytes i)
read_at (err e) i = err e

-- `*data(offset)`.
unfoldable pub byte_at : Chunk → ℕ → Result ℕ
unfolding data_of
byte_at c o =
    if in_range c o then read_at (data_of c.payload) (o - c.offset) else err assertion_failed

-- The bytes between `data()` and `endData()`.
unfoldable pub used_bytes : Payload → Result (List ℕ)
used_bytes (array n buffer) = ok (take n buffer)
used_bytes (vector bytes) = ok bytes
used_bytes (gap n) = err missing_data

-- `Chunk(offset, string)`.
unfoldable pub from_bytes : ℕ → List ℕ → Chunk
from_bytes o s = record {
  offset = o;
  payload =
      if leb (length s) small_buffer_size
      then array (length s) (s ++ replicate (small_buffer_size - length s) 0)
      else vector s;
}

-- `Chunk(offset, len)`.
unfoldable pub from_gap : ℕ → ℕ → Chunk
from_gap o len = record { offset = o; payload = gap len }

-- `memmove` overwrites the buffer's front and leaves the rest of it.
unfoldable pub trim_payload : Payload → ℕ → Payload
trim_payload (array n buffer) k =
    array (n - k) (take (n - k) (drop k buffer) ++ drop (n - k) buffer)
trim_payload (vector bytes) k = vector (drop k bytes)
trim_payload (gap n) k = gap n

unfoldable pub trim : Chunk → ℕ → Result Chunk
trim c o =
    if in_range c o
    then ok (record { offset = o; payload = trim_payload c.payload (o - c.offset) })
    else err assertion_failed

-- `setOffset`, and the loop of `setNext`: the offsets of a chunk and its successors.
unfoldable pub set_offset : ℕ → List Chunk → List Chunk
set_offset o [] = []
set_offset o (c ∷ cs) = record c { offset = o } ∷ set_offset (o + size c) cs
