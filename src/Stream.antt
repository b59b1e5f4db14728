-- ===== src/Stream.antt =====
-- hilti/runtime/include/types/stream.h and hilti/runtime/src/types/stream.cc: the chain of chunks
-- that holds a stream's content.
pub mod Chunk
pub mod Chain
pub mod Blocks
pub mod Ops
pub mod View
