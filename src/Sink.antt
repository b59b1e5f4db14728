-- ===== src/Sink.antt =====
-- spicy/runtime/include/sink.h and spicy/runtime/src/sink.cc: the sink, which reassembles chunks of
-- input that come in any order and passes them on to the units connected to it.
pub mod Buffer
pub mod Machine
