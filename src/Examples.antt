-- ===== src/Examples.antt =====
-- Concrete streams and sinks, and the theorems at them.
mod Streams
mod Sinks
mod Integers
mod ByteStrings
mod Views
mod Grammars
mod Texts
mod Addresses
mod Waits
mod Blocks
mod Registries
mod Sources
mod Constants
mod Fibers
mod Scopes
