-- ===== src/Lib.antt =====
-- Spicy generates parsers for protocols and file formats. This library is about the runtime that
-- the generated C++ code works with, hilti/runtime and spicy/runtime of the repository, and about the
-- grammars that the compiler generates it from.
--
-- Stream (hilti/runtime/include/types/stream.h, hilti/runtime/src/types/stream.cc) is the input that
-- a parser consumes piece by piece: a chain of chunks, each of them bytes in a small buffer, bytes in
-- a vector, or a gap, to which the host appends and from which the parser trims what it is done
-- with. `Stream.Chunk` has the class Chunk, `Stream.Chain` the class Chain with the read access that
-- SafeConstIterator makes through it, and `Stream.Ops` the class Stream. The pointers `_next` are the
-- order of a list, `_tail` is the list's last element, and a hint pointer is a position in the list.
-- `Stream.Chain.Linked` has the invariant of the chain and the content that it stands for,
-- `Stream.Ops.Refinement` the window on a sequence that a stream is for those who use it, and
-- `Stream.Ops.Reachable` the streams that operations make of a new one, which is empty or one chunk.
--
-- `Stream.View` has the searches of the class View (`_findForward`, `_findBackward`, `startsWith`),
-- over the content that the chain has from the view's begin on, and `Stream.Blocks` its size and the
-- iteration over its blocks (`firstBlock`, `nextBlock`).
--
-- Sink (spicy/runtime/include/sink.h, spicy/runtime/src/sink.cc) reassembles input that comes in any
-- order, with overlaps and gaps, and passes what has become contiguous to the units connected to it.
-- `Sink.Buffer` has the list of chunks with `_addAndCheck`, and `Sink.Machine` the state and every
-- method that works on it: write, gap, skip, trim, close, and `_newData`, `_deliver`, `_tryDeliver`,
-- `_trim`, `_skip`. A method returns the new state and the exception that leaves it. The connected
-- parsers and the filters are compiled from a grammar: the record `Host` is what they do when they
-- are resumed with more input; they may come back with a RuntimeError, which the sink catches, or with
-- another exception, which leaves the delivery. What the units' hooks are told is a log of events.
--
-- Integer (hilti/runtime/include/types/integer.h) packs unsigned integers of the four widths into
-- bytes and unpacks them, in a byte order that is given or the machine's, and extracts ranges of bits.
-- `Integer` has these functions, `Integer.Digits` the base-256 digits that they are about.
--
-- Bytes (hilti/runtime/include/types/bytes.h, hilti/runtime/src/types/bytes.cc): `Bytes` has the
-- search for bytes in bytes, the decoding of ASCII, and the conversion to an integer in a byte
-- order.
--
-- Text (hilti/runtime/include/util.h, hilti/runtime/src/util.cc): `Text` has `atoi_n` with the
-- conversions of Bytes that use it, `expandEscapes` and `escapeBytes`, and `Text.Words` trimming and
-- splitting at white space. The encoding of a code point
-- in UTF-8 and the C library's formats are parameters. The loop of `expandEscapes` has a fuel, the
-- length of the text; each round takes a character at least.
--
-- Address (hilti/runtime/include/types/address.h, hilti/runtime/src/types/address.cc,
-- hilti/runtime/include/types/network.h): `Address` has the classes Address and Network. Reading a
-- text is a parameter, what `inet_pton` answers; a shift by too many bits is `undefined`.
--
-- Parser (spicy/runtime/src/parser.cc): `Parser` has the functions by which a generated parser
-- waits for input, on the chains of `Stream.Chain`. While it is suspended the host appends to the
-- stream, and the filters do when they are flushed: what they leave each time is an argument.
--
-- Registry (spicy/runtime/include/mime.h, spicy/runtime/src/init.cc, spicy/runtime/src/driver.cc,
-- spicy/runtime/src/sink.cc) is how parsers are found: `Registry` has MIMEType, `init`, which enters
-- the parsers under their names, ports and MIME types, `lookupParser`, and `connect_mime_type`. The
-- maps are association lists; a unit that a parser makes for a sink is of a type that is a parameter.
--
-- Preprocessor (hilti/toolchain/src/base/preprocessor.cc): `Preprocessor` has the directives @if, @else
-- and @endif, and the driver in spicy/toolchain/src/compiler/parser/driver.cc that takes or skips the
-- code between them. What the scanner finds is a list of lines, each code or a directive.
--
-- Folding (hilti/toolchain/src/compiler/visitors/constant-folder.cc): `Folding` has the visitor that
-- replaces constant expressions by constructors, with the constructors of Interval and Time, and
-- `Folding.Evaluation` what such an expression means. The numbers of type double and what C++ does
-- with them are a parameter.
--
-- Fiber (hilti/runtime/include/fiber.h, hilti/runtime/src/fiber.cc) is what lets a parser wait for
-- input: `Fiber` has the states of a fiber, the cache of fibers, and the class Resumable, one at a time.
-- What a function does up to its next yield, and when it is aborted, is a parameter, also named
-- `Host`; the switching of stacks is not modelled.
--
-- Grammar (spicy/toolchain/src/compiler/codegen/grammar.cc) is the compiler's part that decides
-- whether a parser for a unit can be generated: `Grammar` has the tables NULLABLE, FIRST and FOLLOW of
-- `_computeTables`, the look-ahead sets and `_check`. `Grammar.Derivation` has the rules that the
-- tables are the least solution of. The rounds of the loop are counted by a fuel; each
-- round but the last adds an entry, of which `Grammar.Measure` has the finite list. A production is known
-- by a number for its symbol, and a non-terminal that was not added, which the code takes to be
-- impossible, has no entries.
--
-- Scope (hilti/toolchain/src/ast/scope.cc): `Scope` has the search of the compiler for an ID in a
-- scope and in those of modules, `_findID`. An ID is the list of its parts, and a scope is named by a
-- number. The loop has a fuel, two more than the ID has parts, of which each round takes one, and so have
-- the calls within one another, which each get a shorter ID.
--
-- `Base` has the names that all modules share, `Examples` runs and instances at concrete values.
--
-- Numbers are natural numbers. In the sink, whose sequence numbers are uint64_t, sums and differences
-- wrap around at 2 ^ 64; a stream's offsets are checked integers in the source, which throw where
-- they leave the range, and the model has them below it. `_addAndCheck` recurses with a fuel, which
-- is one more than the chunks of the buffer; each recursive call passes over one. The loop of `Chain::trim` gets one
-- round more than there are chunks, which is enough wherever any number is. A loop that does
-- not end and a pointer or iterator that is followed without being set are results of their own,
-- `diverges` and `undefined`.
--
-- Not modelled: memory management, debug output, how stacks are switched, the rest of the compiler that generates
-- parsers, the parts of the runtime that wrap a library (regular expressions, the C library's forms
-- of addresses), and those that this library does not name above. The sink's policy has one value, `First`.
pub mod Base
pub mod Stream
pub mod Sink
pub mod Integer
pub mod Bytes
pub mod Address
pub mod Examples
pub mod Fiber
pub mod Folding
pub mod Grammar
pub mod Parser
pub mod Preprocessor
pub mod Registry
pub mod Scope
pub mod Text
