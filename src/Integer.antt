-- ===== src/Integer.antt =====
-- hilti/runtime/include/types/integer.h and hilti/runtime/src/types/integer.cc: packing unsigned
-- integers into bytes and back, the order of bytes, and ranges of bits. A value of width `w` is below
-- `limit_of w`. What the compiler was told of the machine is the parameter `system`.
pub mod Bits
pub mod Digits
pub mod Pack
pub mod Ranges
use Prim.Native.Nat.{bit_and, bit_or}
use spicy.Base.{
  ℕ, zero, suc, ◌+◌, ◌-◌, ◌*◌, ◌/◌, ◌%◌, ◌^◌, Bool, true, false, List, [], ◌∷◌, length, take, drop,
  get_elem?, replicate, Option, none, some, ltb, leb, ◌==◌, if◌then◌else◌, Result, ok, err,
  invalid_argument, runtime_error, insufficient_data, undefined_byte_order,
}

-- `uint8_t`, `uint16_t`, `uint32_t`, `uint64_t`.
pub data Width : Type 0 where
  w8 w16 w32 w64 : Width

-- `sizeof`, in bytes.
abbrev pub size_of : Width → ℕ
size_of w8 = 1
size_of w16 = 2
size_of w32 = 4
size_of w64 = 8

-- 2 ^ (8 * n).
abbrev pub limit_of_bytes : ℕ → ℕ
limit_of_bytes zero = 1
limit_of_bytes (suc n) = limit_of_bytes n * 256

abbrev pub limit_of : Width → ℕ
limit_of w = limit_of_bytes (size_of w)

pub data ByteOrder : Type 0 where
  little big network host undef : ByteOrder

-- `LITTLE_ENDIAN` or `BIG_ENDIAN`.
pub data Endian : Type 0 where
  little_endian big_endian : Endian

abbrev pub system_byte_order : Endian → ByteOrder
system_byte_order little_endian = little
system_byte_order big_endian = big

abbrev pub resolve_host : Endian → ByteOrder → ByteOrder
resolve_host system host = system_byte_order system
resolve_host system order = order

-- `dst[i] = x`.
abbrev pub set_elem : List ℕ → ℕ → ℕ → List ℕ
set_elem [] i x = []
set_elem (d ∷ ds) zero x = x ∷ ds
set_elem (d ∷ ds) (suc i) x = d ∷ set_elem ds i x

-- `dst[i]`; the indices below stay inside.
abbrev pub elem_at : List ℕ → ℕ → ℕ
elem_at [] i = 0
elem_at (d ∷ ds) zero = d
elem_at (d ∷ ds) (suc i) = elem_at ds i

-- `detail::pack`.
unfoldable pub pack_loop : ℕ → ℕ → List ℕ → List ℕ → List ℕ
pack_loop n x dst [] = dst
pack_loop n x dst (i ∷ is) = pack_loop n (x / 256) (set_elem dst (n - i - 1) (bit_and x 255)) is

-- `detail::unpack`, with the values of the type below `limit`.
unfoldable pub unpack_loop : ℕ → ℕ → List ℕ → List ℕ → ℕ
unpack_loop limit x dst [] = x
unpack_loop limit x dst (i ∷ is) =
    unpack_loop limit (bit_or (x * 256 % limit) (elem_at dst i)) dst is

abbrev pub big_indices : Width → List ℕ
big_indices w8 = 0 ∷ []
big_indices w16 = 0 ∷ 1 ∷ []
big_indices w32 = 0 ∷ 1 ∷ 2 ∷ 3 ∷ []
big_indices w64 = 0 ∷ 1 ∷ 2 ∷ 3 ∷ 4 ∷ 5 ∷ 6 ∷ 7 ∷ []

abbrev pub little_indices : Width → List ℕ
little_indices w8 = 0 ∷ []
little_indices w16 = 1 ∷ 0 ∷ []
little_indices w32 = 3 ∷ 2 ∷ 1 ∷ 0 ∷ []
little_indices w64 = 7 ∷ 6 ∷ 5 ∷ 4 ∷ 3 ∷ 2 ∷ 1 ∷ 0 ∷ []

-- A byte is stored as it is, any other integer by the loop.
abbrev pub pack_with : Width → ℕ → List ℕ → List ℕ → List ℕ
pack_with w8 i raw indices = set_elem raw 0 i
pack_with w i raw indices = pack_loop (size_of w) i raw indices

-- `pack`; `raw` is what the memory holds before.
abbrev pub pack_resolved : Width → List ℕ → ℕ → ByteOrder → Result (List ℕ)
pack_resolved w raw i little = ok (pack_with w i raw (little_indices w))
pack_resolved w raw i big = ok (pack_with w i raw (big_indices w))
pack_resolved w raw i network = ok (pack_with w i raw (big_indices w))
pack_resolved w raw i _ = err runtime_error

unfoldable pub pack : Endian → Width → List ℕ → ℕ → ByteOrder → Result (List ℕ)
unfolding pack_loop
pack system w raw i fmt = pack_resolved w raw i (resolve_host system fmt)

abbrev pub unpack_with : Width → List ℕ → List ℕ → ℕ
unpack_with w8 raw indices = elem_at raw 0
unpack_with w raw indices = unpack_loop (limit_of w) 0 raw indices

abbrev pub unpack_resolved : Width → List ℕ → List ℕ → ByteOrder → Result (ℕ × List ℕ)
unpack_resolved w raw b little = ok (unpack_with w raw (little_indices w), b)
unpack_resolved w raw b big = ok (unpack_with w raw (big_indices w), b)
unpack_resolved w raw b network = ok (unpack_with w raw (big_indices w), b)
unpack_resolved w raw b _ = err undefined_byte_order

-- `unpack`: the integer and the bytes behind it.
unfoldable pub unpack : Endian → Width → List ℕ → ByteOrder → Result (ℕ × List ℕ)
unfolding unpack_loop
unpack system w b fmt =
    if ltb (length b) (size_of w)
    then err insufficient_data
    else unpack_resolved w (take (size_of w) b) (drop (size_of w) b) (resolve_host system fmt)

pub data BitOrder : Type 0 where
  lsb0 msb0 no_order : BitOrder

-- `1 << k`, before it is cut to the type.
abbrev pub power : ℕ → ℕ
power zero = 1
power (suc k) = power k * 2

abbrev pub masked : ℕ → ℕ → ℕ → ℕ → ℕ
masked width v lower range =
    if range == width
    then v
    else bit_and v ((power range % power 64 - 1) * power lower % power 64) / power lower

-- What is done once the limits are checked.
abbrev pub ordered_bits : ℕ → ℕ → ℕ → ℕ → BitOrder → Result ℕ
ordered_bits width v lower upper lsb0 = ok (masked width v lower (upper - lower + 1))
ordered_bits width v lower upper msb0 =
    ok (masked width v (width - upper - 1) ((width - lower - 1) - (width - upper - 1) + 1))
ordered_bits width v lower upper no_order = err runtime_error

-- `bits`, for a type of `width` bits, at most 64.
unfoldable pub bits : ℕ → ℕ → ℕ → ℕ → BitOrder → Result ℕ
bits width v lower upper bo =
    if ltb upper lower
    then err invalid_argument
    else if leb width upper
    then err invalid_argument
    else ordered_bits width v lower upper bo
