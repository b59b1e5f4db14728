-- ===== src/Address.antt =====
-- Addresses and networks: hilti/runtime/include/types/address.h, hilti/runtime/src/types/address.cc
-- and hilti/runtime/include/types/network.h. What `inet_pton` answers is a parameter, with the
-- numbers in the machine's byte order already.
pub mod Packing
pub mod Masks
pub mod Networks
use Prim.Native.Nat.{bit_and}
use spicy.Base.{
  ℕ, zero, suc, ◌+◌, ◌-◌, ◌*◌, ◌%◌, Bool, true, false, ◌&&◌, ◌||◌, List, [], ◌∷◌, ◌++◌, Option,
  none, some, ◌==◌, ltb, if◌then◌else◌, Result, ok, err, ◌>>=◌, length, any, invalid_argument,
  runtime_error, undefined, insufficient_data, undefined_family, ℤ, pos, negsuc,
}
use spicy.Integer.{
  ByteOrder, little, big, network, host, undef, Endian, Width, resolve_host, w32, w64, limit_of,
  pack, unpack, power,
}

pub data AddressFamily : Type 0 where
  no_family ipv4 ipv6 : AddressFamily

-- `a1` has the eight more significant bytes.
pub record Address : Type 0 where
  pub a1 : ℕ
  pub a2 : ℕ
  pub family : AddressFamily

-- `inet_pton`, for the two families.
pub record Resolver : Type 0 where
  pub pton4 : List ℕ → Option ℕ
  pub pton6 : List ℕ → Option (ℕ × ℕ)

abbrev pub init4 : Option ℕ → Result Address
init4 none = err invalid_argument
init4 (some v) = ok (record { a1 = 0; a2 = v; family = ipv4 })

abbrev pub decayed : ℕ → ℕ → AddressFamily
decayed a1 a2 = if a1 == 0 && bit_and a2 18446744069414584320 == 0 then ipv4 else ipv6

abbrev pub init6 : Option (ℕ × ℕ) → Result Address
init6 none = err invalid_argument
init6 (some (v, w)) = ok (record { a1 = v; a2 = w; family = decayed v w })

-- `_parse`: text with a colon is for IPv6.
unfoldable pub parse : Resolver → List ℕ → Result Address
parse r addr = if any (λ c. c == 58) addr then init6 (r.pton6 addr) else init4 (r.pton4 addr)

-- `a & (0xffffffffffffffff << k)`.
abbrev pub clear_low : ℕ → ℕ → ℕ
clear_low k a = bit_and a ((power 64 - 1) * power k % power 64)

-- `mask`. A width above 128 makes the shift undefined.
unfoldable pub mask : Address → ℕ → Result Address
mask a width =
    if width == 0
    then ok (record { a1 = 0; a2 = 0; family = a.family })
    else if ltb 128 width
    then err undefined
    else ok (record {
      a1 = if ltb width 64 then clear_low (64 - width) a.a1 else a.a1;
      a2 = if ltb 64 width then clear_low (128 - width) a.a2 else 0;
      family = a.family;
    })

-- `operator==`.
abbrev pub same_address : Address → Address → Bool
same_address a b = a.a1 == b.a1 && a.a2 == b.a2

-- Whether the lower half of an address comes first.
abbrev pub low_first : Endian → ByteOrder → Bool
low_first system fmt = elim (resolve_host system fmt) [ little ↦ true | _ ↦ false ]

abbrev pub halves_joined : Bool → List ℕ → List ℕ → List ℕ
halves_joined nbo x y = if nbo then y ++ x else x ++ y

abbrev pub pack_family :
    Endian → (Width → List ℕ) → Address → ByteOrder → AddressFamily → Result (List ℕ)
pack_family system raw a fmt ipv4 = pack system w32 (raw w32) (a.a2 % limit_of w32) fmt
pack_family system raw a fmt ipv6 = pack system w64 (raw w64) a.a1 fmt >>= (λ x.
    pack system w64 (raw w64) a.a2 fmt >>= (λ y. ok (halves_joined (low_first system fmt) x y)))
pack_family system raw a fmt no_family = err runtime_error

-- `pack`; `raw` is what the memory for an integer holds before.
unfoldable pub pack_address : Endian → (Width → List ℕ) → Address → ByteOrder → Result (List ℕ)
pack_address system raw a fmt = pack_family system raw a fmt a.family

abbrev pub from_halves : Bool → ℕ → ℕ → Address
from_halves nbo x y =
    if nbo
    then record { a1 = y; a2 = x; family = ipv6 }
    else record { a1 = x; a2 = y; family = ipv6 }

abbrev pub unpack4 : Endian → List ℕ → ByteOrder → Result (Address × List ℕ)
unpack4 system data_ fmt =
    unpack system w32 data_ fmt >>= (λ x. ok (record { a1 = 0; a2 = x.0; family = ipv4 }, x.1))

abbrev pub unpack6 : Endian → List ℕ → ByteOrder → Result (Address × List ℕ)
unpack6 system data_ fmt = unpack system w64 data_ fmt >>= (λ x.
    unpack system w64 x.1 fmt >>= (λ y. ok (from_halves (low_first system fmt) x.0 y.0, y.1)))

-- `_unpack`.
unfoldable pub unpack_address :
    Endian → List ℕ → AddressFamily → ByteOrder → Result (Address × List ℕ)
unpack_address system data_ ipv4 fmt =
    if ltb (length data_) 4 then err insufficient_data else unpack4 system data_ fmt
unpack_address system data_ ipv6 fmt =
    if ltb (length data_) 16 then err insufficient_data else unpack6 system data_ fmt
unpack_address system data_ no_family fmt = err undefined_family

pub record Network : Type 0 where
  pub prefix : Address
  pub length : ℕ

abbrev pub with_length : Address → ℕ → Result Network
with_length p width = mask p width >>= (λ q. ok (record { prefix = q; length = width }))

-- The width for `mask` is unsigned: what is negative is far above 128.
abbrev pub masked_network : Address → ℤ → ℕ → Result Network
masked_network p (pos n) extra = with_length p (n + extra)
masked_network p (negsuc n) extra =
    if ltb n extra then with_length p (extra - suc n) else err undefined

abbrev pub extra_bits : AddressFamily → ℕ
extra_bits ipv4 = 96
extra_bits _ = 0

-- `_mask`.
abbrev pub set_mask : Address → ℤ → Result Network
set_mask p n = masked_network p n (extra_bits p.family)

abbrev pub above : ℤ → ℕ → Bool
above (pos n) limit = ltb limit n
above (negsuc n) limit = true

abbrev pub length_refused : AddressFamily → ℤ → Bool
length_refused ipv4 n = above n 32
length_refused ipv6 n = above n 128
length_refused no_family n = true

-- The constructor from an address, and the one from a text.
unfoldable pub network_of : Address → ℤ → Result Network
unfolding mask
network_of p n = if length_refused p.family n then err invalid_argument else set_mask p n

unfoldable pub network_of_text : Resolver → List ℕ → ℤ → Result Network
unfolding mask parse
network_of_text r addr n = parse r addr >>= (λ p. set_mask p n)

-- `contains`.
unfoldable pub contains_address : Network → Address → Result Bool
unfolding mask
contains_address w x = mask x w.length >>= (λ y. ok (same_address y w.prefix))

-- `length()`.
abbrev pub prefix_length : Network → ℕ
prefix_length w = elim w.prefix.family [ ipv4 ↦ w.length - 96 | _ ↦ w.length ]
