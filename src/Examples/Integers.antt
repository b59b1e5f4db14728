-- ===== src/Examples/Integers.antt =====
-- Integers packed and unpacked, and ranges of their bits.
use spicy.Base.{
  ℕ, ◌<◌, ◌≡◌, refl, ◌≢◌, List, [], ◌∷◌, ◌++◌, length, replicate, All, arith, ok, err,
  insufficient_data, undefined_byte_order, invalid_argument,
}
use spicy.Integer.{
  w16, w32, w64, limit_of, little, big, network, host, undef, little_endian, pack, unpack, bits,
  lsb0, msb0, no_order,
}
use spicy.Integer.Digits.{IsByte}
use spicy.Integer.Pack.{unpack-pack, pack-unpack}
use spicy.Integer.Ranges.{bits-range}

little-ne-undef : little ≢ undef
little-ne-undef e = cc

host-ne-undef : host ≢ undef
host-ne-undef e = cc

msb0-ne-no_order : msb0 ≢ no_order
msb0-ne-no_order e = cc

pack_network : pack little_endian w32 (replicate 4 77) 0x01020304 network ≡ ok (1 ∷ 2 ∷ 3 ∷ 4 ∷ [])
unfolding pack
pack_network = refl

unpack_short : unpack little_endian w16 (1 ∷ []) big ≡ err insufficient_data
unfolding unpack
unpack_short = refl

unpack_undef : unpack little_endian w16 (1 ∷ 2 ∷ []) undef ≡ err undefined_byte_order
unfolding unpack
unpack_undef = refl

bits_swapped : bits 8 0xa5 5 2 lsb0 ≡ err invalid_argument
unfolding bits
bits_swapped = refl

unpack-pack_example :
    (bytes : List ℕ) × (pack little_endian w64 (replicate 8 0) 0x0102030405060708 host ≡ ok bytes)
    × (length bytes ≡ 8)
    × All IsByte bytes
    × (unpack little_endian w64 (bytes ++ (9 ∷ [])) host ≡ ok (0x0102030405060708, 9 ∷ []))
unpack-pack_example =
    unpack-pack little_endian w64 (replicate 8 0) 0x0102030405060708 (9 ∷ []) host refl
      (omega arith) host-ne-undef

pack-unpack_example :
    (v : ℕ) × (unpack little_endian w16 (1 ∷ 2 ∷ 3 ∷ []) little ≡ ok (v, 3 ∷ []))
    × (v < limit_of w16)
    × (pack little_endian w16 (0 ∷ 0 ∷ []) v little ≡ ok (1 ∷ 2 ∷ []))
pack-unpack_example =
    pack-unpack little_endian w16 (0 ∷ 0 ∷ []) (1 ∷ 2 ∷ []) (3 ∷ []) little refl refl
      (omega arith, (omega arith, tt)) little-ne-undef

bits-range_example : bits 8 0xa5 0 2 msb0 ≡ ok 5
bits-range_example =
    bits-range 8 0xa5 0 2 msb0 (omega arith) (omega arith) (omega arith) (omega arith)
      msb0-ne-no_order
