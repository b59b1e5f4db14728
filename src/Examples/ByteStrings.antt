-- ===== src/Examples/ByteStrings.antt =====
-- Bytes searched, decoded and converted.
use spicy.Base.{
  ℕ, ◌+◌, ◌≡◌, refl, ◌≢◌, Bool, true, false, List, [], ◌∷◌, some, arith, ok, err, index_error,
  invalid_argument, runtime_error,
}
use spicy.Integer.{little, host, undef, little_endian, big_endian, big}
use spicy.Bytes.{
  find, find_loop, compare_from, extract, decode_ascii, ignore, replace, strict, to_uint,
}
use spicy.Bytes.Search.{Place, find-Place}
use spicy.Bytes.Number.{to_uint-value, to_uint_host_signed}

abbrev text : List ℕ
text = 97 ∷ 97 ∷ 98 ∷ 97 ∷ []

find_again : find text (97 ∷ 98 ∷ []) (some 2) ≡ ok (false, 3)
unfolding find find_loop compare_from
find_again = refl

find_behind : find text (97 ∷ []) (some 5) ≡ err index_error
unfolding find
find_behind = refl

find_nothing : find text [] (some 2) ≡ ok (true, 2)
unfolding find
find_nothing = refl

extract_too_much : extract text 5 ≡ err invalid_argument
unfolding extract
extract_too_much = refl

decode_strict : decode_ascii strict (97 ∷ 200 ∷ []) ≡ err runtime_error
unfolding decode_ascii
decode_strict = refl

decode_replace : decode_ascii replace (97 ∷ 200 ∷ []) ≡ ok (97 ∷ 63 ∷ [])
unfolding decode_ascii
decode_replace = refl

find_example :
    (r : Bool) × (k : ℕ) × (find text (97 ∷ 98 ∷ []) (some 1) ≡ ok (r, 1 + k))
    × Place (97 ∷ 98 ∷ []) (97 ∷ 98 ∷ 97 ∷ []) r k
find_example = find-Place text 97 (98 ∷ []) (some 1) (omega arith)

little-ne-host : little ≢ host
little-ne-host e = cc

little-ne-undef_too : little ≢ undef
little-ne-undef_too e = cc

to_uint_example : to_uint little_endian (1 ∷ 2 ∷ 3 ∷ []) little ≡ ok 0x030201
to_uint_example =
    to_uint-value little_endian (1 ∷ 2 ∷ 3 ∷ []) little
      (omega arith, (omega arith, (omega arith, tt))) (omega arith) little-ne-host
      little-ne-undef_too

decode_example : decode_ascii ignore (97 ∷ 10 ∷ 98 ∷ []) ≡ ok (97 ∷ 98 ∷ [])
unfolding decode_ascii
decode_example = refl

to_uint_host_example :
    (to_uint big_endian (0xff ∷ []) host ≡ ok 0xffff_ffff_ffff_ffff)
    × (to_uint big_endian (0xff ∷ []) big ≡ ok 0xff)
to_uint_host_example = to_uint_host_signed big_endian 0xff (omega arith) (omega arith)
