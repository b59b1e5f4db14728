-- ===== src/Bytes.antt =====
-- `Bytes` of hilti/runtime/include/types/bytes.h and hilti/runtime/src/types/bytes.cc. An iterator is
-- the position that it stands at; where it is unset, it is `none`.
pub mod Search
pub mod Number
use Prim.Native.Nat.{bit_and, bit_or, bit_xor}
use spicy.Base.{
  ℕ, zero, suc, ◌+◌, ◌-◌, ◌*◌, ◌/◌, ◌%◌, ◌^◌, Bool, true, false, ◌&&◌, not, List, [], ◌∷◌, ◌++◌,
  length, take, drop, Option, none, some, ltb, leb, ◌==◌, if◌then◌else◌, Result, ok, err, ◌>>=◌,
  runtime_error, invalid_argument, index_error, undefined, ◌||◌,
}
use spicy.Integer.{
  ByteOrder, little, big, network, host, undef, Endian, system_byte_order, set_elem, elem_at, power,
}
use spicy.Integer.Digits.{digits, value}

-- How the inner loop of `find` ends.
pub data Compared : Type 0 where
  reaches_end differs matches : Compared

-- The inner loop, from `x` and `y` on; the end of `v` is looked at only behind a byte.
unfoldable pub compare_from : List ℕ → List ℕ → Compared
compare_from [] ys = reaches_end
compare_from (x ∷ xs) [] = differs
compare_from (x ∷ xs) (y ∷ []) = if x == y then matches else differs
compare_from (x ∷ xs) (y ∷ z ∷ ys) =
    let rest = compare_from xs (z ∷ ys) in if x == y then rest else differs

abbrev pub decide : Compared → ℕ → Bool × ℕ → Bool × ℕ
decide reaches_end i next = (false, i)
decide matches i next = (true, i)
decide differs i next = next

-- The outer loop, with `i` at the first of the bytes, for a `v` that begins with `first`.
unfoldable pub find_loop : ℕ → List ℕ → List ℕ → ℕ → Bool × ℕ
find_loop first v [] i = (false, i)
find_loop first v (x ∷ xs) i =
    let next = find_loop first v xs (i + 1) in
    if x == first then decide (compare_from (x ∷ xs) v) i next else next

abbrev pub start_at : Option ℕ → ℕ
start_at none = 0
start_at (some n) = n

-- `find(v, n)`. An iterator behind the end is dereferenced before it is compared with the end.
unfoldable pub find : List ℕ → List ℕ → Option ℕ → Result (Bool × ℕ)
unfolding find_loop
find b [] n = ok (true, start_at n)
find b (y ∷ ys) n =
    if ltb (length b) (start_at n)
    then err index_error
    else ok (find_loop y (y ∷ ys) (drop (start_at n) b) (start_at n))

-- `extract(dst, n)`: what is copied to `dst`, and the rest.
unfoldable pub extract : List ℕ → ℕ → Result (List ℕ × List ℕ)
extract b n = if ltb (length b) n then err invalid_argument else ok (take n b, drop n b)

pub data DecodeErrorStrategy : Type 0 where
  ignore replace strict : DecodeErrorStrategy

-- The codes from 128 on are negative as a `char`.
abbrev pub is_printable : ℕ → Bool
is_printable c = leb 32 c && ltb c 127

abbrev pub keep : ℕ → Result (List ℕ) → Result (List ℕ)
keep c rest = rest >>= λ cs. ok (c ∷ cs)

abbrev pub illegal : DecodeErrorStrategy → Result (List ℕ) → Result (List ℕ)
illegal ignore rest = rest
illegal replace rest = keep 63 rest
illegal strict rest = err runtime_error

-- `decode` for `Charset::ASCII`.
unfoldable pub decode_ascii : DecodeErrorStrategy → List ℕ → Result (List ℕ)
decode_ascii errors [] = ok []
decode_ascii errors (c ∷ cs) =
    let rest = decode_ascii errors cs in if is_printable c then keep c rest else illegal errors rest

-- The loop of `toUInt(byte_order)`.
unfoldable pub shift_loop : ℕ → List ℕ → ℕ
shift_loop i [] = i
shift_loop i (c ∷ cs) = shift_loop (bit_or (i * 256 % 2 ^ 64) c) cs

abbrev swap : List ℕ → ℕ → ℕ → List ℕ
swap c i j = set_elem (set_elem c i (elem_at c j)) j (elem_at c i)

-- `flip64`: the loop of `flip_impl` swaps the bytes of the number in memory, which are its digits in
-- the machine's order, from the outside in.
unfoldable pub flip64 : ℕ → ℕ
flip64 v = value (swap (swap (swap (swap (digits 8 v) 0 7) 1 6) 2 5) 3 4)

abbrev pub shifted_right : ℕ → ℕ → ℕ
shifted_right v zero = v
shifted_right v (suc k) = shifted_right (v / 256) k

-- `flip(v, n)`, for `n` up to 8.
unfoldable pub flip : ℕ → ℕ → ℕ
unfolding flip64
flip v n = if n == 0 then v else shifted_right (flip64 v) (8 - n)

-- `Host` is resolved before.
abbrev converted : ByteOrder → List ℕ → Result ℕ
converted little b = ok (flip (shift_loop 0 b) (length b))
converted big b = ok (shift_loop 0 b)
converted network b = ok (shift_loop 0 b)
converted _ b = err runtime_error

-- `toUInt(byte_order)` for an order other than `Host`.
unfoldable pub to_uint_ordered : List ℕ → ByteOrder → Result ℕ
unfolding flip shift_loop
to_uint_ordered b undef = err runtime_error
to_uint_ordered b order = if ltb 8 (length b) then err runtime_error else converted order b

abbrev minus_one_minus : ℕ → ℕ
minus_one_minus i = 2 ^ 64 - 1 - i

-- What `toInt(byte_order)` makes of the unsigned number, as the 64 bits of the result. A shift of the
-- 32 bits of `1U` by none or by more than 31 places is undefined, so that the case of 8 bytes is never
-- reached.
unfoldable pub signed : ℕ → ℕ → Result ℕ
signed size i =
    if size == 0 || ltb 4 size
    then err undefined
    else if bit_and i (power (size * 8 - 1)) == 0
    then ok i
    else if size == 4
    then err undefined
    else ok (minus_one_minus (bit_xor i (power (size * 8) - 1)))

-- `toUInt(byte_order)`: for `Host` it calls `toInt`.
unfoldable pub to_uint : Endian → List ℕ → ByteOrder → Result ℕ
unfolding to_uint_ordered signed
to_uint system b host = to_uint_ordered b (system_byte_order system) >>= signed (length b)
to_uint system b order = to_uint_ordered b order

-- `toInt(byte_order)`.
unfoldable pub to_int : Endian → List ℕ → ByteOrder → Result ℕ
unfolding to_uint
to_int system b order = to_uint system b order >>= signed (length b)
