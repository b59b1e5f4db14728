-- ===== src/Stream/Ops/Reachable.antt =====
-- The streams that the operations of hilti/runtime/include/types/stream.h make of a new one.
use spicy.Base.{
  ◌++◌, ℕ, zero, suc, ◌+◌, ◌-◌, ◌<◌, ◌≡◌, ◌≢◌, refl, sym, subst, Bool, true, false, List, [], ◌∷◌,
  All-append, Result, ok, err, ◌>>=◌, arith, inl, inr, Bool-cases, and_true, leb, ltb,
  if◌then◌else◌, length, guard, invalid_iterator, ◌>>◌, length-drop, ap, ◌⊎◌, le-or-lt, le→leb,
  lt→leb_false,
}
use spicy.Stream.Chunk.{
  Chunk, Payload, array, vector, gap, size, size_of, end_offset, in_range, trim_payload, set_offset,
  from_bytes, from_gap, small_buffer_size,
}
use spicy.Stream.Chunk
use spicy.Stream.Chain.{
  Chain, State, is_mutable, is_frozen, is_invalid, empty, valid_state, append, Round, breaks,
  goes_on, trim_round, next_round, trim_rounds, round_result, trim_loop, trim, freeze, unfreeze,
  end,
}
use spicy.Stream.Chunk.Content.{Fits}
use spicy.Stream.Chain.Linked.{IsWellFormed, content}
use spicy.Stream.Blocks.Sizes.{AllFull}
use spicy.Stream.Ops.{
  Op, writes, gaps, trims, freezes, unfreezes, step, append_bytes, append_gap, of_chunk,
}
use spicy.Stream.Ops.Refinement.{
  Window, Represents, Permitted, Agree, specified, step-Agree, closed_state, gap_write,
}

-- What a constructor of `Stream` makes of data, or of none: one chunk at offset 0, or no chunk.
abbrev pub IsNew : Chain → Type 0
IsNew s =
    (s ≡ empty) ⊎ ((p : Payload) × Fits p × (s ≡ of_chunk (record { offset = 0; payload = p })))

-- From the chain `s`, by permitted operations that do not throw.
pub data Reachable (s : Chain) : Chain → Type 0 where
  begins : Reachable s s
  goes : {c d : Chain} (op : Op) → Reachable s c → Permitted c op → step c op ≡ ok d → Reachable s d

-- Of the chunks `cs`, none is empty, or only the first, which is then the one that was there in the
-- beginning.
abbrev pub OnlyFirst : List Chunk → List Chunk → Type 0
OnlyFirst start cs =
    AllFull cs
    ⊎ ((x : Chunk) × (xs : List Chunk) × (start ≡ x ∷ [])
        × (size x ≡ 0)
        × (cs ≡ x ∷ xs)
        × AllFull xs)

abbrev OnlyFirstIn : List Chunk → Result Chain → Type 0
OnlyFirstIn start (ok c) = OnlyFirst start c.chunks
OnlyFirstIn start (err e) = Unit

abbrev OnlyFirstOf : List Chunk → Result Round → Type 0
OnlyFirstOf start (ok (breaks cs)) = OnlyFirst start cs
OnlyFirstOf start (ok (goes_on cs)) = OnlyFirst start cs
OnlyFirstOf start (err e) = Unit

longer :
    (start cs : List Chunk) (y : Chunk)
    → OnlyFirst start cs
    → 0 < size y
    → OnlyFirst start (cs ++ (y ∷ []))
longer start cs y (inl h) k = inl (All-append (λ (z : Chunk). 0 < size z) cs (y ∷ []) h (k, tt))
longer start cs y (inr (x, xs, a, z, q, f)) k = inr (
  x,
  xs ++ (y ∷ []),
  a,
  z,
  ap (λ t. t ++ (y ∷ [])) q,
  All-append (λ (v : Chunk). 0 < size v) xs (y ∷ []) f (k, tt),
)

appended :
    (start : List Chunk) (c : Chain) (x : Chunk) (s : State)
    → c.state ≡ s
    → OnlyFirst start c.chunks
    → 0 < size x
    → OnlyFirstIn start (append c (x ∷ []))
unfolding append set_offset
appended start c x is_mutable e h k = rw e (longer start c.chunks (record x { offset = end c }) h k)
appended start c x is_frozen e h k = rw e tt
appended start c x is_invalid e h k = rw e tt

from_bytes-size : (b : ℕ) (bs : List ℕ) → 0 < size (from_bytes 0 (b ∷ bs))
unfolding from_bytes
from_bytes-size b bs = elim (Bool-cases (leb (length (b ∷ bs)) small_buffer_size)) [
  | inl k ↦ rw k (omega arith)
  | inr k ↦ rw k (omega arith)
]

trim_payload-size : (p : Payload) (k : ℕ) → k < size_of p → 0 < size_of (trim_payload p k)
unfolding trim_payload
trim_payload-size (array n buffer) k h = omega arith
trim_payload-size (vector bytes) k h = let l = length-drop k bytes in omega arith
trim_payload-size (gap n) k h = omega arith

ltb→lt : (a b : ℕ) → ltb a b ≡ true → a < b
ltb→lt a b h = ground arith

room : (o b n : ℕ) → o < b + n → 0 < n → o - b < n
room o b n h k = omega arith

trimmed-OnlyFirst :
    (start : List Chunk) (o : ℕ) (x : Chunk) (xs : List Chunk)
    → AllFull (x ∷ xs)
    → in_range x o ≡ true
    → OnlyFirstOf start (Chunk.trim x o >>= (λ x'. ok (breaks (x' ∷ xs))))
unfolding Chunk.trim
trimmed-OnlyFirst start o x xs h q =
    let inside = ltb→lt o (end_offset x) (and_true (leb x.offset o) (ltb o (end_offset x)) q).1 in
    rw q (
      inl (trim_payload-size x.payload (o - x.offset) (room o x.offset (size x) inside (h.0)), h.1))

round_full :
    (start : List Chunk) (o : ℕ) (cs : List Chunk)
    → AllFull cs
    → OnlyFirstOf start (trim_round o cs)
unfolding trim_round
round_full start o [] h = inl tt
round_full start o (x ∷ xs) h = elim (Bool-cases (leb (end_offset x) o)) [
  | inl k ↦ rw k (inl h.1)
  | inr k ↦ elim (Bool-cases (in_range x o)) [
    | inl q ↦ rw (k, q) (trimmed-OnlyFirst start o x xs h q)
    | inr q ↦ rw (k, q) (inl h)
  ]
]

round_empty_first :
    (start : List Chunk) (o : ℕ) (x : Chunk) (xs : List Chunk)
    → start ≡ x ∷ []
    → size x ≡ 0
    → AllFull xs
    → OnlyFirstOf start (trim_round o (x ∷ xs))
unfolding trim_round
round_empty_first start o x xs a z f = elim (le-or-lt (end_offset x) o) [
  | inl k ↦ rw (le→leb _ _ k) (inl f)
  | inr k ↦
      rw (lt→leb_false _ _ k, lt→leb_false x.offset o (omega (arith, z)))
        (inr (x, xs, a, z, refl, f))
]

round-OnlyFirst :
    (start : List Chunk) (o : ℕ) (cs : List Chunk)
    → OnlyFirst start cs
    → OnlyFirstOf start (trim_round o cs)
round-OnlyFirst start o cs (inl h) = round_full start o cs h
round-OnlyFirst start o cs (inr (x, xs, a, z, q, f)) =
    subst (λ t. OnlyFirstOf start (trim_round o t)) (sym q) (round_empty_first start o x xs a z f)

next-OnlyFirst :
    (start : List Chunk) (next : List Chunk → Result Round) (r : Result Round)
    → ((cs : List Chunk) → OnlyFirst start cs → OnlyFirstOf start (next cs))
    → OnlyFirstOf start r
    → OnlyFirstOf start (r >>= next_round next)
next-OnlyFirst start next (ok (breaks cs)) g h = h
next-OnlyFirst start next (ok (goes_on cs)) g h = g cs h
next-OnlyFirst start next (err e) g h = tt

rounds-OnlyFirst :
    (start : List Chunk) (n o : ℕ) (cs : List Chunk)
    → OnlyFirst start cs
    → OnlyFirstOf start (trim_rounds n o cs)
unfolding trim_rounds
rounds-OnlyFirst start zero o cs h = h
rounds-OnlyFirst start (suc n) o cs h =
    next-OnlyFirst start (λ cs'. trim_rounds n o cs') (trim_round o cs) (rounds-OnlyFirst start n o)
      (round-OnlyFirst start o cs h)

trim-OnlyFirst :
    (start : List Chunk) (c : Chain) (o : ℕ)
    → OnlyFirst start c.chunks
    → OnlyFirstIn start (trim c o)
unfolding trim trim_loop
trim-OnlyFirst start c o h =
    checked (guard (valid_state c.state) invalid_iterator)
      (trim_rounds (suc (length c.chunks)) o c.chunks)
      (rounds-OnlyFirst start (suc (length c.chunks)) o c.chunks h)
  where
    kept :
        (r : Result Round)
        → OnlyFirstOf start r
        → OnlyFirstIn start
            ((r >>= round_result) >>= (λ cs. ok (record c { chunks = cs; head_offset = o })))
    kept (ok (breaks cs)) k = k
    kept (ok (goes_on cs)) k = tt
    kept (err e) k = tt

    checked :
        (g : Result (Unit {0})) (r : Result Round)
        → OnlyFirstOf start r
        → OnlyFirstIn start
            (g >> ((r >>= round_result) >>= (λ cs. ok (record c { chunks = cs; head_offset = o }))))
    checked (ok u) r k = kept r k
    checked (err e) r k = tt

with_state-OnlyFirst :
    (start : List Chunk) (c : Chain) (s : State) (b : Bool)
    → OnlyFirst start c.chunks
    → OnlyFirst start (if b then record c { state = s } else c).chunks
with_state-OnlyFirst start c s true h = h
with_state-OnlyFirst start c s false h = h

step-OnlyFirst :
    (start : List Chunk) (c : Chain) (op : Op)
    → OnlyFirst start c.chunks
    → OnlyFirstIn start (step c op)
unfolding step append_bytes append_gap freeze unfreeze from_gap
step-OnlyFirst start c (writes []) h = h
step-OnlyFirst start c (writes (b ∷ bs)) h =
    appended start c (from_bytes 0 (b ∷ bs)) c.state refl h (from_bytes-size b bs)
step-OnlyFirst start c (gaps zero) h = h
step-OnlyFirst start c (gaps (suc n)) h =
    subst (OnlyFirstIn start) (sym (gap_write c n))
      (appended start c (from_gap 0 (suc n)) c.state refl h (omega arith))
step-OnlyFirst start c (trims o) h = trim-OnlyFirst start c o h
step-OnlyFirst start c freezes h = with_state-OnlyFirst start c is_frozen (valid_state c.state) h
step-OnlyFirst start c unfreezes h = with_state-OnlyFirst start c is_mutable (valid_state c.state) h

abbrev pub IsGood : Chain → Chain → Type 0
IsGood s c = IsWellFormed c × (c.state ≢ is_invalid) × OnlyFirst s.chunks c.chunks

of_Agree :
    (d : Chain) (r : Result Window) → Agree (ok d) r → IsWellFormed d × (d.state ≢ is_invalid)
of_Agree d (ok w) h = (h.well_formed, h.is_valid)
of_Agree d (err e) h = absurd h

step-IsGood :
    (s c d : Chain) (op : Op) → IsGood s c → Permitted c op → step c op ≡ ok d → IsGood s d
step-IsGood s c d op h p e =
    let w : Window = record {
      start = c.head_offset;
      bytes = content c;
      closed = closed_state c.state;
    } in
    let r : Represents c w = record {
      well_formed = h.0;
      is_valid = h.1;
      starts = refl;
      holds = refl;
      closes = refl;
    } in
    let agreed =
      of_Agree d (specified w op)
        (subst (λ x. Agree x (specified w op)) e (step-Agree c w op r p)) in
    (agreed.0, agreed.1, subst (OnlyFirstIn s.chunks) e (step-OnlyFirst s.chunks c op h.2))

size-cases : (n : ℕ) → (n ≡ 0) ⊎ (0 < n)
size-cases zero = inl refl
size-cases (suc n) = inr (omega arith)

new-IsGood : (s : Chain) → IsNew s → IsGood s s
unfolding of_chunk
new-IsGood s (inl e) = subst (λ t. IsGood t t) (sym e) (tt, (λ k. cc), inl tt)
new-IsGood s (inr (p, f, e)) =
    subst (λ t. IsGood t t) (sym e)
      (
        (refl, f, tt),
        (λ k. cc),
        elim (size-cases (size_of p)) [
          | inl z ↦ inr (record { offset = 0; payload = p }, [], refl, z, refl, tt)
          | inr k ↦ inl (k, tt)
        ],
      )

-- Every chain that permitted operations make of a new stream, which has no chunk or was made of one,
-- is well-formed and valid, and none of its chunks is empty, unless the stream was made of one empty
-- chunk: then that chunk may still be the first, and no other is empty. A trim before the begin of the
-- chain, or into a gap, is not permitted.
pub Reachable-IsGood : (s c : Chain) → IsNew s → Reachable s c → IsGood s c
Reachable-IsGood s c n begins = new-IsGood s n
Reachable-IsGood s d n (goes {c} op r p e) = step-IsGood s c d op (Reachable-IsGood s c n r) p e
