-- ===== src/Stream/Chain/Find.antt =====
-- Finding the chunk of an offset, and reading the byte there.
use spicy.Base.{
  ℕ, zero, suc, ◌+◌, ◌-◌, ◌≤◌, ◌<◌, ◌≡◌, refl, sym, ap, ◌∙◌, inl, inr, ◌≢◌, true, false, ◌&&◌, List,
  [], ◌∷◌, ◌++◌, map, length, take, drop, get_elem?, replicate, Option, none, some, arith, leb, ltb,
  if◌then◌else◌, Result, ok, err, invalid_iterator, missing_data, Option-cases, le-or-lt, le→leb,
  lt→leb_false, lt→ltb, le→ltb_false, length-take, get_elem?-append_left, get_elem?-append_right,
  get_elem?-none, get_elem?-some, get_elem?-map, get_elem?-take,
}
use spicy.Stream.Chunk.{
  Chunk, Payload, array, vector, gap, size_of, end_offset, in_range, byte_at, or_undefined,
}
use spicy.Stream.Chunk.Content.{content_of, contents, Fits, length-content_of}
use spicy.Stream.Chain.{
  Chain, is_invalid, end_of, end, walk, search_start, find_chunk, dereference, read_found,
}
use spicy.Stream.Chain.Linked.{
  Linked, IsWellFormed, content, ensure_valid-eq, Linked-le, end_of-Linked,
}

passed_over : (c : Chunk) (o : ℕ) → end_offset c ≤ o → in_range c o ≡ false
passed_over c o h = ground arith

walk-drop :
    (s o : ℕ) (cs : List Chunk) (i : ℕ) {x : Chunk}
    → Linked s cs
    → get_elem? cs i ≡ some x
    → x.offset ≤ o
    → walk o (drop i cs) ≡ walk o cs
unfolding walk
walk-drop s o [] i w e h = cc
walk-drop s o (c ∷ cs) zero w e h = refl
walk-drop s o (c ∷ cs) (suc i) w e h =
    rw (passed_over c o (omega (arith, Linked-le (end_offset c) cs i w.2 e)))
      (walk-drop (end_offset c) o cs i w.2 e h)

walk-search_start :
    (s o : ℕ) (cs : List Chunk) (hint : Option ℕ)
    → Linked s cs
    → walk o (search_start cs o hint) ≡ walk o cs
walk-search_start s o cs none w = refl
walk-search_start s o cs (some i) w = elim (Option-cases (get_elem? cs i)) [
  | inl e ↦ rw e refl
  | inr (x, e) ↦ elim (le-or-lt x.offset o) [
    | inl h ↦ rw (e, le→leb _ _ h) (walk-drop s o cs i w e h)
    | inr h ↦ rw (e, lt→leb_false _ _ h) refl
  ]
]

-- On a valid, well-formed chain `find_chunk` finds what a search of all chunks from the first one
-- on finds, whatever the hint.
pub find_chunk-walk :
    (c : Chain) (o : ℕ) (hint : Option ℕ)
    → IsWellFormed c
    → c.state ≢ is_invalid
    → find_chunk c o hint ≡ ok (walk o c.chunks)
unfolding find_chunk
find_chunk-walk c o hint w v =
    rw (ensure_valid-eq c v) (ap ok (walk-search_start c.head_offset o c.chunks _ w))

-- What reading one place of the content answers.
abbrev pub read_content : Option (Option ℕ) → Result ℕ
read_content none = err invalid_iterator
read_content (some none) = err missing_data
read_content (some (some b)) = ok b

abbrev pub content_at : Chain → ℕ → Option (Option ℕ)
content_at c o = if leb c.head_offset o then get_elem? (content c) (o - c.head_offset) else none

reached : (o n i : ℕ) → i < n → (leb o (o + i) && ltb (o + i) (o + n)) ≡ true
reached o n i h = ground arith

offset_back : (o i : ℕ) → o + i - o ≡ i
offset_back o i = omega arith

get_elem?-gap : (n i : ℕ) → i < n → get_elem? (replicate {A = Option ℕ} n none) i ≡ some none
get_elem?-gap zero i h = absurd (omega arith)
get_elem?-gap (suc n) zero h = refl
get_elem?-gap (suc n) (suc i) h = get_elem?-gap n i (omega arith)

read_bytes :
    (bytes : List ℕ) (i : ℕ)
    → i < length bytes
    → or_undefined (get_elem? bytes i) ≡ read_content (get_elem? (map some bytes) i)
read_bytes bytes i h = let (b, e) = get_elem?-some bytes i h in rw (e, get_elem?-map some bytes i e)

read_payload :
    (o i : ℕ) (p : Payload)
    → Fits p
    → i < size_of p
    → read_found (o + i) (some (record { offset = o; payload = p }))
      ≡ read_content (get_elem? (content_of p) i)
unfolding byte_at
read_payload o i (array n buffer) f k =
    rw (reached o n i k, offset_back o i, sym (get_elem?-take n buffer i k))
      (read_bytes (take n buffer) i (omega (arith, length-take n buffer)))
read_payload o i (vector bytes) f k =
    rw (reached o (length bytes) i k, offset_back o i) (read_bytes bytes i k)
read_payload o i (gap n) f k = rw (get_elem?-gap n i k)

read-walk :
    (s o : ℕ) (cs : List Chunk)
    → Linked s cs
    → s ≤ o
    → o < end_of s cs
    → read_found o (walk o cs) ≡ read_content (get_elem? (contents cs) (o - s))
unfolding walk
read-walk s o [] w h k = absurd (omega arith)
read-walk s o (c ∷ cs) w h k = elim (le-or-lt (end_offset c) o) [
  | inl passed ↦
      rw (passed_over c o passed)
        (read-walk (end_offset c) o cs w.2 passed k ∙ ap read_content (sym (skipped passed)))
  | inr inside ↦ rw (within inside) (
      ap (λ j. read_found j (some c)) {x = o} {y = c.offset + (o - c.offset)} (omega arith)
      ∙ read_payload c.offset (o - c.offset) c.payload w.1 (omega arith)
      ∙ ap read_content (sym (held inside)))
]
  where
    before : length (content_of c.payload) ≡ end_offset c - c.offset
    before = omega (arith, length-content_of c.payload w.1)

    within : o < end_offset c → in_range c o ≡ true
    within inside = let b : s ≡ c.offset = sym w.0 in ground (arith, b)

    skipped :
        end_offset c ≤ o
        → get_elem? (content_of c.payload ++ contents cs) (o - s)
          ≡ get_elem? (contents cs) (o - end_offset c)
    skipped passed =
        ap (get_elem? (content_of c.payload ++ contents cs)) {x = o - s}
          {y = length (content_of c.payload) + (o - end_offset c)} (omega (arith, before))
        ∙ get_elem?-append_right (content_of c.payload) (contents cs) (o - end_offset c)

    held :
        o < end_offset c
        → get_elem? (content_of c.payload ++ contents cs) (o - s)
          ≡ get_elem? (content_of c.payload) (o - c.offset)
    held inside =
        ap (λ j. get_elem? (content_of c.payload ++ contents cs) (o - j)) (sym w.0)
        ∙ get_elem?-append_left (content_of c.payload) (contents cs) (o - c.offset)
            (omega (arith, before))

-- Reading at an offset of a valid, well-formed chain, with any hint, gives the byte of the content
-- there, says that data is missing in a gap, and refuses any offset outside the content.
pub dereference-content_at :
    (c : Chain) (o : ℕ) (hint : Option ℕ)
    → IsWellFormed c
    → c.state ≢ is_invalid
    → dereference c o hint ≡ read_content (content_at c o)
unfolding dereference
dereference-content_at c o hint w v = elim (le-or-lt c.head_offset o) [
  | inr before ↦ rw (ensure_valid-eq c v, lt→leb_false _ _ before) refl
  | inl from ↦ elim (le-or-lt (end c) o) [
    | inl behind ↦
        rw (ensure_valid-eq c v, le→leb _ _ from, le→ltb_false _ _ behind, beyond behind) refl
    | inr inside ↦
        rw (ensure_valid-eq c v, le→leb _ _ from, lt→ltb _ _ inside, find_chunk-walk c o hint w v)
          (read-walk c.head_offset o c.chunks w from inside)
  ]
]
  where
    beyond : end c ≤ o → get_elem? (content c) (o - c.head_offset) ≡ none
    beyond behind =
        get_elem?-none (content c) (o - c.head_offset)
          (omega (arith, end_of-Linked c.head_offset c.chunks w))
