-- ===== src/Stream/Chain/Linked.antt =====
-- The chain's invariant: each chunk begins where the one before it ends, the first at `_head_offset`.
use spicy.Base.{
  ok, ◌≢◌, ℕ, zero, suc, ◌+◌, ◌≤◌, ◌≡◌, refl, sym, ap, ◌∙◌, List, [], ◌∷◌, ◌++◌, length, get_elem?,
  Option, some, arith, length-append,
}
use spicy.Stream.Chunk.{Chunk, size, end_offset, set_offset}
use spicy.Stream.Chunk.Content.{content_of, contents, Fits, AllFit, length-content_of}
use spicy.Stream.Chain.{Chain, is_invalid, ensure_valid, end_of}
use mathlib.Core.List.{append_assoc}

abbrev pub Linked : ℕ → List Chunk → Type 0
Linked o [] = Unit {0}
Linked o (c ∷ cs) = (c.offset ≡ o) × Fits c.payload × Linked (end_offset c) cs

abbrev pub IsWellFormed : Chain → Type 0
IsWellFormed c = Linked c.head_offset c.chunks

abbrev pub content : Chain → List (Option ℕ)
content c = contents c.chunks

pub set_offset-Linked : (o : ℕ) (cs : List Chunk) → AllFit cs → Linked o (set_offset o cs)
unfolding set_offset
set_offset-Linked o [] h = tt
set_offset-Linked o (c ∷ cs) h = (refl, h.0, set_offset-Linked (o + size c) cs h.1)

pub Linked-append :
    (o : ℕ) (cs ds : List Chunk) → Linked o cs → Linked (end_of o cs) ds → Linked o (cs ++ ds)
Linked-append o [] ds h k = k
Linked-append o (c ∷ cs) ds h k = (h.0, h.1, Linked-append (end_offset c) cs ds h.2 k)

pub end_of-append : (o : ℕ) (cs ds : List Chunk) → end_of o (cs ++ ds) ≡ end_of (end_of o cs) ds
end_of-append o [] ds = refl
end_of-append o (c ∷ cs) ds = end_of-append (end_offset c) cs ds

pub contents-append : (cs ds : List Chunk) → contents (cs ++ ds) ≡ contents cs ++ contents ds
contents-append [] ds = refl
contents-append (c ∷ cs) ds =
    ap (λ t. content_of c.payload ++ t) (contents-append cs ds)
    ∙ sym (append_assoc (content_of c.payload) (contents cs) (contents ds))

-- The end of a linked list of chunks lies as far on as its content is long.
pub end_of-Linked : (o : ℕ) (cs : List Chunk) → Linked o cs → end_of o cs ≡ o + length (contents cs)
end_of-Linked o [] h = omega arith
end_of-Linked o (c ∷ cs) h = omega (
  arith,
  end_of-Linked (end_offset c) cs h.2,
  length-content_of c.payload h.1,
  length-append (content_of c.payload) (contents cs),
)

pub Linked-AllFit : (o : ℕ) (cs : List Chunk) → Linked o cs → AllFit cs
Linked-AllFit o [] h = tt
Linked-AllFit o (c ∷ cs) h = (h.1, Linked-AllFit (end_offset c) cs h.2)

-- A chunk of a linked list begins no earlier than the list.
pub Linked-le :
    (o : ℕ) (cs : List Chunk) (i : ℕ) {x : Chunk}
    → Linked o cs
    → get_elem? cs i ≡ some x
    → o ≤ x.offset
Linked-le o [] i h e = cc
Linked-le o (c ∷ cs) zero h e = ground arith
Linked-le o (c ∷ cs) (suc i) h e = omega (arith, Linked-le (end_offset c) cs i h.2 e)

pub ensure_valid-eq : (c : Chain) → c.state ≢ is_invalid → ensure_valid c ≡ ok tt
ensure_valid-eq c v = ground arith
