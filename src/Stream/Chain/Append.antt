-- ===== src/Stream/Chain/Append.antt =====
-- Appending to a chain, and copying one, against the content that the chain stands for.
use spicy.Base.{ℕ, ◌≡◌, refl, sym, ap, ◌∙◌, ◌≢◌, List, [], ◌∷◌, ◌++◌, Option, ok, err, frozen}
use spicy.Stream.Chunk.{Chunk, set_offset}
use spicy.Stream.Chunk.Content.{contents, AllFit, contents-set_offset}
use spicy.Stream.Chain.{
  Chain, is_mutable, is_frozen, is_invalid, empty, end, append, append_copies, deep_copy,
}
use spicy.Stream.Chain.Linked.{
  IsWellFormed, content, set_offset-Linked, Linked-append, contents-append, Linked-AllFit,
  ensure_valid-eq,
}
use mathlib.Core.List.{append_assoc, append-nil}

-- What a chain has after it took over the chunks `xs`.
abbrev pub Extends : Chain → List Chunk → Chain → Type 0
Extends c xs c' =
    IsWellFormed c'
    × (content c' ≡ content c ++ contents xs)
    × (c'.head_offset ≡ c.head_offset)
    × (c'.state ≡ is_mutable)

-- Appending chunks to a mutable, well-formed chain succeeds, keeps it well-formed and mutable and
-- its begin offset, and puts their content behind its own.
pub append-Extends :
    (c : Chain) (x : Chunk) (xs : List Chunk)
    → IsWellFormed c
    → AllFit (x ∷ xs)
    → c.state ≡ is_mutable
    → (c' : Chain) × (append c (x ∷ xs) ≡ ok c') × Extends c (x ∷ xs) c'
unfolding append
append-Extends c x xs w f m =
    let new = set_offset (end c) (x ∷ xs) in
    (
      record c { chunks = c.chunks ++ new },
      simp m,
      (
        Linked-append c.head_offset c.chunks new w (set_offset-Linked (end c) (x ∷ xs) f),
        contents-append c.chunks new
            ∙ ap (λ t. content c ++ t) (contents-set_offset (end c) (x ∷ xs)),
        refl,
        m,
      ),
    )

regroup :
    (front : List (Option ℕ)) (x : Chunk) (xs : List Chunk) {middle : List (Option ℕ)}
    → middle ≡ front ++ contents (x ∷ [])
    → middle ++ contents xs ≡ front ++ contents (x ∷ xs)
regroup front x xs e = rw (e, append-nil, append_assoc)

append_copies-Extends :
    (n : Chain) (cs : List Chunk)
    → IsWellFormed n
    → AllFit cs
    → n.state ≡ is_mutable
    → (n' : Chain) × (append_copies n cs ≡ ok n') × Extends n cs n'
unfolding append_copies
append_copies-Extends n [] w f m = (n, refl, (w, sym (append-nil _), refl, m))
append_copies-Extends n (x ∷ xs) w f m =
    let (n₁, e₁, (w₁, c₁, h₁, m₁)) = append-Extends n x [] w (f.0, tt) m in
    let (n₂, e₂, (w₂, c₂, h₂, m₂)) = append_copies-Extends n₁ xs w₁ f.1 m₁ in
    (n₂, rw e₁ e₂, (w₂, c₂ ∙ regroup (content n) x xs c₁, h₂ ∙ h₁, m₂))

-- A deep copy of a valid, well-formed chain has its content, but is mutable and begins at offset 0.
pub deep_copy_lem :
    (c : Chain)
    → IsWellFormed c
    → c.state ≢ is_invalid
    → (n : Chain) × (deep_copy c ≡ ok n)
      × IsWellFormed n
      × (content n ≡ content c)
      × (n.head_offset ≡ 0)
      × (n.state ≡ is_mutable)
unfolding deep_copy
deep_copy_lem c w v =
    let (n, e, (w', k, h, m)) =
      append_copies-Extends empty c.chunks tt (Linked-AllFit _ _ w) refl in
    (n, rw (ensure_valid-eq c v) e, w', k, h, m)

pub append_frozen :
    (c : Chain) (x : Chunk) (xs : List Chunk) → c.state ≡ is_frozen → append c (x ∷ xs) ≡ err frozen
unfolding append
append_frozen c x xs e = simp e
