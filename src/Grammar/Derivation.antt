-- ===== src/Grammar/Derivation.antt =====
-- What the tables of spicy/toolchain/src/compiler/codegen/grammar.cc are to hold: the least
-- relations that the rules for NULLABLE, FIRST and FOLLOW generate, with no loop and no table.
use mathlib.Core.List.{Memᴰ}
use spicy.Base.{ℕ, ◌≡◌, List, [], ◌∷◌, ◌++◌, ◌⊎◌}
use spicy.Grammar.{
  Grammar, Production, epsilon, terminal, nonterminal, rhss, Entry, nullable, first, follow,
}

-- `rhs` is a right-hand side of the non-terminal `a`.
abbrev pub IsRhs : Grammar → ℕ → List Production → Type 0
IsRhs g a rhs = Memᴰ a g.nterms × Memᴰ rhs (rhss g a)

mutual
  pub data Derived (g : Grammar) : Entry → Type 0 where
    nullable_rule :
        {a : ℕ} {rhs : List Production} → IsRhs g a rhs → Empty g rhs → Derived g (nullable a)
    first_rule :
        {a t : ℕ} {rhs : List Production} {x : Production} (before after : List Production)
        → IsRhs g a rhs
        → rhs ≡ before ++ (x ∷ after)
        → Empty g before
        → Starts g x t
        → Derived g (first a t)
    follow_rule :
        {a b t : ℕ} {rhs : List Production} (before after : List Production)
        → IsRhs g a rhs
        → rhs ≡ before ++ (nonterminal b ∷ after)
        → Empty g after
        → Derived g (follow a t)
        → Derived g (follow b t)
    next_rule :
        {a b t : ℕ} {rhs : List Production} {y : Production}
        (before between after : List Production)
        → IsRhs g a rhs
        → rhs ≡ before ++ (nonterminal b ∷ (between ++ (y ∷ after)))
        → Empty g between
        → Starts g y t
        → Derived g (follow b t)

  -- All of the productions derive the empty sequence.
  pub data Empty (g : Grammar) : List Production → Type 0 where
    nothing : Empty g []
    skip : {xs : List Production} → Empty g xs → Empty g (epsilon ∷ xs)
    vanish :
        {a : ℕ} {xs : List Production}
        → Derived g (nullable a)
        → Empty g xs
        → Empty g (nonterminal a ∷ xs)

  -- What the production derives may start with the terminal.
  pub data Starts (g : Grammar) : Production → ℕ → Type 0 where
    itself : {s : ℕ} → Starts g (terminal s) s
    inside : {a s : ℕ} → Derived g (first a s) → Starts g (nonterminal a) s

-- The alternative `x` of the non-terminal `a` is to be taken where `t` comes next.
abbrev pub Predicts : Grammar → ℕ → Production → ℕ → Type 0
Predicts g a x t = Starts g x t ⊎ (Empty g (x ∷ []) × Derived g (follow a t))
