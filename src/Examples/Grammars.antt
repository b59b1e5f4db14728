-- ===== src/Examples/Grammars.antt =====
-- A grammar with a look-ahead production, and one that is refused.
use mathlib.Core.List.{Memᴰ}
use spicy.Base.{ℕ, ◌<◌, ◌≡◌, ◌↔◌, refl, true, List, [], ◌∷◌, length, arith, ok, if◌then◌else◌, ◌==◌}
use spicy.Grammar.{
  Grammar, Production, epsilon, terminal, nonterminal, Kind, is_terminal, has_rhss, look_ahead,
  Entry, contains, table_loop, accepted, ambiguous, compute_tables,
}
use spicy.Grammar.Derivation.{Derived}
use spicy.Grammar.Measure.{universe}
use spicy.Grammar.Tables.{table_loop_lem}
use spicy.Grammar.Decisions.{Decides, compute_tables_lem}

-- The non-terminal 1 is 2 or the terminal 11, and 2 is the terminal 10 and then 1, or nothing.
abbrev list_kind : ℕ → Kind
list_kind a =
    if a == 1
    then look_ahead (nonterminal 2) (terminal 11)
    else if a == 2
    then has_rhss ((terminal 10 ∷ nonterminal 1 ∷ []) ∷ (epsilon ∷ []) ∷ [])
    else is_terminal

abbrev list_grammar : Grammar
list_grammar = record { nterms = 1 ∷ 2 ∷ []; kind = list_kind; render = λ s. s }

-- Here both alternatives are shown alike.
abbrev clash : Grammar
clash = record { nterms = 1 ∷ 2 ∷ []; kind = list_kind; render = λ s. 0 }

accepts_list : compute_tables 5 list_grammar ≡ accepted
unfolding compute_tables
accepts_list = refl

refuses_clash : compute_tables 5 clash ≡ ambiguous 1
unfolding compute_tables
refuses_clash = refl

enough : length (universe list_grammar) < 21
unfolding universe
enough = omega arith

table_loop_lem_example :
    (t : List Entry) × (table_loop 21 list_grammar [] ≡ ok t)
    × ((e : Entry) → (contains e t ≡ true) ↔ Derived list_grammar e)
table_loop_lem_example = table_loop_lem 21 list_grammar enough

compute_tables_lem_example : (compute_tables 21 list_grammar ≡ accepted) ↔ (
    (a : ℕ) (x y : Production)
    → Memᴰ a list_grammar.nterms
    → list_grammar.kind a ≡ look_ahead x y
    → Decides list_grammar a x y)
compute_tables_lem_example = compute_tables_lem 21 list_grammar enough
