-- ===== src/Grammar.antt =====
-- `Grammar` of spicy/toolchain/src/compiler/codegen/grammar.cc: the tables NULLABLE, FIRST and FOLLOW,
-- the look-ahead sets, and the test that look-ahead decides. A production is known by its symbol, a
-- number here, since the code only compares symbols; references are resolved. The three tables are
-- one list of entries: a set in a map is the entries with its key, and a flag is there or not.
pub mod Derivation
pub mod Rules
pub mod Entries
pub mod Closure
pub mod Measure
pub mod Tables
pub mod LookAheads
pub mod Decisions
use mathlib.Core.List.{Memᴰ}
use spicy.Base.{
  ℕ, zero, suc, ◌+◌, Bool, true, false, not, ◌&&◌, ◌||◌, List, [], ◌∷◌, ◌++◌, map, Option, none,
  some, ◌==◌, if◌then◌else◌, Result, ok, err, diverges, any,
}

-- A production on a right-hand side. An `epsilon` is a terminal without a symbol.
pub data Production : Type 0 where
  epsilon : Production
  terminal nonterminal : ℕ → Production

-- What the production with a symbol is, in `_prods`.
pub data Kind : Type 0 where
  is_terminal : Kind
  has_rhss : List (List Production) → Kind
  look_ahead : Production → Production → Kind

-- `kind` is `_prods`, and `render` the text that a terminal is shown as.
pub record Grammar : Type 0 where
  pub nterms : List ℕ
  pub kind : ℕ → Kind
  pub render : ℕ → ℕ

abbrev pub rhss_of : Kind → List (List Production)
rhss_of is_terminal = []
rhss_of (has_rhss rhss) = rhss
rhss_of (look_ahead a b) = (a ∷ []) ∷ (b ∷ []) ∷ []

-- `_rhss`.
abbrev pub rhss : Grammar → ℕ → List (List Production)
rhss g a = rhss_of (g.kind a)

-- An entry of `_nullable`, `_first` or `_follow`.
pub data Entry : Type 0 where
  nullable : ℕ → Entry
  first follow : ℕ → ℕ → Entry

abbrev pub same_entry : Entry → Entry → Bool
same_entry (nullable a) (nullable b) = a == b
same_entry (first a s) (first b t) = a == b && s == t
same_entry (follow a s) (follow b t) = a == b && s == t
same_entry _ _ = false

unfoldable pub contains : Entry → List Entry → Bool
contains e [] = false
contains e (x ∷ xs) = same_entry e x || contains e xs

abbrev first_here : ℕ → Entry → List ℕ → List ℕ
first_here a (first b t) ts = if a == b then t ∷ ts else ts
first_here a _ ts = ts

abbrev follow_here : ℕ → Entry → List ℕ → List ℕ
follow_here a (follow b t) ts = if a == b then t ∷ ts else ts
follow_here a _ ts = ts

-- `_first[a]`.
unfoldable pub firsts : ℕ → List Entry → List ℕ
firsts a [] = []
firsts a (e ∷ es) = first_here a e (firsts a es)

-- `_follow[a]`.
unfoldable pub follows : ℕ → List Entry → List ℕ
follows a [] = []
follows a (e ∷ es) = follow_here a e (follows a es)

-- `_isNullable(p)`.
abbrev pub is_nullable : List Entry → Production → Bool
is_nullable t epsilon = true
is_nullable t (terminal s) = false
is_nullable t (nonterminal a) = contains (nullable a) t

-- `_isNullable(i, j)`.
abbrev pub all_nullable : List Entry → List Production → Bool
all_nullable t [] = true
all_nullable t (x ∷ xs) = is_nullable t x && all_nullable t xs

-- `_getFirst`.
abbrev pub get_first : List Entry → Production → List ℕ
get_first t epsilon = []
get_first t (terminal s) = s ∷ []
get_first t (nonterminal a) = firsts a t

-- A statement of the loop body in `_computeTables` that may change a table: it does so if all of
-- some productions are nullable.
pub data Statement : Type 0 where
  set_nullable : ℕ → List Production → Statement
  add_first : ℕ → List Production → Production → Statement
  add_follow : ℕ → ℕ → List Production → Statement
  add_next : ℕ → List Production → Production → Statement

abbrev pub guard_of : Statement → List Production
guard_of (set_nullable a rhs) = rhs
guard_of (add_first a before x) = before
guard_of (add_follow b a after) = after
guard_of (add_next b between y) = between

-- What the statement adds where the tables are `t`.
abbrev pub additions : List Entry → Statement → List Entry
additions t (set_nullable a rhs) = nullable a ∷ []
additions t (add_first a before x) = map (first a) (get_first t x)
additions t (add_follow b a after) = map (follow b) (follows a t)
additions t (add_next b between y) = map (follow b) (get_first t y)

abbrev pub add_one : Entry → List Entry × Bool → List Entry × Bool
add_one e (t, changed) = if contains e t then (t, changed) else (e ∷ t, true)

-- `_add`, with the flag that it returns.
unfoldable pub add : List Entry → List Entry × Bool → List Entry × Bool
add [] s = s
add (e ∷ es) s = add es (add_one e s)

abbrev pub execute : Statement → List Entry × Bool → List Entry × Bool
execute st (t, changed) =
    if all_nullable t (guard_of st) then add (additions t st) (t, changed) else (t, changed)

-- The inner loop over `j`: `between` is what stands between the non-terminal `b` and `j`.
unfoldable pub next_statements : ℕ → List Production → List Production → List Statement
next_statements b between [] = []
next_statements b between (y ∷ ys) =
    add_next b between y ∷ next_statements b (between ++ (y ∷ [])) ys

abbrev pub follow_statements : ℕ → Production → List Production → List Statement
follow_statements a (nonterminal b) after = add_follow b a after ∷ next_statements b [] after
follow_statements a _ after = []

-- The loop over `i`: `before` is what stands before `i`.
unfoldable pub positions : ℕ → List Production → List Production → List Statement
positions a before [] = []
positions a before (x ∷ xs) =
    (add_first a before x ∷ follow_statements a x xs) ++ positions a (before ++ (x ∷ [])) xs

abbrev pub rhs_statements : ℕ → List Production → List Statement
rhs_statements a rhs = set_nullable a rhs ∷ positions a [] rhs

-- The loop over the right-hand sides.
abbrev pub all_rhs_statements : ℕ → List (List Production) → List Statement
all_rhs_statements a [] = []
all_rhs_statements a (r ∷ rs) = rhs_statements a r ++ all_rhs_statements a rs

abbrev pub statements_for : Grammar → List ℕ → List Statement
statements_for g [] = []
statements_for g (a ∷ as_) = all_rhs_statements a (rhss g a) ++ statements_for g as_

-- What one round of the outer loop executes, in order.
unfoldable pub statements : Grammar → List Statement
unfolding positions next_statements
statements g = statements_for g g.nterms

unfoldable pub run : List Statement → List Entry × Bool → List Entry × Bool
unfolding add contains firsts follows
run [] s = s
run (st ∷ sts) s = run sts (execute st s)

abbrev pub again : (List Entry → Result (List Entry)) → List Entry × Bool → Result (List Entry)
again continue (t, true) = continue t
again continue (t, false) = ok t

-- The loop of `_computeTables`.
unfoldable pub table_loop : ℕ → Grammar → List Entry → Result (List Entry)
unfolding run statements
table_loop zero g t = err diverges
table_loop (suc fuel) g t = again (λ t'. table_loop fuel g t') (run (statements g) (t, false))

abbrev pub is_terminal_kind : Kind → Bool
is_terminal_kind is_terminal = true
is_terminal_kind _ = false

unfoldable pub all_terminals : Grammar → List ℕ → Bool
all_terminals g [] = true
all_terminals g (s ∷ ss) = is_terminal_kind (g.kind s) && all_terminals g ss

-- `lookAheadsForProduction(p, parent)`, or `none` where a symbol is not a terminal's.
abbrev pub look_ahead_symbols : List Entry → Production → ℕ → List ℕ
look_ahead_symbols t p parent = get_first t p ++ (if is_nullable t p then follows parent t else [])

abbrev pub look_aheads_for : Grammar → List Entry → Production → ℕ → Option (List ℕ)
look_aheads_for g t p parent =
    if all_terminals g (look_ahead_symbols t p parent)
    then some (look_ahead_symbols t p parent)
    else none

-- `setLookAheads`, which is left out, so that both sets stay empty, where either was refused.
abbrev pub both : Option (List ℕ) → Option (List ℕ) → List ℕ × List ℕ
both (some v) (some w) = (v, w)
both _ _ = ([], [])

abbrev pub look_aheads : Grammar → List Entry → ℕ → Production → Production → List ℕ × List ℕ
look_aheads g t a x y = both (look_aheads_for g t x a) (look_aheads_for g t y a)

pub data Verdict : Type 0 where
  accepted out_of_fuel : Verdict
  no_look_ahead ambiguous depends_on_nonterminal : ℕ → Verdict

abbrev pub has_symbol : ℕ → List ℕ → Bool
has_symbol s ts = any (λ t. s == t) ts

abbrev pub rendered : Grammar → List ℕ → List ℕ
rendered g ss = map g.render ss

abbrev pub intersects : List ℕ → List ℕ → Bool
intersects ss ts = any (λ s. has_symbol s ts) ss

abbrev pub is_empty : List ℕ → Bool
is_empty [] = true
is_empty (s ∷ ss) = false

abbrev pub check_sets : Grammar → ℕ → List ℕ × List ℕ → Verdict → Verdict
check_sets g a (v, w) next =
    if is_empty v && is_empty w
    then no_look_ahead a
    else if intersects (rendered g v) (rendered g w)
    then ambiguous a
    else if all_terminals g (v ++ w)
    then next
    else depends_on_nonterminal a

abbrev pub check_one : Grammar → List Entry → ℕ → Kind → Verdict → Verdict
check_one g t a (look_ahead x y) next = check_sets g a (look_aheads g t a x y) next
check_one g t a _ next = next

-- `_check`.
unfoldable pub check : Grammar → List Entry → List ℕ → Verdict
unfolding all_terminals
check g t [] = accepted
check g t (a ∷ as_) = check_one g t a (g.kind a) (check g t as_)

abbrev pub checked : Grammar → Result (List Entry) → Verdict
checked g (ok t) = check g t g.nterms
checked g (err e) = out_of_fuel

-- `_computeTables`.
unfoldable pub compute_tables : ℕ → Grammar → Verdict
unfolding table_loop check
compute_tables fuel g = checked g (table_loop fuel g [])
