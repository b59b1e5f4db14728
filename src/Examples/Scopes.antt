-- ===== src/Examples/Scopes.antt =====
-- IDs looked up in scopes that refer to one another.
use spicy.Base.{ℕ, zero, suc, ◌≡◌, refl, true, false, List, [], ◌∷◌, none, ok, All, arith}
use spicy.Scope.{Node, Items, Referee, find_items, find_id}
use spicy.Scope.Lookup.{IsReferee, HasAll, find_id-Finds}

abbrev module_node : Node
module_node = record { identity = 1; scope = 1; is_imported = true }

abbrev inner_node : Node
inner_node = record { identity = 2; scope = 2; is_imported = false }

-- The scope 0 has the imported module 10, and its scope has 20 and itself as 10.
abbrev scopes : ℕ → Items
scopes zero = (10 ∷ [], module_node ∷ []) ∷ []
scopes (suc zero) = (20 ∷ [], inner_node ∷ []) ∷ (10 ∷ [], module_node ∷ []) ∷ []
scopes (suc (suc s)) = []

no_empty : (s : ℕ) → find_items (scopes s) [] ≡ none
no_empty zero = refl
no_empty (suc zero) = refl
no_empty (suc (suc s)) = refl

nested :
    find_id 4 scopes 0 (10 ∷ 10 ∷ 20 ∷ []) false
    ≡ ok (record { node = inner_node; qualified = 10 ∷ 10 ∷ 20 ∷ []; external = true } ∷ [])
unfolding find_id
nested = refl

not_there : find_id 4 scopes 0 (10 ∷ 30 ∷ []) false ≡ ok []
unfolding find_id
not_there = refl

find_id_example :
    (rs : List Referee) × (find_id 4 scopes 0 (10 ∷ 10 ∷ 20 ∷ []) false ≡ ok rs)
    × All (IsReferee scopes 0 (10 ∷ 10 ∷ 20 ∷ []) false) rs
    × HasAll (10 ∷ 10 ∷ 20 ∷ []) false (find_items (scopes 0) (10 ∷ 10 ∷ 20 ∷ [])) rs
find_id_example = find_id-Finds scopes 3 0 (10 ∷ 10 ∷ 20 ∷ []) false no_empty (omega arith)
