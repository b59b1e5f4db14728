-- ===== src/Scope.antt =====
-- Scopes of identifiers (hilti/toolchain/src/ast/scope.cc). An ID is the list of its parts, which
-- "::" separates in the source; a scope is named by a number, since scopes refer to one another.
pub mod Lookup
use spicy.Base.{
  ℕ, zero, suc, Bool, true, false, ◌&&◌, ◌||◌, List, [], ◌∷◌, ◌++◌, Option, none, some, ◌==◌,
  if◌then◌else◌, Result, ok, err, ◌>>=◌, diverges, map, length,
}

-- A declaration: its identity, the scope to go on in, which is a module's root's for a module, and
-- whether it is an imported module.
pub record Node : Type 0 where
  pub identity : ℕ
  pub scope : ℕ
  pub is_imported : Bool

-- `_items`.
abbrev pub Items : Type 0
Items = List (List ℕ × List Node)

pub record Referee : Type 0 where
  pub node : Node
  pub qualified : List ℕ
  pub external : Bool

abbrev pub same_id : List ℕ → List ℕ → Bool
same_id [] [] = true
same_id (a ∷ cs) (b ∷ bs) = a == b && same_id cs bs
same_id _ _ = false

abbrev pub find_items : Items → List ℕ → Option (List Node)
find_items [] h = none
find_items ((k, ns) ∷ items) h =
    let rest = find_items items h in if same_id k h then some ns else rest

-- The forms of `createRefs`.
abbrev pub refs_to : List ℕ → Bool → List Node → List Referee
refs_to id external [] = []
refs_to id external (n ∷ ns) =
    record { node = n; qualified = id; external = external } ∷ refs_to id external ns

abbrev pub refs_through : List ℕ → Bool → List Referee → List Referee
refs_through ns external [] = []
refs_through ns external (r ∷ rs) =
    record { node = r.node; qualified = ns ++ r.qualified; external = external || r.external }
    ∷ refs_through ns external rs

-- `rsplit1` at the last "::".
abbrev pub put_first : ℕ → List ℕ × List ℕ → List ℕ × List ℕ
put_first a (h, t) = (a ∷ h, t)

abbrev pub rsplit1 : List ℕ → List ℕ × List ℕ
rsplit1 [] = ([], [])
rsplit1 (a ∷ []) = ([], a ∷ [])
rsplit1 (a ∷ b ∷ bs) = put_first a (rsplit1 (b ∷ bs))

-- The variable `t`: at first the text that is no ID, then the parts behind `h`.
pub data Tail : Type 0 where
  dummy : Tail
  parts : List ℕ → Tail

abbrev pub more_behind : List ℕ → Tail → List ℕ
more_behind nt dummy = nt
more_behind nt (parts []) = nt
more_behind [] (parts (a ∷ cs)) = []
more_behind (n ∷ ns) (parts (a ∷ cs)) = (n ∷ ns) ++ a ∷ cs

abbrev pub unless_empty :
    List Referee → Result (List Referee) → List ℕ → Bool → Result (List Referee)
unless_empty [] otherwise h external = otherwise
unless_empty (r ∷ rs) otherwise h external = ok (refs_through h external (r ∷ rs))

module _ (inner : ℕ → List ℕ → Bool → Result (List Referee)) where
  abbrev pub first_found : List ℕ → List ℕ → Bool → List Node → Result (List Referee)
  first_found h t external [] = ok []
  first_found h t external (v ∷ vs) =
      inner v.scope t (external || v.is_imported)
      >>= (λ x. unless_empty x (first_found h t external vs) h external)

  abbrev pub found_at : List ℕ → Tail → Bool → List Node → Result (List Referee)
  found_at h dummy external vs = ok (refs_to h external vs)
  found_at h (parts t) external vs = first_found h t external vs

  -- The loop of `_findID`.
  unfoldable pub id_loop : ℕ → Items → List ℕ → Tail → Bool → Result (List Referee)
  id_loop zero items h t external = err diverges
  id_loop (suc fuel) items h (parts []) external = ok []
  id_loop (suc fuel) items h t external = elim (find_items items h) [
    | some vs ↦ found_at h t external vs
    | none ↦ id_loop fuel items (rsplit1 h).0 (parts (more_behind (rsplit1 h).1 t)) external
  ]

-- `_findID`, with the items of each scope. The first fuel counts the calls within one another.
unfoldable pub find_id : ℕ → (ℕ → Items) → ℕ → List ℕ → Bool → Result (List Referee)
unfolding id_loop
find_id zero scopes s id external = err diverges
find_id (suc fuel) scopes s id external =
    id_loop (λ s t e. find_id fuel scopes s t e) (suc (suc (length id))) (scopes s) id dummy
      external
