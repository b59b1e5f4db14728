-- ===== src/Scope/Lookup.antt =====
-- That the search for an ID ends, and what it finds.
use mathlib.Core.List.{Memᴰ, append_assoc, append-nil}
use spicy.Base.{
  subst, length-append, ℕ, zero, suc, ◌≤◌, ◌≡◌, refl, sym, ap, ◌∙◌, Bool, ◌||◌, List, [], ◌∷◌, ◌++◌,
  Option, none, some, Result, ok, ◌>>=◌, All, arith, length,
}
use spicy.Scope.{
  Node, Items, Referee, find_items, refs_to, refs_through, rsplit1, Tail, dummy, parts, more_behind,
  unless_empty, first_found, found_at, id_loop, find_id,
}

-- A declaration that an ID stands for in a scope, and whether it is external: one that the scope has
-- under the ID itself, or one that the rest of the ID stands for in the scope of a declaration that
-- the scope has under the ID's first parts.
pub data Reaches (scopes : ℕ → Items) : ℕ → List ℕ → Bool → Node → Bool → Type 0 where
  here :
      {s : ℕ} {id : List ℕ} {external : Bool} {n : Node} (ns : List Node)
      → find_items (scopes s) id ≡ some ns
      → Memᴰ n ns
      → Reaches scopes s id external n external
  inside :
      {s : ℕ} {id : List ℕ} {external b : Bool} {n : Node} (h t : List ℕ) (vs : List Node)
      (v : Node)
      → h ++ t ≡ id
      → find_items (scopes s) h ≡ some vs
      → Memᴰ v vs
      → Reaches scopes v.scope t (external || v.is_imported) n b
      → Reaches scopes s id external n (external || b)

abbrev pub IsReferee : (ℕ → Items) → ℕ → List ℕ → Bool → Referee → Type 0
IsReferee scopes s id external r =
    (r.qualified ≡ id) × Reaches scopes s id external r.node r.external

abbrev pub Finds : (ℕ → Items) → ℕ → List ℕ → Bool → Result (List Referee) → Type 0
Finds scopes s id external a =
    (rs : List Referee) × (a ≡ ok rs) × All (IsReferee scopes s id external) rs

rsplit1-append : (h : List ℕ) → (rsplit1 h).0 ++ (rsplit1 h).1 ≡ h
rsplit1-append [] = refl
rsplit1-append (a ∷ []) = refl
rsplit1-append (a ∷ b ∷ bs) = ap (λ l. a ∷ l) (rsplit1-append (b ∷ bs))

rsplit1-length : (a : ℕ) (h : List ℕ) → length (rsplit1 (a ∷ h)).0 ≡ length h
rsplit1-length a [] = refl
rsplit1-length a (b ∷ bs) = ap suc (rsplit1-length b bs)

rsplit1_last : (a : ℕ) (h : List ℕ) → 1 ≤ length (rsplit1 (a ∷ h)).1
rsplit1_last a [] = omega arith
rsplit1_last a (b ∷ bs) = rsplit1_last b bs

ok_same : {rs os : List Referee} → ok rs ≡ ok os → rs ≡ os
ok_same h = cc

-- What `t` stands for.
abbrev behind : Tail → List ℕ
behind dummy = []
behind (parts t) = t

more_behind-append : (nt : List ℕ) (t : Tail) → 1 ≤ length nt → more_behind nt t ≡ nt ++ behind t
more_behind-append nt dummy h = sym (append-nil nt)
more_behind-append nt (parts []) h = sym (append-nil nt)
more_behind-append [] (parts (a ∷ cs)) h = absurd (omega arith)
more_behind-append (n ∷ ns) (parts (a ∷ cs)) h = refl

-- All of what the scope has under the whole ID, if it has something.
abbrev pub HasAll : List ℕ → Bool → Option (List Node) → List Referee → Type 0
HasAll id external none rs = Unit {0}
HasAll id external (some ns) rs = rs ≡ refs_to id external ns

module _ (scopes : ℕ → Items) where
  refs_to_all :
      (s : ℕ) (id : List ℕ) (external : Bool) (all ns : List Node)
      → find_items (scopes s) id ≡ some all
      → ((n : Node) → Memᴰ n ns → Memᴰ n all)
      → All (IsReferee scopes s id external) (refs_to id external ns)
  refs_to_all s id external all [] e within = tt
  refs_to_all s id external all (n ∷ ns) e within = (
    (refl, here all e (within n (Memᴰ.head refl))),
    refs_to_all s id external all ns e (λ m k. within m (Memᴰ.tail k)),
  )

  refs_through_all :
      (s : ℕ) (id h t : List ℕ) (external : Bool) (vs : List Node) (v : Node) (rs : List Referee)
      → h ++ t ≡ id
      → find_items (scopes s) h ≡ some vs
      → Memᴰ v vs
      → All (IsReferee scopes v.scope t (external || v.is_imported)) rs
      → All (IsReferee scopes s id external) (refs_through h external rs)
  refs_through_all s id h t external vs v [] e f k a = tt
  refs_through_all s id h t external vs v (r ∷ rs) e f k a = (
    (ap (λ q. h ++ q) a.0.0 ∙ e, inside h t vs v e f k a.0.1),
    refs_through_all s id h t external vs v rs e f k a.1,
  )

  module _ (inner : ℕ → List ℕ → Bool → Result (List Referee)) where
    first_found-Finds :
        (s : ℕ) (id h t : List ℕ) (external : Bool) (all vs : List Node)
        → ((s : ℕ) (e : Bool) → Finds scopes s t e (inner s t e))
        → h ++ t ≡ id
        → find_items (scopes s) h ≡ some all
        → ((v : Node) → Memᴰ v vs → Memᴰ v all)
        → Finds scopes s id external (first_found inner h t external vs)
    first_found-Finds s id h t external all [] ih e f within = ([], refl, tt)
    first_found-Finds s id h t external all (v ∷ vs) ih e f within =
        let (rs, er, ar) = ih v.scope (external || v.is_imported) in
        let (os, eo, ao) =
          first_found-Finds s id h t external all vs ih e f (λ m k. within m (Memᴰ.tail k)) in
        let go : List Referee → Result (List Referee) =
          λ x. unless_empty x (first_found inner h t external vs) h external in
        (elim rs
            as (λ rs.
              inner v.scope t (external || v.is_imported) ≡ ok rs
              → All (IsReferee scopes v.scope t (external || v.is_imported)) rs
              → Finds scopes s id external (first_found inner h t external (v ∷ vs))) [
                | [] ↦ λ er ar. (os, ap (λ x. x >>= go) er ∙ eo, ao)
                | r ∷ rs ↦ λ er ar. (
                  refs_through h external (r ∷ rs),
                  ap (λ x. x >>= go) er,
                  refs_through_all s id h t external all v (r ∷ rs) e f (within v (Memᴰ.head refl))
                      ar,
                )
              ])
          er ar

    -- One round of the loop, from what it finds and from the rest of the loop.
    round-Finds :
        (fuel s : ℕ) (id h : List ℕ) (t : Tail) (external : Bool)
        → ((vs : List Node)
            → find_items (scopes s) h ≡ some vs
            → Finds scopes s id external (found_at inner h t external vs))
        → Finds scopes s id external (
            id_loop inner fuel
              (scopes s)
              (rsplit1 h).0
              (parts (more_behind (rsplit1 h).1 t))
              external)
        → Finds scopes s id external (elim (find_items (scopes s) h) [
          | some vs ↦ found_at inner h t external vs
          | none ↦
              id_loop inner fuel
                (scopes s)
                (rsplit1 h).0
                (parts (more_behind (rsplit1 h).1 t))
                external
        ])
    round-Finds fuel s id h t external f rest =
        (elim (find_items (scopes s) h)
            as (λ o.
              find_items (scopes s) h ≡ o
              → Finds scopes s id external (elim o [
                | some vs ↦ found_at inner h t external vs
                | none ↦
                    id_loop inner fuel (scopes s) (rsplit1 h).0
                      (parts (more_behind (rsplit1 h).1 t)) external
              ])) [ some vs ↦ λ e. f vs e | none ↦ λ e. rest ])
          refl

    split_again :
        (id : List ℕ) (a : ℕ) (hs : List ℕ) (t : Tail)
        → (a ∷ hs) ++ behind t ≡ id
        → (rsplit1 (a ∷ hs)).0 ++ more_behind (rsplit1 (a ∷ hs)).1 t ≡ id
    split_again id a hs t e =
        let (h, nt) = rsplit1 (a ∷ hs) in
        ap (λ l. h ++ l) (more_behind-append nt t (rsplit1_last a hs))
        ∙ sym (append_assoc h nt (behind t))
        ∙ ap (λ l. l ++ behind t) (rsplit1-append (a ∷ hs))
        ∙ e

    module _ (no_empty : (s : ℕ) → find_items (scopes s) [] ≡ none) where
      -- The empty ID is found nowhere, and what is behind it is not looked at.
      empty-Finds :
          (fuel s : ℕ) (id : List ℕ) (t : Tail) (external : Bool)
          → more_behind [] t ≡ []
          → Finds scopes s id external (elim (find_items (scopes s) []) [
            | some vs ↦ found_at inner [] t external vs
            | none ↦ id_loop inner (suc fuel) (scopes s) [] (parts (more_behind [] t)) external
          ])
      unfolding id_loop
      empty-Finds fuel s id t external e = (
        [],
        ap
              (λ o. elim o [
                | some vs ↦ found_at inner [] t external vs
                | none ↦ id_loop inner (suc fuel) (scopes s) [] (parts (more_behind [] t)) external
              ])
              (no_empty s)
            ∙ ap (λ l. id_loop inner (suc fuel) (scopes s) [] (parts l) external) e,
        tt,
      )

      id_loop-Finds :
          (fuel s : ℕ) (id h : List ℕ) (t : Tail) (external : Bool)
          → ((u : List ℕ) (s : ℕ) (e : Bool)
              → suc (length u) ≤ length id
              → Finds scopes s u e (inner s u e))
          → h ++ behind t ≡ id
          → suc (suc (length h)) ≤ fuel
          → Finds scopes s id external (id_loop inner fuel (scopes s) h t external)
      unfolding id_loop
      id_loop-Finds zero s id h t external ih e l = absurd (omega arith)
      id_loop-Finds (suc fuel) s id h (parts []) external ih e l = ([], refl, tt)
      id_loop-Finds (suc zero) s id h dummy external ih e l = absurd (omega arith)
      id_loop-Finds (suc (suc fuel)) s id [] dummy external ih e l =
          empty-Finds fuel s id dummy external refl
      id_loop-Finds (suc fuel) s id (a ∷ hs) dummy external ih e l =
          round-Finds fuel s id (a ∷ hs) dummy external
            (λ vs f.
              let same = sym (append-nil (a ∷ hs)) ∙ e in
              (
                refs_to (a ∷ hs) external vs,
                refl,
                subst (λ i. All (IsReferee scopes s i external) (refs_to (a ∷ hs) external vs)) same
                    (refs_to_all s (a ∷ hs) external vs vs f (λ n k. k)),
              ))
            (id_loop-Finds fuel s id (rsplit1 (a ∷ hs)).0
              (parts (more_behind (rsplit1 (a ∷ hs)).1 dummy)) external ih
              (split_again id a hs dummy e) (omega (arith, rsplit1-length a hs)))
      id_loop-Finds (suc zero) s id h (parts (b ∷ bs)) external ih e l = absurd (omega arith)
      id_loop-Finds (suc (suc fuel)) s id [] (parts (b ∷ bs)) external ih e l =
          empty-Finds fuel s id (parts (b ∷ bs)) external refl
      id_loop-Finds (suc fuel) s id (a ∷ hs) (parts (b ∷ bs)) external ih e l =
          round-Finds fuel s id (a ∷ hs) (parts (b ∷ bs)) external
            (λ vs f.
              first_found-Finds s id (a ∷ hs) (b ∷ bs) external vs vs
                (λ s x.
                  ih (b ∷ bs) s x (omega (arith, ap length e, length-append (a ∷ hs) (b ∷ bs))))
                e f (λ n k. k))
            (id_loop-Finds fuel s id (rsplit1 (a ∷ hs)).0
              (parts (more_behind (rsplit1 (a ∷ hs)).1 (parts (b ∷ bs)))) external ih
              (split_again id a hs (parts (b ∷ bs)) e) (omega (arith, rsplit1-length a hs)))

  find_id_sound :
      (fuel s : ℕ) (id : List ℕ) (external : Bool)
      → ((s : ℕ) → find_items (scopes s) [] ≡ none)
      → suc (length id) ≤ fuel
      → Finds scopes s id external (find_id fuel scopes s id external)
  unfolding find_id
  find_id_sound zero s id external no_empty l = absurd (omega arith)
  find_id_sound (suc fuel) s id external no_empty l =
      id_loop-Finds (λ s t e. find_id fuel scopes s t e) no_empty (suc (suc (length id))) s id id
        dummy external (λ u s e k. find_id_sound fuel s u e no_empty (omega arith)) (append-nil id)
        (omega arith)

  find_id-HasAll :
      (fuel s : ℕ) (id : List ℕ) (external : Bool) (rs : List Referee) (o : Option (List Node))
      → find_items (scopes s) id ≡ o
      → find_id (suc fuel) scopes s id external ≡ ok rs
      → HasAll id external o rs
  unfolding find_id id_loop
  find_id-HasAll fuel s id external rs none e h = tt
  find_id-HasAll fuel s id external rs (some ns) e h = ok_same (
      sym h
      ∙ ap
          (λ o. elim o [
            | some vs ↦ found_at (λ s t e. find_id fuel scopes s t e) id dummy external vs
            | none ↦
                id_loop (λ s t e. find_id fuel scopes s t e) (suc (length id)) (scopes s)
                  (rsplit1 id).0 (parts (more_behind (rsplit1 id).1 dummy)) external
          ])
          e)

  -- Where no scope has an entry for the empty ID, the search for an ID ends, with a fuel that is more
  -- than the ID has parts. It finds all that the scope has under the whole ID, if it has something,
  -- and all that it finds is a declaration that the ID stands for, under the ID as its qualified
  -- name, and external just where the way to it is.
  pub find_id-Finds :
      (fuel s : ℕ) (id : List ℕ) (external : Bool)
      → ((s : ℕ) → find_items (scopes s) [] ≡ none)
      → length id ≤ fuel
      → (rs : List Referee) × (find_id (suc fuel) scopes s id external ≡ ok rs)
        × All (IsReferee scopes s id external) rs
        × HasAll id external (find_items (scopes s) id) rs
  find_id-Finds fuel s id external no_empty l =
      let (rs, e, a) = find_id_sound (suc fuel) s id external no_empty (omega arith) in
      (rs, e, a, find_id-HasAll fuel s id external rs (find_items (scopes s) id) refl e)
