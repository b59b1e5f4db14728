-- ===== src/Grammar/Closure.antt =====
-- The tables of spicy/toolchain/src/compiler/codegen/grammar.cc and what the rules derive.
use mathlib.Core.List.{Memᴰ}
use mathlib.Core.List.Memᴰ
use spicy.Base.{
  ℕ, ◌≡◌, refl, sym, subst, ◌∙◌, Bool, true, false, List, [], ◌∷◌, inl, inr, and_true, Bool-cases,
  if◌then◌else◌,
}
use spicy.Grammar.{
  Grammar, Production, epsilon, terminal, nonterminal, Entry, nullable, first, follow, contains,
  follows, all_nullable, get_first, Statement, set_nullable, add_first, add_follow, add_next,
  guard_of, additions, add, execute, statements, run,
}
use spicy.Grammar.Derivation.{
  Derived, nullable_rule, first_rule, follow_rule, next_rule, Empty, nothing, skip, vanish, Starts,
  itself, inside,
}
use spicy.Grammar.Rules.{IsRule, nullable_of, first_of, follow_of, next_of, IsRule-mem}
use spicy.Grammar.Entries.{
  contains-cons, contains-firsts, contains-follows, firsts-contains, follows-contains,
}

abbrev pub IsSound : Grammar → List Entry → Type 0
IsSound g t = (e : Entry) → contains e t ≡ true → Derived g e

-- What the statement adds is there, where it is to be added.
abbrev Keeps : List Entry → Statement → Type 0
Keeps t st =
    all_nullable t (guard_of st) ≡ true
    → (e : Entry) → Memᴰ e (additions t st)
    → contains e t ≡ true

abbrev pub IsClosed : Grammar → List Entry → Type 0
IsClosed g t = (st : Statement) → Memᴰ st (statements g) → Keeps t st

module _ (g : Grammar) (t : List Entry) (h : IsSound g t) where
  pub all_nullable-Empty : (xs : List Production) → all_nullable t xs ≡ true → Empty g xs
  all_nullable-Empty [] k = nothing
  all_nullable-Empty (epsilon ∷ xs) k = skip (all_nullable-Empty xs k)
  all_nullable-Empty (terminal s ∷ xs) k = cc
  all_nullable-Empty (nonterminal a ∷ xs) k =
      let p = and_true (contains (nullable a) t) (all_nullable t xs) k in
      vanish (h (nullable a) p.0) (all_nullable-Empty xs p.1)

  pub get_first-Starts : {s : ℕ} (x : Production) → Memᴰ s (get_first t x) → Starts g x s
  get_first-Starts epsilon m = absurd (Memᴰ.not-nil m)
  get_first-Starts {s} (terminal r) m =
      subst (λ q. Starts g (terminal q) s) (Memᴰ.eq_of_singleton m) itself
  get_first-Starts {s} (nonterminal a) m = inside (h (first a s) (firsts-contains a s t m))

  pub additions-Derived :
      (st : Statement) (e : Entry)
      → IsRule g st
      → all_nullable t (guard_of st) ≡ true
      → Memᴰ e (additions t st)
      → Derived g e
  additions-Derived (set_nullable a rhs) e (nullable_of r) k m =
      subst (Derived g) (sym (Memᴰ.eq_of_singleton m)) (nullable_rule r (all_nullable-Empty rhs k))
  additions-Derived (add_first a before x) e (first_of after r q) k m =
      let w = Memᴰ.of_map (first a) (get_first t x) m in
      subst (Derived g) w.2
        (first_rule before after r q (all_nullable-Empty before k) (get_first-Starts x w.1))
  additions-Derived (add_follow b a after) e (follow_of before r q) k m =
      let w = Memᴰ.of_map (follow b) (follows a t) m in
      subst (Derived g) w.2 (
        follow_rule before after r q (all_nullable-Empty after k)
          (h (follow a w.0) (follows-contains a w.0 t w.1)))
  additions-Derived (add_next b between y) e (next_of before after r q) k m =
      let w = Memᴰ.of_map (follow b) (get_first t y) m in
      subst (Derived g) w.2
        (next_rule before between after r q (all_nullable-Empty between k) (get_first-Starts y w.1))

IsSound-cons :
    (g : Grammar) (e : Entry) (t : List Entry) → Derived g e → IsSound g t → IsSound g (e ∷ t)
IsSound-cons g e t d h x k = elim (contains-cons x e t k) [
  | inl q ↦ subst (Derived g) (sym q) d
  | inr q ↦ h x q
]

add-IsSound :
    (g : Grammar) (es t : List Entry) (c : Bool)
    → ((e : Entry) → Memᴰ e es → Derived g e)
    → IsSound g t
    → IsSound g ((add es (t, c)).0)
unfolding add
add-IsSound g [] t c d h = h
add-IsSound g (e ∷ es) t c d h = elim (Bool-cases (contains e t)) [
  | inl k ↦ rw (add, k) (add-IsSound g es t c (λ x m. d x (Memᴰ.tail m)) h)
  | inr k ↦
      rw (add, k)
        (add-IsSound g es (e ∷ t) true (λ x m. d x (Memᴰ.tail m))
          (IsSound-cons g e t (d e (Memᴰ.head refl)) h))
]

pub execute-IsSound :
    (g : Grammar) (st : Statement) (t : List Entry) (c : Bool)
    → IsRule g st
    → IsSound g t
    → IsSound g ((execute st (t, c)).0)
execute-IsSound g st t c r h = elim (Bool-cases (all_nullable t (guard_of st))) [
  | inl k ↦ rw k (add-IsSound g (additions t st) t c (λ e m. additions-Derived g t h st e r k m) h)
  | inr k ↦ rw k h
]

pub run-IsSound :
    (g : Grammar) (sts : List Statement) (t : List Entry) (c : Bool)
    → ((st : Statement) → Memᴰ st sts → IsRule g st)
    → IsSound g t
    → IsSound g ((run sts (t, c)).0)
unfolding run
run-IsSound g [] t c r h = h
run-IsSound g (st ∷ sts) t c r h =
    let s = execute st (t, c) in
    run-IsSound g sts s.0 s.1 (λ q m. r q (Memᴰ.tail m))
      (execute-IsSound g st t c (r st (Memᴰ.head refl)) h)

-- A round that changes nothing has all statements kept.
abbrev Unchanged : List Entry × Bool → List Entry × Bool → Type 0
Unchanged s s' = (s.1 ≡ false) × (s'.0 ≡ s.0)

add-Unchanged :
    (es t : List Entry) (c : Bool)
    → (add es (t, c)).1 ≡ false
    → Unchanged (t, c) (add es (t, c)) × ((e : Entry) → Memᴰ e es → contains e t ≡ true)
unfolding add
add-Unchanged [] t c h = ((h, refl), λ e m. absurd (Memᴰ.not-nil m))
add-Unchanged (e ∷ es) t c h = elim (Bool-cases (contains e t)) [
  | inl k ↦
      let w =
        add-Unchanged es t c
          (subst (λ b. (add es (if b then (t, c) else (e ∷ t, true))).1 ≡ false) k h) in
      (
        (w.0.0, rw (add, k) w.0.1),
        λ x m. elim (Memᴰ.cases_cons m) [
          | inl q ↦ subst (λ y. contains y t ≡ true) (sym q) k
          | inr n ↦ w.1 x n
        ],
      )
  | inr k ↦
      let w =
        add-Unchanged es (e ∷ t) true
          (subst (λ b. (add es (if b then (t, c) else (e ∷ t, true))).1 ≡ false) k h) in
      cc
]

execute-Unchanged :
    (st : Statement) (t : List Entry) (c : Bool)
    → (execute st (t, c)).1 ≡ false
    → Unchanged (t, c) (execute st (t, c)) × Keeps t st
execute-Unchanged st t c h = elim (Bool-cases (all_nullable t (guard_of st))) [
  | inl k ↦
      let w =
        add-Unchanged (additions t st) t c
          (subst (λ b. (if b then add (additions t st) (t, c) else (t, c)).1 ≡ false) k h) in
      ((w.0.0, rw k w.0.1), λ q. w.1)
  | inr k ↦ (
    (subst (λ b. (if b then add (additions t st) (t, c) else (t, c)).1 ≡ false) k h, rw k refl),
    λ q. cc,
  )
]

pub run-Unchanged :
    (sts : List Statement) (t : List Entry) (c : Bool)
    → (run sts (t, c)).1 ≡ false
    → Unchanged (t, c) (run sts (t, c)) × ((st : Statement) → Memᴰ st sts → Keeps t st)
unfolding run
run-Unchanged [] t c h = ((h, refl), λ st m. absurd (Memᴰ.not-nil m))
run-Unchanged (st ∷ sts) t c h =
    let s = execute st (t, c) in
    let w = run-Unchanged sts s.0 s.1 h in
    let v = execute-Unchanged st t c w.0.0 in
    (
      (v.0.0, w.0.1 ∙ v.0.1),
      λ q m. elim (Memᴰ.cases_cons m) [
        | inl e ↦ subst (Keeps t) (sym e) v.1
        | inr n ↦ subst (λ r. Keeps r q) v.0.1 (w.1 q n)
      ],
    )

-- All that is derived is in a closed table.
mutual
  pub Derived-contains :
      (g : Grammar) (t : List Entry) {e : Entry} → IsClosed g t → Derived g e → contains e t ≡ true
  Derived-contains g t h (nullable_rule {a} {rhs} r k) =
      h (set_nullable a rhs) (IsRule-mem g (nullable_of r)) (Empty-all_nullable g t h k)
        (nullable a) (Memᴰ.head refl)
  Derived-contains g t h (first_rule {a} {t = s} {rhs} {x} before after r q k l) =
      h (add_first a before x) (IsRule-mem g (first_of after r q)) (Empty-all_nullable g t h k)
        (first a s) (Memᴰ.map (first a) (Starts-get_first g t h l))
  Derived-contains g t h (follow_rule {a} {b} {t = s} {rhs} before after r q k l) =
      h (add_follow b a after) (IsRule-mem g (follow_of before r q)) (Empty-all_nullable g t h k)
        (follow b s) (Memᴰ.map (follow b) (contains-follows a s t (Derived-contains g t h l)))
  Derived-contains g t h (next_rule {a} {b} {t = s} {rhs} {y} before between after r q k l) =
      h (add_next b between y) (IsRule-mem g (next_of before after r q))
        (Empty-all_nullable g t h k) (follow b s) (Memᴰ.map (follow b) (Starts-get_first g t h l))

  pub Empty-all_nullable :
      (g : Grammar) (t : List Entry) {xs : List Production}
      → IsClosed g t
      → Empty g xs
      → all_nullable t xs ≡ true
  Empty-all_nullable g t h nothing = refl
  Empty-all_nullable g t h (skip k) = Empty-all_nullable g t h k
  Empty-all_nullable g t h (vanish d k) = rw (Derived-contains g t h d) (Empty-all_nullable g t h k)

  pub Starts-get_first :
      (g : Grammar) (t : List Entry) {x : Production} {s : ℕ}
      → IsClosed g t
      → Starts g x s
      → Memᴰ s (get_first t x)
  Starts-get_first g t h itself = Memᴰ.head refl
  Starts-get_first g t h (inside {a} {s} d) = contains-firsts a s t (Derived-contains g t h d)
