-- ===== src/Grammar/Measure.antt =====
-- The rounds of `_computeTables` (spicy/toolchain/src/compiler/codegen/grammar.cc), by the entries that
-- are still missing.
use mathlib.Core.List.{Memᴰ}
use mathlib.Core.List.Memᴰ
use spicy.Base.{
  ℕ, suc, ◌+◌, ◌≤◌, ◌≡◌, refl, sym, ap, subst, ◌∙◌, Bool, true, false, List, [], ◌∷◌, ◌++◌, map,
  inl, inr, Bool-cases, if◌then◌else◌, length, arith,
}
use spicy.Grammar.{
  Grammar, Production, terminal, nonterminal, rhss, Entry, nullable, first, follow, same_entry,
  contains, all_nullable, Statement, guard_of, additions, add, execute, run,
}
use spicy.Grammar.Derivation.{
  IsRhs, Derived, nullable_rule, first_rule, follow_rule, next_rule, Starts, itself, inside,
}
use spicy.Grammar.Rules.{IsRule}
use spicy.Grammar.Entries.{same_entry_self}
use spicy.Grammar.Closure.{IsSound, additions-Derived, execute-IsSound}

module _ {ℓ κ} {A : Type ℓ} {B : Type κ} where
  abbrev flat_map : (A → List B) → List A → List B
  flat_map f [] = []
  flat_map f (x ∷ xs) = f x ++ flat_map f xs

  flat_map-mem :
      (f : A → List B) {a : A} {b : B} (xs : List A)
      → Memᴰ a xs
      → Memᴰ b (f a)
      → Memᴰ b (flat_map f xs)
  flat_map-mem f [] m k = absurd (Memᴰ.not-nil m)
  flat_map-mem f {a} {b} (x ∷ xs) (Memᴰ.head e) k =
      Memᴰ.append_left (flat_map f xs) (subst (λ y. Memᴰ b (f y)) e k)
  flat_map-mem f (x ∷ xs) (Memᴰ.tail m) k = Memᴰ.append_right (f x) (flat_map-mem f xs m k)

split_after {ℓ} : {A : Type ℓ} (xs ys zs : List A) → (xs ++ ys) ++ zs ≡ xs ++ (ys ++ zs)
split_after [] ys zs = refl
split_after (x ∷ xs) ys zs = ap (λ l. x ∷ l) (split_after xs ys zs)

abbrev terminal_of : Production → List ℕ
terminal_of (terminal s) = s ∷ []
terminal_of _ = []

abbrev nonterminal_of : Production → List ℕ
nonterminal_of (nonterminal a) = a ∷ []
nonterminal_of _ = []

abbrev productions : Grammar → List Production
productions g = flat_map (λ a. flat_map (λ r. r) (rhss g a)) g.nterms

abbrev symbols : Grammar → List ℕ
symbols g = flat_map terminal_of (productions g)

abbrev owners : Grammar → List ℕ
owners g = g.nterms ++ flat_map nonterminal_of (productions g)

abbrev entries_of : List ℕ → ℕ → List Entry
entries_of ts a = nullable a ∷ (map (first a) ts ++ map (follow a) ts)

-- The entries there can be: for each non-terminal, one in NULLABLE, and one in each of FIRST and
-- FOLLOW for each terminal.
unfoldable pub universe : Grammar → List Entry
universe g = flat_map (entries_of (symbols g)) (owners g)

module _ (g : Grammar) where
  productions-mem :
      {a : ℕ} {rhs : List Production} (x : Production) (before after : List Production)
      → IsRhs g a rhs
      → rhs ≡ before ++ (x ∷ after)
      → Memᴰ x (productions g)
  productions-mem {a} x before after (m, n) e =
      flat_map-mem (λ b. flat_map (λ r. r) (rhss g b)) g.nterms m
        (flat_map-mem (λ r. r) (rhss g a) n
          (subst (Memᴰ x) (sym e) (Memᴰ.append_right before (Memᴰ.head refl))))

  abbrev Known : Entry → Type 0
  Known (nullable a) = Memᴰ a (owners g)
  Known (first a s) = Memᴰ a (owners g) × Memᴰ s (symbols g)
  Known (follow a s) = Memᴰ a (owners g) × Memᴰ s (symbols g)

  Known-universe : (e : Entry) → Known e → Memᴰ e (universe g)
  unfolding universe
  Known-universe (nullable a) m =
      flat_map-mem (entries_of (symbols g)) (owners g) m (Memᴰ.head refl)
  Known-universe (first a s) (m, n) =
      flat_map-mem (entries_of (symbols g)) (owners g) m
        (Memᴰ.tail (Memᴰ.append_left (map (follow a) (symbols g)) (Memᴰ.map (first a) n)))
  Known-universe (follow a s) (m, n) =
      flat_map-mem (entries_of (symbols g)) (owners g) m
        (Memᴰ.tail (Memᴰ.append_right (map (first a) (symbols g)) (Memᴰ.map (follow a) n)))

  owner :
      {a b : ℕ} {rhs : List Production} (before after : List Production)
      → IsRhs g a rhs
      → rhs ≡ before ++ (nonterminal b ∷ after)
      → Memᴰ b (owners g)
  owner {a} {b} before after r e = Memᴰ.append_right g.nterms (
      flat_map-mem nonterminal_of (productions g) (productions-mem (nonterminal b) before after r e)
        (Memᴰ.head refl))

  mutual
    Derived-Known : {e : Entry} → Derived g e → Known e
    Derived-Known (nullable_rule r k) =
        Memᴰ.append_left (flat_map nonterminal_of (productions g)) r.0
    Derived-Known (first_rule {x} before after r e k l) = (
      Memᴰ.append_left (flat_map nonterminal_of (productions g)) r.0,
      Starts-symbols l (productions-mem x before after r e),
    )
    Derived-Known (follow_rule before after r e k l) = (owner before after r e, (Derived-Known l).1)
    Derived-Known (next_rule {b} {y} before between after r e k l) = (
      owner before (between ++ (y ∷ after)) r e,
      Starts-symbols l (
          productions-mem y (before ++ (nonterminal b ∷ between)) after r
            (e ∙ sym (split_after before (nonterminal b ∷ between) (y ∷ after)))),
    )

    Starts-symbols :
        {x : Production} {s : ℕ} → Starts g x s → Memᴰ x (productions g) → Memᴰ s (symbols g)
    Starts-symbols itself m = flat_map-mem terminal_of (productions g) m (Memᴰ.head refl)
    Starts-symbols (inside d) m = (Derived-Known d).1

  pub Derived-universe : {e : Entry} → Derived g e → Memᴰ e (universe g)
  Derived-universe {e} d = Known-universe e (Derived-Known d)

-- How many of the entries are still missing.
unfoldable pub missing : List Entry → List Entry → ℕ
missing [] t = 0
missing (u ∷ us) t = (if contains u t then 0 else 1) + missing us t

abbrev pub flag : Bool → ℕ
flag true = 1
flag false = 0

-- It falls by one at least with each change that is noted.
abbrev pub weight : List Entry → List Entry × Bool → ℕ
weight us s = missing us s.0 + flag s.1

pub missing_le : (us t : List Entry) → missing us t ≤ length us
unfolding missing
missing_le [] t = omega arith
missing_le (u ∷ us) t = let ih = missing_le us t in ground arith

missing-cons_le : (us : List Entry) (e : Entry) (t : List Entry) → missing us (e ∷ t) ≤ missing us t
unfolding missing contains
missing-cons_le [] e t = omega arith
missing-cons_le (u ∷ us) e t =
    let ih = missing-cons_le us e t in
    elim (Bool-cases (same_entry u e)) [ inl k ↦ rw k (omega arith) | inr k ↦ rw k (omega arith) ]

missing-cons_lt :
    (us : List Entry) (e : Entry) (t : List Entry)
    → Memᴰ e us
    → contains e t ≡ false
    → suc (missing us (e ∷ t)) ≤ missing us t
unfolding missing contains
missing-cons_lt [] e t m h = absurd (Memᴰ.not-nil m)
missing-cons_lt (u ∷ us) e t m h = elim (Memᴰ.cases_cons m) [
  | inl k ↦
      subst (λ v. suc (missing (v ∷ us) (e ∷ t)) ≤ missing (v ∷ us) t) k
        (rw (same_entry_self e, h) (let ih = missing-cons_le us e t in omega arith))
  | inr n ↦
      let ih = missing-cons_lt us e t n h in
      elim (Bool-cases (same_entry u e)) [ inl k ↦ rw k (omega arith) | inr k ↦ rw k (omega arith) ]
]

weight-add :
    (us es t : List Entry) (c : Bool)
    → ((e : Entry) → Memᴰ e es → Memᴰ e us)
    → weight us (add es (t, c)) ≤ weight us (t, c)
unfolding add
weight-add us [] t c h = omega arith
weight-add us (e ∷ es) t c h = elim (Bool-cases (contains e t)) [
  | inl k ↦ rw (add, k) (weight-add us es t c (λ x m. h x (Memᴰ.tail m)))
  | inr k ↦
      let ih = weight-add us es (e ∷ t) true (λ x m. h x (Memᴰ.tail m)) in
      let lt = missing-cons_lt us e t (h e (Memᴰ.head refl)) k in rw (add, k) (omega arith)
]

module _ (g : Grammar) where
  weight-execute :
      (st : Statement) (t : List Entry) (c : Bool)
      → IsRule g st
      → IsSound g t
      → weight (universe g) (execute st (t, c)) ≤ weight (universe g) (t, c)
  weight-execute st t c r h = elim (Bool-cases (all_nullable t (guard_of st))) [
    | inl k ↦ rw k (
        weight-add (universe g) (additions t st) t c
          (λ e m. Derived-universe g (additions-Derived g t h st e r k m)))
    | inr k ↦ rw k (omega arith)
  ]

  pub weight-run :
      (sts : List Statement) (t : List Entry) (c : Bool)
      → ((st : Statement) → Memᴰ st sts → IsRule g st)
      → IsSound g t
      → weight (universe g) (run sts (t, c)) ≤ weight (universe g) (t, c)
  unfolding run
  weight-run [] t c r h = omega arith
  weight-run (st ∷ sts) t c r h =
      let s = execute st (t, c) in
      let now = weight-execute st t c (r st (Memᴰ.head refl)) h in
      let later =
        weight-run sts s.0 s.1 (λ q m. r q (Memᴰ.tail m))
          (execute-IsSound g st t c (r st (Memᴰ.head refl)) h) in
      omega arith
