-- ===== src/Grammar/Rules.antt =====
-- The statements of the loop in `_computeTables` (spicy/toolchain/src/compiler/codegen/grammar.cc)
-- and the ways to take a right-hand side apart.
use mathlib.Core.List.{Memᴰ}
use mathlib.Core.List.Memᴰ
use spicy.Base.{ℕ, ◌≡◌, refl, sym, ap, subst, ◌∙◌, List, [], ◌∷◌, ◌++◌, inl, inr}
use spicy.Grammar.{
  Grammar, Production, epsilon, terminal, nonterminal, rhss, Statement, set_nullable, add_first,
  add_follow, add_next, next_statements, follow_statements, positions, rhs_statements,
  all_rhs_statements, statements_for, statements,
}
use spicy.Grammar.Derivation.{IsRhs}

pub data IsRule (g : Grammar) : Statement → Type 0 where
  nullable_of : {a : ℕ} {rhs : List Production} → IsRhs g a rhs → IsRule g (set_nullable a rhs)
  first_of :
      {a : ℕ} {rhs before : List Production} {x : Production} (after : List Production)
      → IsRhs g a rhs
      → rhs ≡ before ++ (x ∷ after)
      → IsRule g (add_first a before x)
  follow_of :
      {a b : ℕ} {rhs after : List Production} (before : List Production)
      → IsRhs g a rhs
      → rhs ≡ before ++ (nonterminal b ∷ after)
      → IsRule g (add_follow b a after)
  next_of :
      {a b : ℕ} {rhs between : List Production} {y : Production} (before after : List Production)
      → IsRhs g a rhs
      → rhs ≡ before ++ (nonterminal b ∷ (between ++ (y ∷ after)))
      → IsRule g (add_next b between y)

append-cons {ℓ} :
    {A : Type ℓ} (xs : List A) (x : A) (ys : List A) → (xs ++ (x ∷ [])) ++ ys ≡ xs ++ (x ∷ ys)
append-cons [] x ys = refl
append-cons (z ∷ zs) x ys = ap (λ l. z ∷ l) (append-cons zs x ys)

append_nil {ℓ} : {A : Type ℓ} (xs : List A) → xs ++ [] ≡ xs
append_nil [] = refl
append_nil (z ∷ zs) = ap (λ l. z ∷ l) (append_nil zs)

module _ (g : Grammar) {a : ℕ} {rhs : List Production} (r : IsRhs g a rhs) where
  next_statements-IsRule :
      {st : Statement} (b : ℕ) (before between ys : List Production)
      → rhs ≡ before ++ (nonterminal b ∷ (between ++ ys))
      → Memᴰ st (next_statements b between ys)
      → IsRule g st
  unfolding next_statements
  next_statements-IsRule b before between [] e m = absurd (Memᴰ.not-nil m)
  next_statements-IsRule {st} b before between (y ∷ ys) e (Memᴰ.head h) =
      subst (IsRule g) (sym h) (next_of before ys r e)
  next_statements-IsRule {st} b before between (y ∷ ys) e (Memᴰ.tail m) =
      next_statements-IsRule b before (between ++ (y ∷ [])) ys
        (e ∙ ap (λ l. before ++ (nonterminal b ∷ l)) (sym (append-cons between y ys))) m

  follow_statements-IsRule :
      {st : Statement} (before : List Production) (x : Production) (xs : List Production)
      → rhs ≡ before ++ (x ∷ xs)
      → Memᴰ st (follow_statements a x xs)
      → IsRule g st
  follow_statements-IsRule before (nonterminal b) xs e (Memᴰ.head h) =
      subst (IsRule g) (sym h) (follow_of before r e)
  follow_statements-IsRule before (nonterminal b) xs e (Memᴰ.tail m) =
      next_statements-IsRule b before [] xs e m
  follow_statements-IsRule before epsilon xs e m = absurd (Memᴰ.not-nil m)
  follow_statements-IsRule before (terminal s) xs e m = absurd (Memᴰ.not-nil m)

  positions-IsRule :
      {st : Statement} (before xs : List Production)
      → rhs ≡ before ++ xs
      → Memᴰ st (positions a before xs)
      → IsRule g st
  unfolding positions
  positions-IsRule before [] e m = absurd (Memᴰ.not-nil m)
  positions-IsRule before (x ∷ xs) e (Memᴰ.head h) = subst (IsRule g) (sym h) (first_of xs r e)
  positions-IsRule before (x ∷ xs) e (Memᴰ.tail m) =
      elim (Memᴰ.append_cases (follow_statements a x xs) m) [
        | inl k ↦ follow_statements-IsRule before x xs e k
        | inr k ↦ positions-IsRule (before ++ (x ∷ [])) xs (e ∙ sym (append-cons before x xs)) k
      ]

  rhs_statements-IsRule : {st : Statement} → Memᴰ st (rhs_statements a rhs) → IsRule g st
  rhs_statements-IsRule (Memᴰ.head h) = subst (IsRule g) (sym h) (nullable_of r)
  rhs_statements-IsRule (Memᴰ.tail m) = positions-IsRule [] rhs refl m

all_rhs_statements-IsRule :
    (g : Grammar) {a : ℕ} {st : Statement} (rs : List (List Production))
    → ((r : List Production) → Memᴰ r rs → IsRhs g a r)
    → Memᴰ st (all_rhs_statements a rs)
    → IsRule g st
all_rhs_statements-IsRule g [] h m = absurd (Memᴰ.not-nil m)
all_rhs_statements-IsRule g {a} (r ∷ rs) h m = elim (Memᴰ.append_cases (rhs_statements a r) m) [
  | inl k ↦ rhs_statements-IsRule g (h r (Memᴰ.head refl)) k
  | inr k ↦ all_rhs_statements-IsRule g rs (λ q n. h q (Memᴰ.tail n)) k
]

statements_for-IsRule :
    (g : Grammar) {st : Statement} (as_ : List ℕ)
    → ((a : ℕ) → Memᴰ a as_ → Memᴰ a g.nterms)
    → Memᴰ st (statements_for g as_)
    → IsRule g st
statements_for-IsRule g [] h m = absurd (Memᴰ.not-nil m)
statements_for-IsRule g (a ∷ as_) h m =
    elim (Memᴰ.append_cases (all_rhs_statements a (rhss g a)) m) [
      | inl k ↦ all_rhs_statements-IsRule g (rhss g a) (λ q n. (h a (Memᴰ.head refl), n)) k
      | inr k ↦ statements_for-IsRule g as_ (λ b n. h b (Memᴰ.tail n)) k
    ]

pub statements-IsRule : (g : Grammar) {st : Statement} → Memᴰ st (statements g) → IsRule g st
unfolding statements
statements-IsRule g m = statements_for-IsRule g g.nterms (λ b n. n) m

-- And back.
next_statements-mem :
    (b : ℕ) (before mid : List Production) (y : Production) (after : List Production)
    → Memᴰ (add_next b (before ++ mid) y) (next_statements b before (mid ++ (y ∷ after)))
unfolding next_statements
next_statements-mem b before [] y after = Memᴰ.head (ap (λ l. add_next b l y) (append_nil before))
next_statements-mem b before (z ∷ mid) y after = Memᴰ.tail (
    Memᴰ.cast (ap (λ l. add_next b l y) (sym (append-cons before z mid)))
      (next_statements-mem b (before ++ (z ∷ [])) mid y after))

positions-first :
    (a : ℕ) (before mid : List Production) (x : Production) (after : List Production)
    → Memᴰ (add_first a (before ++ mid) x) (positions a before (mid ++ (x ∷ after)))
unfolding positions
positions-first a before [] x after = Memᴰ.head (ap (λ l. add_first a l x) (append_nil before))
positions-first a before (z ∷ mid) x after = Memᴰ.tail (
    Memᴰ.append_right (follow_statements a z (mid ++ (x ∷ after))) (
      Memᴰ.cast (ap (λ l. add_first a l x) (sym (append-cons before z mid)))
        (positions-first a (before ++ (z ∷ [])) mid x after)))

positions-follow :
    {st : Statement} (a : ℕ) (before mid : List Production) (x : Production)
    (after : List Production)
    → Memᴰ st (follow_statements a x after)
    → Memᴰ st (positions a before (mid ++ (x ∷ after)))
unfolding positions
positions-follow a before [] x after m =
    Memᴰ.tail (Memᴰ.append_left (positions a (before ++ (x ∷ [])) after) m)
positions-follow a before (z ∷ mid) x after m = Memᴰ.tail (
    Memᴰ.append_right (follow_statements a z (mid ++ (x ∷ after)))
      (positions-follow a (before ++ (z ∷ [])) mid x after m))

all_rhs_statements-mem :
    {st : Statement} {a : ℕ} {r : List Production} (rs : List (List Production))
    → Memᴰ r rs
    → Memᴰ st (rhs_statements a r)
    → Memᴰ st (all_rhs_statements a rs)
all_rhs_statements-mem [] m k = absurd (Memᴰ.not-nil m)
all_rhs_statements-mem {st} {a} (q ∷ rs) (Memᴰ.head e) k =
    Memᴰ.append_left (all_rhs_statements a rs) (subst (λ r. Memᴰ st (rhs_statements a r)) e k)
all_rhs_statements-mem {st} {a} (q ∷ rs) (Memᴰ.tail m) k =
    Memᴰ.append_right (rhs_statements a q) (all_rhs_statements-mem rs m k)

statements_for-mem :
    (g : Grammar) {st : Statement} {a : ℕ} (as_ : List ℕ)
    → Memᴰ a as_
    → Memᴰ st (all_rhs_statements a (rhss g a))
    → Memᴰ st (statements_for g as_)
statements_for-mem g [] m k = absurd (Memᴰ.not-nil m)
statements_for-mem g {st} (b ∷ as_) (Memᴰ.head e) k =
    Memᴰ.append_left (statements_for g as_)
      (subst (λ a. Memᴰ st (all_rhs_statements a (rhss g a))) e k)
statements_for-mem g (b ∷ as_) (Memᴰ.tail m) k =
    Memᴰ.append_right (all_rhs_statements b (rhss g b)) (statements_for-mem g as_ m k)

rhs_statements-mem :
    (g : Grammar) {st : Statement} {a : ℕ} {r : List Production}
    → IsRhs g a r
    → Memᴰ st (rhs_statements a r)
    → Memᴰ st (statements g)
unfolding statements
rhs_statements-mem g {st} {a} (m, n) k =
    statements_for-mem g g.nterms m (all_rhs_statements-mem (rhss g a) n k)

pub IsRule-mem : (g : Grammar) {st : Statement} → IsRule g st → Memᴰ st (statements g)
IsRule-mem g (nullable_of r) = rhs_statements-mem g r (Memᴰ.head refl)
IsRule-mem g (first_of {a} {rhs} {before} {x} after r e) = rhs_statements-mem g r (
    Memᴰ.tail (
      subst (λ l. Memᴰ (add_first a before x) (positions a [] l)) (sym e)
        (positions-first a [] before x after)))
IsRule-mem g (follow_of {a} {b} {rhs} {after} before r e) = rhs_statements-mem g r (
    Memᴰ.tail (
      subst (λ l. Memᴰ (add_follow b a after) (positions a [] l)) (sym e)
        (positions-follow a [] before (nonterminal b) after (Memᴰ.head refl))))
IsRule-mem g (next_of {a} {b} {rhs} {between} {y} before after r e) = rhs_statements-mem g r (
    Memᴰ.tail (
      subst (λ l. Memᴰ (add_next b between y) (positions a [] l)) (sym e)
        (positions-follow a [] before (nonterminal b) (between ++ (y ∷ after))
          (Memᴰ.tail (next_statements-mem b [] between y after)))))
