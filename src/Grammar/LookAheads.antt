-- ===== src/Grammar/LookAheads.antt =====
-- The look-ahead sets of spicy/toolchain/src/compiler/codegen/grammar.cc and the tests on them.
use mathlib.Core.List.{Memᴰ}
use mathlib.Core.List.Memᴰ
use spicy.Base.{
  ℕ, ◌≡◌, ◌↔◌, refl, sym, ap, subst, ◌∙◌, Bool, true, false, ◌&&◌, ◌||◌, List, [], ◌∷◌, ◌++◌, inl,
  inr, and_true, Bool-cases, if◌then◌else◌, any, none, some,
}
use spicy.Grammar.{
  Grammar, Production, Entry, follow, follows, is_nullable, get_first, is_terminal_kind,
  all_terminals, look_ahead_symbols, both, look_aheads, Verdict, accepted, no_look_ahead, ambiguous,
  depends_on_nonterminal, rendered, intersects, is_empty, check_sets,
}
use spicy.Grammar.Derivation.{Empty, Predicts}
use spicy.Grammar.Entries.{contains-follows, follows-contains}
use spicy.Grammar.Closure.{
  IsSound, IsClosed, all_nullable-Empty, get_first-Starts, Derived-contains, Empty-all_nullable,
  Starts-get_first,
}

-- Searches in lists.
module _ {ℓ} {A : Type ℓ} where
  pub any_holds :
      (p : A → Bool) (xs : List A) → any p xs ≡ true → (x : A) × Memᴰ x xs × (p x ≡ true)
  any_holds p [] h = cc
  any_holds p (x ∷ xs) h = elim (Bool-cases (p x)) [
    | inl k ↦ (x, Memᴰ.head refl, k)
    | inr k ↦
        let w = any_holds p xs (subst (λ b. (b || any p xs) ≡ true) k h) in
        (w.0, Memᴰ.tail w.1, w.2)
  ]

  pub any-mem : (p : A → Bool) {x : A} (xs : List A) → Memᴰ x xs → p x ≡ true → any p xs ≡ true
  any-mem p [] m h = absurd (Memᴰ.not-nil m)
  any-mem p (y ∷ ys) (Memᴰ.head e) h = rw (ap p (sym e), h) refl
  any-mem p (y ∷ ys) (Memᴰ.tail m) h = elim (Bool-cases (p y)) [
    | inl k ↦ rw k refl
    | inr k ↦ rw k (any-mem p ys m h)
  ]

pub all_terminals-mem :
    (g : Grammar) {s : ℕ} (ss : List ℕ)
    → all_terminals g ss ≡ true
    → Memᴰ s ss
    → is_terminal_kind (g.kind s) ≡ true
unfolding all_terminals
all_terminals-mem g [] h m = absurd (Memᴰ.not-nil m)
all_terminals-mem g (r ∷ rs) h m =
    let k = and_true (is_terminal_kind (g.kind r)) (all_terminals g rs) h in
    elim (Memᴰ.cases_cons m) [
      | inl e ↦ ap (λ q. is_terminal_kind (g.kind q)) e ∙ k.0
      | inr n ↦ all_terminals-mem g rs k.1 n
    ]

pub mem-all_terminals :
    (g : Grammar) (ss : List ℕ)
    → ((s : ℕ) → Memᴰ s ss → is_terminal_kind (g.kind s) ≡ true)
    → all_terminals g ss ≡ true
unfolding all_terminals
mem-all_terminals g [] h = refl
mem-all_terminals g (r ∷ rs) h =
    rw (h r (Memᴰ.head refl)) (mem-all_terminals g rs (λ s m. h s (Memᴰ.tail m)))

-- The test on the two sets.
abbrev pub IsFine : Grammar → List ℕ × List ℕ → Type 0
IsFine g vw =
    ((is_empty vw.0 && is_empty vw.1) ≡ false)
    × (intersects (rendered g vw.0) (rendered g vw.1) ≡ false)
    × (all_terminals g (vw.0 ++ vw.1) ≡ true)

three_tests :
    (a : ℕ) (b c d : Bool) (next : Verdict)
    → ((if b
          then no_look_ahead a
          else if c
          then ambiguous a
          else if d
          then next
          else depends_on_nonterminal a)
        ≡ accepted)
      ↔ (((b ≡ false) × (c ≡ false) × (d ≡ true)) × (next ≡ accepted))
three_tests a true c d next = (λ e. cc, λ h. cc)
three_tests a false true d next = (λ e. cc, λ h. cc)
three_tests a false false true next = (λ e. ((refl, refl, refl), e), λ h. h.1)
three_tests a false false false next = (λ e. cc, λ h. cc)

pub check_sets_iff :
    (g : Grammar) (a : ℕ) (v w : List ℕ) (next : Verdict)
    → (check_sets g a (v, w) next ≡ accepted) ↔ (IsFine g (v, w) × (next ≡ accepted))
check_sets_iff g a v w next =
    three_tests a (is_empty v && is_empty w) (intersects (rendered g v) (rendered g w))
      (all_terminals g (v ++ w)) next

-- The symbols of a look-ahead set are those that predict the alternative.
module _ (g : Grammar) (t : List Entry) (sound : IsSound g t) (closed : IsClosed g t) where
  is_nullable-Empty : (x : Production) → is_nullable t x ≡ true → Empty g (x ∷ [])
  is_nullable-Empty x h =
      all_nullable-Empty g t sound (x ∷ []) (subst (λ b. (b && true) ≡ true) (sym h) refl)

  Empty-is_nullable : (x : Production) → Empty g (x ∷ []) → is_nullable t x ≡ true
  Empty-is_nullable x h = (and_true (is_nullable t x) true (Empty-all_nullable g t closed h)).0

  pub mem-Predicts :
      (a s : ℕ) (x : Production) → Memᴰ s (look_ahead_symbols t x a) → Predicts g a x s
  mem-Predicts a s x m = elim (Memᴰ.append_cases (get_first t x) m) [
    | inl k ↦ inl (get_first-Starts g t sound x k)
    | inr k ↦ elim (Bool-cases (is_nullable t x)) [
      | inl n ↦ inr (
        is_nullable-Empty x n,
        sound (follow a s)
            (follows-contains a s t (subst (λ b. Memᴰ s (if b then follows a t else [])) n k)),
      )
      | inr n ↦ absurd (Memᴰ.not-nil (subst (λ b. Memᴰ s (if b then follows a t else [])) n k))
    ]
  ]

  pub Predicts-mem :
      (a s : ℕ) (x : Production) → Predicts g a x s → Memᴰ s (look_ahead_symbols t x a)
  Predicts-mem a s x (inl h) =
      Memᴰ.append_left (if is_nullable t x then follows a t else []) (Starts-get_first g t closed h)
  Predicts-mem a s x (inr (h, d)) = Memᴰ.append_right (get_first t x) (
      subst (λ b. Memᴰ s (if b then follows a t else [])) (sym (Empty-is_nullable x h))
        (contains-follows a s t (Derived-contains g t closed d)))

-- Where the sets are fine, neither was refused.
refused :
    (g : Grammar) (c d : Bool) (v w : List ℕ)
    → IsFine g (both (if c then some v else none) (if d then some w else none))
    → ((c ≡ true) × (d ≡ true)) × IsFine g (v, w)
refused g true true v w h = ((refl, refl), h)
refused g true false v w h = cc
refused g false true v w h = cc
refused g false false v w h = cc

allowed :
    (g : Grammar) (c d : Bool) (v w : List ℕ)
    → c ≡ true
    → d ≡ true
    → IsFine g (v, w)
    → IsFine g (both (if c then some v else none) (if d then some w else none))
allowed g true true v w p q h = h
allowed g true false v w p q h = cc
allowed g false d v w p q h = cc

pub look_aheads-IsFine :
    (g : Grammar) (t : List Entry) (a : ℕ) (x y : Production)
    → IsFine g (look_aheads g t a x y)
      ↔ IsFine g (look_ahead_symbols t x a, look_ahead_symbols t y a)
look_aheads-IsFine g t a x y =
    let v = look_ahead_symbols t x a in
    let w = look_ahead_symbols t y a in
    (
      λ h. (refused g (all_terminals g v) (all_terminals g w) v w h).1,
      λ h.
          allowed g (all_terminals g v) (all_terminals g w) v w
            (mem-all_terminals g v (λ s m. all_terminals-mem g (v ++ w) h.2 (Memᴰ.append_left w m)))
            (mem-all_terminals g w
              (λ s m. all_terminals-mem g (v ++ w) h.2 (Memᴰ.append_right v m)))
            h,
    )
