-- ===== src/Grammar/Decisions.antt =====
-- The verdict of `_check` (spicy/toolchain/src/compiler/codegen/grammar.cc) and what the rules say of
-- the two alternatives of a look-ahead production.
use mathlib.Core.List.{Memᴰ}
use mathlib.Core.List.Memᴰ
use spicy.Base.{
  ℕ, ◌<◌, ◌≡◌, ◌≢◌, ◌↔◌, ◌⊎◌, refl, sym, ap, subst, ◌∙◌, true, false, ◌&&◌, List, [], ◌∷◌, ◌++◌,
  inl, inr, Bool-cases, ==_iff, ◌==◌, length, arith,
}
use spicy.Grammar.{
  Grammar, Production, Kind, is_terminal, has_rhss, look_ahead, Entry, is_terminal_kind,
  look_ahead_symbols, look_aheads, Verdict, accepted, has_symbol, rendered, intersects, is_empty,
  check_one, check, checked, compute_tables,
}
use spicy.Grammar.Derivation.{Predicts}
use spicy.Grammar.Closure.{IsSound, IsClosed}
use spicy.Grammar.LookAheads.{
  any_holds, any-mem, all_terminals-mem, mem-all_terminals, IsFine, check_sets_iff, mem-Predicts,
  Predicts-mem, look_aheads-IsFine,
}
use spicy.Grammar.Measure.{universe, missing_le}
use spicy.Grammar.Tables.{contains-IsSound, table_loop-IsClosed, table_loop_ends}

-- The next terminal decides between the alternatives `x` and `y` of `a`: there is one that
-- does, only terminals do, and none that is shown as one text predicts both.
abbrev pub Decides : Grammar → ℕ → Production → Production → Type 0
Decides g a x y =
    ((s : ℕ) × (Predicts g a x s ⊎ Predicts g a y s))
    × ((s : ℕ) → Predicts g a x s ⊎ Predicts g a y s → is_terminal_kind (g.kind s) ≡ true)
    × ((s t : ℕ) → Predicts g a x s → Predicts g a y t → g.render s ≢ g.render t)

some_symbol : (v w : List ℕ) → (is_empty v && is_empty w) ≡ false → (s : ℕ) × (Memᴰ s v ⊎ Memᴰ s w)
some_symbol (s ∷ v) w h = (s, inl (Memᴰ.head refl))
some_symbol [] (s ∷ w) h = (s, inr (Memᴰ.head refl))
some_symbol [] [] h = cc

symbol_found : {s : ℕ} (v w : List ℕ) → Memᴰ s v ⊎ Memᴰ s w → (is_empty v && is_empty w) ≡ false
symbol_found (s ∷ v) w m = refl
symbol_found [] (s ∷ w) m = refl
symbol_found [] [] (inl m) = absurd (Memᴰ.not-nil m)
symbol_found [] [] (inr m) = absurd (Memᴰ.not-nil m)

intersects-mem :
    (g : Grammar) {s t : ℕ} (v w : List ℕ)
    → Memᴰ s v
    → Memᴰ t w
    → g.render s ≡ g.render t
    → intersects (rendered g v) (rendered g w) ≡ true
intersects-mem g {s} {t} v w m n e =
    any-mem (λ r. has_symbol r (rendered g w)) (rendered g v) (Memᴰ.map (λ r. g.render r) m)
      (any-mem (λ r. g.render s == r) (rendered g w) (Memᴰ.map (λ r. g.render r) n)
        ((==_iff (g.render s) (g.render t)).1 e))

mem-intersects :
    (g : Grammar) (v w : List ℕ)
    → intersects (rendered g v) (rendered g w) ≡ true
    → (s : ℕ) × (t : ℕ) × Memᴰ s v × Memᴰ t w × (g.render s ≡ g.render t)
mem-intersects g v w h =
    let p = any_holds (λ r. has_symbol r (rendered g w)) (rendered g v) h in
    let q = any_holds (λ r. p.0 == r) (rendered g w) p.2 in
    let m = Memᴰ.of_map (λ r. g.render r) v p.1 in
    let n = Memᴰ.of_map (λ r. g.render r) w q.1 in
    (m.0, n.0, m.1, n.1, m.2 ∙ (==_iff p.0 q.0).0 q.2 ∙ sym n.2)

module _ (g : Grammar) (t : List Entry) (sound : IsSound g t) (closed : IsClosed g t) (a : ℕ)
    (x y : Production) where
  IsFine-Decides : IsFine g (look_ahead_symbols t x a, look_ahead_symbols t y a) → Decides g a x y
  IsFine-Decides h =
      let v = look_ahead_symbols t x a in
      let w = look_ahead_symbols t y a in
      let found = some_symbol v w h.0 in
      (
        (
          found.0,
          elim found.1 [
            | inl m ↦ inl (mem-Predicts g t sound closed a found.0 x m)
            | inr m ↦ inr (mem-Predicts g t sound closed a found.0 y m)
          ],
        ),
        λ s k. all_terminals-mem g (v ++ w) h.2 (elim k [
          | inl p ↦ Memᴰ.append_left w (Predicts-mem g t sound closed a s x p)
          | inr p ↦ Memᴰ.append_right v (Predicts-mem g t sound closed a s y p)
        ]),
        λ r s p q e.
            let clash =
              intersects-mem g v w (Predicts-mem g t sound closed a r x p)
                (Predicts-mem g t sound closed a s y q) e in
            cc,
      )

  Decides-IsFine : Decides g a x y → IsFine g (look_ahead_symbols t x a, look_ahead_symbols t y a)
  Decides-IsFine d =
      let v = look_ahead_symbols t x a in
      let w = look_ahead_symbols t y a in
      (
        symbol_found v w (elim d.0.1 [
          | inl p ↦ inl (Predicts-mem g t sound closed a d.0.0 x p)
          | inr p ↦ inr (Predicts-mem g t sound closed a d.0.0 y p)
        ]),
        elim (Bool-cases (intersects (rendered g v) (rendered g w))) [
          | inl k ↦
              let c = mem-intersects g v w k in
              absurd (
                d.2 c.0 c.1 (mem-Predicts g t sound closed a c.0 x c.2)
                  (mem-Predicts g t sound closed a c.1 y c.3) c.4)
          | inr k ↦ k
        ],
        mem-all_terminals g (v ++ w) (λ s m. d.1 s (elim (Memᴰ.append_cases v m) [
          | inl p ↦ inl (mem-Predicts g t sound closed a s x p)
          | inr p ↦ inr (mem-Predicts g t sound closed a s y p)
        ])),
      )

check_one_iff :
    (g : Grammar) (t : List Entry) (a : ℕ) (k : Kind) (next : Verdict)
    → (check_one g t a k next ≡ accepted) ↔ (
        ((x y : Production) → k ≡ look_ahead x y → IsFine g (look_aheads g t a x y))
        × (next ≡ accepted))
check_one_iff g t a is_terminal next = (λ h. (λ x y e. cc, h), λ h. h.1)
check_one_iff g t a (has_rhss r) next = (λ h. (λ x y e. cc, h), λ h. h.1)
check_one_iff g t a (look_ahead v w) next =
    let both_sets = look_aheads g t a v w in
    let tests = check_sets_iff g a both_sets.0 both_sets.1 next in
    (
      λ h. (
        λ x y e.
            let p : v ≡ x = cc in
            let q : w ≡ y = cc in
            subst (λ z. IsFine g (look_aheads g t a z y)) p
              (subst (λ z. IsFine g (look_aheads g t a v z)) q (tests.0 h).0),
        (tests.0 h).1,
      ),
      λ h. tests.1 (h.0 v w refl, h.1),
    )

check_iff :
    (g : Grammar) (t : List Entry) (as_ : List ℕ)
    → (check g t as_ ≡ accepted) ↔ (
        (a : ℕ) (x y : Production)
        → Memᴰ a as_
        → g.kind a ≡ look_ahead x y
        → IsFine g (look_aheads g t a x y))
unfolding check
check_iff g t [] = (λ h a x y m. absurd (Memᴰ.not-nil m), λ h. refl)
check_iff g t (b ∷ as_) =
    let one = check_one_iff g t b (g.kind b) (check g t as_) in
    let rest = check_iff g t as_ in
    (
      λ h a x y m e. elim (Memᴰ.cases_cons m) [
        | inl q ↦
            subst (λ c. IsFine g (look_aheads g t c x y)) (sym q)
              ((one.0 h).0 x y (ap (λ c. g.kind c) (sym q) ∙ e))
        | inr n ↦ rest.0 (one.0 h).1 a x y n e
      ],
      λ h.
          one.1
            (λ x y e. h b x y (Memᴰ.head refl) e, rest.1 (λ a x y m e. h a x y (Memᴰ.tail m) e)),
    )

-- With more rounds than there are entries that can be derived, the grammar is accepted exactly if
-- for the look-ahead production of every non-terminal the next terminal decides: some symbol
-- predicts one of the two alternatives, all those that do are terminals, and none that predicts the
-- first is shown as the text of one that predicts the second.
pub compute_tables_lem :
    (fuel : ℕ) (g : Grammar)
    → length (universe g) < fuel
    → (compute_tables fuel g ≡ accepted)
      ↔ ((a : ℕ) (x y : Production) → Memᴰ a g.nterms → g.kind a ≡ look_ahead x y → Decides g a x y)
unfolding compute_tables
compute_tables_lem fuel g h =
    let most = missing_le (universe g) [] in
    let r = table_loop_ends g fuel [] (contains-IsSound g) (omega arith) in
    let c = table_loop-IsClosed g fuel [] r.0 (contains-IsSound g) r.1 in
    let passes = check_iff g r.0 g.nterms in
    (
      λ e a x y m k. IsFine-Decides g r.0 c.0 c.1 a x y (
          (look_aheads-IsFine g r.0 a x y).0
            (passes.0 (subst (λ z. checked g z ≡ accepted) r.1 e) a x y m k)),
      λ d.
          subst (λ z. checked g z ≡ accepted) (sym r.1)
            (passes.1 (λ a x y m k.
              (look_aheads-IsFine g r.0 a x y).1
                (Decides-IsFine g r.0 c.0 c.1 a x y (d a x y m k)))),
    )
