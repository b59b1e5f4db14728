-- ===== src/Grammar/Tables.antt =====
-- The tables that `_computeTables` (spicy/toolchain/src/compiler/codegen/grammar.cc) ends with.

use spicy.Base.{
  ℕ, zero, suc, ◌+◌, ◌≤◌, ◌<◌, ◌≡◌, ◌↔◌, refl, sym, subst, ◌∙◌, Bool, true, false, List, [], inl,
  inr, Bool-cases, length, arith, Result, ok,
}
use spicy.Grammar.{Grammar, Entry, contains, statements, run, again, table_loop}
use spicy.Grammar.Derivation.{Derived}
use spicy.Grammar.Rules.{statements-IsRule}
use spicy.Grammar.Closure.{IsSound, IsClosed, run-IsSound, run-Unchanged, Derived-contains}
use spicy.Grammar.Measure.{universe, missing, missing_le, flag, weight, weight-run}

again_changed :
    (k : List Entry → Result (List Entry)) (t : List Entry) (c : Bool)
    → c ≡ true
    → again k (t, c) ≡ k t
again_changed k t true e = refl
again_changed k t false e = cc

again_same :
    (k : List Entry → Result (List Entry)) (t : List Entry) (c : Bool)
    → c ≡ false
    → again k (t, c) ≡ ok t
again_same k t true e = cc
again_same k t false e = refl

pub contains-IsSound : (g : Grammar) → IsSound g []
unfolding contains
contains-IsSound g e h = cc

module _ (g : Grammar) where
  round-IsSound : (t : List Entry) → IsSound g t → IsSound g ((run (statements g) (t, false)).0)
  round-IsSound t h = run-IsSound g (statements g) t false (λ st m. statements-IsRule g m) h

  run-IsClosed :
      (t : List Entry)
      → (run (statements g) (t, false)).1 ≡ false
      → IsClosed g ((run (statements g) (t, false)).0)
  run-IsClosed t e =
      let w = run-Unchanged (statements g) t false e in subst (IsClosed g) (sym w.0.1) w.1

  pub table_loop-IsClosed :
      (fuel : ℕ) (t u : List Entry)
      → IsSound g t
      → table_loop fuel g t ≡ ok u
      → IsSound g u × IsClosed g u
  unfolding table_loop
  table_loop-IsClosed zero t u h e = cc
  table_loop-IsClosed (suc fuel) t u h e =
      let s = run (statements g) (t, false) in
      elim (Bool-cases s.1) [
        | inl k ↦
            table_loop-IsClosed fuel s.0 u (round-IsSound t h)
              (sym (again_changed (λ t'. table_loop fuel g t') s.0 s.1 k) ∙ e)
        | inr k ↦
            let q : ok s.0 ≡ ok u = sym (again_same (λ t'. table_loop fuel g t') s.0 s.1 k) ∙ e in
            let p : s.0 ≡ u = cc in
            (subst (IsSound g) p (round-IsSound t h), subst (IsClosed g) p (run-IsClosed t k))
      ]

  pub table_loop_ends :
      (fuel : ℕ) (t : List Entry)
      → IsSound g t
      → missing (universe g) t < fuel
      → (u : List Entry) × (table_loop fuel g t ≡ ok u)
  unfolding table_loop
  table_loop_ends zero t h b = absurd (omega arith)
  table_loop_ends (suc fuel) t h b =
      let s = run (statements g) (t, false) in
      let w = weight-run g (statements g) t false (λ st m. statements-IsRule g m) h in
      elim (Bool-cases s.1) [
        | inl k ↦
            let less : missing (universe g) s.0 < fuel = omega (
              arith,
              b,
              subst (λ c. missing (universe g) s.0 + flag c ≤ weight (universe g) (t, false)) k w,
            ) in
            let r = table_loop_ends fuel s.0 (round-IsSound t h) less in
            (r.0, again_changed (λ t'. table_loop fuel g t') s.0 s.1 k ∙ r.1)
        | inr k ↦ (s.0, again_same (λ t'. table_loop fuel g t') s.0 s.1 k)
      ]

-- More rounds than there are entries that can be derived are enough for the loop to end, whatever
-- the grammar, and the tables then hold an entry exactly if the rules for NULLABLE, FIRST and FOLLOW
-- derive it.
pub table_loop_lem :
    (fuel : ℕ) (g : Grammar)
    → length (universe g) < fuel
    → (t : List Entry) × (table_loop fuel g [] ≡ ok t)
      × ((e : Entry) → (contains e t ≡ true) ↔ Derived g e)
table_loop_lem fuel g h =
    let most = missing_le (universe g) [] in
    let r = table_loop_ends g fuel [] (contains-IsSound g) (omega arith) in
    let c = table_loop-IsClosed g fuel [] r.0 (contains-IsSound g) r.1 in
    (r.0, r.1, λ e. (c.0 e, Derived-contains g r.0 c.1))
