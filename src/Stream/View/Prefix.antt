-- ===== src/Stream/View/Prefix.antt =====
-- What a view starts with.
use spicy.Base.{
  ℕ, arith, suc, ◌≡◌, false, refl, inl, inr, List, [], ◌∷◌, ◌++◌, map, length, Option, some, ◌==◌,
  Bool-cases, ==_iff,
}
use spicy.Stream.View.{starts_loop, starts_with}
use spicy.Stream.View.Backward.{Answers, Answers-cons, differ}

starts_loop-Answers :
    (b v : List ℕ) (tail : List (Option ℕ))
    → Answers (starts_loop (map some b ++ tail) (length b) v) v b
unfolding starts_loop
starts_loop-Answers b [] tail = inl (refl, tt)
starts_loop-Answers [] (y ∷ ys) tail = inr (refl, λ p. p)
starts_loop-Answers (x ∷ b) (y ∷ ys) tail = elim (Bool-cases (x == y)) [
  | inl e ↦ rw e (
      Answers-cons (starts_loop (map some b ++ tail) (length b) ys) x y ys b ((==_iff x y).0 e)
        (starts_loop-Answers b ys tail))
  | inr e ↦ rw e (inr (refl, λ p. differ x y e p.0))
]

not_empty : (n : ℕ) → (suc n == 0) ≡ false
not_empty n = ground arith

-- `startsWith` of a view without a gap answers whether the view's bytes begin with the given ones,
-- whatever the stream has behind the view.
pub starts_with-Begins :
    (b v : List ℕ) (tail : List (Option ℕ))
    → Answers (starts_with (record { content = map some b ++ tail; size = length b }) v) v b
unfolding starts_with
starts_with-Begins [] [] tail = inl (refl, tt)
starts_with-Begins [] (y ∷ ys) tail = inr (refl, λ p. p)
starts_with-Begins (x ∷ b) v tail = rw (not_empty (length b)) (starts_loop-Answers (x ∷ b) v tail)
