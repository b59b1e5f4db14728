-- ===== src/Stream/View/Forward.antt =====
-- Searching a view without gaps is searching the bytes of the view.
use spicy.Base.{
  ℕ, zero, suc, ◌+◌, ◌≤◌, ◌≡◌, refl, sym, inl, inr, Bool, List, [], ◌∷◌, ◌++◌, map, length, drop,
  Option, some, arith, ◌==◌, ok, le→ltb_false, Bool-cases, length-drop,
}
use spicy.Bytes.{
  compare_from, decide, find_loop, find, start_at, Compared, reaches_end, differs, matches,
}
use spicy.Stream.View.{compare_view, decide_view, forward_loop, find_forward}

compare_view-from :
    (xs : List ℕ) (y : ℕ) (ys : List ℕ) (tail : List (Option ℕ))
    → compare_view (map some xs ++ tail) (length xs) (y ∷ ys) ≡ ok (compare_from xs (y ∷ ys))
unfolding compare_view compare_from
compare_view-from [] y ys tail = refl
compare_view-from (x ∷ xs) y [] tail = elim (Bool-cases (x == y)) [
  | inl e ↦ rw e refl
  | inr e ↦ rw e refl
]
compare_view-from (x ∷ xs) y (z ∷ zs) tail = elim (Bool-cases (x == y)) [
  | inl e ↦ rw e (compare_view-from xs z zs tail)
  | inr e ↦ rw e refl
]

decide_view-ok :
    (c : Compared) (i : ℕ) (next : Bool × ℕ) → decide_view i (ok next) c ≡ ok (decide c i next)
decide_view-ok reaches_end i next = refl
decide_view-ok differs i next = refl
decide_view-ok matches i next = refl

forward_loop-find_loop :
    (y : ℕ) (ys xs : List ℕ) (tail : List (Option ℕ)) (i : ℕ)
    → forward_loop y (y ∷ ys) (map some xs ++ tail) (length xs) i ≡ ok (find_loop y (y ∷ ys) xs i)
unfolding forward_loop find_loop
forward_loop-find_loop y ys [] tail i = refl
forward_loop-find_loop y ys (x ∷ xs) tail i = elim (Bool-cases (x == y)) [
  | inl e ↦
      rw (e, compare_view-from (x ∷ xs) y ys tail, forward_loop-find_loop y ys xs tail (i + 1))
        (decide_view-ok (compare_from (x ∷ xs) (y ∷ ys)) i _)
  | inr e ↦ rw e (forward_loop-find_loop y ys xs tail (i + 1))
]

pub drop-front :
    (n : ℕ) (b : List ℕ) (tail : List (Option ℕ))
    → n ≤ length b
    → drop n (map some b ++ tail) ≡ map some (drop n b) ++ tail
drop-front zero b tail h = refl
drop-front (suc n) [] tail h = absurd (omega arith)
drop-front (suc n) (x ∷ b) tail h = drop-front n b tail (omega arith)

-- Searching bytes forward in a view without a gap, from a position in it or at its end, gives what
-- searching them in the view's bytes gives, whatever the stream has behind the view.
pub find_forward-find :
    (b v : List ℕ) (tail : List (Option ℕ)) (n : Option ℕ)
    → start_at n ≤ length b
    → find_forward (record { content = map some b ++ tail; size = length b }) v n ≡ find b v n
unfolding find_forward find
find_forward-find b [] tail n h = refl
find_forward-find b (y ∷ ys) tail n h =
    rw
      (
        le→ltb_false (length b) (start_at n) h,
        drop-front (start_at n) b tail h,
        sym (length-drop (start_at n) b),
      )
      (forward_loop-find_loop y ys (drop (start_at n) b) tail (start_at n))
