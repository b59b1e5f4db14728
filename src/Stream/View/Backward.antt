-- ===== src/Stream/View/Backward.antt =====
-- Searching a view backward.
use spicy.Base.{
  ℕ, zero, suc, ◌+◌, ◌-◌, ◌≤◌, ◌<◌, ◌≡◌, refl, sym, ap, subst, ◌∙◌, le-or-lt, ◌⊎◌, inl, inr, true,
  false, Bool, List, [], ◌∷◌, ◌++◌, map, length, drop, Option, none, some, arith, ◌==◌, Result, ok,
  err, ◌>>=◌, undefined, Bool-cases, le→ltb_false, length-drop, ==_iff,
}
use spicy.Bytes.Search.{Begins}
use spicy.Stream.View.{compare_back, matches_here, stop_or, backward_loop, find_backward}
use spicy.Stream.View.Forward.{drop-front}

-- A comparison that answers whether `v` begins at `xs`.
abbrev pub Answers : Result Bool → List ℕ → List ℕ → Type 0
Answers r v xs = ((r ≡ ok true) × Begins v xs) ⊎ ((r ≡ ok false) × (¬ Begins v xs))

pub differ : (x y : ℕ) → (x == y) ≡ false → ¬ (x ≡ y)
differ x y e k = ground arith

pub Answers-cons :
    (r : Result Bool) (x y : ℕ) (v xs : List ℕ)
    → x ≡ y
    → Answers r v xs
    → Answers r (y ∷ v) (x ∷ xs)
Answers-cons r x y v xs e (inl a) = inl (a.0, (e, a.1))
Answers-cons r x y v xs e (inr a) = inr (a.0, λ b. a.1 b.1)

compare_back-Answers :
    (xs : List ℕ) (y : ℕ) (ys : List ℕ) (tail : List (Option ℕ))
    → length (y ∷ ys) ≤ length xs
    → Answers (compare_back (map some xs ++ tail) (y ∷ ys)) (y ∷ ys) xs
unfolding compare_back
compare_back-Answers [] y ys tail h = absurd (omega arith)
compare_back-Answers (x ∷ xs) y [] tail h = elim (Bool-cases (x == y)) [
  | inl e ↦ rw e (inl (refl, ((==_iff x y).0 e, tt)))
  | inr e ↦ rw e (inr (refl, λ b. differ x y e b.0))
]
compare_back-Answers (x ∷ xs) y (z ∷ zs) tail h = elim (Bool-cases (x == y)) [
  | inl e ↦ rw e (
      Answers-cons (compare_back (map some xs ++ tail) (z ∷ zs)) x y (z ∷ zs) xs ((==_iff x y).0 e)
        (compare_back-Answers xs z zs tail (omega arith)))
  | inr e ↦ rw e (inr (refl, λ b. differ x y e b.0))
]

-- What is done at one position: read the byte there, and compare from there on.
looked_at :
    (xs : List ℕ) (y : ℕ) (ys : List ℕ) (tail : List (Option ℕ))
    → length (y ∷ ys) ≤ length xs
    → Answers (matches_here (map some xs ++ tail) (y ∷ ys) y) (y ∷ ys) xs
looked_at [] y ys tail h = absurd (omega arith)
looked_at (x ∷ xs) y ys tail h = elim (Bool-cases (x == y)) [
  | inl e ↦ rw e (compare_back-Answers (x ∷ xs) y ys tail h)
  | inr e ↦ rw e (inr (refl, λ b. differ x y e b.0))
]

-- The last place up to `j` at which `v` begins, or none.
abbrev pub LastPlace : List ℕ → List ℕ → ℕ → Bool × Option ℕ → Type 0
LastPlace v b j (true, some k) =
    (k ≤ j) × Begins v (drop k b) × ((l : ℕ) → k < l → l ≤ j → ¬ Begins v (drop l b))
LastPlace v b j (false, _) = (l : ℕ) → l ≤ j → ¬ Begins v (drop l b)
LastPlace v b j _ = ⊥

abbrev Searched : Result (Bool × Option ℕ) → List ℕ → List ℕ → ℕ → Type 0
Searched r v b j = (t : Bool × Option ℕ) × (r ≡ ok t) × LastPlace v b j t

none_after : (v b : List ℕ) (j l : ℕ) → j < l → l ≤ j → ¬ Begins v (drop l b)
none_after v b j l h k p = absurd (omega arith)

next_is : (j l : ℕ) → l ≤ suc j → j < l → suc j ≡ l
next_is j l c d = omega arith

-- What was found at the positions below counts, where nothing begins at `suc j`.
step_down :
    (v b : List ℕ) (j : ℕ) (t : Bool × Option ℕ)
    → ¬ Begins v (drop (suc j) b)
    → LastPlace v b j t
    → LastPlace v b (suc j) t
step_down v b j (true, some k) n (h, p, q) = (omega arith, p, above)
  where
    above : (l : ℕ) → k < l → l ≤ suc j → ¬ Begins v (drop l b)
    above l a c = elim (le-or-lt l j) [
      | inl d ↦ q l a d
      | inr d ↦ subst (λ t. ¬ Begins v (drop t b)) (next_is j l c d) n
    ]
step_down v b j (true, none) n p = absurd p
step_down v b j (false, o) n p = below
  where
    below : (l : ℕ) → l ≤ suc j → ¬ Begins v (drop l b)
    below l c = elim (le-or-lt l j) [
      | inl d ↦ p l d
      | inr d ↦ subst (λ t. ¬ Begins v (drop t b)) (next_is j l c d) n
    ]

decided :
    (r : Result Bool) (v b : List ℕ) (j : ℕ) (next : Result (Bool × Option ℕ))
    → Answers r v (drop (suc j) b)
    → Searched next v b j
    → Searched (r >>= stop_or (suc j) next) v b (suc j)
decided r v b j next (inl (e, p)) s = (
  (true, some (suc j)),
  ap (λ t. t >>= stop_or (suc j) next) e,
  (omega arith, p, none_after v b (suc j)),
)
decided r v b j next (inr (e, n)) (t, q, p) =
    (t, ap (λ t. t >>= stop_or (suc j) next) e ∙ q, step_down v b j t n p)

only_zero : (v b : List ℕ) → ¬ Begins v b → (l : ℕ) → l ≤ 0 → ¬ Begins v (drop l b)
only_zero v b n zero h = n
only_zero v b n (suc l) h = absurd (omega arith)

decided_last :
    (r : Result Bool) (v b : List ℕ)
    → Answers r v b
    → Searched (r >>= stop_or zero (ok (false, some zero))) v b 0
decided_last r v b (inl (e, p)) = (
  (true, some 0),
  ap (λ t. t >>= stop_or zero (ok (false, some zero))) e,
  (omega arith, p, none_after v b 0),
)
decided_last r v b (inr (e, n)) =
    ((false, some 0), ap (λ t. t >>= stop_or zero (ok (false, some zero))) e, only_zero v b n)

backward_loop-Searched :
    (y : ℕ) (ys b : List ℕ) (tail : List (Option ℕ)) (j : ℕ)
    → j + length (y ∷ ys) ≤ length b
    → Searched (backward_loop y (y ∷ ys) (map some b ++ tail) j) (y ∷ ys) b j
unfolding backward_loop
backward_loop-Searched y ys b tail zero h =
    decided_last _ (y ∷ ys) b (looked_at b y ys tail (omega arith))
backward_loop-Searched y ys b tail (suc j) h =
    decided _ (y ∷ ys) b j _
      (subst (λ t. Answers (matches_here t (y ∷ ys) y) (y ∷ ys) (drop (suc j) b))
        (sym (drop-front (suc j) b tail (omega arith)))
        (looked_at (drop (suc j) b) y ys tail (omega (arith, length-drop (suc j) b))))
      (backward_loop-Searched y ys b tail j (omega arith))

-- Searching bytes backward in a view without a gap, from a position inside of it that has at least as
-- many bytes of the view before it as are searched for, returns the last place at which they begin,
-- and end with the byte at that position or before it; or that there is none.
pub find_backward-LastPlace :
    (b : List ℕ) (y : ℕ) (ys : List ℕ) (tail : List (Option ℕ)) (i : ℕ)
    → i < length b
    → length (y ∷ ys) ≤ i
    → (t : Bool × Option ℕ) × (find_backward
          (record { content = map some b ++ tail; size = length b })
          (y ∷ ys)
          (some i)
        ≡ ok t)
      × LastPlace (y ∷ ys) b (i - length ys) t
unfolding find_backward
find_backward-LastPlace b y ys tail i h k =
    let (t, e, p) = backward_loop-Searched y ys b tail (i - length ys) (omega arith) in
    (t, rw (le→ltb_false (length b) i (omega arith), le→ltb_false i (length (y ∷ ys)) k) e, p)

past_end : (b : List ℕ) → drop (length b) (map some b ++ []) ≡ []
past_end [] = refl
past_end (x ∷ b) = past_end b

loop_past_end :
    (y : ℕ) (b : List ℕ) (j : ℕ)
    → j ≡ length b
    → 0 < j
    → backward_loop y (y ∷ []) (map some b ++ []) j ≡ err undefined
unfolding backward_loop
loop_past_end y b zero e h = absurd (omega arith)
loop_past_end y b (suc j) e h =
    ap
      (λ t.
        matches_here t (y ∷ []) y
        >>= stop_or (suc j) (backward_loop y (y ∷ []) (map some b ++ []) j))
      (ap (λ t. drop t (map some b ++ [])) e ∙ past_end b)

-- Searching one byte backward from the end of a view without a gap that ends with its stream, and is
-- not empty, reads behind the stream's end.
pub find_backward_past_end :
    (b : List ℕ) (y : ℕ)
    → 0 < length b
    → find_backward (record { content = map some b ++ []; size = length b }) (y ∷ []) none
      ≡ err undefined
unfolding find_backward
find_backward_past_end b y h =
    rw (le→ltb_false (length b) (length b) (omega arith), le→ltb_false (length b) 1 (omega arith))
      (loop_past_end y b (length b - 0) (omega arith) (omega arith))
