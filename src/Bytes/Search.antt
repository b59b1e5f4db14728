-- ===== src/Bytes/Search.antt =====
-- What `find` finds.
use spicy.Base.{
  ℕ, zero, suc, ◌+◌, ◌≤◌, ◌<◌, ◌≡◌, sym, ap, ◌∙◌, ◌≢◌, inl, inr, true, false, Bool, List, [], ◌∷◌,
  length, drop, Option, arith, ◌==◌, ok, Bool-cases, ==_iff, le→ltb_false,
}
use spicy.Bytes.{
  Compared, reaches_end, differs, matches, compare_from, decide, find_loop, start_at, find,
}

-- `xs` begins with `v`.
abbrev pub Begins : List ℕ → List ℕ → Type 0
Begins [] xs = Unit {0}
Begins (y ∷ ys) [] = ⊥
Begins (y ∷ ys) (x ∷ xs) = (x ≡ y) × Begins ys xs

-- No place of `xs` before the `k`-th is the begin of what `P` says.
abbrev pub NotBefore : (List ℕ → Type 0) → List ℕ → ℕ → Type 0
NotBefore P xs k = (j : ℕ) → j < k → ¬ P (drop j xs)

-- The place `k` in `xs`, for a search of `v`: its first occurrence; or, where there is none, the first
-- place from which on all of `xs` could become one.
abbrev pub Place : List ℕ → List ℕ → Bool → ℕ → Type 0
Place v xs true k = Begins v (drop k xs) × NotBefore (Begins v) xs k
Place v xs false k =
    (k ≤ length xs)
    × ((j : ℕ) → ¬ Begins v (drop j xs))
    × Begins (drop k xs) v
    × NotBefore (λ ys. Begins ys v) xs k

Begins-le : (v xs : List ℕ) → Begins v xs → length v ≤ length xs
Begins-le [] xs b = omega arith
Begins-le (y ∷ ys) [] b = absurd b
Begins-le (y ∷ ys) (x ∷ xs) (e, b) = omega (arith, Begins-le ys xs b)

abbrev Ended : Compared → List ℕ → List ℕ → Type 0
Ended reaches_end xs v = Begins xs v × (length xs < length v)
Ended matches xs v = Begins v xs
Ended differs xs v = (¬ Begins xs v) × (¬ Begins v xs)

differ : (x y : ℕ) → (x == y) ≡ false → x ≢ y
differ x y e k = ground arith

Ended-cons :
    (c : Compared) (x y : ℕ) (xs v : List ℕ) → x ≡ y → Ended c xs v → Ended c (x ∷ xs) (y ∷ v)
Ended-cons reaches_end x y xs v e (b, l) = ((sym e, b), omega arith)
Ended-cons matches x y xs v e b = (e, b)
Ended-cons differs x y xs v e (a, b) = (λ t. a t.1, λ t. b t.1)

apart : (x y : ℕ) (xs v : List ℕ) → x ≢ y → Ended differs (x ∷ xs) (y ∷ v)
apart x y xs v n = (λ t. n (sym t.0), λ t. n t.0)

compare_from-Ended :
    (xs : List ℕ) (y : ℕ) (ys : List ℕ) → Ended (compare_from xs (y ∷ ys)) xs (y ∷ ys)
unfolding compare_from
compare_from-Ended [] y ys = (tt, omega arith)
compare_from-Ended (x ∷ xs) y [] = elim (Bool-cases (x == y)) [
  | inl e ↦ rw e ((==_iff x y).0 e, tt)
  | inr e ↦ rw e (apart x y xs [] (differ x y e))
]
compare_from-Ended (x ∷ xs) y (z ∷ zs) = elim (Bool-cases (x == y)) [
  | inl e ↦ rw e (
      Ended-cons (compare_from xs (z ∷ zs)) x y xs (z ∷ zs) ((==_iff x y).0 e)
        (compare_from-Ended xs z zs))
  | inr e ↦ rw e (apart x y xs (z ∷ zs) (differ x y e))
]

not_first :
    (P : List ℕ → Type 0) (x : ℕ) (xs : List ℕ) (k : ℕ)
    → ¬ P (x ∷ xs)
    → NotBefore P xs k
    → NotBefore P (x ∷ xs) (suc k)
not_first P x xs k n b zero h = n
not_first P x xs k n b (suc j) h = b j (omega arith)

nowhere :
    (v : List ℕ) (x : ℕ) (xs : List ℕ)
    → ¬ Begins v (x ∷ xs)
    → ((j : ℕ) → ¬ Begins v (drop j xs))
    → (j : ℕ) → ¬ Begins v (drop j (x ∷ xs))
nowhere v x xs n b zero = n
nowhere v x xs n b (suc j) = b j

-- A place behind one byte at which nothing begins.
later :
    (r : Bool) (v : List ℕ) (x : ℕ) (xs : List ℕ) (k : ℕ)
    → Ended differs (x ∷ xs) v
    → Place v xs r k
    → Place v (x ∷ xs) r (suc k)
later true v x xs k (a, b) (p, q) = (p, not_first (Begins v) x xs k b q)
later false v x xs k (a, b) (l, n, p, q) =
    (omega arith, nowhere v x xs b n, p, not_first (λ ys. Begins ys v) x xs k a q)

length-drop-le : (j : ℕ) (xs : List ℕ) → length (drop j xs) ≤ length xs
length-drop-le zero xs = omega arith
length-drop-le (suc j) [] = omega arith
length-drop-le (suc j) (x ∷ xs) = omega (arith, length-drop-le j xs)

too_short : (v xs : List ℕ) → length xs < length v → (j : ℕ) → ¬ Begins v (drop j xs)
too_short v xs h j b = absurd (omega (arith, Begins-le v (drop j xs) b, length-drop-le j xs))

none_before : (P : List ℕ → Type 0) (xs : List ℕ) → NotBefore P xs 0
none_before P xs j h = absurd (omega arith)

here : (i : ℕ) → i ≡ i + 0
here i = omega arith

onward : (i k : ℕ) → i + 1 + k ≡ i + suc k
onward i k = omega arith

abbrev Searched : List ℕ → List ℕ → ℕ → Bool × ℕ → Type 0
Searched v xs i t = (r : Bool) × (k : ℕ) × (t ≡ (r, i + k)) × Place v xs r k

decided :
    (c : Compared) (v : List ℕ) (x : ℕ) (xs : List ℕ) (i : ℕ) (next : Bool × ℕ)
    → Ended c (x ∷ xs) v
    → Searched v xs (i + 1) next
    → Searched v (x ∷ xs) i (decide c i next)
decided reaches_end v x xs i next (b, l) s = (
  false,
  0,
  ap (λ t. (false, t)) (here i),
  (omega arith, too_short v (x ∷ xs) l, b, none_before (λ ys. Begins ys v) (x ∷ xs)),
)
decided matches v x xs i next b s =
    (true, 0, ap (λ t. (true, t)) (here i), (b, none_before (Begins v) (x ∷ xs)))
decided differs v x xs i next b (r, k, e, p) =
    (r, suc k, e ∙ ap (λ t. (r, t)) (onward i k), later r v x xs k b p)

find_loop-Searched :
    (y : ℕ) (ys xs : List ℕ) (i : ℕ) → Searched (y ∷ ys) xs i (find_loop y (y ∷ ys) xs i)
unfolding find_loop
find_loop-Searched y ys [] i = (
  false,
  0,
  ap (λ t. (false, t)) (here i),
  (omega arith, too_short (y ∷ ys) [] (omega arith), tt, none_before (λ t. Begins t (y ∷ ys)) []),
)
find_loop-Searched y ys (x ∷ xs) i = elim (Bool-cases (x == y)) [
  | inl e ↦ rw e (
      decided (compare_from (x ∷ xs) (y ∷ ys)) (y ∷ ys) x xs i _ (compare_from-Ended (x ∷ xs) y ys)
        (find_loop-Searched y ys xs (i + 1)))
  | inr e ↦ rw e (
      decided differs (y ∷ ys) x xs i _ (apart x y xs ys (differ x y e))
        (find_loop-Searched y ys xs (i + 1)))
]

-- From a position inside of the data or at its end, the search of bytes that are not empty returns,
-- with the first place at or behind the position where they occur; or, if they occur nowhere there,
-- with the first place from which on the rest of the data is a begin of them, at the latest its end.
pub find-Place :
    (b : List ℕ) (y : ℕ) (ys : List ℕ) (n : Option ℕ)
    → start_at n ≤ length b
    → (r : Bool) × (k : ℕ) × (find b (y ∷ ys) n ≡ ok (r, start_at n + k))
      × Place (y ∷ ys) (drop (start_at n) b) r k
unfolding find
find-Place b y ys n h =
    let (r, k, e, p) = find_loop-Searched y ys (drop (start_at n) b) (start_at n) in
    (r, k, rw (le→ltb_false (length b) (start_at n) h) (ap ok e), p)
