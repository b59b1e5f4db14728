-- ===== src/Stream/View.antt =====
-- The searches of `View` of hilti/runtime/src/types/stream.cc. A position is an offset behind the
-- view's begin. The view's unsafe iterators read the content that the chain has from there on, which
-- may go on behind the view's end.
pub mod Forward
pub mod Backward
pub mod Prefix
use spicy.Base.{
  ℕ, zero, suc, ◌+◌, ◌-◌, Bool, true, false, List, [], ◌∷◌, length, drop, Option, none, some, ltb,
  ◌==◌, if◌then◌else◌, Result, ok, err, ◌>>=◌, missing_data, undefined, invalid_iterator,
}
use spicy.Bytes.{Compared, reaches_end, differs, matches, start_at}

-- `content` holds what the chain has from the view's begin on; `size` is the view's end.
pub record View : Type 0 where
  pub content : List (Option ℕ)
  pub size : ℕ

-- `*i`, where `content` begins at `i`.
abbrev pub byte_here : List (Option ℕ) → Result ℕ
byte_here [] = err undefined
byte_here (none ∷ xs) = err missing_data
byte_here (some x ∷ xs) = ok x

-- The inner loop of `_findForward`, with `left` bytes until the view's end.
unfoldable pub compare_view : List (Option ℕ) → ℕ → List ℕ → Result Compared
compare_view xs zero ys = ok reaches_end
compare_view [] (suc left) ys = err undefined
compare_view (none ∷ xs) (suc left) ys = err missing_data
compare_view (some x ∷ xs) (suc left) [] = ok differs
compare_view (some x ∷ xs) (suc left) (y ∷ []) = if x == y then ok matches else ok differs
compare_view (some x ∷ xs) (suc left) (y ∷ z ∷ ys) =
    let rest = compare_view xs left (z ∷ ys) in if x == y then rest else ok differs

abbrev pub decide_view : ℕ → Result (Bool × ℕ) → Compared → Result (Bool × ℕ)
decide_view i next reaches_end = ok (false, i)
decide_view i next matches = ok (true, i)
decide_view i next differs = next

-- The outer loop of `_findForward`.
unfoldable pub forward_loop : ℕ → List ℕ → List (Option ℕ) → ℕ → ℕ → Result (Bool × ℕ)
forward_loop first v xs zero i = ok (false, i)
forward_loop first v [] (suc left) i = err undefined
forward_loop first v (none ∷ xs) (suc left) i = err missing_data
forward_loop first v (some x ∷ xs) (suc left) i =
    let next = forward_loop first v xs left (i + 1) in
    if x == first then compare_view (some x ∷ xs) (suc left) v >>= decide_view i next else next

-- A position behind the view's end never meets it, so that the content runs out before.
abbrev pub left_from : View → ℕ → ℕ
left_from w n = if ltb w.size n then length w.content + 1 else w.size - n

-- `_findForward`.
unfoldable pub find_forward : View → List ℕ → Option ℕ → Result (Bool × ℕ)
unfolding forward_loop
find_forward w [] n = ok (true, start_at n)
find_forward w (y ∷ ys) n =
    forward_loop y (y ∷ ys) (drop (start_at n) w.content) (left_from w (start_at n)) (start_at n)

-- The loop of `startsWith`.
unfoldable pub starts_loop : List (Option ℕ) → ℕ → List ℕ → Result Bool
starts_loop xs left [] = ok true
starts_loop xs zero (y ∷ ys) = ok false
starts_loop [] (suc left) (y ∷ ys) = err undefined
starts_loop (none ∷ xs) (suc left) (y ∷ ys) = err missing_data
starts_loop (some x ∷ xs) (suc left) (y ∷ ys) =
    let rest = starts_loop xs left ys in if x == y then rest else ok false

abbrev none_left : List ℕ → Bool
none_left [] = true
none_left (y ∷ ys) = false

-- `startsWith` of a view of a valid chain.
unfoldable pub starts_with : View → List ℕ → Result Bool
unfolding starts_loop
starts_with w b = if w.size == 0 then ok (none_left b) else starts_loop w.content w.size b

-- The inner loop of `_findBackward`, which does not look for the view's end.
unfoldable pub compare_back : List (Option ℕ) → List ℕ → Result Bool
compare_back xs [] = ok false
compare_back [] (y ∷ ys) = err undefined
compare_back (none ∷ xs) (y ∷ ys) = err missing_data
compare_back (some x ∷ xs) (y ∷ []) = if x == y then ok true else ok false
compare_back (some x ∷ xs) (y ∷ z ∷ ys) =
    let rest = compare_back xs (z ∷ ys) in if x == y then rest else ok false

-- The comparison is made where the byte is the needle's first.
abbrev pub matches_here : List (Option ℕ) → List ℕ → ℕ → Result Bool
matches_here xs needle first =
    byte_here xs >>= λ x. if x == first then compare_back xs needle else ok false

abbrev pub stop_or : ℕ → Result (Bool × Option ℕ) → Bool → Result (Bool × Option ℕ)
stop_or j next true = ok (true, some j)
stop_or j next false = next

-- The outer loop of `_findBackward`, from the position `j` down to the view's begin.
unfoldable pub backward_loop : ℕ → List ℕ → List (Option ℕ) → ℕ → Result (Bool × Option ℕ)
backward_loop first needle xs zero =
    matches_here xs needle first >>= stop_or zero (ok (false, some zero))
backward_loop first needle xs (suc j) =
    let next = backward_loop first needle xs j in
    matches_here (drop (suc j) xs) needle first >>= stop_or (suc j) next

abbrev pub back_from : View → Option ℕ → ℕ
back_from w none = w.size
back_from w (some i) = i

-- `_findBackward`; an unset iterator is the view's end. A position before the view is not one here.
unfoldable pub find_backward : View → List ℕ → Option ℕ → Result (Bool × Option ℕ)
unfolding backward_loop
find_backward w [] i = ok (true, i)
find_backward w (y ∷ ys) i =
    if ltb w.size (back_from w i)
    then err invalid_iterator
    else if ltb (back_from w i) (length (y ∷ ys))
    then ok (false, none)
    else backward_loop y (y ∷ ys) w.content (back_from w i - length ys)
