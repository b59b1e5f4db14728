-- ===== src/Text/Words.antt =====
-- Trimming and splitting at white space, and at a delimiter (hilti/runtime/include/util.h,
-- hilti/runtime/src/util.cc).
use spicy.Base.{
  ℕ, zero, suc, Bool, true, false, ◌&&◌, ◌||◌, List, [], ◌∷◌, Option, none, some, ◌==◌, leb,
  if◌then◌else◌, Result, ok, err, diverges, ◌>>=◌, length,
}

abbrev pub same_text : List ℕ → List ℕ → Bool
same_text [] [] = true
same_text (c ∷ cs) (d ∷ ds) = c == d && same_text cs ds
same_text _ _ = false

-- `whitespace_chars`: the blank and the codes from 9 to 13.
abbrev pub is_space : ℕ → Bool
is_space c = c == 32 || leb 9 c && leb c 13

abbrev pub keep_behind : ℕ → List ℕ → List ℕ
keep_behind c [] = if is_space c then [] else c ∷ []
keep_behind c (d ∷ ds) = c ∷ d ∷ ds

unfoldable pub rtrim : List ℕ → List ℕ
rtrim [] = []
rtrim (c ∷ cs) = keep_behind c (rtrim cs)

unfoldable pub ltrim : List ℕ → List ℕ
ltrim [] = []
ltrim (c ∷ cs) = let rest = ltrim cs in if is_space c then rest else c ∷ cs

unfoldable pub trim : List ℕ → List ℕ
unfolding rtrim ltrim
trim s = ltrim (rtrim s)

-- What is before the first white space, and what is behind it, if there is one.
abbrev pub put_before : ℕ → List ℕ × Option (List ℕ) → List ℕ × Option (List ℕ)
put_before c (piece, behind) = (c ∷ piece, behind)

unfoldable pub find_space : List ℕ → List ℕ × Option (List ℕ)
find_space [] = ([], none)
find_space (c ∷ cs) =
    let rest = find_space cs in if is_space c then ([], some cs) else put_before c rest

-- The loop of `split`.
abbrev pub pieces :
    (List ℕ → Result (List (List ℕ))) → List ℕ × Option (List ℕ) → Result (List (List ℕ))
pieces next (piece, none) = ok (piece ∷ [])
pieces next (piece, some behind) = next behind >>= (λ l. ok (piece ∷ l))

unfoldable pub split_loop : ℕ → List ℕ → Result (List (List ℕ))
unfolding find_space ltrim
split_loop zero s = err diverges
split_loop (suc fuel) [] = ok []
split_loop (suc fuel) (c ∷ cs) =
    pieces (λ behind. split_loop fuel (ltrim behind)) (find_space (c ∷ cs))

unfoldable pub split : List ℕ → Result (List (List ℕ))
unfolding split_loop trim
split s = split_loop (suc (length s)) (trim s)
