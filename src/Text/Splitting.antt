-- ===== src/Text/Splitting.antt =====
-- Splitting a text at white space gives back the words it was joined from.
use spicy.Base.{
  true, ℕ, zero, suc, ◌≤◌, ◌≡◌, refl, ap, ◌∙◌, false, List, [], ◌∷◌, ◌++◌, none, some, ok, ◌>>=◌,
  length, All, arith, length-append,
}
use spicy.Text.Words.{
  is_space, rtrim, ltrim, trim, find_space, keep_behind, pieces, split_loop, split,
}

-- Not empty, and without white space.
abbrev pub IsWord : List ℕ → Type 0
IsWord w = (1 ≤ length w) × All (λ c. is_space c ≡ false) w

abbrev pub join_words : List (List ℕ) → List ℕ
join_words [] = []
join_words (w ∷ []) = w
join_words (w ∷ v ∷ vs) = w ++ 32 ∷ join_words (v ∷ vs)

ltrim-word : (c : ℕ) (cs : List ℕ) → is_space c ≡ false → ltrim (c ∷ cs) ≡ c ∷ cs
unfolding ltrim
ltrim-word c cs h = rw h refl

pub ltrim-append : (w rest : List ℕ) → IsWord w → ltrim (w ++ rest) ≡ w ++ rest
ltrim-append [] rest h = absurd (omega (arith, h.0))
ltrim-append (c ∷ cs) rest h = ltrim-word c (cs ++ rest) h.1.0

keep_behind-append :
    (c : ℕ) (xs ys : List ℕ) → 1 ≤ length ys → keep_behind c (xs ++ ys) ≡ c ∷ (xs ++ ys)
keep_behind-append c [] [] h = absurd (omega arith)
keep_behind-append c [] (y ∷ ys) h = refl
keep_behind-append c (x ∷ xs) ys h = refl

-- Nothing is dropped from a text whose end is kept.
pub rtrim-append : (xs ys : List ℕ) → 1 ≤ length ys → rtrim ys ≡ ys → rtrim (xs ++ ys) ≡ xs ++ ys
unfolding rtrim
rtrim-append [] ys h e = e
rtrim-append (x ∷ xs) ys h e =
    ap (keep_behind x) (rtrim-append xs ys h e) ∙ keep_behind-append x xs ys h

rtrim-one : (c : ℕ) → is_space c ≡ false → rtrim (c ∷ []) ≡ c ∷ []
unfolding rtrim
rtrim-one c h = rw h refl

pub rtrim-word : (w : List ℕ) → IsWord w → rtrim w ≡ w
unfolding rtrim
rtrim-word [] h = refl
rtrim-word (c ∷ []) h = rtrim-one c h.1.0
rtrim-word (c ∷ d ∷ ds) h = ap (keep_behind c) (rtrim-word (d ∷ ds) (omega arith, h.1.1))

join_words-length : (w : List ℕ) (ws : List (List ℕ)) → IsWord w → 1 ≤ length (join_words (w ∷ ws))
join_words-length w [] h = h.0
join_words-length w (v ∷ vs) h = omega (arith, h.0, length-append w (32 ∷ join_words (v ∷ vs)))

rtrim-join_words :
    (w : List ℕ) (ws : List (List ℕ))
    → All IsWord (w ∷ ws)
    → rtrim (join_words (w ∷ ws)) ≡ join_words (w ∷ ws)
rtrim-join_words w [] h = rtrim-word w h.0
rtrim-join_words w (v ∷ vs) h =
    let long = join_words-length v vs h.1.0 in
    rtrim-append w (32 ∷ join_words (v ∷ vs)) (omega arith)
      (rtrim-append (32 ∷ []) (join_words (v ∷ vs)) long (rtrim-join_words v vs h.1))

ltrim-join_words :
    (w : List ℕ) (ws : List (List ℕ))
    → All IsWord (w ∷ ws)
    → ltrim (join_words (w ∷ ws)) ≡ join_words (w ∷ ws)
ltrim-join_words [] ws h = absurd (omega (arith, h.0.0))
ltrim-join_words (c ∷ cs) [] h = ltrim-word c cs h.0.1.0
ltrim-join_words (c ∷ cs) (v ∷ vs) h = ltrim-word c (cs ++ 32 ∷ join_words (v ∷ vs)) h.0.1.0

find_space-none : (w : List ℕ) → All (λ c. is_space c ≡ false) w → find_space w ≡ (w, none)
unfolding find_space
find_space-none [] h = refl
find_space-none (c ∷ cs) h = rw (h.0, find_space-none cs h.1) refl

find_space-some :
    (w rest : List ℕ)
    → All (λ c. is_space c ≡ false) w
    → find_space (w ++ 32 ∷ rest) ≡ (w, some rest)
unfolding find_space
find_space-some [] rest h = refl
find_space-some (c ∷ cs) rest h = rw (h.0, find_space-some cs rest h.1) refl

split_loop-step :
    (fuel : ℕ) (s : List ℕ)
    → 1 ≤ length s
    → split_loop (suc fuel) s ≡ pieces (λ behind. split_loop fuel (ltrim behind)) (find_space s)
unfolding split_loop
split_loop-step fuel [] h = absurd (omega arith)
split_loop-step fuel (c ∷ cs) h = refl

split_loop-join_words :
    (fuel : ℕ) (w : List ℕ) (ws : List (List ℕ))
    → length (w ∷ ws) ≤ fuel
    → All IsWord (w ∷ ws)
    → split_loop fuel (join_words (w ∷ ws)) ≡ ok (w ∷ ws)
split_loop-join_words zero w ws l h = absurd (omega arith)
split_loop-join_words (suc fuel) w [] l h =
    split_loop-step fuel w h.0.0
    ∙ ap (pieces (λ behind. split_loop fuel (ltrim behind))) (find_space-none w h.0.1)
split_loop-join_words (suc fuel) w (v ∷ vs) l h =
    split_loop-step fuel (join_words (w ∷ v ∷ vs)) (join_words-length w (v ∷ vs) h.0)
    ∙ ap (pieces (λ behind. split_loop fuel (ltrim behind)))
        (find_space-some w (join_words (v ∷ vs)) h.0.1)
    ∙ ap (λ t. split_loop fuel t >>= (λ l. ok (w ∷ l))) (ltrim-join_words v vs h.1)
    ∙ ap (λ r. r >>= (λ l. ok (w ∷ l))) (split_loop-join_words fuel v vs (omega arith) h.1)

join_words-long :
    (w : List ℕ) (ws : List (List ℕ))
    → All IsWord (w ∷ ws)
    → length (w ∷ ws) ≤ length (join_words (w ∷ ws))
join_words-long w [] h = omega (arith, h.0.0)
join_words-long w (v ∷ vs) h =
    omega (arith, h.0.0, length-append w (32 ∷ join_words (v ∷ vs)), join_words-long v vs h.1)

-- Splitting what was joined from words by blanks ends and gives the words.
pub split-join_words :
    (w : List ℕ) (ws : List (List ℕ))
    → All IsWord (w ∷ ws)
    → split (join_words (w ∷ ws)) ≡ ok (w ∷ ws)
unfolding split trim
split-join_words w ws h =
    ap (split_loop (suc (length (join_words (w ∷ ws)))))
      (ap ltrim (rtrim-join_words w ws h) ∙ ltrim-join_words w ws h)
    ∙ split_loop-join_words (suc (length (join_words (w ∷ ws)))) w ws
        (omega (arith, join_words-long w ws h)) h

rtrim-append_space : (s : List ℕ) (c : ℕ) → is_space c ≡ true → rtrim (s ++ c ∷ []) ≡ rtrim s
unfolding rtrim
rtrim-append_space [] c h = rw h refl
rtrim-append_space (d ∷ ds) c h = ap (keep_behind d) (rtrim-append_space ds c h)

-- What surrounds the words of a line is trimmed.
pub trim-line :
    (w : List ℕ) (ws : List (List ℕ))
    → All IsWord (w ∷ ws)
    → trim (32 ∷ (join_words (w ∷ ws) ++ 10 ∷ [])) ≡ join_words (w ∷ ws)
unfolding trim ltrim
trim-line w ws h =
    let s = join_words (w ∷ ws) in
    ap ltrim (
      rtrim-append_space (32 ∷ s) 10 refl
      ∙ rtrim-append (32 ∷ []) s (join_words-length w ws h.0) (rtrim-join_words w ws h))
    ∙ ltrim-join_words w ws h
