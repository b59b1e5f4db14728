-- ===== src/Examples/Views.antt =====
-- A view of a stream that goes on behind it, and the searches in it.
use spicy.Base.{
  ℕ, ◌≡◌, refl, Bool, List, [], ◌∷◌, ◌++◌, map, Option, none, some, arith, ok, err, undefined,
  missing_data,
}
use spicy.Bytes.{find}
use spicy.Stream.View.{View, find_forward, forward_loop, find_backward, starts_with}
use spicy.Stream.View.Forward.{find_forward-find}
use spicy.Stream.View.Backward.{Answers, LastPlace, find_backward-LastPlace, find_backward_past_end}
use spicy.Stream.View.Prefix.{starts_with-Begins}

abbrev bytes : List ℕ
bytes = 97 ∷ 98 ∷ 97 ∷ 98 ∷ 99 ∷ []

abbrev behind : List (Option ℕ)
behind = some 97 ∷ none ∷ []

abbrev limited : View
limited = record { content = map some bytes ++ behind; size = 5 }

abbrev holed : View
holed = record { content = some 97 ∷ none ∷ some 98 ∷ []; size = 3 }

find_in_gap : find_forward holed (98 ∷ []) none ≡ err missing_data
unfolding find_forward forward_loop
find_in_gap = refl

find_forward_example :
    find_forward limited (98 ∷ 99 ∷ []) (some 1) ≡ find bytes (98 ∷ 99 ∷ []) (some 1)
find_forward_example = find_forward-find bytes (98 ∷ 99 ∷ []) behind (some 1) (omega arith)

find_backward_example :
    (t : Bool × Option ℕ) × (find_backward limited (97 ∷ 98 ∷ []) (some 4) ≡ ok t)
    × LastPlace (97 ∷ 98 ∷ []) bytes 3 t
find_backward_example =
    find_backward-LastPlace bytes 97 (98 ∷ []) behind 4 (omega arith) (omega arith)

past_end_example :
    find_backward (record { content = map some bytes ++ []; size = 5 }) (99 ∷ []) none
    ≡ err undefined
past_end_example = find_backward_past_end bytes 99 (omega arith)

starts_with_example : Answers (starts_with limited (97 ∷ 98 ∷ [])) (97 ∷ 98 ∷ []) bytes
starts_with_example = starts_with-Begins bytes (97 ∷ 98 ∷ []) behind
