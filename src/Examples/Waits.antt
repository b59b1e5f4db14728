-- ===== src/Examples/Waits.antt =====
-- A parser that waits while bytes arrive, and one at the end of the data.
use spicy.Base.{◌≡◌, refl, inl, [], ◌∷◌, none, arith, parse_error}
use spicy.Stream.Chunk.{from_bytes}
use spicy.Stream.Chain.{Chain, empty, is_mutable, is_frozen}
use spicy.Stream.Blocks.{InputView, view_size}
use spicy.Parser.{suspends, throws, wait_for_min_or_eod, wait_for_min, at_eod, negated}
use spicy.Parser.Waiting.{
  first_ready, with_end, wait-first_ready, now, later, IsReady, Answers,
  wait_for_min_or_eod-Answers,
}

abbrev one_byte : Chain
one_byte = record { state = is_mutable; chunks = from_bytes 0 (65 ∷ []) ∷ []; head_offset = 0 }

abbrev three_bytes : Chain
three_bytes = record {
  state = is_mutable;
  chunks = from_bytes 0 (65 ∷ 66 ∷ 67 ∷ []) ∷ [];
  head_offset = 0;
}

abbrev ended : Chain
ended = record { state = is_frozen; chunks = from_bytes 0 (65 ∷ []) ∷ []; head_offset = 0 }

abbrev open_view : InputView
open_view = record { offset = 0; end_offset = none }

too_few : wait_for_min open_view 2 one_byte (ended ∷ []) ≡ throws parse_error
unfolding wait_for_min from_bytes
too_few = refl

no_answer : wait_for_min open_view 2 empty (one_byte ∷ []) ≡ suspends one_byte
unfolding wait_for_min from_bytes
no_answer = refl

enough : IsReady open_view 2 three_bytes
unfolding view_size from_bytes
enough = inl (omega arith)

wait-first_ready_example :
    (wait_for_min_or_eod open_view 2 empty (one_byte ∷ three_bytes ∷ [])
      ≡ first_ready open_view 2 empty (one_byte ∷ three_bytes ∷ []))
    × (wait_for_min open_view 2 empty (one_byte ∷ three_bytes ∷ [])
        ≡ with_end
            (λ d es. throws parse_error)
            (first_ready open_view 2 empty (one_byte ∷ three_bytes ∷ [])))
    × (at_eod open_view empty (one_byte ∷ three_bytes ∷ [])
        ≡ negated (first_ready open_view 1 empty (one_byte ∷ three_bytes ∷ [])))
wait-first_ready_example = wait-first_ready open_view 2 empty (one_byte ∷ three_bytes ∷ [])

wait-Answers_example :
    Answers open_view 2 (wait_for_min_or_eod open_view 2 empty (one_byte ∷ three_bytes ∷ []))
wait-Answers_example =
    wait_for_min_or_eod-Answers open_view 2 empty (one_byte ∷ three_bytes ∷ [])
      (later (later (now enough)))
