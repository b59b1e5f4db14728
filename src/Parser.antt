-- ===== src/Parser.antt =====
-- How a generated parser waits for input: spicy/runtime/src/parser.cc. A fiber that yields goes on with the stream as the host and
-- the filters have left it, so that the states of the stream at these times are a list. The view and the data are of one stream.
pub mod Waiting
use spicy.Base.{
  ℕ, zero, suc, ◌-◌, ◌^◌, Bool, true, false, not, List, [], ◌∷◌, Option, none, some, leb, ltb, ◌==◌,
  if◌then◌else◌, Result, ok, err, length, Error, overflow, diverges, parse_error,
}
use spicy.Stream.Chunk.{Chunk}
use spicy.Stream.Chain.{Chain, State, is_frozen, end}
use spicy.Stream.Blocks.{InputView, view_size}

abbrev pub frozen_state : State → Bool
frozen_state is_frozen = true
frozen_state _ = false

abbrev pub limited_by : Option ℕ → ℕ → Bool
limited_by none tail = false
limited_by (some e) tail = leb e tail

-- `_haveEod`.
unfoldable pub have_eod : Chain → InputView → Bool
have_eod c w = if frozen_state c.state then true else limited_by w.end_offset (end c)

-- A function returns, with the stream as it is then and the states still to come, or it is still
-- suspended at the end, or it throws.
pub data Outcome : Type 0 where
  returns : Bool → Chain → List Chain → Outcome
  suspends : Chain → Outcome
  throws : Error → Outcome

-- The loop of `waitForInputOrEod` without a minimum, where `old` bytes were there at first.
unfoldable pub wait_while : InputView → ℕ → Chain → List Chain → Outcome
unfolding view_size have_eod
wait_while w old c [] = if have_eod c w then returns false c [] else suspends c
wait_while w old c (d ∷ ds) =
    let rest = wait_while w old d ds in
    if have_eod c w
    then returns false c (d ∷ ds)
    else if view_size d w == old
    then rest
    else returns true d ds

unfoldable pub wait_for_input_or_eod : InputView → Chain → List Chain → Outcome
unfolding wait_while
wait_for_input_or_eod w c ds = wait_while w (view_size c w) c ds

-- What the loop around it does: it goes on, or does `at_end`.
abbrev pub after_wait :
    (Chain → List Chain → Outcome) → (Chain → List Chain → Outcome) → Outcome → Outcome
after_wait at_end again (returns true c ds) = again c ds
after_wait at_end again (returns false c ds) = at_end c ds
after_wait at_end again (suspends c) = suspends c
after_wait at_end again (throws e) = throws e

-- The loops `while ( min > cur.size() )`.
unfoldable pub wait_loop :
    (Chain → List Chain → Outcome) → ℕ → InputView → ℕ → Chain → List Chain → Outcome
unfolding wait_for_input_or_eod
wait_loop at_end zero w min c ds = throws diverges
wait_loop at_end (suc fuel) w min c ds =
    if ltb (view_size c w) min
    then after_wait at_end (λ d es. wait_loop at_end fuel w min d es) (wait_for_input_or_eod w c ds)
    else returns true c ds

-- `waitForInputOrEod` with a minimum, and `waitForInput` with one.
unfoldable pub wait_for_min_or_eod : InputView → ℕ → Chain → List Chain → Outcome
unfolding wait_loop
wait_for_min_or_eod w min c ds = wait_loop (λ d es. returns false d es) (suc (length ds)) w min c ds

unfoldable pub wait_for_min : InputView → ℕ → Chain → List Chain → Outcome
unfolding wait_loop
wait_for_min w min c ds = wait_loop (λ d es. throws parse_error) (suc (length ds)) w min c ds

-- `waitForInput` without a minimum.
unfoldable pub wait_for_input : InputView → Chain → List Chain → Outcome
unfolding wait_for_input_or_eod
wait_for_input w c ds =
    after_wait (λ d es. throws parse_error) (λ d es. returns true d es)
      (wait_for_input_or_eod w c ds)

-- The minimum of `waitForEod`; the difference is one of checked integers.
abbrev pub eod_distance : InputView → Result ℕ
eod_distance w = elim w.end_offset [
  | none ↦ ok (2 ^ 64 - 1)
  | some e ↦ if ltb e w.offset then err overflow else ok (e - w.offset)
]

abbrev pub wait_distance : InputView → Chain → List Chain → Result ℕ → Outcome
wait_distance w c ds (ok min) = wait_for_min_or_eod w min c ds
wait_distance w c ds (err e) = throws e

-- `waitForEod`.
unfoldable pub wait_for_eod : InputView → Chain → List Chain → Outcome
unfolding wait_for_min_or_eod
wait_for_eod w c ds = wait_distance w c ds (eod_distance w)

abbrev pub negated : Outcome → Outcome
negated (returns b c ds) = returns (not b) c ds
negated (suspends c) = suspends c
negated (throws e) = throws e

-- `atEod`.
unfoldable pub at_eod : InputView → Chain → List Chain → Outcome
unfolding wait_for_input_or_eod
at_eod w c ds =
    if ltb 0 (view_size c w)
    then returns false c ds
    else if have_eod c w
    then returns true c ds
    else negated (wait_for_input_or_eod w c ds)
