-- ===== src/Parser/Waiting.antt =====
-- When the waits of spicy/runtime/src/parser.cc end, and how.
use spicy.Base.{
  ℕ, zero, suc, ◌≤◌, ◌<◌, ◌≡◌, ◌⊎◌, inl, inr, refl, sym, ap, subst, ◌∙◌, true, false, List, [], ◌∷◌,
  ltb, ◌==◌, ==_iff, if◌then◌else◌, length, arith, Bool-cases, parse_error, lt→ltb, le→ltb_false,
  le-or-lt,
}
use spicy.Stream.Chain.{Chain}
use spicy.Stream.Blocks.{InputView, view_size}
use spicy.Parser.{
  have_eod, Outcome, returns, suspends, throws, wait_while, after_wait, wait_loop,
  wait_for_min_or_eod, wait_for_min, negated, at_eod,
}

-- What is awaited: the first state of the stream with enough bytes or without hope for more.
abbrev pub judged : InputView → ℕ → Chain → List Chain → Outcome → Outcome
judged w min c ds later =
    if ltb (view_size c w) min
    then (if have_eod c w then returns false c ds else later)
    else returns true c ds

unfoldable pub first_ready : InputView → ℕ → Chain → List Chain → Outcome
first_ready w min c [] = judged w min c [] (suspends c)
first_ready w min c (d ∷ ds) = judged w min c (d ∷ ds) (first_ready w min d ds)

abbrev pub with_end : (Chain → List Chain → Outcome) → Outcome → Outcome
with_end at_end o = after_wait at_end (λ d es. returns true d es) o

module _ (at_end : Chain → List Chain → Outcome) (w : InputView) (min : ℕ) where
  abbrev Looped : ℕ → Type 0
  Looped fuel =
      (c : Chain) (ds : List Chain)
      → length ds < fuel
      → wait_loop at_end fuel w min c ds ≡ with_end at_end (first_ready w min c ds)

  -- From a state with too few bytes on.
  wait_while-first_ready :
      (fuel : ℕ) (c : Chain) (ds : List Chain)
      → Looped fuel
      → length ds ≤ fuel
      → view_size c w < min
      → after_wait at_end
          (λ d es. wait_loop at_end fuel w min d es)
          (wait_while w (view_size c w) c ds)
        ≡ with_end at_end (first_ready w min c ds)
  unfolding wait_while first_ready
  wait_while-first_ready fuel c [] loop l h = elim (Bool-cases (have_eod c w)) [
    | inl k ↦ rw (lt→ltb (view_size c w) min h, k) refl
    | inr k ↦ rw (lt→ltb (view_size c w) min h, k) refl
  ]
  wait_while-first_ready fuel c (d ∷ ds) loop l h = elim (Bool-cases (have_eod c w)) [
    | inl k ↦ rw (lt→ltb (view_size c w) min h, k) refl
    | inr k ↦ elim (Bool-cases (view_size d w == view_size c w)) [
      | inl e ↦
          let same = (==_iff (view_size d w) (view_size c w)).0 e in
          rw (lt→ltb (view_size c w) min h, k, e)
            (ap
                (λ n.
                  after_wait at_end (λ d es. wait_loop at_end fuel w min d es)
                    (wait_while w n d ds))
                (sym same)
              ∙ wait_while-first_ready fuel d ds loop (omega arith) (omega arith))
      | inr e ↦ rw (lt→ltb (view_size c w) min h, k, e) (loop d ds (omega arith))
    ]
  ]

  ready_now :
      (c : Chain) (ds : List Chain)
      → min ≤ view_size c w
      → first_ready w min c ds ≡ returns true c ds
  unfolding first_ready
  ready_now c [] h = rw (le→ltb_false (view_size c w) min h) refl
  ready_now c (d ∷ ds) h = rw (le→ltb_false (view_size c w) min h) refl

  wait_loop-first_ready : (fuel : ℕ) → Looped fuel
  unfolding wait_loop
  wait_loop-first_ready zero c ds l = absurd (omega arith)
  wait_loop-first_ready (suc fuel) c ds l = elim (le-or-lt min (view_size c w)) [
    | inl h ↦
        rw (le→ltb_false (view_size c w) min h) (ap (with_end at_end) (sym (ready_now c ds h)))
    | inr h ↦
        rw (lt→ltb (view_size c w) min h)
          (wait_while-first_ready fuel c ds (wait_loop-first_ready fuel) (omega arith) h)
  ]

with_end_itself : (o : Outcome) → with_end (λ d es. returns false d es) o ≡ o
with_end_itself (returns true c ds) = refl
with_end_itself (returns false c ds) = refl
with_end_itself (suspends c) = refl
with_end_itself (throws e) = refl

different : (m n : ℕ) → n ≡ 0 → (m == n) ≡ false → 1 ≤ m
different m n e h = ground arith

-- With nothing there, the wait for a change is that for a byte.
wait_while_empty :
    (w : InputView) (c : Chain) (ds : List Chain)
    → view_size c w ≡ 0
    → wait_while w (view_size c w) c ds ≡ first_ready w 1 c ds
unfolding wait_while first_ready
wait_while_empty w c [] h = elim (Bool-cases (have_eod c w)) [
  | inl k ↦ rw (lt→ltb (view_size c w) 1 (omega arith), k) refl
  | inr k ↦ rw (lt→ltb (view_size c w) 1 (omega arith), k) refl
]
wait_while_empty w c (d ∷ ds) h = elim (Bool-cases (have_eod c w)) [
  | inl k ↦ rw (lt→ltb (view_size c w) 1 (omega arith), k) refl
  | inr k ↦ elim (Bool-cases (view_size d w == view_size c w)) [
    | inl e ↦
        let same = (==_iff (view_size d w) (view_size c w)).0 e in
        rw (lt→ltb (view_size c w) 1 (omega arith), k, e)
          (ap (λ n. wait_while w n d ds) (sym same) ∙ wait_while_empty w d ds (same ∙ h))
    | inr e ↦
        rw (lt→ltb (view_size c w) 1 (omega arith), k, e)
          (sym (
            ready_now (λ d es. returns false d es) w 1 d ds
              (different (view_size d w) (view_size c w) h e)))
  ]
]

ended :
    (w : InputView) (c : Chain) (ds : List Chain)
    → view_size c w ≡ 0
    → have_eod c w ≡ true
    → first_ready w 1 c ds ≡ returns false c ds
unfolding first_ready
ended w c [] h k = rw (lt→ltb (view_size c w) 1 (omega arith), k) refl
ended w c (d ∷ ds) h k = rw (lt→ltb (view_size c w) 1 (omega arith), k) refl

at_eod-first_ready :
    (w : InputView) (c : Chain) (ds : List Chain) → at_eod w c ds ≡ negated (first_ready w 1 c ds)
unfolding at_eod
at_eod-first_ready w c ds = elim (le-or-lt 1 (view_size c w)) [
  | inl h ↦
      rw (lt→ltb 0 (view_size c w) (omega arith))
        (ap negated (sym (ready_now (λ d es. returns false d es) w 1 c ds h)))
  | inr h ↦
      let empty : view_size c w ≡ 0 = omega arith in
      elim (Bool-cases (have_eod c w)) [
        | inl k ↦
            rw (le→ltb_false 0 (view_size c w) (omega arith), k)
              (ap negated (sym (ended w c ds empty k)))
        | inr k ↦
            rw (le→ltb_false 0 (view_size c w) (omega arith), k)
              (ap negated (wait_while_empty w c ds empty))
      ]
]

-- Whatever the states of the stream are when the parser goes on, the wait for a number of bytes
-- answers by the first state that has so many, or that has too few and is known to get no more: with
-- true at the one, and with false or a parse error at the other, by the function; where there is no
-- such state it is still suspended. The test for the end of data is the negation of the wait for one
-- byte.
pub wait-first_ready :
    (w : InputView) (min : ℕ) (c : Chain) (ds : List Chain)
    → (wait_for_min_or_eod w min c ds ≡ first_ready w min c ds)
      × (wait_for_min w min c ds ≡ with_end (λ d es. throws parse_error) (first_ready w min c ds))
      × (at_eod w c ds ≡ negated (first_ready w 1 c ds))
unfolding wait_for_min_or_eod wait_for_min
wait-first_ready w min c ds = (
  wait_loop-first_ready (λ d es. returns false d es) w min (suc (length ds)) c ds (omega arith)
      ∙ with_end_itself (first_ready w min c ds),
  wait_loop-first_ready (λ d es. throws parse_error) w min (suc (length ds)) c ds (omega arith),
  at_eod-first_ready w c ds,
)

-- Enough bytes, or no hope for more.
abbrev pub IsReady : InputView → ℕ → Chain → Type 0
IsReady w min c = (min ≤ view_size c w) ⊎ (have_eod c w ≡ true)

-- Some state, from the present one on, has the property.
pub data Eventually (P : Chain → Type 0) : Chain → List Chain → Type 0 where
  now : {c : Chain} {ds : List Chain} → P c → Eventually P c ds
  later : {c d : Chain} {ds : List Chain} → Eventually P d ds → Eventually P c (d ∷ ds)

-- What the answer says of the state that it is given in.
abbrev pub Answers : InputView → ℕ → Outcome → Type 0
Answers w min (returns true d ds) = min ≤ view_size d w
Answers w min (returns false d ds) = (view_size d w < min) × (have_eod d w ≡ true)
Answers w min (suspends d) = ⊥
Answers w min (throws e) = ⊥

judged-Answers :
    (w : InputView) (min : ℕ) (c : Chain) (ds : List Chain) (o : Outcome)
    → IsReady w min c ⊎ Answers w min o
    → Answers w min (judged w min c ds o)
judged-Answers w min c ds o h = elim (le-or-lt min (view_size c w)) [
  | inl l ↦ rw (le→ltb_false (view_size c w) min l) l
  | inr l ↦ elim (Bool-cases (have_eod c w)) [
    | inl k ↦ rw (lt→ltb (view_size c w) min l, k) (l, k)
    | inr k ↦
        rw (lt→ltb (view_size c w) min l, k)
          (elim h [ inl (inl m) ↦ absurd (omega arith) | inl (inr e) ↦ cc | inr a ↦ a ])
  ]
]

now-Answers :
    (w : InputView) (min : ℕ) (c : Chain) (ds : List Chain)
    → IsReady w min c
    → Answers w min (first_ready w min c ds)
unfolding first_ready
now-Answers w min c [] r = judged-Answers w min c [] (suspends c) (inl r)
now-Answers w min c (d ∷ ds) r = judged-Answers w min c (d ∷ ds) (first_ready w min d ds) (inl r)

first_ready-Answers :
    (w : InputView) (min : ℕ) {c : Chain} {ds : List Chain}
    → Eventually (IsReady w min) c ds
    → Answers w min (first_ready w min c ds)
unfolding first_ready
first_ready-Answers w min {c} {ds} (now r) = now-Answers w min c ds r
first_ready-Answers w min (later {c} {d} {ds} r) =
    judged-Answers w min c (d ∷ ds) (first_ready w min d ds) (inr (first_ready-Answers w min r))

-- If some state of the stream has enough bytes or is known to get no more, the wait for a number of
-- bytes is answered: with true in a state that has so many, or with false in one that has fewer and
-- is known to get no more.
pub wait_for_min_or_eod-Answers :
    (w : InputView) (min : ℕ) (c : Chain) (ds : List Chain)
    → Eventually (IsReady w min) c ds
    → Answers w min (wait_for_min_or_eod w min c ds)
wait_for_min_or_eod-Answers w min c ds h =
    subst (Answers w min) (sym (wait-first_ready w min c ds).0) (first_ready-Answers w min h)
