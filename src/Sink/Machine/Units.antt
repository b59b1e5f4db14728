-- ===== src/Sink/Machine/Units.antt =====
-- Delivery to the connected units, and input that comes in order.
use spicy.Base.{
  ℕ, ◌<◌, ◌≡◌, refl, ap, ◌∙◌, ◌⊎◌, inl, inr, true, false, List, [], ◌∷◌, ◌++◌, map, length, All,
  Option, none, some, arith, ◌==◌, if◌then◌else◌, Error, parse_error, ==_iff, Bool-cases,
}
use spicy.Sink.Buffer.{add64}
use spicy.Sink.Machine.{
  Host, Connected, Resumed, suspends, finishes, fails, escapes, Sink, continues, resumed, uncaught,
  go_on, receive, deliver_units, forward, deliver,
}

-- What a delivery does to one unit that takes part in it, or that no longer does.
abbrev pub deliver_one : {U F : Type 0} → Host U F → List ℕ → Connected U → Connected U
deliver_one h d c = if c.skip_delivery then c else resumed (receive c d) (h.resume c.unit d)

-- The unit is skipped, or can take the data without letting an exception out.
abbrev pub Accepts : {U F : Type 0} → Host U F → List ℕ → Connected U → Type 0
Accepts h d c =
    (c.skip_delivery ≡ true) ⊎ ((c.done ≡ false) × (uncaught (h.resume c.unit d) ≡ none))

-- The unit ends the delivery with the exception `e`, and is then `c'`: it has completed parsing
-- before, or it gets the data and lets an exception out.
abbrev pub Stops : {U F : Type 0} → Host U F → List ℕ → Connected U → Connected U → Error → Type 0
Stops {U} h d c c' e =
    (c.skip_delivery ≡ false)
    × (((c.done ≡ true) × (c' ≡ c) × (e ≡ parse_error))
        ⊎ ((c.done ≡ false)
            × ((u : U) × (h.resume c.unit d ≡ escapes u e)
                × (c' ≡ record c { unit = u; received = c.received ++ d; done = true }))))

deliver_accepted :
    {U F : Type 0} (h : Host U F) (c : Connected U) (cs : List (Connected U)) (d : List ℕ)
    → Accepts h d c
    → deliver_units h (c ∷ cs) d ≡ go_on (deliver_one h d c) (deliver_units h cs d)
unfolding deliver_units
deliver_accepted h c cs d (inl k) = rw k refl
deliver_accepted h c cs d (inr (k, l)) = elim (Bool-cases c.skip_delivery) [
  | inl e ↦ rw e refl
  | inr e ↦ rw (e, k, l) refl
]

deliver_units-Stops :
    {U F : Type 0} (h : Host U F) (c c' : Connected U) (cs : List (Connected U)) (d : List ℕ)
    (e : Error)
    → Stops h d c c' e
    → deliver_units h (c ∷ cs) d ≡ (c' ∷ cs, some e)
unfolding deliver_units
deliver_units-Stops h c c' cs d e (k, inl (l, m, n)) = simp (k, l, m, n)
deliver_units-Stops h c c' cs d e (k, inr (l, (u, m, n))) = simp (k, l, m, n)

caught-or-escapes :
    {U : Type 0} (r : Resumed U) → (uncaught r ≡ none) ⊎ ((u : U) × (e : Error) × (r ≡ escapes u e))
caught-or-escapes (suspends u) = inl refl
caught-or-escapes (finishes u) = inl refl
caught-or-escapes (fails u) = inl refl
caught-or-escapes (escapes u e) = inr (u, e, refl)

unit_cases :
    {U F : Type 0} (h : Host U F) (c : Connected U) (d : List ℕ)
    → Accepts h d c ⊎ ((c' : Connected U) × (e : Error) × Stops h d c c' e)
unit_cases h c d = elim (Bool-cases c.skip_delivery) [
  | inl k ↦ inl (inl k)
  | inr k ↦ elim (Bool-cases c.done) [
    | inl l ↦ inr (c, parse_error, (k, inl (l, refl, refl)))
    | inr l ↦ elim (caught-or-escapes (h.resume c.unit d)) [
      | inl m ↦ inl (inr (l, m))
      | inr (u, e, m) ↦ inr (
        record c { unit = u; received = c.received ++ d; done = true },
        e,
        (k, inr (l, (u, m, refl))),
      )
    ]
  ]
]

-- When all units accept the data, each that is not skipped has it appended and is resumed.
pub deliver_units-map :
    {U F : Type 0} (h : Host U F) (cs : List (Connected U)) (d : List ℕ)
    → All (Accepts h d) cs
    → deliver_units h cs d ≡ (map (deliver_one h d) cs, none)
unfolding deliver_units
deliver_units-map h [] d a = refl
deliver_units-map h (c ∷ cs) d (k, a) =
    deliver_accepted h c cs d k ∙ ap (go_on (deliver_one h d c)) (deliver_units-map h cs d a)

-- What a delivery makes of the units, where one of them stops it.
pub record Stopped {U F : Type 0} (h : Host U F) (d : List ℕ) (cs : List (Connected U))
    (r : List (Connected U) × Option Error) : Type 0 where
  pub front : List (Connected U)
  pub stopping : Connected U
  pub back : List (Connected U)
  pub stopped : Connected U
  pub error : Error
  pub split : cs ≡ front ++ (stopping ∷ back)
  pub accepted : All (Accepts h d) front
  pub stops : Stops h d stopping stopped error
  pub outcome : r ≡ (map (deliver_one h d) front ++ (stopped ∷ back), some error)

prepended :
    {U F : Type 0} (h : Host U F) (c : Connected U) (cs : List (Connected U)) (d : List ℕ)
    → Accepts h d c
    → Stopped h d cs (deliver_units h cs d)
    → Stopped h d (c ∷ cs) (deliver_units h (c ∷ cs) d)
prepended h c cs d a r = record {
  front = c ∷ r.front;
  stopping = r.stopping;
  back = r.back;
  stopped = r.stopped;
  error = r.error;
  split = ap (λ t. c ∷ t) r.split;
  accepted = (a, r.accepted);
  stops = r.stops;
  outcome = deliver_accepted h c cs d a ∙ ap (go_on (deliver_one h d c)) r.outcome;
}

-- A delivery either reaches all units, each of which is skipped or takes the data without letting an
-- exception out; or it ends at the first unit that has completed parsing without being skipped, with a
-- `ParseError`, or whose exception is no `RuntimeError`, with that exception: the units before
-- it have the data, so has it if it threw, and those behind it stay as they are.
pub deliver_units_lem :
    {U F : Type 0} (h : Host U F) (cs : List (Connected U)) (d : List ℕ)
    → (All (Accepts h d) cs × (deliver_units h cs d ≡ (map (deliver_one h d) cs, none)))
      ⊎ Stopped h d cs (deliver_units h cs d)
deliver_units_lem h [] d = inl (tt, deliver_units-map h [] d tt)
deliver_units_lem h (c ∷ cs) d = elim (unit_cases h c d) [
  | inl a ↦ elim (deliver_units_lem h cs d) [
    | inl (b, _) ↦ inl ((a, b), deliver_units-map h (c ∷ cs) d (a, b))
    | inr r ↦ inr (prepended h c cs d a r)
  ]
  | inr (c', e, k) ↦ inr (record {
    front = [];
    stopping = c;
    back = cs;
    stopped = c';
    error = e;
    split = refl;
    accepted = tt;
    stops = k;
    outcome = deliver_units-Stops h c c' cs d e k;
  })
]

abbrev pub delivered : {U F : Type 0} → Host U F → Sink U F → List ℕ → ℕ → Sink U F
delivered h s d rupper = record s {
  states = map (deliver_one h d) s.states;
  total = add64 s.total (length d);
  cur_rseq = rupper;
  last_reassem_rseq = rupper;
}

pub deliver-delivered :
    {U F : Type 0} (h : Host U F) (s : Sink U F) (b : ℕ) (bs : List ℕ) (rseq rupper : ℕ)
    → s.filter ≡ none
    → All (Accepts h (b ∷ bs)) s.states
    → deliver h s (some (b ∷ bs)) rseq rupper ≡ (delivered h s (b ∷ bs) rupper, continues)
unfolding deliver forward
deliver-delivered h s b bs rseq rupper f a = rw (f, deliver_units-map h s.states (b ∷ bs) a) refl

pub not_zero : (n : ℕ) → 0 < n → (n == 0) ≡ false
not_zero n h = ground arith

pub ==_self : (n : ℕ) → (n == n) ≡ true
==_self n = (==_iff n n).1 refl
