-- ===== src/Sink/Machine/Stuck.antt =====
-- What follows when an exception has left the loop over the connected units.
use spicy.Base.{
  ℕ, ◌≡◌, refl, ap, ◌⊎◌, inl, inr, true, false, List, [], ◌∷◌, ◌++◌, map, length, All, Option, none,
  some, Error, subst, sym,
}
use spicy.Sink.Buffer.{add64}
use spicy.Sink.Machine.{Host, Connected, Sink, raises, deliver_units, after_units, forward}
use spicy.Sink.Machine.Units.{deliver_one, Accepts, Stops, Stopped, deliver_units_lem}

-- A unit that every delivery ends at.
abbrev pub IsStuck : {U : Type 0} → Connected U → Type 0
IsStuck c = (c.skip_delivery ≡ false) × (c.done ≡ true)

abbrev pub HasStuck : {U : Type 0} → List (Connected U) → Type 0
HasStuck [] = ⊥
HasStuck (c ∷ cs) = IsStuck c ⊎ HasStuck cs

Stops-IsStuck :
    {U F : Type 0} (h : Host U F) (d : List ℕ) (c c' : Connected U) (e : Error)
    → Stops h d c c' e
    → IsStuck c'
Stops-IsStuck h d c c' e (k, inl (l, m, n)) = subst IsStuck (sym m) (k, l)
Stops-IsStuck h d c c' e (k, inr (l, (u, m, n))) = subst IsStuck (sym n) (k, refl)

HasStuck-append :
    {U : Type 0} (front back : List (Connected U)) (c : Connected U)
    → IsStuck c
    → HasStuck (front ++ (c ∷ back))
HasStuck-append [] back c k = inl k
HasStuck-append (f ∷ front) back c k = inr (HasStuck-append front back c k)

none-HasStuck :
    {U F : Type 0} (h : Host U F) (cs : List (Connected U)) (d : List ℕ)
    → All (Accepts h d) cs
    → ¬ HasStuck cs
none-HasStuck h [] d a k = k
none-HasStuck h (c ∷ cs) d (inl l, a) (inl k) = cc
none-HasStuck h (c ∷ cs) d (inr (l, m), a) (inl k) = cc
none-HasStuck h (c ∷ cs) d (l, a) (inr k) = none-HasStuck h cs d a k

stuck_after :
    {U F : Type 0} (h : Host U F) (cs : List (Connected U)) (d : List ℕ)
    → Stopped h d cs (deliver_units h cs d)
    → HasStuck (deliver_units h cs d).0
stuck_after h cs d r =
    subst (λ t. HasStuck t.0) (sym r.outcome)
      (HasStuck-append (map (deliver_one h d) r.front) r.back r.stopped
        (Stops-IsStuck h d r.stopping r.stopped r.error r.stops))

stuck_stops :
    {U F : Type 0} (h : Host U F) (cs : List (Connected U)) (d : List ℕ)
    → HasStuck cs
    → (e : Error) × ((deliver_units h cs d).1 ≡ some e)
stuck_stops h cs d k = elim (deliver_units_lem h cs d) [
  | inl (a, _) ↦ absurd (none-HasStuck h cs d a k)
  | inr r ↦ (r.error, ap (λ t. t.1) r.outcome)
]

error_leaves_stuck :
    {U F : Type 0} (h : Host U F) (cs : List (Connected U)) (d : List ℕ) (e : Error)
    → (deliver_units h cs d).1 ≡ some e
    → HasStuck (deliver_units h cs d).0
error_leaves_stuck h cs d e k = elim (deliver_units_lem h cs d) [
  | inl (a, q) ↦ absurd (let n = ap (λ t. t.1) q in cc)
  | inr r ↦ stuck_after h cs d r
]

raised :
    {U F : Type 0} (s s' : Sink U F) (rupper : ℕ) (p : List (Connected U) × Option Error)
    (e : Error)
    → after_units s rupper p ≡ (s', raises e)
    → (s'.states ≡ p.0) × (p.1 ≡ some e) × (s'.cur_rseq ≡ s.cur_rseq)
raised s s' rupper (states, none) e k = absurd (let n = ap (λ t. t.1) k in cc)
raised s s' rupper (states, some e') e k =
    let n : raises e' ≡ raises e = ap (λ t. t.1) k in
    (sym (ap (λ t. t.0.states) k), (cc), sym (ap (λ t. t.0.cur_rseq) k))

raises_again :
    {U F : Type 0} (s : Sink U F) (rupper : ℕ) (p : List (Connected U) × Option Error) (e : Error)
    → p.1 ≡ some e
    → after_units s rupper p ≡ (record s { states = p.0 }, raises e)
raises_again s rupper (states, none) e k = absurd (cc)
raises_again s rupper (states, some e') e k = let n : e' ≡ e = cc in rw n refl

-- When an exception has left a delivery to the units, that of a completed unit or one of a unit that
-- is no `RuntimeError`, the next delivery, whatever its data are, raises an exception again, and
-- leaves the sink's position where it was before the first.
pub forward_after_error :
    {U F : Type 0} (h : Host U F) (s s' : Sink U F) (d d' : List ℕ) (rupper rupper' : ℕ) (e : Error)
    → forward h s d rupper ≡ (s', raises e)
    → (s'' : Sink U F) × (e' : Error) × (forward h s' d' rupper' ≡ (s'', raises e'))
      × (s''.cur_rseq ≡ s.cur_rseq)
unfolding forward
forward_after_error h s s' d d' rupper rupper' e k =
    let (m, n, o) =
      raised (record s { total = add64 s.total (length d) }) s' rupper (deliver_units h s.states d)
        e k in
    let (e', q) =
      stuck_stops h s'.states d' (subst HasStuck (sym m) (error_leaves_stuck h s.states d e n)) in
    (
      record s' { total = add64 s'.total (length d'); states = (deliver_units h s'.states d').0 },
      e',
      raises_again (record s' { total = add64 s'.total (length d') }) rupper'
          (deliver_units h s'.states d') e' q,
      o,
    )
