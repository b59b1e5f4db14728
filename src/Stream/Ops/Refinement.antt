-- ===== src/Stream/Ops/Refinement.antt =====
-- A stream as a window on a sequence: what the chain of chunks implements.
use spicy.Base.{
  ℕ, ◌-◌, ◌≤◌, ◌≡◌, refl, sym, ap, subst, ◌∙◌, ◌⊎◌, inl, inr, ◌≢◌, Bool, true, false, zero, suc,
  List, [], ◌∷◌, ◌++◌, map, drop, replicate, Option, none, some, arith, if◌then◌else◌, Result, ok,
  err, frozen,
}
use spicy.Stream.Chunk.{Chunk, from_bytes, from_gap}
use spicy.Stream.Chunk.Content.{content_of, Fits, from_bytes-Fits, content-from_bytes}
use spicy.Stream.Chain.{Chain, State, is_mutable, is_frozen, is_invalid, append, freeze, unfreeze}
use spicy.Stream.Chain.Linked.{IsWellFormed, content}
use spicy.Stream.Chain.Append.{append-Extends, append_frozen}
use spicy.Stream.Chain.Trim.{OutsideGaps, trim-drop}
use spicy.Stream.Ops.{Op, writes, gaps, trims, freezes, unfreezes, step, append_bytes, append_gap}
use mathlib.Core.List.{append-nil}

-- The content from offset `start` on, `none` for a missing byte.
pub record Window : Type 0 where
  pub start : ℕ
  pub bytes : List (Option ℕ)
  pub closed : Bool

extend : Window → List (Option ℕ) → Result Window
extend w [] = ok w
extend w (x ∷ xs) = if w.closed then err frozen else ok (record w { bytes = w.bytes ++ (x ∷ xs) })

pub specified : Window → Op → Result Window
unfolding extend
specified w (writes bytes) = extend w (map some bytes)
specified w (gaps len) = extend w (replicate len none)
specified w (trims o) = ok (record w { start = o; bytes = drop (o - w.start) w.bytes })
specified w freezes = ok (record w { closed = true })
specified w unfreezes = ok (record w { closed = false })

abbrev pub closed_state : State → Bool
closed_state is_frozen = true
closed_state _ = false

pub record Represents (c : Chain) (w : Window) : Type 0 where
  pub well_formed : IsWellFormed c
  pub is_valid : c.state ≢ is_invalid
  pub starts : c.head_offset ≡ w.start
  pub holds : content c ≡ w.bytes
  pub closes : closed_state c.state ≡ w.closed

-- A trim goes to an offset at or behind the begin, and not inside a gap.
abbrev pub Permitted : Chain → Op → Type 0
Permitted c (trims o) = (c.head_offset ≤ o) × OutsideGaps o c.chunks
Permitted c _ = Unit {0}

-- Both succeed with a chain that represents the window, or both fail with one exception.
abbrev pub Agree : Result Chain → Result Window → Type 0
Agree (ok c) (ok w) = Represents c w
Agree (err e) (err f) = e ≡ f
Agree _ _ = ⊥

extend_open :
    (w : Window) (xs : List (Option ℕ))
    → xs ≢ []
    → w.closed ≡ false
    → extend w xs ≡ ok (record w { bytes = w.bytes ++ xs })
unfolding extend
extend_open w [] n e = absurd (n refl)
extend_open w (x ∷ xs) n e = simp e

extend_closed :
    (w : Window) (xs : List (Option ℕ)) → xs ≢ [] → w.closed ≡ true → extend w xs ≡ err frozen
unfolding extend
extend_closed w [] n e = absurd (n refl)
extend_closed w (x ∷ xs) n e = simp e

State-cases : (s : State) → s ≢ is_invalid → (s ≡ is_mutable) ⊎ (s ≡ is_frozen)
State-cases is_mutable v = inl refl
State-cases is_frozen v = inr refl
State-cases is_invalid v = absurd (v refl)

Agree-append :
    (c : Chain) (w : Window) (x : Chunk)
    → Represents c w
    → Fits x.payload
    → content_of x.payload ≢ []
    → Agree (append c (x ∷ [])) (extend w (content_of x.payload))
Agree-append c w x r f n = elim (State-cases c.state r.is_valid) [
  | inr shut ↦
      rw (append_frozen c x [] shut, extend_closed w (content_of x.payload) n (closed_as shut)) refl
  | inl open_ ↦
      let (c', e, (w', k, h, m)) = append-Extends c x [] r.well_formed (f, tt) open_ in
      rw (e, extend_open w (content_of x.payload) n (closed_as open_))
        (record {
          well_formed = w';
          is_valid = λ i. cc;
          starts = h ∙ r.starts;
          holds =
              k
              ∙ ap (λ t. content c ++ t) (append-nil (content_of x.payload))
              ∙ ap (λ t. t ++ content_of x.payload) r.holds;
          closes = ap closed_state m ∙ sym (closed_as open_);
        })
]
  where
    closed_as : {s : State} → c.state ≡ s → w.closed ≡ closed_state s
    closed_as e = sym r.closes ∙ ap closed_state e

from_bytes-ne-nil : (b : ℕ) (bs : List ℕ) → content_of (from_bytes 0 (b ∷ bs)).payload ≢ []
from_bytes-ne-nil b bs e = cc (e, content-from_bytes 0 (b ∷ bs))

with_state :
    (c : Chain) (w : Window) (s : State)
    → s ≢ is_invalid
    → Represents c w
    → Represents (record c { state = s }) (record w { closed = closed_state s })
with_state c w s v r = record {
  well_formed = r.well_formed;
  is_valid = v;
  starts = r.starts;
  holds = r.holds;
  closes = refl;
}

freeze_valid : (c : Chain) → c.state ≢ is_invalid → freeze c ≡ record c { state = is_frozen }
unfolding freeze
freeze_valid c v = ground arith

unfreeze_valid : (c : Chain) → c.state ≢ is_invalid → unfreeze c ≡ record c { state = is_mutable }
unfolding unfreeze
unfreeze_valid c v = ground arith

pub gap_write : (c : Chain) (n : ℕ) → append_gap c (suc n) ≡ append c (from_gap 0 (suc n) ∷ [])
unfolding append_gap
gap_write c n = ground arith

-- Every permitted operation on a chain that represents a window does to it what the window's
-- specification says: the same exception, or a chain that represents the window after it.
pub step-Agree :
    (c : Chain) (w : Window) (op : Op)
    → Represents c w
    → Permitted c op
    → Agree (step c op) (specified w op)
unfolding step specified append_bytes append_gap from_gap
step-Agree c w (writes []) r p = r
step-Agree c w (writes (b ∷ bs)) r p =
    subst (λ t. Agree (append c (from_bytes 0 (b ∷ bs) ∷ [])) (extend w t))
      (content-from_bytes 0 (b ∷ bs))
      (Agree-append c w (from_bytes 0 (b ∷ bs)) r (from_bytes-Fits 0 (b ∷ bs))
        (from_bytes-ne-nil b bs))
step-Agree c w (gaps zero) r p = r
step-Agree c w (gaps (suc n)) r p =
    rw (gap_write c n) (Agree-append c w (from_gap 0 (suc n)) r tt (λ e. cc))
step-Agree c w (trims o) r p =
    let (c', e, w', k, h, m) = trim-drop c o r.well_formed r.is_valid p.0 p.1 in
    rw e (record {
      well_formed = w';
      is_valid = λ i. r.is_valid (sym m ∙ i);
      starts = h;
      holds = k ∙ (rw (r.starts, r.holds));
      closes = ap closed_state m ∙ r.closes;
    })
step-Agree c w freezes r p = rw (freeze_valid c r.is_valid) (with_state c w is_frozen (λ e. cc) r)
step-Agree c w unfreezes r p =
    rw (unfreeze_valid c r.is_valid) (with_state c w is_mutable (λ e. cc) r)
