-- ===== src/Sink/Machine/Faults.antt =====
-- Where the sink does something else than its comments and its interface say.
use spicy.Base.{
  ℕ, suc, ◌+◌, ◌-◌, ◌≤◌, ◌<◌, ◌≡◌, refl, sym, ap, ◌∙◌, inl, inr, true, false, List, [], ◌∷◌, ◌++◌,
  map, length, drop, All, Option, none, some, arith, ◌==◌, Error, subst, Bool-cases, le→leb,
  lt→leb_false, le→ltb_false, lt→ltb, ==_iff, err, undefined, length-drop,
}
use spicy.Sink.Buffer.{
  Chunk, chunk, Event, gap_event, add64, sub64, u64, from, add_and_check, trim_chunks, back_rupper,
}
use spicy.Sink.Buffer.Parts.{sub_back}
use spicy.Sink.Machine.{
  Host, Sink, hits_gap, deliver, deliver_loop, try_deliver, trim, after_deliver, trim_delivered,
  deliver_from, buffer_data, new_data, to_aseq,
}
use spicy.Sink.Machine.Loop.{loop_step, loop_done, moved, trim-run}
use spicy.Sink.Machine.Units.{Accepts, deliver_one, delivered, deliver-delivered, ==_self, not_zero}

-- New data for a gap that begins before the first chunk that it does not follow, and overlaps it,
-- makes `_addAndCheck` return an iterator that it never sets.
pub add_gap_undefined :
    (fuel init rseq rupper : ℕ) (front back cs : List Chunk) (c : Chunk)
    → (rseq == back_rupper (front ++ back)) ≡ false
    → from back rseq ≡ c ∷ cs
    → rseq < c.rseq
    → c.rseq < rupper
    → add_and_check (suc fuel) init none rseq rupper front back ≡ err undefined
unfolding add_and_check
add_gap_undefined fuel init rseq rupper front back cs c e f h k =
    rw (e, f, lt→leb_false rupper c.rseq k, lt→ltb rseq c.rseq h) refl

-- A sink that has delivered and trimmed all input up to `t`, with nothing buffered and no filter.
abbrev pub settled : {U F : Type 0} → Sink U F → ℕ → Sink U F
settled s t = record s {
  filter = none;
  auto_trim = true;
  cur_rseq = t;
  last_reassem_rseq = t;
  trim_rseq = t;
  chunks = [];
}

nonempty : (d : List ℕ) → 0 < length d → (b : ℕ) × (bs : List ℕ) × (d ≡ b ∷ bs)
nonempty [] h = absurd (omega arith)
nonempty (b ∷ bs) h = (b, bs, refl)

less_ne : (a b : ℕ) → a < b → (a == b) ≡ false
less_ne a b h = ground arith

-- The one chunk is delivered and trimmed.
deliver_single :
    {U F : Type 0} (h : Host U F) (s : Sink U F) (t upper : ℕ) (b : ℕ) (bs : List ℕ)
    → All (Accepts h (b ∷ bs)) s.states
    → t < upper
    → (s' : Sink U F) × (deliver_from h
          (record (settled s t) { chunks = chunk (some (b ∷ bs)) t upper ∷ [] })
          (chunk (some (b ∷ bs)) t upper ∷ [])
        ≡ (s', none))
      × (s'.states ≡ map (deliver_one h (b ∷ bs)) s.states)
      × (s'.cur_rseq ≡ upper)
unfolding deliver_from try_deliver trim
deliver_single h s t upper b bs a k =
    let x = chunk (some (b ∷ bs)) t upper in
    let s₁ = record (settled s t) { chunks = x ∷ [] } in
    let s₂ = delivered h (moved s₁ x) (b ∷ bs) upper in
    (
      trim s₂ upper,
      rw (le→ltb_false t t (omega arith), lt→leb_false upper t k)
          (ap trim_delivered (
            loop_step h s₁ x [] (==_self t)
            ∙ ap (after_deliver (λ v. deliver_loop h v []) t)
                (deliver-delivered h (moved s₁ x) b bs t upper refl a)
            ∙ loop_done h s₂)),
      refl,
      refl,
    )

new_data-settled :
    {U F : Type 0} (h : Host U F) (s : Sink U F) (d : List ℕ) (rseq t b : ℕ) (bs : List ℕ)
    (r : Sink U F × Option Error)
    → rseq < t
    → t < rseq + length d
    → rseq + length d < u64
    → drop (t - rseq) d ≡ b ∷ bs
    → deliver_from h
        (record (settled s t) { chunks = chunk (some (b ∷ bs)) t (add64 t (length d)) ∷ [] })
        (chunk (some (b ∷ bs)) t (add64 t (length d)) ∷ [])
      ≡ r
    → new_data h (settled s t) (some d) rseq (length d) ≡ r
unfolding new_data buffer_data
new_data-settled h s d rseq t b bs r k l u e q =
    rw
      (
        not_zero (length d) (omega arith),
        less_ne rseq t k,
        lt→leb_false (add64 rseq (length d)) t (omega arith),
        lt→ltb rseq t k,
        sub_back d (t - rseq) (omega arith),
        e,
      )
      q

-- Data of which the first part is old, handed to a sink that trims by itself, has delivered and
-- trimmed all up to `t`, has nothing buffered and no filter, and whose units are all skipped or take
-- what is new of the data without letting an exception out: the data is delivered from `t` on, but
-- moves the sink's position to its whole length behind `t`, past its own end. The sum of `t` and
-- the length is below 2 ^ 64.
pub partly_old_overshoots :
    {U F : Type 0} (h : Host U F) (s : Sink U F) (d : List ℕ) (rseq t : ℕ)
    → All (Accepts h (drop (t - rseq) d)) s.states
    → rseq < t
    → t < rseq + length d
    → t + length d < u64
    → (s' : Sink U F) × (new_data h (settled s t) (some d) rseq (length d) ≡ (s', none))
      × (s'.states ≡ map (deliver_one h (drop (t - rseq) d)) s.states)
      × (s'.cur_rseq ≡ t + length d)
      × (rseq + length d < s'.cur_rseq)
partly_old_overshoots h s d rseq t a k l u =
    let (b, bs, e) = nonempty (drop (t - rseq) d) (omega (arith, length-drop (t - rseq) d)) in
    let (s', q, m, n) =
      deliver_single h s t (add64 t (length d)) b bs (subst (λ v. All (Accepts h v) s.states) e a)
        (omega arith) in
    (
      s',
      new_data-settled h s d rseq t b bs (s', none) k l (omega arith) e q,
      m ∙ ap (λ v. map (deliver_one h v) s.states) (sym e),
      n ∙ (omega arith),
      omega (arith, n),
    )

-- A sink that stands before a gap of `n` bytes at `o`.
abbrev pub before_gap : {U F : Type 0} → Sink U F → ℕ → ℕ → List Chunk → Sink U F
before_gap s o n cs = record s {
  auto_trim = true;
  last_reassem_rseq = o;
  chunks = chunk none o (o + n) ∷ cs;
}

trim_chunks-keep :
    (init cur r : ℕ) (cs : List Chunk)
    → All (λ (c : Chunk). r ≤ c.rseq) cs
    → trim_chunks init cur r cs ≡ (cs, [])
unfolding trim_chunks
trim_chunks-keep init cur r [] a = refl
trim_chunks-keep init cur r (c ∷ cs) a = rw (le→leb r c.rseq a.0) refl

-- What `_deliver` does with a gap: it reports it, unless the sink is behind it already.
deliver_gap :
    {U F : Type 0} (h : Host U F) (s : Sink U F) (rseq rupper : ℕ)
    → (log : List Event) × (deliver h s none rseq rupper
        ≡ (record s { cur_rseq = rupper; log = log }, hits_gap))
unfolding deliver
deliver_gap h s rseq rupper = elim (Bool-cases (s.cur_rseq == rupper)) [
  | inl e ↦ (
    s.log,
    rw e (
        ap (λ k. (record s { cur_rseq = k; log = s.log }, hits_gap))
          ((==_iff s.cur_rseq rupper).0 e)),
  )
  | inr e ↦ (s.log ++ (gap_event (to_aseq s rseq) (sub64 rupper rseq) ∷ []), rw e refl)
]

trim_chunks-gap :
    (init cur o upper r : ℕ) (cs : List Chunk)
    → o < r
    → All (λ (c : Chunk). r ≤ c.rseq) cs
    → trim_chunks init cur r (chunk none o upper ∷ cs) ≡ (cs, [])
unfolding trim_chunks
trim_chunks-gap init cur o upper r cs h a =
    rw (lt→leb_false r o h, trim_chunks-keep init cur r cs a) refl

back_to : (o n : ℕ) → o + n < u64 → add64 o (sub64 (o + n) o) ≡ o + n
back_to o n u = omega arith

later :
    (o n : ℕ) (cs : List Chunk)
    → All (λ (c : Chunk). o + n ≤ c.rseq) cs
    → All (λ (c : Chunk). o ≤ c.rseq) cs
later o n [] a = tt
later o n (c ∷ cs) (h, a) = (omega arith, later o n cs a)

-- In a sink that trims by itself and whose buffer begins with a gap of `n` bytes at the position
-- `o` that the sink waits for, `n` not 0 and `o + n` below 2 ^ 64, and whose further chunks all begin
-- at the gap's end or behind it: `_tryDeliver` erases the gap and keeps the other chunks, and the
-- sink's positions move to the gap's end, although a comment in it says that it trims just up to the
-- gap, excluding it. No unit gets anything.
pub gap_is_trimmed :
    {U F : Type 0} (h : Host U F) (s : Sink U F) (o n : ℕ) (cs : List Chunk)
    → 0 < n
    → o + n < u64
    → All (λ (c : Chunk). o + n ≤ c.rseq) cs
    → (s' : Sink U F) × (try_deliver h (before_gap s o n cs) (before_gap s o n cs).chunks
        ≡ (s', none))
      × (s'.chunks ≡ cs)
      × (s'.trim_rseq ≡ o + n)
      × (s'.cur_rseq ≡ o + n)
      × (s'.last_reassem_rseq ≡ o + n)
      × (s'.states ≡ s.states)
unfolding try_deliver
gap_is_trimmed h s o n cs k u r =
    let x = chunk none o (o + n) in
    let last = add64 o (sub64 (o + n) o) in
    let (log, g) = deliver_gap h (moved (before_gap s o n cs) x) o (o + n) in
    let s₁ = record (moved (before_gap s o n cs) x) { cur_rseq = o + n; log = log } in
    let s₂ = record s₁ { trim_rseq = o; log = log ++ [] } in
    let e = back_to o n u in
    (
      record s₂ { chunks = cs; trim_rseq = last; log = (log ++ []) ++ [] },
      ap trim_delivered (
            loop_step h (before_gap s o n cs) x cs (==_self o)
            ∙ ap (after_deliver (λ v. deliver_loop h v cs) o) g
            ∙ ap (λ v. (v, none))
                (trim-run s₁ o (x ∷ cs) (
                  trim_chunks-keep s.initial_seq (o + n) o (x ∷ cs) (omega arith, later o n cs r))))
          ∙ ap (λ v. (v, none))
              (trim-run s₂ last cs (
                trim_chunks-gap s.initial_seq (o + n) o (o + n) last cs (omega arith)
                  (subst (λ t. All (λ (c : Chunk). t ≤ c.rseq) cs) (sym e) r))),
      refl,
      e,
      refl,
      e,
      refl,
    )
