-- ===== src/Sink/Machine/Loop.antt =====
-- The loop that delivers what has become contiguous.
use spicy.Base.{
  ℕ, ◌≤◌, ◌<◌, ◌≡◌, refl, sym, ap, ◌∙◌, ◌≢◌, ◌⊎◌, inl, inr, true, false, List, [], ◌∷◌, ◌++◌, map,
  All, Option, none, some, arith, ◌==◌, ==_iff, subst, le→leb, lt→leb_false, le→ltb_false,
}
use spicy.Sink.Buffer.{Chunk, Event, add64, sub64, trim_chunks, undelivered}
use spicy.Sink.Buffer.Lookup.{end_of}
use spicy.Sink.Machine.{
  Resumed, Host, Connected, Sink, continues, deliver, deliver_loop, try_deliver, trim, trim_if,
  after_deliver, trim_delivered, uncaught,
}
use spicy.Sink.Machine.Units.{Accepts, deliver_one, delivered, deliver-delivered}
use mathlib.Core.List.{append_assoc, append-nil}

-- A host whose units take all input that they are given.
abbrev pub Willing : {U F : Type 0} → Host U F → Type 0
Willing {U} h = (u : U) (d : List ℕ) → (u' : U) × (h.resume u d ≡ Resumed.suspends u')

pub not_equal : (a b : ℕ) → b < a → (a == b) ≡ false
not_equal a b h = ground arith

-- Chunks of data that follow one another from `o` on.
abbrev pub Follow : ℕ → List Chunk → Type 0
Follow o [] = Unit {0}
Follow o (c ∷ cs) =
    (c.rseq ≡ o)
    × (c.rseq < c.rupper)
    × ((b : ℕ) × (bs : List ℕ) × (c.bytes ≡ some (b ∷ bs)))
    × Follow c.rupper cs

-- Chunks that come in order behind `o`, with a hole before them.
abbrev pub Behind : ℕ → List Chunk → Type 0
Behind o = All (λ (c : Chunk). o < c.rseq)

abbrev pub bytes_or_none : Option (List ℕ) → List ℕ
bytes_or_none none = []
bytes_or_none (some d) = d

abbrev pub joined : List Chunk → List ℕ
joined [] = []
joined (c ∷ cs) = bytes_or_none c.bytes ++ joined cs

abbrev pub IsLive : {U : Type 0} → Connected U → Type 0
IsLive c = (c.skip_delivery ≡ false) × (c.done ≡ false)

-- Unit by unit, each has `d` behind what it had received, and can take more.
abbrev pub Received : {U : Type 0} → List (Connected U) → List ℕ → List (Connected U) → Type 0
Received [] d [] = Unit {0}
Received (b ∷ bs) d (a ∷ as_) = (a.received ≡ b.received ++ d) × IsLive a × Received bs d as_
Received _ d _ = ⊥

pub accepting :
    {U F : Type 0} (h : Host U F) (d : List ℕ) (cs : List (Connected U))
    → Willing h
    → All IsLive cs
    → All (Accepts h d) cs
accepting h d [] w l = tt
accepting h d (c ∷ cs) w (k, l) = (inr (k.1, ap uncaught (w c.unit d).1), accepting h d cs w l)

pub deliver_one-Received :
    {U F : Type 0} (h : Host U F) (cs : List (Connected U)) (d : List ℕ)
    → Willing h
    → All IsLive cs
    → Received cs d (map (deliver_one h d) cs)
deliver_one-Received h [] d w l = tt
deliver_one-Received h (c ∷ cs) d w (k, l) =
    let (u, r) = w c.unit d in rw (k.0, r) (refl, (refl, k.1), deliver_one-Received h cs d w l)

pub Received-IsLive :
    {U : Type 0} (a b : List (Connected U)) (d : List ℕ) → Received a d b → All IsLive b
Received-IsLive [] [] d r = tt
Received-IsLive [] (y ∷ ys) d r = absurd r
Received-IsLive (x ∷ xs) [] d r = absurd r
Received-IsLive (x ∷ xs) (y ∷ ys) d r = (r.1, Received-IsLive xs ys d r.2)

pub Received-refl : {U : Type 0} (a : List (Connected U)) → All IsLive a → Received a [] a
Received-refl [] l = tt
Received-refl (x ∷ xs) l = (sym (append-nil x.received), l.0, Received-refl xs l.1)

pub Received-trans :
    {U : Type 0} (a b c : List (Connected U)) (d e : List ℕ)
    → Received a d b
    → Received b e c
    → Received a (d ++ e) c
Received-trans [] [] [] d e p q = tt
Received-trans [] [] (z ∷ zs) d e p q = absurd q
Received-trans [] (y ∷ ys) c d e p q = absurd p
Received-trans (x ∷ xs) [] c d e p q = absurd p
Received-trans (x ∷ xs) (y ∷ ys) [] d e p q = absurd q
Received-trans (x ∷ xs) (y ∷ ys) (z ∷ zs) d e p q = (
  q.0 ∙ ap (λ t. t ++ e) p.0 ∙ append_assoc x.received d e,
  q.1,
  Received-trans xs ys zs d e p.2 q.2,
)

loop_skip :
    {U F : Type 0} (h : Host U F) (s : Sink U F) (c : Chunk) (cs : List Chunk)
    → (c.rseq == s.last_reassem_rseq) ≡ false
    → deliver_loop h s (c ∷ cs) ≡ deliver_loop h s cs
unfolding deliver_loop
loop_skip h s c cs e = rw (e, deliver_loop) refl

abbrev pub moved : {U F : Type 0} → Sink U F → Chunk → Sink U F
moved s c = record s { last_reassem_rseq = add64 s.last_reassem_rseq (sub64 c.rupper c.rseq) }

pub loop_step :
    {U F : Type 0} (h : Host U F) (s : Sink U F) (c : Chunk) (cs : List Chunk)
    → (c.rseq == s.last_reassem_rseq) ≡ true
    → deliver_loop h s (c ∷ cs)
      ≡ after_deliver
          (λ s'. deliver_loop h s' cs)
          c.rseq
          (deliver h (moved s c) c.bytes c.rseq c.rupper)
unfolding deliver_loop
loop_step h s c cs e = rw (e, deliver_loop) refl

pub loop_done : {U F : Type 0} (h : Host U F) (s : Sink U F) → deliver_loop h s [] ≡ (s, none)
unfolding deliver_loop
loop_done h s = refl

loop_passes :
    {U F : Type 0} (h : Host U F) (s : Sink U F) (cs : List Chunk)
    → Behind s.last_reassem_rseq cs
    → deliver_loop h s cs ≡ (s, none)
loop_passes h s [] b = loop_done h s
loop_passes h s (c ∷ cs) (k, b) =
    loop_skip h s c cs (not_equal c.rseq s.last_reassem_rseq k) ∙ loop_passes h s cs b

-- What the loop leaves as it was, and where it stops.
record Delivers {U F : Type 0} (s : Sink U F) (run : List Chunk) (s' : Sink U F) : Type 0 where
  received : Received s.states (joined run) s'.states
  last : s'.last_reassem_rseq ≡ end_of s.last_reassem_rseq run
  log_kept : s'.log ≡ s.log
  chunks_kept : s'.chunks ≡ s.chunks
  auto_trim_kept : s'.auto_trim ≡ s.auto_trim
  cur : (s.cur_rseq ≡ s.last_reassem_rseq) ⊎ (run ≢ []) → s'.cur_rseq ≡ s'.last_reassem_rseq

passed_on :
    {U F : Type 0} (h : Host U F) (s : Sink U F) (c : Chunk) (x : ℕ) (xs : List ℕ)
    → Willing h
    → s.filter ≡ none
    → All IsLive s.states
    → c.bytes ≡ some (x ∷ xs)
    → deliver h (moved s c) c.bytes c.rseq c.rupper
      ≡ (delivered h (moved s c) (x ∷ xs) c.rupper, continues)
passed_on h s c x xs w n l e =
    ap (λ t. deliver h (moved s c) t c.rseq c.rupper) e
    ∙ deliver-delivered h (moved s c) x xs c.rseq c.rupper n (accepting h (x ∷ xs) s.states w l)

loop_Delivers :
    {U F : Type 0} (h : Host U F) (s : Sink U F) (run rest : List Chunk)
    → Willing h
    → s.filter ≡ none
    → All IsLive s.states
    → Follow s.last_reassem_rseq run
    → Behind (end_of s.last_reassem_rseq run) rest
    → (s' : Sink U F) × (deliver_loop h s (run ++ rest) ≡ (s', none)) × Delivers s run s'
loop_Delivers h s [] rest w n l f b = (
  s,
  loop_passes h s rest b,
  record {
    received = Received-refl s.states l;
    last = refl;
    log_kept = refl;
    chunks_kept = refl;
    auto_trim_kept = refl;
    cur = λ e. elim e [ inl k ↦ k | inr k ↦ absurd (k refl) ];
  },
)
loop_Delivers h s (c ∷ run) rest w n l f b =
    let (x, xs, e) = f.2 in
    let next = delivered h (moved s c) (x ∷ xs) c.rupper in
    let got = deliver_one-Received h s.states (x ∷ xs) w l in
    let (s', q, r) =
      loop_Delivers h next run rest w n (Received-IsLive s.states next.states (x ∷ xs) got) f.3 b in
    (
      s',
      loop_step h s c (run ++ rest) ((==_iff _ _).1 f.0)
          ∙ ap (after_deliver (λ t. deliver_loop h t (run ++ rest)) c.rseq)
              (passed_on h s c x xs w n l e)
          ∙ q,
      record {
        received =
            subst (λ t. Received s.states (bytes_or_none t ++ joined run) s'.states) (sym e)
              (Received-trans s.states next.states s'.states (x ∷ xs) (joined run) got r.received);
        last = r.last;
        log_kept = r.log_kept;
        chunks_kept = r.chunks_kept;
        auto_trim_kept = r.auto_trim_kept;
        cur = λ _. r.cur (inl refl);
      },
    )

Follow-le : (o : ℕ) (run : List Chunk) → Follow o run → o ≤ end_of o run
Follow-le o [] f = omega arith
Follow-le o (c ∷ run) f = omega (arith, Follow-le c.rupper run f.3)

nothing_undelivered :
    (init cur : ℕ) (c : Chunk) (x : ℕ) (xs : List ℕ)
    → c.bytes ≡ some (x ∷ xs)
    → c.rseq ≤ cur
    → undelivered init cur c ≡ []
nothing_undelivered init cur c x xs e h = rw (e, le→ltb_false cur c.rseq h) refl

trim_chunks-run :
    (init cur o r : ℕ) (run rest : List Chunk)
    → Follow o run
    → end_of o run ≤ r
    → r ≤ cur
    → Behind r rest
    → trim_chunks init cur r (run ++ rest) ≡ (rest, [])
unfolding trim_chunks
trim_chunks-run init cur o r [] [] f h k b = refl
trim_chunks-run init cur o r [] (x ∷ rest) f h k b = rw (le→leb r x.rseq (omega arith)) refl
trim_chunks-run init cur o r (c ∷ run) rest f h k b =
    let (x, xs, e) = f.2 in
    rw
      (
        lt→leb_false r c.rseq (omega (arith, Follow-le c.rupper run f.3)),
        trim_chunks-run init cur c.rupper r run rest f.3 h k b,
        nothing_undelivered init cur c x xs e (omega (arith, Follow-le c.rupper run f.3)),
      )
      refl

pub trim-run :
    {U F : Type 0} (s : Sink U F) (r : ℕ) (rest : List Chunk)
    → trim_chunks s.initial_seq s.cur_rseq r s.chunks ≡ (rest, [])
    → trim s r ≡ record s { chunks = rest; trim_rseq = r; log = s.log ++ [] }
unfolding trim
trim-run s r rest e =
    ap
      (λ (p : List Chunk × List Event). record s {
        chunks = p.0;
        trim_rseq = r;
        log = s.log ++ p.1;
      })
      e

-- In a sink that trims by itself, has no filter, and whose units all take whatever they are given:
-- when the chunk `c` fills the hole that the sink waits for, it and the data `run` that follows it
-- without a hole are delivered in order to every unit, and leave the buffer, without a report; the
-- chunks behind the next hole stay buffered.
pub try_deliver_run :
    {U F : Type 0} (h : Host U F) (s : Sink U F) (c : Chunk) (run rest : List Chunk)
    → Willing h
    → s.filter ≡ none
    → s.auto_trim ≡ true
    → All IsLive s.states
    → s.chunks ≡ (c ∷ run) ++ rest
    → Follow s.last_reassem_rseq (c ∷ run)
    → Behind (end_of c.rupper run) rest
    → (s' : Sink U F) × (try_deliver h s s.chunks ≡ (s', none))
      × Received s.states (joined (c ∷ run)) s'.states
      × (s'.chunks ≡ rest)
      × (s'.cur_rseq ≡ end_of c.rupper run)
      × (s'.last_reassem_rseq ≡ end_of c.rupper run)
      × (s'.log ≡ s.log)
unfolding try_deliver
try_deliver_run h s c run rest w n t l e f b =
    let (s', q, r) = loop_Delivers h s (c ∷ run) rest w n l f b in
    let cur = r.cur (inr (λ k. cc)) in
    let cut = trim-run s' s'.last_reassem_rseq rest (
      ap (trim_chunks s'.initial_seq s'.cur_rseq s'.last_reassem_rseq) (r.chunks_kept ∙ e)
      ∙ trim_chunks-run s'.initial_seq s'.cur_rseq s.last_reassem_rseq s'.last_reassem_rseq
          (c ∷ run) rest f (omega (arith, r.last)) (omega (arith, cur))
          (subst (λ k. Behind k rest) (sym r.last) b)) in
    (
      record s' { chunks = rest; trim_rseq = s'.last_reassem_rseq; log = s'.log ++ [] },
      ap trim_delivered (ap (deliver_loop h s) e ∙ q)
          ∙ ap (λ m. (trim_if m s' s'.last_reassem_rseq, none)) (r.auto_trim_kept ∙ t)
          ∙ ap (λ m. (m, none)) cut,
      r.received,
      refl,
      cur ∙ r.last,
      r.last,
      append-nil s'.log ∙ r.log_kept,
    )
