-- ===== src/Sink/Machine/Writes.antt =====
-- A series of `write` calls without a sequence number, as a parser's hooks make them.
use spicy.Base.{
  ℕ, ◌+◌, ◌<◌, ◌≡◌, refl, ap, ap₂, ◌∙◌, true, ◌&&◌, List, [], ◌∷◌, ◌++◌, length, All, Option, none,
  some, arith, ◌==◌, Error, length-append,
}
use spicy.Sink.Buffer.{add64, u64}
use spicy.Sink.Machine.{Host, Sink, deliver, new_data, write, is_empty, finish}
use spicy.Sink.Machine.Units.{delivered, deliver-delivered, ==_self, not_zero}
use spicy.Sink.Machine.Loop.{
  Willing, IsLive, Received, accepting, deliver_one-Received, Received-IsLive, Received-refl,
  Received-trans,
}

fast_path :
    {U F : Type 0} (h : Host U F) (s : Sink U F) (d : Option (List ℕ)) (rseq len : ℕ)
    → 0 < len
    → (s.auto_trim && (is_empty s.chunks && rseq == s.cur_rseq)) ≡ true
    → new_data h s d rseq len ≡ finish (deliver h s d rseq (add64 rseq len))
unfolding new_data
fast_path h s d rseq len k e = rw (not_zero len k, e) refl

write-delivered :
    {U F : Type 0} (h : Host U F) (s : Sink U F) (b : ℕ) (bs : List ℕ)
    → Willing h
    → s.auto_trim ≡ true
    → s.chunks ≡ []
    → s.filter ≡ none
    → All IsLive s.states
    → write h s (b ∷ bs) none none
      ≡ (delivered h s (b ∷ bs) (add64 s.cur_rseq (length (b ∷ bs))), none)
unfolding write
write-delivered h s b bs w t c f l =
    fast_path h s (some (b ∷ bs)) s.cur_rseq (length (b ∷ bs)) (omega arith)
      (ap₂ (λ x y. x && (is_empty y && s.cur_rseq == s.cur_rseq)) t c ∙ ==_self s.cur_rseq)
    ∙ ap finish (
        deliver-delivered h s b bs s.cur_rseq (add64 s.cur_rseq (length (b ∷ bs))) f
          (accepting h (b ∷ bs) s.states w l))

abbrev pub concat : List (List ℕ) → List ℕ
concat [] = []
concat (d ∷ ds) = d ++ concat ds

abbrev pub unless_raised :
    {U F : Type 0}
    → (Sink U F → Sink U F × Option Error)
    → Sink U F × Option Error
    → Sink U F × Option Error
unless_raised next (s, none) = next s
unless_raised next (s, some e) = (s, some e)

-- One `write` after the other, up to an exception.
unfoldable pub write_all :
    {U F : Type 0} → Host U F → Sink U F → List (List ℕ) → Sink U F × Option Error
write_all h s [] = (s, none)
write_all h s (d ∷ ds) = unless_raised (λ s'. write_all h s' ds) (write h s d none none)

-- What the sink has come to after all.
pub record Wrote {U F : Type 0} (s : Sink U F) (d : List ℕ) (s' : Sink U F) : Type 0 where
  pub received : Received s.states d s'.states
  pub position : s'.cur_rseq ≡ s.cur_rseq + length d
  pub buffered : s'.chunks ≡ []
  pub log_kept : s'.log ≡ s.log

-- In a sink that trims by itself, has nothing buffered and no filter, and whose units all take whatever
-- they are given: however data is cut into pieces, empty ones included, writing one after the other
-- throws nothing, gives every unit the data in order behind what it had received, reports nothing and
-- leaves nothing in the buffer; the position has moved by the data's whole length, which keeps it
-- below 2 ^ 64.
pub write_all-Wrote :
    {U F : Type 0} (h : Host U F) (s : Sink U F) (ds : List (List ℕ))
    → Willing h
    → s.auto_trim ≡ true
    → s.chunks ≡ []
    → s.filter ≡ none
    → All IsLive s.states
    → s.cur_rseq + length (concat ds) < u64
    → (s' : Sink U F) × (write_all h s ds ≡ (s', none)) × Wrote s (concat ds) s'
unfolding write_all write
write_all-Wrote h s [] w t c f l u = (
  s,
  refl,
  record {
    received = Received-refl s.states l;
    position = omega arith;
    buffered = c;
    log_kept = refl;
  },
)
write_all-Wrote h s ([] ∷ ds) w t c f l u = write_all-Wrote h s ds w t c f l u
write_all-Wrote h s ((b ∷ bs) ∷ ds) w t c f l u =
    let upper = add64 s.cur_rseq (length (b ∷ bs)) in
    let next = delivered h s (b ∷ bs) upper in
    let got = deliver_one-Received h s.states (b ∷ bs) w l in
    let whole = length-append (b ∷ bs) (concat ds) in
    let moved : upper ≡ s.cur_rseq + length (b ∷ bs) = omega (arith, u, whole) in
    let (s', e, r) =
      write_all-Wrote h next ds w t c f (Received-IsLive s.states next.states (b ∷ bs) got)
        (omega (arith, u, whole, moved)) in
    (
      s',
      ap (unless_raised (λ v. write_all h v ds)) (write-delivered h s b bs w t c f l) ∙ e,
      record {
        received =
            Received-trans s.states next.states s'.states (b ∷ bs) (concat ds) got r.received;
        position = omega (arith, r.position, moved, whole);
        buffered = r.buffered;
        log_kept = r.log_kept;
      },
    )
