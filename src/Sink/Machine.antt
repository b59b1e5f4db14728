-- ===== src/Sink/Machine.antt =====
-- `Sink` of spicy/runtime/include/sink.h and spicy/runtime/src/sink.cc: its state and its methods. A
-- connected unit's parser and a filter are compiled from a grammar: the sink only resumes them, and
-- what they do is the parameter `Host`. A method returns the sink with the exception it throws, if
-- any; what the buffer holds after a failing `Bytes::sub` is not kept.
pub mod Units
pub mod Stuck
pub mod Loop
pub mod Writes
pub mod Faults
use spicy.Base.{
  ℕ, ◌+◌, ◌-◌, Bool, true, false, not, ◌&&◌, ◌||◌, List, [], ◌∷◌, ◌++◌, length, drop, get_elem?,
  Option, none, some, ltb, leb, ◌==◌, if◌then◌else◌, Result, ok, err, ◌>>=◌, Error, parse_error,
  sink_error, undefined,
}
use spicy.Sink.Buffer.{
  Chunk, chunk, Event, gap_event, skipped_event, add64, sub64, sub, Added, add_and_check,
  trim_chunks, undelivered_up_to,
}

-- How a unit's parse function comes back: waiting for more input, at its end, with a `RuntimeError`,
-- or with an exception of another kind, such as a `UsageError`, which nothing catches.
pub data Resumed (U : Type 0) : Type 0 where
  suspends : U → Resumed U
  finishes : U → Resumed U
  fails : U → Resumed U
  escapes : U → Error → Resumed U

-- What a filter makes of its input.
pub data Filtered (F : Type 0) : Type 0 where
  forwards : F → List ℕ → Filtered F
  throws : F → Error → Filtered F

pub record Host (U F : Type 0) : Type 0 where
  pub resume : U → List ℕ → Resumed U
  pub run_filter : F → List ℕ → Filtered F

-- `sink::detail::State`, with the unit. `received` is what was appended to `data`, and `done` what
-- the resumable converts to.
pub record Connected (U : Type 0) : Type 0 where
  pub unit : U
  pub received : List ℕ
  pub done : Bool
  pub skip_delivery : Bool

-- `log` is what the hooks of the connected units were told, in order. The policy is `First`, the
-- only one there is.
pub record Sink (U F : Type 0) : Type 0 where
  pub states : List (Connected U)
  pub filter : Option F
  pub auto_trim : Bool
  pub total : ℕ
  pub initial_seq : ℕ
  pub cur_rseq : ℕ
  pub last_reassem_rseq : ℕ
  pub trim_rseq : ℕ
  pub chunks : List Chunk
  pub log : List Event

pub data Delivered : Type 0 where
  continues hits_gap : Delivered
  raises : Error → Delivered

abbrev pub outcome : Delivered → Option Error
outcome (raises e) = some e
outcome _ = none

abbrev pub to_rseq : {U F : Type 0} → Sink U F → ℕ → ℕ
to_rseq s seq = sub64 seq s.initial_seq

abbrev pub to_aseq : {U F : Type 0} → Sink U F → ℕ → ℕ
to_aseq s rseq = add64 s.initial_seq rseq

-- `_init`. The filters are disconnected by `_close`.
abbrev pub fresh : {U F : Type 0} → Sink U F
fresh = record {
  states = [];
  filter = none;
  auto_trim = true;
  total = 0;
  initial_seq = 0;
  cur_rseq = 0;
  last_reassem_rseq = 0;
  trim_rseq = 0;
  chunks = [];
  log = [];
}

abbrev pub receive : {U : Type 0} → Connected U → List ℕ → Connected U
receive c d = record c { received = c.received ++ d }

abbrev pub resumed : {U : Type 0} → Connected U → Resumed U → Connected U
resumed c (suspends u) = record c { unit = u }
resumed c (finishes u) = record c { unit = u; done = true }
resumed c (fails u) = record c { unit = u; done = true; skip_delivery = true }
resumed c (escapes u e) = record c { unit = u; done = true }

-- The exception that leaves the loop.
abbrev pub uncaught : {U : Type 0} → Resumed U → Option Error
uncaught (escapes u e) = some e
uncaught _ = none

abbrev pub stop_here :
    {U : Type 0} → Connected U → List (Connected U) → Error → List (Connected U) × Option Error
stop_here c cs e = (c ∷ cs, some e)

abbrev pub go_on :
    {U : Type 0}
    → Connected U
    → List (Connected U) × Option Error
    → List (Connected U) × Option Error
go_on c rest = (c ∷ rest.0, rest.1)

abbrev pub go_on_unless :
    {U : Type 0}
    → Option Error
    → Connected U
    → List (Connected U)
    → List (Connected U) × Option Error
    → List (Connected U) × Option Error
go_on_unless none c cs rest = go_on c rest
go_on_unless (some e) c cs rest = stop_here c cs e

-- The loop over the connected units; a `RuntimeError` of a unit is kept from the writer.
unfoldable pub deliver_units :
    {U F : Type 0} → Host U F → List (Connected U) → List ℕ → List (Connected U) × Option Error
deliver_units h [] d = ([], none)
deliver_units h (c ∷ cs) d =
    let rest = deliver_units h cs d in
    if c.skip_delivery
    then go_on c rest
    else if c.done
    then stop_here c cs parse_error
    else (let r = h.resume c.unit d in go_on_unless (uncaught r) (resumed (receive c d) r) cs rest)

abbrev after_units :
    {U F : Type 0} → Sink U F → ℕ → List (Connected U) × Option Error → Sink U F × Delivered
after_units s rupper (states, none) =
    (record s { states = states; cur_rseq = rupper; last_reassem_rseq = rupper }, continues)
after_units s rupper (states, some e) = (record s { states = states }, raises e)

unfoldable pub forward : {U F : Type 0} → Host U F → Sink U F → List ℕ → ℕ → Sink U F × Delivered
forward h s d rupper =
    after_units (record s { total = add64 s.total (length d) }) rupper (deliver_units h s.states d)

abbrev filtered : {U F : Type 0} → Host U F → Sink U F → ℕ → Filtered F → Sink U F × Delivered
filtered h s rupper (forwards f []) = (record s { filter = some f }, continues)
filtered h s rupper (forwards f (b ∷ bs)) = forward h (record s { filter = some f }) (b ∷ bs) rupper
filtered h s rupper (throws f e) = (record s { filter = some f }, raises e)

abbrev through_filter :
    {U F : Type 0} → Host U F → Sink U F → Option F → List ℕ → ℕ → Sink U F × Delivered
through_filter h s none d rupper = forward h s d rupper
through_filter h s (some f) d rupper = filtered h s rupper (h.run_filter f d)

-- `_deliver`.
unfoldable pub deliver :
    {U F : Type 0} → Host U F → Sink U F → Option (List ℕ) → ℕ → ℕ → Sink U F × Delivered
deliver h s none rseq rupper = if s.cur_rseq == rupper then (s, hits_gap) else (
  record s {
    cur_rseq = rupper;
    log = s.log ++ (gap_event (to_aseq s rseq) (sub64 rupper rseq) ∷ []);
  },
  hits_gap,
)
deliver h s (some []) rseq rupper = (s, continues)
deliver h s (some (b ∷ bs)) rseq rupper = through_filter h s s.filter (b ∷ bs) rupper

-- `_trim`.
unfoldable pub trim : {U F : Type 0} → Sink U F → ℕ → Sink U F
trim s rseq =
    let (kept, events) = trim_chunks s.initial_seq s.cur_rseq rseq s.chunks in
    record s { chunks = kept; trim_rseq = rseq; log = s.log ++ events }

abbrev pub trim_if : {U F : Type 0} → Bool → Sink U F → ℕ → Sink U F
trim_if true s rseq = trim s rseq
trim_if false s rseq = s

abbrev pub after_deliver :
    {U F : Type 0}
    → (Sink U F → Sink U F × Option Error)
    → ℕ
    → Sink U F × Delivered
    → Sink U F × Option Error
after_deliver next rseq (s, continues) = next s
after_deliver next rseq (s, hits_gap) = (trim_if s.auto_trim s rseq, none)
after_deliver next rseq (s, raises e) = (s, some e)

-- The loop of `_tryDeliver` over the chunks from `c` on.
unfoldable pub deliver_loop :
    {U F : Type 0} → Host U F → Sink U F → List Chunk → Sink U F × Option Error
deliver_loop h s [] = (s, none)
deliver_loop h s (c ∷ cs) = elim (c.rseq == s.last_reassem_rseq) [
  | true ↦
      after_deliver (λ s'. deliver_loop h s' cs) c.rseq
        (deliver h
          (record s { last_reassem_rseq = add64 s.last_reassem_rseq (sub64 c.rupper c.rseq) })
          c.bytes c.rseq c.rupper)
  | false ↦ deliver_loop h s cs
]

abbrev pub trim_delivered : {U F : Type 0} → Sink U F × Option Error → Sink U F × Option Error
trim_delivered (s, none) = (trim_if s.auto_trim s s.last_reassem_rseq, none)
trim_delivered (s, some e) = (s, some e)

-- `_tryDeliver`.
unfoldable pub try_deliver :
    {U F : Type 0} → Host U F → Sink U F → List Chunk → Sink U F × Option Error
try_deliver h s cs = trim_delivered (deliver_loop h s cs)

-- What `_newData` does once the chunk `c` is in the buffer, at the head of `cs`.
unfoldable pub deliver_from :
    {U F : Type 0} → Host U F → Sink U F → List Chunk → Sink U F × Option Error
deliver_from h s [] = (s, some undefined)
deliver_from h s (c ∷ cs) =
    if ltb s.last_reassem_rseq c.rseq || leb c.rupper s.last_reassem_rseq
    then (s, none)
    else try_deliver h s (c ∷ cs)

abbrev added : {U F : Type 0} → Host U F → Sink U F → Result Added → Sink U F × Option Error
added h s (err e) = (s, some e)
added h s (ok a) =
    deliver_from h (record s { chunks = a.chunks; log = s.log ++ a.events })
      (drop a.position a.chunks)

-- The first chunk of an empty buffer ends `len` behind its begin, be that moved or not.
unfoldable pub buffer_data :
    {U F : Type 0}
    → Host U F
    → Sink U F
    → Option (List ℕ)
    → ℕ
    → ℕ
    → ℕ
    → List Chunk
    → Sink U F × Option Error
buffer_data h s d rseq rupper len [] =
    let cs = chunk d rseq (add64 rseq len) ∷ [] in deliver_from h (record s { chunks = cs }) cs
buffer_data h s d rseq rupper len (c ∷ cs) =
    added h s (add_and_check (length (c ∷ cs) + 1) s.initial_seq d rseq rupper [] (c ∷ cs))

-- Partially old data is cut to what comes from `_trim_rseq` on.
abbrev pub cut_old : Option (List ℕ) → ℕ → Result (Option (List ℕ))
cut_old none n = ok none
cut_old (some d) n = sub d n (length d) >>= λ rest. ok (some rest)

abbrev pub buffer_cut :
    {U F : Type 0}
    → Host U F
    → Sink U F
    → ℕ
    → ℕ
    → Result (Option (List ℕ))
    → Sink U F × Option Error
buffer_cut h s rupper len (err e) = (s, some e)
buffer_cut h s rupper len (ok d) = buffer_data h s d s.trim_rseq rupper len s.chunks

abbrev pub is_empty : List Chunk → Bool
is_empty [] = true
is_empty (c ∷ cs) = false

abbrev pub finish : {U F : Type 0} → Sink U F × Delivered → Sink U F × Option Error
finish (s, r) = (s, outcome r)

-- `_newData`.
unfoldable pub new_data :
    {U F : Type 0} → Host U F → Sink U F → Option (List ℕ) → ℕ → ℕ → Sink U F × Option Error
new_data h s d rseq len =
    if len == 0
    then (s, none)
    else if s.auto_trim && (is_empty s.chunks && rseq == s.cur_rseq)
    then finish (deliver h s d rseq (add64 rseq len))
    else if leb (add64 rseq len) s.trim_rseq
    then (s, none)
    else if ltb rseq s.trim_rseq
    then buffer_cut h s (add64 rseq len) len (cut_old d (s.trim_rseq - rseq))
    else buffer_data h s d rseq (add64 rseq len) len s.chunks

-- `gap`.
unfoldable pub gap : {U F : Type 0} → Host U F → Sink U F → ℕ → ℕ → Sink U F × Option Error
gap h s seq len = new_data h s none (to_rseq s seq) len

abbrev pub length_of : Option ℕ → List ℕ → ℕ
length_of none d = length d
length_of (some n) d = n

abbrev pub place_of : {U F : Type 0} → Sink U F → Option ℕ → ℕ
place_of s none = s.cur_rseq
place_of s (some seq) = to_rseq s seq

-- `write`.
unfoldable pub write :
    {U F : Type 0} → Host U F → Sink U F → List ℕ → Option ℕ → Option ℕ → Sink U F × Option Error
write h s [] seq len = (s, none)
write h s (b ∷ bs) seq len = new_data h s (some (b ∷ bs)) (place_of s seq) (length_of len (b ∷ bs))

abbrev reported : {U F : Type 0} → Sink U F → Result (List Event) → Sink U F × Option Error
reported s (err e) = (s, some e)
reported s (ok events) = (record s { log = s.log ++ events }, none)

abbrev pub report_or_trim : {U F : Type 0} → Bool → Sink U F → ℕ → Sink U F × Option Error
report_or_trim true s rseq = (trim s rseq, none)
report_or_trim false s rseq = reported s (undelivered_up_to s.initial_seq rseq s.chunks)

abbrev skip_to : {U F : Type 0} → Host U F → ℕ → Sink U F × Option Error → Sink U F × Option Error
skip_to h rseq (s, some e) = (s, some e)
skip_to h rseq (s, none) =
    let s' = record s {
      cur_rseq = rseq;
      last_reassem_rseq = rseq;
      log = s.log ++ (skipped_event (to_aseq s rseq) ∷ []);
    } in
    try_deliver h s' s.chunks

-- `_skip`.
unfoldable pub skip : {U F : Type 0} → Host U F → Sink U F → ℕ → Sink U F × Option Error
skip h s seq = let rseq = to_rseq s seq in skip_to h rseq (report_or_trim s.auto_trim s rseq)

-- `trim`.
unfoldable pub trim_to : {U F : Type 0} → Sink U F → ℕ → Sink U F
trim_to s seq = trim s (to_rseq s seq)

-- `_close`. Each unit is resumed once more or aborted, and deleted; nothing of it is kept.
unfoldable pub close : {U F : Type 0} → Sink U F → Sink U F
close s = record fresh { log = s.log }

unfoldable pub connect : {U F : Type 0} → Sink U F → U → Bool → Sink U F
connect s u done = record s {
  states =
      s.states ++ (record { unit = u; received = []; done = done; skip_delivery = false } ∷ []);
}

-- `connect_filter`: `f` is the chain of filters with the new one.
unfoldable pub connect_filter : {U F : Type 0} → Sink U F → F → Result (Sink U F)
connect_filter s f = if s.total == 0 then ok (record s { filter = some f }) else err sink_error

abbrev pub have_input : {U F : Type 0} → Sink U F → Bool
have_input s = not (s.cur_rseq == 0) || not (is_empty s.chunks)

-- `set_initial_sequence_number`.
unfoldable pub set_initial_sequence_number : {U F : Type 0} → Sink U F → ℕ → Sink U F × Option Error
set_initial_sequence_number s seq =
    if have_input s then (close s, some sink_error) else (record s { initial_seq = seq }, none)

unfoldable pub set_auto_trim : {U F : Type 0} → Sink U F → Bool → Sink U F
set_auto_trim s enable = record s { auto_trim = enable }

unfoldable pub sequence_number : {U F : Type 0} → Sink U F → ℕ
sequence_number s = add64 s.initial_seq s.cur_rseq
