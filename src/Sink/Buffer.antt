-- ===== src/Sink/Buffer.antt =====
-- The sink's buffer: `Chunk`, `_addAndCheck` and the loop of `_trim` of
-- spicy/runtime/src/sink.cc. An iterator is a position in the list. Sequence numbers are uint64_t;
-- where a difference could wrap around, it is written so.
pub mod Lookup
pub mod Parts
pub mod First
pub mod Merge
use spicy.Base.{
  ℕ, zero, suc, ◌+◌, ◌-◌, ◌%◌, ◌^◌, ◌<◌, Bool, true, false, List, [], ◌∷◌, ◌++◌, length, take, drop,
  Option, none, some, ltb, leb, ◌==◌, if◌then◌else◌, Result, ok, err, ◌>>=◌, out_of_range,
  undefined, diverges,
}

abbrev pub u64 : ℕ
u64 = 2 ^ 64

abbrev pub add64 : ℕ → ℕ → ℕ
add64 a b = (a + b) % u64

abbrev pub sub64 : ℕ → ℕ → ℕ
sub64 a b = (a + u64 - b) % u64

-- `data` is unset for a gap. The chunk covers the sequence numbers from `rseq` to `rupper - 1`.
pub record Chunk : Type 0 where
  pub bytes : Option (List ℕ)
  pub rseq : ℕ
  pub rupper : ℕ

-- What the hooks of the connected units are told, with absolute sequence numbers.
pub data Event : Type 0 where
  gap_event : ℕ → ℕ → Event
  overlap_event : ℕ → List ℕ → List ℕ → Event
  skipped_event : ℕ → Event
  undelivered_event : ℕ → List ℕ → Event

-- `Bytes::sub(from, to)`; a `to` before `from` wraps around to a count that takes the whole rest.
unfoldable pub sub : List ℕ → ℕ → ℕ → Result (List ℕ)
sub d from to =
    if ltb (length d) from
    then err out_of_range
    else if ltb to from
    then ok (drop from d)
    else ok (take (to - from) (drop from d))

abbrev pub sub_opt : Option (List ℕ) → ℕ → ℕ → Result (List ℕ)
sub_opt none from to = ok []
sub_opt (some d) from to = sub d from to

-- `_chunks.back().rupper`, for a list that is not empty.
abbrev pub back_rupper : List Chunk → ℕ
back_rupper [] = 0
back_rupper (c ∷ []) = c.rupper
back_rupper (c ∷ d ∷ cs) = back_rupper (d ∷ cs)

-- The chunks that the search passes over, and those from where it stops.
unfoldable pub before : List Chunk → ℕ → List Chunk
before [] rseq = []
before (c ∷ cs) rseq = if leb c.rupper rseq then c ∷ before cs rseq else []

unfoldable pub from : List Chunk → ℕ → List Chunk
from [] rseq = []
from (c ∷ cs) rseq = if leb c.rupper rseq then from cs rseq else c ∷ cs

-- The buffer, the position that the call returns, and the overlaps that it reported.
pub record Added : Type 0 where
  pub chunks : List Chunk
  pub position : ℕ
  pub events : List Event

abbrev pub chunk : Option (List ℕ) → ℕ → ℕ → Chunk
chunk d rseq rupper = record { bytes = d; rseq = rseq; rupper = rupper }

-- A prefix that comes before `c` is inserted; for a gap the code leaves `new_c` unset.
pub record Split : Type 0 where
  pub inserted : List Chunk
  pub rest : Option (List ℕ)
  pub start : ℕ

abbrev split_prefix : Option (List ℕ) → ℕ → Chunk → Result Split
split_prefix none rseq c = err undefined
split_prefix (some d) rseq c = do
  prefix ← sub d 0 (c.rseq - rseq)
  rest ← sub d (c.rseq - rseq) (length d)
  ok (record { inserted = chunk (some prefix) rseq c.rseq ∷ []; rest = some rest; start = c.rseq })

unfoldable pub split_off : Option (List ℕ) → ℕ → Chunk → Result Split
unfolding sub
split_off d rseq c =
    if ltb rseq c.rseq
    then split_prefix d rseq c
    else ok (record { inserted = []; rest = d; start = rseq })

-- The data that `_trim` reports for a chunk: none for a gap, and none once the sink is past it.
abbrev report_data : ℕ → ℕ → ℕ → Option (List ℕ) → List Event
report_data initial_seq cur_rseq rseq none = []
report_data initial_seq cur_rseq rseq (some d) =
    if ltb cur_rseq rseq then undelivered_event (add64 initial_seq rseq) d ∷ [] else []

abbrev pub undelivered : ℕ → ℕ → Chunk → List Event
undelivered initial_seq cur_rseq c = report_data initial_seq cur_rseq c.rseq c.bytes

-- A chunk that lies across the limit is cut to its first `c.rupper - rupper` bytes.
abbrev up_to_data : ℕ → ℕ → Chunk → Option (List ℕ) → Result (List Event) → Result (List Event)
up_to_data initial_seq rupper c none others = others
up_to_data initial_seq rupper c (some d) others = do
  b ← (if leb c.rupper rupper then ok d else sub d 0 (c.rupper - rupper))
  events ← others
  ok (undelivered_event (add64 initial_seq c.rseq) b ∷ events)

abbrev up_to : ℕ → ℕ → Chunk → Result (List Event) → Result (List Event)
up_to initial_seq rupper c others = up_to_data initial_seq rupper c c.bytes others

abbrev pub overlap_length : ℕ → ℕ → Chunk → ℕ
overlap_length start rupper c =
    if ltb (sub64 rupper start) (sub64 c.rupper start)
    then sub64 rupper start
    else sub64 c.rupper start

abbrev pub overlap_report : ℕ → Option (List ℕ) → ℕ → Chunk → ℕ → Result Event
overlap_report initial_seq d start c len = do
  old ← sub_opt c.bytes (start - c.rseq) (start - c.rseq + len)
  new ← sub_opt d 0 len
  ok (overlap_event (add64 initial_seq start) old new)

-- The call's result where the new data ends within `c`.
abbrev stays : List Chunk → List Chunk → List Chunk → Event → Added
stays front inserted back report = record {
  chunks = front ++ (inserted ++ back);
  position = length front;
  events = report ∷ [];
}

-- `new_c` is the inserted prefix, else what the recursive call returned.
abbrev position_of : List Chunk → List Chunk → Added → ℕ
position_of front [] r = r.position
position_of front (p ∷ ps) r = length front

abbrev pub recursed : List Chunk → List Chunk → Event → Added → Added
recursed front inserted report r = record r {
  position = position_of front inserted r;
  events = report ∷ r.events;
}

-- What the new data has behind the overlap is added by the recursive call.
abbrev pub recurse_behind :
    (List ℕ → Result Added) → Option (List ℕ) → ℕ → ℕ → (Added → Added) → Added → Result Added
recurse_behind recurse none len new_len after stay = ok stay
recurse_behind recurse (some d) len new_len after stay =
    if ltb len new_len
    then (sub d len (length d) >>= λ rest. recurse rest >>= λ r. ok (after r))
    else ok stay

-- The blocks overlap: `c` is the first of `back` that does not come before the new data.
unfoldable pub resolve :
    (List Chunk → List ℕ → ℕ → Result Added)
    → ℕ
    → Option (List ℕ)
    → ℕ
    → ℕ
    → List Chunk
    → Chunk
    → List Chunk
    → Result Added
unfolding split_off
resolve recurse initial_seq d rseq rupper front c cs = do
  s ← split_off d rseq c
  let len = overlap_length s.start rupper c
  report ← overlap_report initial_seq s.rest s.start c len
  recurse_behind (λ rest. recurse (front ++ s.inserted) rest (s.start + len)) s.rest len
      (sub64 rupper s.start) (recursed front s.inserted report)
      (stays front s.inserted (c ∷ cs) report)

abbrev pub appended : List Chunk → Chunk → Added
appended cs x = record { chunks = cs ++ (x ∷ []); position = length cs; events = [] }

abbrev inserted_before : List Chunk → Chunk → List Chunk → Added
inserted_before front x back = record {
  chunks = front ++ (x ∷ back);
  position = length front;
  events = [];
}

-- What is done at the first block that does not come completely before the new data.
unfoldable pub place :
    (List Chunk → List Chunk → List ℕ → ℕ → Result Added)
    → ℕ
    → Option (List ℕ)
    → ℕ
    → ℕ
    → List Chunk
    → List Chunk
    → Result Added
unfolding resolve
place recurse initial_seq d rseq rupper front [] = ok (appended front (chunk d rseq rupper))
place recurse initial_seq d rseq rupper front (c ∷ cs) =
    if leb rupper c.rseq
    then ok (inserted_before front (chunk d rseq rupper) (c ∷ cs))
    else resolve (λ front'. recurse front' (c ∷ cs)) initial_seq d rseq rupper front c cs

-- `_addAndCheck(data, rseq, rupper, c)`, with `front` the chunks before `c` and `back` those from
-- `c` on. Each recursive call passes over one more chunk, so the length of `back` is fuel enough.
unfoldable pub add_and_check :
    ℕ → ℕ → Option (List ℕ) → ℕ → ℕ → List Chunk → List Chunk → Result Added
unfolding before from place
add_and_check zero initial_seq d rseq rupper front back = err diverges
add_and_check (suc fuel) initial_seq d rseq rupper front back =
    let placed =
      place
        (λ front' back' rest start.
          add_and_check fuel initial_seq (some rest) start rupper front' back')
        initial_seq d rseq rupper (front ++ before back rseq) (from back rseq) in
    if rseq == back_rupper (front ++ back)
    then ok (appended (front ++ back) (chunk d rseq rupper))
    else placed

-- The loop of `_trim`: the chunks kept, and the undelivered data reported for those erased.
unfoldable pub trim_chunks : ℕ → ℕ → ℕ → List Chunk → List Chunk × List Event
trim_chunks initial_seq cur_rseq rseq [] = ([], [])
trim_chunks initial_seq cur_rseq rseq (c ∷ cs) =
    if leb rseq c.rseq
    then (c ∷ cs, [])
    else (let (kept, events) = trim_chunks initial_seq cur_rseq rseq cs in
        (kept, undelivered initial_seq cur_rseq c ++ events))

-- `_reportUndeliveredUpTo`.
unfoldable pub undelivered_up_to : ℕ → ℕ → List Chunk → Result (List Event)
undelivered_up_to initial_seq rupper [] = ok []
undelivered_up_to initial_seq rupper (c ∷ cs) =
    let others = undelivered_up_to initial_seq rupper cs in
    if leb rupper c.rseq then ok [] else up_to initial_seq rupper c others
