-- ===== src/Examples/Sinks.antt =====
-- A sink with a parser that only counts, and what the theorems say of it.
use spicy.Base.{
  Error, ℕ, zero, ◌+◌, ◌<◌, ◌≡◌, refl, List, [], ◌∷◌, map, length, none, some, arith, err, true,
  false, inl, inr, ◌⊎◌, All, sink_error, parse_error, undefined,
}
use spicy.Sink.Buffer.{Chunk, chunk, add_and_check, from}
use spicy.Sink.Buffer.First.{Merges}
use spicy.Sink.Buffer.Merge.{add_and_check-Merges}
use spicy.Sink.Machine.{
  Host, Resumed, Filtered, Connected, Sink, fresh, raises, deliver_units, forward, new_data,
  try_deliver,
}
use spicy.Sink.Machine.Units.{deliver_one, Accepts, Stopped, deliver_units_lem}
use spicy.Sink.Machine.Stuck.{forward_after_error}
use spicy.Sink.Machine.Writes.{write_all, Wrote, write_all-Wrote}
use spicy.Sink.Machine.Loop.{Received, try_deliver_run}
use spicy.Sink.Machine.Faults.{
  add_gap_undefined, partly_old_overshoots, settled, gap_is_trimmed, before_gap,
}

-- A unit counts the bytes that it has seen and waits for more; a filter passes on what it gets.
abbrev counting : Host ℕ ℕ
counting = record {
  resume = λ u d. Resumed.suspends (u + length d);
  run_filter = λ f d. Filtered.forwards f d;
}

abbrev live : ℕ → Connected ℕ
live u = record { unit = u; received = []; done = false; skip_delivery = false }

abbrev at_end : Connected ℕ
at_end = record { unit = 7; received = 1 ∷ []; done = true; skip_delivery = false }

abbrev skipped : Connected ℕ
skipped = record { unit = 8; received = []; done = true; skip_delivery = true }

abbrev two_units : Sink ℕ ℕ
two_units = record fresh { states = live 0 ∷ skipped ∷ [] }

-- [10, 12) and [15, 16), with a hole before, between and behind.
abbrev islands : List Chunk
islands = chunk (some (1 ∷ 2 ∷ [])) 10 12 ∷ chunk (some (3 ∷ [])) 15 16 ∷ []

add_and_check_example :
    Merges 0 islands
      (chunk (some (4 ∷ 5 ∷ 6 ∷ 7 ∷ 8 ∷ [])) 11 16)
      (add_and_check 3 0 (some (4 ∷ 5 ∷ 6 ∷ 7 ∷ 8 ∷ [])) 11 16 [] islands)
unfolding from
add_and_check_example =
    add_and_check-Merges 3 0 0 11 16 (4 ∷ 5 ∷ 6 ∷ 7 ∷ 8 ∷ []) [] islands tt
      (omega arith, omega arith, refl, (omega arith, omega arith, refl, tt)) (omega arith)
      (omega arith) (omega arith) (omega arith) refl (omega arith)

-- A unit that answers a byte 0 with an exception that is no `RuntimeError`.
abbrev refusing_on : ℕ → List ℕ → Resumed ℕ
refusing_on u (zero ∷ bs) = Resumed.escapes u sink_error
refusing_on u d = Resumed.suspends (u + length d)

abbrev refusing : Host ℕ ℕ
refusing = record { resume = refusing_on; run_filter = λ f d. Filtered.forwards f d }

abbrev three_units : List (Connected ℕ)
three_units = skipped ∷ live 1 ∷ live 2 ∷ []

deliver_units_example :
    (All (Accepts refusing (0 ∷ 5 ∷ [])) three_units
      × (deliver_units refusing three_units (0 ∷ 5 ∷ [])
          ≡ (map (deliver_one refusing (0 ∷ 5 ∷ [])) three_units, none)))
    ⊎ Stopped refusing (0 ∷ 5 ∷ []) three_units (deliver_units refusing three_units (0 ∷ 5 ∷ []))
deliver_units_example = deliver_units_lem refusing three_units (0 ∷ 5 ∷ [])

-- The first live unit has got the data, the second one has not.
deliver_units_escaped : deliver_units refusing three_units (0 ∷ 5 ∷ []) ≡ (
  skipped
      ∷ record { unit = 1; received = 0 ∷ 5 ∷ []; done = true; skip_delivery = false }
      ∷ live 2
      ∷ [],
  some sink_error,
)
unfolding deliver_units
deliver_units_escaped = refl

blocked_example :
    deliver_units counting (live 0 ∷ at_end ∷ live 1 ∷ []) (5 ∷ [])
    ≡ (deliver_one counting (5 ∷ []) (live 0) ∷ at_end ∷ live 1 ∷ [], some parse_error)
unfolding deliver_units
blocked_example = refl

abbrev refused : Sink ℕ ℕ
refused = record fresh {
  states =
      skipped
      ∷ record { unit = 1; received = 0 ∷ 5 ∷ []; done = true; skip_delivery = false }
      ∷ live 2
      ∷ [];
  total = 2;
}

refused_first :
    forward refusing (record fresh { states = three_units }) (0 ∷ 5 ∷ []) 2
    ≡ (refused, raises sink_error)
unfolding forward deliver_units
refused_first = refl

forward_after_error_example :
    (s'' : Sink ℕ ℕ) × (e' : Error) × (forward refusing refused (7 ∷ []) 1 ≡ (s'', raises e'))
    × (s''.cur_rseq ≡ 0)
forward_after_error_example =
    forward_after_error refusing (record fresh { states = three_units }) refused (0 ∷ 5 ∷ [])
      (7 ∷ []) 2 1 sink_error refused_first

-- The first two chunks follow the sink's position, the third does not.
abbrev waiting : Sink ℕ ℕ
waiting = record fresh {
  states = live 0 ∷ live 4 ∷ [];
  cur_rseq = 8;
  last_reassem_rseq = 8;
  trim_rseq = 8;
  chunks = chunk (some (7 ∷ 9 ∷ [])) 8 10 ∷ islands;
}

try_deliver_example :
    (s' : Sink ℕ ℕ) × (try_deliver counting waiting waiting.chunks ≡ (s', none))
    × Received waiting.states (7 ∷ 9 ∷ 1 ∷ 2 ∷ []) s'.states
    × (s'.chunks ≡ chunk (some (3 ∷ [])) 15 16 ∷ [])
    × (s'.cur_rseq ≡ 12)
    × (s'.last_reassem_rseq ≡ 12)
    × (s'.log ≡ [])
try_deliver_example =
    try_deliver_run counting waiting (chunk (some (7 ∷ 9 ∷ [])) 8 10)
      (chunk (some (1 ∷ 2 ∷ [])) 10 12 ∷ []) (chunk (some (3 ∷ [])) 15 16 ∷ [])
      (λ u d. (u + length d, refl)) refl refl ((refl, refl), ((refl, refl), tt)) refl
      (refl, omega arith, (7, 9 ∷ [], refl), (refl, omega arith, (1, 2 ∷ [], refl), tt))
      (omega arith, tt)

-- Two units that both count.
abbrev two_live : Sink ℕ ℕ
two_live = record fresh { states = live 0 ∷ live 4 ∷ [] }

write_all_example :
    (s' : Sink ℕ ℕ) × (write_all counting two_live ((5 ∷ 6 ∷ []) ∷ [] ∷ (7 ∷ []) ∷ []) ≡ (s', none))
    × Wrote two_live (5 ∷ 6 ∷ 7 ∷ []) s'
write_all_example =
    write_all-Wrote counting two_live ((5 ∷ 6 ∷ []) ∷ [] ∷ (7 ∷ []) ∷ [])
      (λ u d. (u + length d, refl)) refl refl refl ((refl, refl), ((refl, refl), tt)) (omega arith)

partly_old_example :
    (s' : Sink ℕ ℕ) × (new_data counting (settled two_units 10) (some (1 ∷ 2 ∷ 3 ∷ [])) 8 3
      ≡ (s', none))
    × (s'.states ≡ map (deliver_one counting (3 ∷ [])) two_units.states)
    × (s'.cur_rseq ≡ 13)
    × (11 < s'.cur_rseq)
partly_old_example =
    partly_old_overshoots counting two_units (1 ∷ 2 ∷ 3 ∷ []) 8 10
      (inr (refl, refl), (inl refl, tt)) (omega arith) (omega arith) (omega arith)

gap_is_trimmed_example :
    (s' : Sink ℕ ℕ) × (try_deliver counting
        (before_gap two_units 4 3 islands)
        (before_gap two_units 4 3 islands).chunks
      ≡ (s', none))
    × (s'.chunks ≡ islands)
    × (s'.trim_rseq ≡ 7)
    × (s'.cur_rseq ≡ 7)
    × (s'.last_reassem_rseq ≡ 7)
    × (s'.states ≡ two_units.states)
gap_is_trimmed_example =
    gap_is_trimmed counting two_units 4 3 islands (omega arith) (omega arith)
      (omega arith, (omega arith, tt))

add_gap_example : add_and_check 3 0 none 8 11 [] islands ≡ err undefined
unfolding from
add_gap_example =
    add_gap_undefined 2 0 8 11 [] islands (chunk (some (3 ∷ [])) 15 16 ∷ [])
      (chunk (some (1 ∷ 2 ∷ [])) 10 12) refl refl (omega arith) (omega arith)
