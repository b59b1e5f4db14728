-- ===== src/Examples/Streams.antt =====
-- A stream of three chunks, the second a gap, and what the theorems say of it.
use spicy.Base.{
  ◌⊎◌, ◌≤◌, ◌<◌, List, ◌≡◌, refl, ◌≢◌, [], ◌∷◌, replicate, none, some, arith, ok, err, missing_data,
  diverges, false, inl, inr,
}
use spicy.Stream.Chunk.{Chunk, array, gap}
use spicy.Stream.Chain.{
  Chain, is_mutable, append, breaks, goes_on, trim_rounds, trim, find_chunk, walk, dereference,
  deep_copy, is_invalid,
}
use spicy.Stream.Chain.Linked.{IsWellFormed, content}
use spicy.Stream.Chain.Append.{Extends, append-Extends, deep_copy_lem}
use spicy.Stream.Chain.Trim.{trim_ends, trim_inside_gap}
use spicy.Stream.Chain.Find.{find_chunk-walk, dereference-content_at}
use spicy.Stream.Ops.{step, trims}
use spicy.Stream.Ops.Refinement.{Window, specified, Represents, Agree, step-Agree}

abbrev front_chunk : Chunk
front_chunk = record { offset = 5; payload = array 3 (1 ∷ 2 ∷ 3 ∷ replicate 29 0) }

abbrev last_chunk : Chunk
last_chunk = record { offset = 12; payload = array 1 (9 ∷ replicate 31 0) }

abbrev gap_chunk : Chunk
gap_chunk = record { offset = 8; payload = gap 4 }

abbrev holed : Chain
holed = record {
  state = is_mutable;
  chunks = front_chunk ∷ gap_chunk ∷ last_chunk ∷ [];
  head_offset = 5;
}

abbrev gap_first : Chain
gap_first = record { state = is_mutable; chunks = gap_chunk ∷ last_chunk ∷ []; head_offset = 8 }

abbrev window : Window
window = record {
  start = 5;
  bytes = some 1 ∷ some 2 ∷ some 3 ∷ none ∷ none ∷ none ∷ none ∷ some 9 ∷ [];
  closed = false;
}

holed-IsWellFormed : IsWellFormed holed
holed-IsWellFormed = (refl, (omega arith, refl), (refl, tt, (refl, (omega arith, refl), tt)))

gap_first-IsWellFormed : IsWellFormed gap_first
gap_first-IsWellFormed = (refl, tt, (refl, (omega arith, refl), tt))

mutable_valid : is_mutable ≢ is_invalid
mutable_valid e = cc

holed-Represents : Represents holed window
holed-Represents = record {
  well_formed = holed-IsWellFormed;
  is_valid = mutable_valid;
  starts = refl;
  holds = refl;
  closes = refl;
}

step-Agree_example : Agree (step holed (trims 7)) (specified window (trims 7))
step-Agree_example =
    step-Agree holed window (trims 7) holed-Represents
      (omega arith, (inl refl, (inr (inl (omega arith)), (inl refl, tt))))

append-Extends_example :
    (c' : Chain) × (append holed (last_chunk ∷ []) ≡ ok c') × Extends holed (last_chunk ∷ []) c'
append-Extends_example =
    append-Extends holed last_chunk [] holed-IsWellFormed ((omega arith, refl), tt) refl

deep_copy_example :
    (n : Chain) × (deep_copy holed ≡ ok n)
    × IsWellFormed n
    × (content n ≡ content holed)
    × (n.head_offset ≡ 0)
    × (n.state ≡ is_mutable)
deep_copy_example = deep_copy_lem holed holed-IsWellFormed mutable_valid

trim_ends_example :
    (((5 ≤ 4) ⊎ (holed.chunks ≡ []))
      × ((cs : List Chunk) × (trim_rounds 4 4 holed.chunks ≡ ok (breaks cs))
          × (trim holed 4 ≡ ok (record holed { chunks = cs; head_offset = 4 }))))
    ⊎ ((4 < 5)
        × (holed.chunks ≢ [])
        × (trim_rounds 9 4 holed.chunks ≡ ok (goes_on holed.chunks))
        × (trim holed 4 ≡ err diverges))
trim_ends_example = trim_ends holed 4 9 holed-IsWellFormed mutable_valid

trim_inside_example :
    (c' : Chain) × (trim gap_first 10 ≡ ok c')
    × (content c' ≡ content gap_first)
    × (¬ IsWellFormed c')
trim_inside_example =
    trim_inside_gap gap_first 10 4 last_chunk [] gap_first-IsWellFormed mutable_valid refl
      (omega arith) (omega arith)

find_chunk_example : find_chunk holed 12 (some 1) ≡ ok (walk 12 holed.chunks)
find_chunk_example = find_chunk-walk holed 12 (some 1) holed-IsWellFormed mutable_valid

dereference_example : dereference holed 9 none ≡ err missing_data
dereference_example = dereference-content_at holed 9 none holed-IsWellFormed mutable_valid
