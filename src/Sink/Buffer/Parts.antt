-- ===== src/Sink/Buffer/Parts.antt =====
-- How `_addAndCheck` takes new data apart where it overlaps a chunk, and what the parts hold.
use spicy.Base.{
  ℕ, ◌+◌, ◌-◌, ◌≤◌, ◌<◌, ◌≡◌, refl, sym, ap, ◌∙◌, ◌⊎◌, inl, inr, List, [], ◌∷◌, length, take, drop,
  min, get_elem?, Option, none, some, arith, lt→ltb, le→ltb_false, le-or-lt, ok, length-drop,
  length-take, take_all, get_elem?-take, get_elem?-drop,
}
use spicy.Sink.Buffer.{
  Chunk, chunk, Event, overlap_event, add64, sub, sub_opt, split_off, overlap_report,
  overlap_length, u64, sub64,
}
use spicy.Sink.Buffer.Lookup.{
  or_else, lookup, lookup_chunk, Ordered, end_of, Fills, lookup_below, lookup_above,
  lookup_chunk_below, lookup_chunk_above, lookup_chunk_inside,
}

-- `sub` within the data.
pub sub_front : (d : List ℕ) (n : ℕ) → n ≤ length d → sub d 0 n ≡ ok (take n d)
unfolding sub
sub_front d n h =
    rw (le→ltb_false (length d) 0 (omega arith), le→ltb_false n 0 (omega arith))
      (ap (λ k. ok (take k d)) (omega arith))

pub sub_back : (d : List ℕ) (n : ℕ) → n ≤ length d → sub d n (length d) ≡ ok (drop n d)
unfolding sub
sub_back d n h =
    rw (le→ltb_false (length d) n h)
      (ap ok (take_all (length d - n) (drop n d) (omega (arith, length-drop n d))))

pub sub_some : (d : List ℕ) (m n : ℕ) → m ≤ length d → (e : List ℕ) × (sub d m n ≡ ok e)
unfolding sub
sub_some d m n h = elim (le-or-lt m n) [
  | inl k ↦ (take (n - m) (drop m d), rw (le→ltb_false (length d) m h, le→ltb_false n m k))
  | inr k ↦ (drop m d, rw (le→ltb_false (length d) m h, lt→ltb n m k))
]

pub sub_opt_some :
    (o : Option (List ℕ)) (k m n : ℕ) → Fills o k → m ≤ k → (e : List ℕ) × (sub_opt o m n ≡ ok e)
sub_opt_some none k m n f h = ([], refl)
sub_opt_some (some d) k m n f h = sub_some d m n (omega arith)

-- The new data from `start` on, behind the chunks `ins` that are inserted before `c`.
pub record IsSplit (lo rseq rupper : ℕ) (d : List ℕ) (c : Chunk) (ins : List Chunk) (rest : List ℕ)
    (start : ℕ) : Type 0 where
  pub fills : length rest ≡ rupper - start
  pub starts : c.rseq ≤ start
  pub before_end : start < rupper
  pub before_upper : start < c.rupper
  pub ordered : Ordered lo ins
  pub ends : end_of lo ins ≤ c.rseq
  pub parts :
      (n : ℕ)
      → lookup_chunk (chunk (some d) rseq rupper) n
        ≡ or_else (lookup ins n) (lookup_chunk (chunk (some rest) start rupper) n)

pub split_parts :
    (d : List ℕ) (rseq rupper mid n : ℕ)
    → rseq < mid
    → mid < rupper
    → length d ≡ rupper - rseq
    → lookup_chunk (chunk (some d) rseq rupper) n
      ≡ or_else
          (lookup (chunk (some (take (mid - rseq) d)) rseq mid ∷ []) n)
          (lookup_chunk (chunk (some (drop (mid - rseq) d)) mid rupper) n)
split_parts d rseq rupper mid n h k e = elim (le-or-lt rseq n) [
  | inr below ↦
      rw
        (
          lookup_chunk_below whole n below,
          lookup_chunk_below front n below,
          lookup_chunk_below behind n (omega arith),
        )
        refl
  | inl from_start ↦ elim (le-or-lt mid n) [
    | inr first ↦
        rw
          (
            lookup_chunk_inside whole n from_start (omega arith),
            lookup_chunk_inside front n from_start first,
          )
          (ap some (sym (get_elem?-take (mid - rseq) d (n - rseq) (omega arith))))
    | inl second ↦ elim (le-or-lt rupper n) [
      | inr inside ↦
          rw
            (
              lookup_chunk_inside whole n from_start inside,
              lookup_chunk_above front n second,
              lookup_chunk_inside behind n second inside,
            )
            (ap some (
              ap (get_elem? d) {x = n - rseq} {y = mid - rseq + (n - mid)} (omega arith)
              ∙ sym (get_elem?-drop (mid - rseq) d (n - mid))))
      | inl above ↦
          rw
            (
              lookup_chunk_above whole n above,
              lookup_chunk_above front n second,
              lookup_chunk_above behind n above,
            )
            refl
    ]
  ]
]
  where
    whole : Chunk
    whole = chunk (some d) rseq rupper

    front : Chunk
    front = chunk (some (take (mid - rseq) d)) rseq mid

    behind : Chunk
    behind = chunk (some (drop (mid - rseq) d)) mid rupper

pub split_off-IsSplit :
    (lo rseq rupper : ℕ) (d : List ℕ) (c : Chunk)
    → length d ≡ rupper - rseq
    → lo ≤ rseq
    → lo ≤ c.rseq
    → rseq < rupper
    → rseq < c.rupper
    → c.rseq < rupper
    → c.rseq < c.rupper
    → (ins : List Chunk) × (rest : List ℕ) × (start : ℕ) × (split_off (some d) rseq c
        ≡ ok (record { inserted = ins; rest = some rest; start = start }))
      × IsSplit lo rseq rupper d c ins rest start
unfolding split_off
split_off-IsSplit lo rseq rupper d c e l lc h k m o = elim (le-or-lt c.rseq rseq) [
  | inl inside ↦ (
    [],
    d,
    rseq,
    rw (le→ltb_false _ _ inside),
    record {
      fills = e;
      starts = inside;
      before_end = h;
      before_upper = k;
      ordered = tt;
      ends = lc;
      parts = λ n. refl;
    },
  )
  | inr outside ↦ (
    chunk (some (take (c.rseq - rseq) d)) rseq c.rseq ∷ [],
    drop (c.rseq - rseq) d,
    c.rseq,
    rw (
      lt→ltb _ _ outside,
      sub_front d (c.rseq - rseq) (omega arith),
      sub_back d (c.rseq - rseq) (omega arith),
    ),
    record {
      fills = omega (arith, length-drop (c.rseq - rseq) d);
      starts = omega arith;
      before_end = m;
      before_upper = o;
      ordered = (l, outside, omega (arith, length-take (c.rseq - rseq) d), tt);
      ends = omega arith;
      parts = λ n. split_parts d rseq rupper c.rseq n outside m e;
    },
  )
]

-- Where the chunk `c` hides what the new data has for a sequence number, and where it does not.
pub merge_at :
    (f i c n m : Option (Option ℕ))
    → (i ≡ none) ⊎ (c ≡ none)
    → ((x : Option ℕ) × (c ≡ some x)) ⊎ (n ≡ m)
    → or_else (or_else f (or_else i c)) m ≡ or_else (or_else f c) (or_else i n)
merge_at (some x) i c n m h k = refl
merge_at none (some x) c n m (inl h) k = cc
merge_at none (some x) c n m (inr h) k = rw h refl
merge_at none none c n m h (inl (x, k)) = rw k refl
merge_at none none c n m h (inr k) = rw k refl

pub hidden :
    (lo n : ℕ) (c : Chunk) (cs ins : List Chunk)
    → Ordered c.rseq (c ∷ cs)
    → Ordered lo ins
    → end_of lo ins ≤ c.rseq
    → (lookup ins n ≡ none) ⊎ (lookup (c ∷ cs) n ≡ none)
hidden lo n c cs ins o p h = elim (le-or-lt c.rseq n) [
  | inl k ↦ inl (lookup_above lo n ins p (omega arith))
  | inr k ↦ inr (lookup_below c.rseq n (c ∷ cs) o k)
]

pub covered_by :
    (start n : ℕ) (c : Chunk) (cs : List Chunk)
    → c.rseq ≤ start
    → start ≤ n
    → n < c.rupper
    → (x : Option ℕ) × (lookup (c ∷ cs) n ≡ some x)
covered_by start n c cs h k l =
    (_, ap (λ t. or_else t (lookup cs n)) (lookup_chunk_inside c n (omega arith) l))

pub sub64-eq : (a b : ℕ) → b ≤ a → a < u64 → sub64 a b ≡ a - b
sub64-eq a b h k = omega arith

pub overlap_length-eq :
    (start rupper : ℕ) (c : Chunk)
    → start ≤ rupper
    → start ≤ c.rupper
    → rupper < u64
    → c.rupper < u64
    → overlap_length start rupper c ≡ min (rupper - start) (c.rupper - start)
overlap_length-eq start rupper c h k m n =
    rw (sub64-eq rupper start h m, sub64-eq c.rupper start k n) (ground arith)

pub overlap_report-ok :
    (init start len : ℕ) (rest : List ℕ) (c : Chunk)
    → Fills c.bytes (c.rupper - c.rseq)
    → c.rseq ≤ start
    → start ≤ c.rupper
    → (e : Event) × (overlap_report init (some rest) start c len ≡ ok e)
overlap_report-ok init start len rest c f h k =
    let (old, e) =
      sub_opt_some c.bytes (c.rupper - c.rseq) (start - c.rseq) (start - c.rseq + len) f
        (omega arith) in
    let (new, e') = sub_some rest 0 len (omega arith) in
    (overlap_event (add64 init start) old new, rw (e, e') refl)
