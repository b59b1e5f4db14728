-- ===== src/Stream/Chunk/Content.antt =====
-- What a chunk stands for: its bytes, `none` for each byte of a gap.
use spicy.Base.{
  ℕ, ◌+◌, ◌-◌, ◌≤◌, ◌≡◌, refl, sym, ap, ◌∙◌, false, inl, inr, List, [], ◌∷◌, ◌++◌, map, length,
  take, drop, replicate, All, Option, none, some, arith, le-or-lt, le→leb, lt→leb_false,
  length-append, length-take, length-drop, length-replicate, length-map, take_all, take-append_left,
  drop-take, map-drop,
}
use spicy.Stream.Chunk.{
  Chunk, Payload, array, vector, gap, size_of, size, from_bytes, trim_payload, small_buffer_size,
  set_offset, is_gap_payload,
}

abbrev pub content_of : Payload → List (Option ℕ)
content_of (array n buffer) = map some (take n buffer)
content_of (vector bytes) = map some bytes
content_of (gap n) = replicate n none

abbrev pub contents : List Chunk → List (Option ℕ)
contents [] = []
contents (c ∷ cs) = content_of c.payload ++ contents cs

-- A buffer has its 32 bytes, and uses no more of them.
abbrev pub Fits : Payload → Type 0
Fits (array n buffer) = (n ≤ small_buffer_size) × (length buffer ≡ small_buffer_size)
Fits _ = Unit {0}

abbrev pub AllFit : List Chunk → Type 0
AllFit = All (λ (c : Chunk). Fits c.payload)

pub length-content_of : (p : Payload) → Fits p → length (content_of p) ≡ size_of p
length-content_of (array n buffer) h =
    omega (arith, length-map to_some (take n buffer), length-take n buffer)
  where
    to_some : ℕ → Option ℕ
    to_some b = some b
length-content_of (vector bytes) h = length-map some bytes
length-content_of (gap n) h = length-replicate n none

pub from_bytes-Fits : (o : ℕ) (s : List ℕ) → Fits (from_bytes o s).payload
unfolding from_bytes
from_bytes-Fits o s = elim (le-or-lt (length s) small_buffer_size) [
  | inl small ↦ rw (le→leb _ _ small) (small, padded small)
  | inr large ↦ rw (lt→leb_false _ _ large) tt
]
  where
    padded :
        length s ≤ small_buffer_size
        → length (s ++ replicate (small_buffer_size - length s) 0) ≡ small_buffer_size
    padded small = omega (
      arith,
      length-append s (replicate (small_buffer_size - length s) 0),
      length-replicate {A = ℕ} (small_buffer_size - length s) 0,
    )

pub content-from_bytes : (o : ℕ) (s : List ℕ) → content_of (from_bytes o s).payload ≡ map some s
unfolding from_bytes
content-from_bytes o s = elim (le-or-lt (length s) small_buffer_size) [
  | inl small ↦ rw (le→leb _ _ small) (
      ap (map some)
        (take-append_left (length s) s _ (omega arith) ∙ take_all (length s) s (omega arith)))
  | inr large ↦ rw (lt→leb_false _ _ large) refl
]

pub trim_payload-Fits : (p : Payload) (k : ℕ) → Fits p → k ≤ size_of p → Fits (trim_payload p k)
unfolding trim_payload
trim_payload-Fits (array n buffer) k h l = (omega arith, kept)
  where
    kept : length (take (n - k) (drop k buffer) ++ drop (n - k) buffer) ≡ small_buffer_size
    kept = omega (
      arith,
      length-append (take (n - k) (drop k buffer)) (drop (n - k) buffer),
      length-take (n - k) (drop k buffer),
      length-drop k buffer,
      length-drop (n - k) buffer,
    )
trim_payload-Fits (vector bytes) k h l = tt
trim_payload-Fits (gap n) k h l = tt

pub content-trim_payload :
    (p : Payload) (k : ℕ)
    → Fits p
    → k ≤ size_of p
    → is_gap_payload p ≡ false
    → content_of (trim_payload p k) ≡ drop k (content_of p)
unfolding trim_payload
content-trim_payload (array n buffer) k h l g =
    ap (map some)
      (moved ∙ sym (drop-take k (n - k) buffer) ∙ ap (λ m. drop k (take m buffer)) whole)
    ∙ map-drop some k (take n buffer)
  where
    whole : k + (n - k) ≡ n
    whole = omega arith

    front : length (take (n - k) (drop k buffer)) ≡ n - k
    front = omega (arith, length-take (n - k) (drop k buffer), length-drop k buffer)

    moved :
        take (n - k) (take (n - k) (drop k buffer) ++ drop (n - k) buffer)
        ≡ take (n - k) (drop k buffer)
    moved =
        take-append_left (n - k) (take (n - k) (drop k buffer)) _ (omega (arith, front))
        ∙ take_all (n - k) (take (n - k) (drop k buffer)) (omega (arith, front))
content-trim_payload (vector bytes) k h l g = map-drop some k bytes
content-trim_payload (gap n) k h l g = cc

pub contents-set_offset : (o : ℕ) (cs : List Chunk) → contents (set_offset o cs) ≡ contents cs
unfolding set_offset
contents-set_offset o [] = refl
contents-set_offset o (c ∷ cs) =
    ap (λ t. content_of c.payload ++ t) (contents-set_offset (o + size c) cs)
