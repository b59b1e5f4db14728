-- ===== src/Stream/Blocks/Parts.antt =====
-- The part of a chunk's content that a block of hilti/runtime/src/types/stream.cc gives access to.
use spicy.Base.{
  ℕ, zero, suc, ◌+◌, ◌-◌, ◌≤◌, ◌<◌, ◌≡◌, refl, sym, ap, ◌∙◌, List, [], ◌∷◌, map, take, drop,
  replicate, none, some, ok, arith, map-take, map-drop, drop-take, take-take,
}
use spicy.Stream.Chunk.{Payload, array, vector, gap, size_of, data_of}
use spicy.Stream.Chunk.Content.{content_of}

-- The bytes of a part of a chunk without a gap.
pub same_bytes : (xs ys : List ℕ) → map some xs ≡ map some ys → xs ≡ ys
same_bytes [] [] h = refl
same_bytes [] (y ∷ ys) h = cc
same_bytes (x ∷ xs) [] h = cc
same_bytes (x ∷ xs) (y ∷ ys) h =
    let tails : map some xs ≡ map some ys = cc in
    let heads : x ≡ y = cc in let rest = same_bytes xs ys tails in cc

pub part-some :
    (k m : ℕ) (ds bs : List ℕ)
    → map some bs ≡ take m (drop k (map some ds))
    → take m (drop k ds) ≡ bs
part-some k m ds bs h =
    same_bytes (take m (drop k ds)) bs
      (map-take some m (drop k ds) ∙ ap (take m) (map-drop some k ds) ∙ sym h)

pub gap_part :
    (k m n : ℕ) (bs : List ℕ)
    → k + suc m ≤ n
    → ¬ (map some bs ≡ take (suc m) (drop k (replicate n none)))
gap_part zero m zero bs l h = omega arith
gap_part zero m (suc n) [] l h = cc
gap_part zero m (suc n) (b ∷ bs) l h = cc
gap_part (suc k) m zero bs l h = omega arith
gap_part (suc k) m (suc n) bs l h = gap_part k m n bs (omega arith) h

pub used_part :
    (k m n : ℕ) (ds : List ℕ) → k + m ≤ n → take m (drop k (take n ds)) ≡ take m (drop k ds)
used_part k m n ds h =
    let parts : n ≡ k + (n - k) = omega arith in
    ap (λ t. take m (drop k (take t ds))) parts
    ∙ ap (take m) (drop-take k (n - k) ds)
    ∙ take-take m (n - k) (drop k ds) (omega arith)

pub data_of-part :
    (p : Payload) (k m : ℕ) (bs : List ℕ)
    → k + m ≤ size_of p
    → 0 < m
    → map some bs ≡ take m (drop k (content_of p))
    → (ds : List ℕ) × (data_of p ≡ ok ds) × (take m (drop k ds) ≡ bs)
unfolding data_of
data_of-part (array n buffer) k m bs l z h =
    (buffer, refl, sym (used_part k m n buffer l) ∙ part-some k m (take n buffer) bs h)
data_of-part (vector bytes) k m bs l z h = (bytes, refl, part-some k m bytes bs h)
data_of-part (gap n) k zero bs l z h = absurd (omega arith)
data_of-part (gap n) k (suc m) bs l z h = absurd (gap_part k m n bs l h)
