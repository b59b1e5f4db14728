-- ===== src/Stream/Blocks/Sizes.antt =====
-- The blocks of a view (hilti/runtime/src/types/stream.cc): their sizes, and what is to hold of all.
use spicy.Base.{
  ℕ, zero, suc, ◌+◌, ◌-◌, ◌≤◌, ◌<◌, ◌≡◌, refl, ap, Bool, true, false, ◌||◌, ◌&&◌, List, [], ◌∷◌,
  ◌++◌, length, take, All, Option, none, some, leb, ◌==◌, min, Result, ok, err, diverges, ◌>>=◌,
  arith, leb→le,
}
use spicy.Stream.Chunk.{Chunk, size, end_offset}
use spicy.Stream.Chain.{Chain, end, end_of}
use spicy.Stream.Chain.Linked.{Linked}
use spicy.Stream.Blocks.{
  InputView, view_end, Block, no_chunks, ends_by, max, block_size, first_block, next_block,
}

-- The bytes that a block gives access to.
abbrev pub bytes_of : Block → List ℕ
bytes_of b = take b.size b.start

abbrev pub bytes_of_all : List Block → List ℕ
bytes_of_all [] = []
bytes_of_all (b ∷ bs) = bytes_of b ++ bytes_of_all bs

abbrev pub no_blocks : List Block → Bool
no_blocks [] = true
no_blocks (b ∷ bs) = false

-- Each block begins where the one before it ends, and the last one is known as such.
abbrev pub Consecutive : ℕ → List Block → Type 0
Consecutive o [] = Unit
Consecutive o (b ∷ bs) = (b.offset ≡ o) × (b.is_last ≡ no_blocks bs) × Consecutive (o + b.size) bs

-- The loop over a view's blocks.
unfoldable pub iterate : ℕ → Chain → InputView → Option Block → Result (List Block)
unfolding next_block
iterate fuel c v none = ok []
iterate zero c v (some b) = err diverges
iterate (suc fuel) c v (some b) =
    next_block c v (some b) >>= (λ n. iterate fuel c v n >>= (λ bs. ok (b ∷ bs)))

unfoldable pub all_blocks : Chain → InputView → Result (List Block)
unfolding iterate first_block
all_blocks c v = first_block c v >>= (λ b. iterate (length c.chunks) c v b)

-- Where the view's bytes end.
abbrev pub end_or : Option ℕ → ℕ → ℕ
end_or none o = o
end_or (some e) o = e

abbrev pub stop : Chain → InputView → ℕ
stop c v = min (end_or v.end_offset (end c)) (end c)

-- The blocks are there, in order, and give the bytes.
abbrev pub Yields : Result (List Block) → ℕ → List ℕ → Type 0
Yields r from bytes =
    (bs : List Block) × (r ≡ ok bs)
    × (no_blocks bs ≡ false)
    × Consecutive from bs
    × (bytes_of_all bs ≡ bytes)

pub largest : (a b : ℕ) → b < a → max a b - b ≡ a - b
largest a b h = ground arith

pub append_none : (xs : List ℕ) → xs ++ [] ≡ xs
append_none [] = refl
append_none (x ∷ xs) = ap (λ t. x ∷ t) (append_none xs)

pub end_of_le : (o : ℕ) (xs : List Chunk) → Linked o xs → o ≤ end_of o xs
end_of_le o [] h = omega arith
end_of_le o (x ∷ xs) h = omega (arith, end_of_le (end_offset x) xs h.2, h.0)

-- No chunk is empty.
abbrev pub AllFull : List Chunk → Type 0
AllFull xs = All (λ (x : Chunk). 0 < size x) xs

pub leb_false→lt : (a b : ℕ) → leb a b ≡ false → b < a
leb_false→lt a b h = ground arith

pub no_and : (b : Bool) → (b && false) ≡ false
no_and true = refl
no_and false = refl

pub differ_lt : (a b : ℕ) → a < b → (a == b) ≡ false
differ_lt a b h = ground arith

pub view_end-end_or :
    (c : Chain) (v : InputView) (e : Option ℕ)
    → v.end_offset ≡ e
    → view_end c v ≡ end_or v.end_offset (end c)
view_end-end_or c v none h = rw h refl
view_end-end_or c v (some e) h = rw h refl

pub not_at_end :
    (c : Chain) (v : InputView) → v.offset < stop c v → (v.offset == view_end c v) ≡ false
not_at_end c v h =
    differ_lt v.offset (view_end c v) (omega (arith, view_end-end_or c v v.end_offset refl, h))

pub more_follow :
    (c : Chain) (e : Option ℕ) (x y : Chunk) (ys : List Chunk)
    → end c ≡ end_of (end_offset y) ys
    → Linked (end_offset x) (y ∷ ys)
    → 0 < size y
    → ends_by e (end_offset x) ≡ false
    → end_offset x < min (end_or e (end c)) (end c)
more_follow c none x y ys l h z k = omega (arith, end_of_le (end_offset y) ys h.2, h.0)
more_follow c (some e) x y ys l h z k =
    let far : end_offset x < e = leb_false→lt e (end_offset x) k in
    omega (arith, end_of_le (end_offset y) ys h.2, h.0)

pub middle_size :
    (c : Chain) (e : Option ℕ) (from : ℕ) (x : Chunk)
    → block_size c e false from x ≡ end_offset x - from
middle_size c none from x = refl
middle_size c (some e) from x = refl

pub bind_some {ℓ} :
    {A : Type ℓ} (r : Result Block) (f : Option Block → Result A)
    → ((r >>= (λ b. ok (some b))) >>= f) ≡ (r >>= (λ b. f (some b)))
bind_some (ok b) f = refl
bind_some (err e) f = refl

pub bind_assoc {ℓ κ μ} :
    {A : Type ℓ} {B : Type κ} {C : Type μ} (r : Result A) (f : A → Result B) (g : B → Result C)
    → (r >>= (λ a. f a >>= g)) ≡ ((r >>= f) >>= g)
bind_assoc (ok a) f g = refl
bind_assoc (err e) f g = refl

pub last_size :
    (c : Chain) (e : Option ℕ) (from : ℕ) (x : Chunk) (xs : List Chunk)
    → end c ≡ end_of (end_offset x) xs
    → from < min (end_or e (end c)) (end c)
    → (no_chunks xs || ends_by e (end_offset x)) ≡ true
    → (block_size c e true from x ≡ min (end_or e (end c)) (end c) - from)
      × (min (end_or e (end c)) (end c) ≤ end_offset x)
last_size c none from x [] l h k = (omega arith, omega arith)
last_size c none from x (y ∷ ys) l h k = cc
last_size c (some e) from x [] l h k = (largest (min e (end c)) from h, omega arith)
last_size c (some e) from x (y ∷ ys) l h k =
    let low = leb→le e (end_offset x) k in (largest (min e (end c)) from h, omega arith)
