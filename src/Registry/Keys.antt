-- ===== src/Registry/Keys.antt =====
-- The keys of MIME types tell them apart (spicy/runtime/include/mime.h).
use spicy.Base.{
  ℕ, ◌≡◌, refl, sym, ap, ◌∙◌, Bool, true, false, ◌&&◌, List, [], ◌∷◌, ◌++◌, ◌==◌, ==_iff,
  Bool-cases, All, arith, and_true, inl, inr,
}
use spicy.Text.Words.{same_text}
use spicy.Registry.{MimeType, star, is_empty_text, key_of}

-- Both parts are there, and the main type has no slash.
abbrev pub IsMime : MimeType → Type 0
IsMime m =
    (is_empty_text m.main_type ≡ false)
    × (is_empty_text m.sub_type ≡ false)
    × All (λ c. (c == 47) ≡ false) m.main_type

abbrev pub same_mime : MimeType → MimeType → Bool
same_mime r m = same_text r.main_type m.main_type && same_text r.sub_type m.sub_type

pub same_text_sound : (a b : List ℕ) → same_text a b ≡ true → a ≡ b
same_text_sound [] [] h = refl
same_text_sound [] (d ∷ ds) h = cc
same_text_sound (c ∷ cs) [] h = cc
same_text_sound (c ∷ cs) (d ∷ ds) h =
    let (e, k) = and_true (c == d) (same_text cs ds) h in
    ap (λ x. x ∷ cs) ((==_iff c d).0 e) ∙ ap (λ xs. d ∷ xs) (same_text_sound cs ds k)

same_text-nil : (a : List ℕ) → is_empty_text a ≡ false → same_text [] a ≡ false
same_text-nil [] h = cc
same_text-nil (c ∷ cs) h = refl

same_text-nil_append : (a : List ℕ) (b : List ℕ) → same_text [] (a ++ 47 ∷ b) ≡ false
same_text-nil_append [] b = refl
same_text-nil_append (c ∷ cs) b = refl

slash_right : (c : ℕ) → (47 == c) ≡ (c == 47)
slash_right c = ground arith

and_assoc : (a b c : Bool) → (a && (b && c)) ≡ (a && b && c)
and_assoc true b c = refl
and_assoc false b c = refl

-- Texts with a slash each agree where the parts before the first one and those behind it do.
same_text-slash :
    (a b c d : List ℕ)
    → All (λ c. (c == 47) ≡ false) a
    → All (λ c. (c == 47) ≡ false) c
    → same_text (a ++ 47 ∷ b) (c ++ 47 ∷ d) ≡ (same_text a c && same_text b d)
same_text-slash [] b [] d h k = refl
same_text-slash [] b (y ∷ ys) d h k = rw (slash_right y, k.0) refl
same_text-slash (x ∷ xs) b [] d h k = rw h.0 refl
same_text-slash (x ∷ xs) b (y ∷ ys) d h k =
    ap (λ t. (x == y) && t) (same_text-slash xs b ys d h.1 k.1)
    ∙ and_assoc (x == y) (same_text xs ys) (same_text b d)

and_false : (b : Bool) → (b && false) ≡ false
and_false true = refl
and_false false = refl

-- A text with a slash is none without.
slash-same_text :
    (a b c : List ℕ) → All (λ c. (c == 47) ≡ false) c → same_text (a ++ 47 ∷ b) c ≡ false
slash-same_text [] b [] k = refl
slash-same_text (x ∷ xs) b [] k = refl
slash-same_text [] b (y ∷ ys) k = rw (slash_right y, k.0) refl
slash-same_text (x ∷ xs) b (y ∷ ys) k =
    ap (λ t. (x == y) && t) (slash-same_text xs b ys k.1) ∙ and_false (x == y)

plain-same_text :
    (a c d : List ℕ) → All (λ c. (c == 47) ≡ false) a → same_text a (c ++ 47 ∷ d) ≡ false
plain-same_text [] c d h = same_text-nil_append c d
plain-same_text (x ∷ xs) [] d h = rw h.0 refl
plain-same_text (x ∷ xs) (y ∷ ys) d h =
    ap (λ t. (x == y) && t) (plain-same_text xs ys d h.1) ∙ and_false (x == y)

pub true-not_false : true ≡ false → ⊥
true-not_false h = cc

and_true_right : (b : Bool) → (b && true) ≡ b
and_true_right true = refl
and_true_right false = refl

nil-same_text : (a : List ℕ) → is_empty_text a ≡ false → same_text a [] ≡ false
nil-same_text [] h = cc
nil-same_text (c ∷ cs) h = refl

append-same_text : (a b : List ℕ) → same_text (a ++ 47 ∷ b) [] ≡ false
append-same_text [] b = refl
append-same_text (c ∷ cs) b = refl

star_differs :
    (a b : List ℕ) → same_text a star ≡ true → same_text b star ≡ false → same_text a b ≡ false
star_differs a b h k = elim (Bool-cases (same_text a b)) [
  | inl s ↦ absurd (true-not_false (sym h ∙ ap (λ t. same_text t star) (same_text_sound a b s) ∙ k))
  | inr s ↦ s
]

-- A main type that is no wildcard is the key of itself with a wildcard as the sub type.
pub key_of-main :
    (r m : MimeType)
    → IsMime r
    → IsMime m
    → same_text m.main_type star ≡ false
    → same_text (key_of r) m.main_type
      ≡ (same_text r.main_type m.main_type && same_text r.sub_type star)
key_of-main r m h k a = elim (Bool-cases (same_text r.main_type star)) [
  | inl x ↦ rw x (
      same_text-nil m.main_type k.0
      ∙ sym (ap (λ t. t && same_text r.sub_type star) (star_differs r.main_type m.main_type x a)))
  | inr x ↦ elim (Bool-cases (same_text r.sub_type star)) [
    | inl y ↦ rw (x, y) (sym (and_true_right (same_text r.main_type m.main_type)))
    | inr y ↦
        rw (x, y)
          (slash-same_text r.main_type r.sub_type m.main_type k.2
            ∙ sym (and_false (same_text r.main_type m.main_type)))
  ]
]

key_of-without_star :
    (r m : MimeType)
    → IsMime r
    → IsMime m
    → same_text m.main_type star ≡ false
    → same_text m.sub_type star ≡ false
    → same_text (key_of r) (key_of m) ≡ same_mime r m
key_of-without_star r m h k a b =
    let full : key_of m ≡ m.main_type ++ 47 ∷ m.sub_type = rw (a, b) refl in
    ap (same_text (key_of r)) full ∙ elim (Bool-cases (same_text r.main_type star)) [
      | inl x ↦ rw x (
          same_text-nil_append m.main_type m.sub_type
          ∙ sym (
              ap (λ t. t && same_text r.sub_type m.sub_type)
                (star_differs r.main_type m.main_type x a)))
      | inr x ↦ elim (Bool-cases (same_text r.sub_type star)) [
        | inl y ↦
            rw (x, y)
              (plain-same_text r.main_type m.main_type m.sub_type h.2
                ∙ sym (
                    ap (λ t. same_text r.main_type m.main_type && t)
                      (star_differs r.sub_type m.sub_type y b)
                    ∙ and_false (same_text r.main_type m.main_type)))
        | inr y ↦ rw (x, y) (same_text-slash r.main_type r.sub_type m.main_type m.sub_type h.2 k.2)
      ]
    ]

-- The key of a type whose main type is no wildcard is that of no other type.
pub key_of-exact :
    (r m : MimeType)
    → IsMime r
    → IsMime m
    → same_text m.main_type star ≡ false
    → same_text (key_of r) (key_of m) ≡ same_mime r m
key_of-exact r m h k a = elim (Bool-cases (same_text m.sub_type star)) [
  | inl y ↦
      let full : key_of m ≡ m.main_type = rw (a, y) refl in
      ap (same_text (key_of r)) full
      ∙ key_of-main r m h k a
      ∙ ap (λ t. same_text r.main_type m.main_type && same_text r.sub_type t)
          (sym (same_text_sound m.sub_type star y))
  | inr y ↦ key_of-without_star r m h k a y
]

-- The empty key is that of the types whose main type is a wildcard.
pub key_of-any : (r : MimeType) → IsMime r → same_text (key_of r) [] ≡ same_text r.main_type star
key_of-any r h = elim (Bool-cases (same_text r.main_type star)) [
  | inl x ↦ rw x refl
  | inr x ↦ elim (Bool-cases (same_text r.sub_type star)) [
    | inl y ↦ rw (x, y) (nil-same_text r.main_type h.0)
    | inr y ↦ rw (x, y) (append-same_text r.main_type r.sub_type)
  ]
]
