-- ===== src/Registry/Defaults.antt =====
-- Which parser `lookupParser` of spicy/runtime/src/driver.cc takes when none is named.
use spicy.Registry.Keys.{true-not_false}
use spicy.Base.{
  ◌||◌, ◌≡◌, refl, sym, ap, ◌∙◌, Bool, true, false, not, List, [], ◌∷◌, Option, none, some,
  if◌then◌else◌, ◌>>=◌, Bool-cases, inl, inr,
}
use spicy.Registry.{Parser, empty_globals, init, any_public, or_error, lookup_parser}
use spicy.Registry.Tables.{AreMimes, defaults, registered}

module _ {U : Type 0} where
  abbrev pub publics : List (Parser U) → List (Parser U)
  publics [] = []
  publics (p ∷ ps) = let rest = publics ps in if p.is_public then p ∷ rest else rest

not-not : (b : Bool) → not (not b) ≡ b
not-not true = refl
not-not false = refl

module _ {ℓ} {A : Type ℓ} where
  abbrev pub is_odd : List A → Bool
  is_odd [] = false
  is_odd (x ∷ xs) = not (is_odd xs)

  abbrev pub last : A → List A → A
  last x [] = x
  last x (y ∷ ys) = last y ys

  abbrev pub last_if_odd : List A → Option A
  last_if_odd [] = none
  last_if_odd (x ∷ xs) = if is_odd (x ∷ xs) then some (last x xs) else none

  last_if_odd-two : (x y : A) (xs : List A) → last_if_odd (x ∷ y ∷ xs) ≡ last_if_odd xs
  last_if_odd-two x y [] = refl
  last_if_odd-two x y (z ∷ zs) =
      ap (λ b. if b then some (last z zs) else none) (not-not (not (is_odd zs)))

module _ {U : Type 0} where
  mutual
    defaults-none : (ps : List (Parser U)) → defaults ps none ≡ last_if_odd (publics ps)
    defaults-none [] = refl
    defaults-none (p ∷ ps) =
        elim p.is_public
          as (λ b.
            defaults ps (if b then some p else none)
            ≡ last_if_odd (if b then p ∷ publics ps else publics ps)) [
              | true ↦ defaults-some ps p
              | false ↦ defaults-none ps
            ]

    defaults-some :
        (ps : List (Parser U)) (d : Parser U) → defaults ps (some d) ≡ last_if_odd (d ∷ publics ps)
    defaults-some [] d = refl
    defaults-some (p ∷ ps) d =
        elim p.is_public
          as (λ b.
            defaults ps (if b then none else some d)
            ≡ last_if_odd (d ∷ (if b then p ∷ publics ps else publics ps))) [
              | true ↦ defaults-none ps ∙ sym (last_if_odd-two d p (publics ps))
              | false ↦ defaults-some ps d
            ]

  none_public : (ps : List (Parser U)) → any_public ps ≡ false → publics ps ≡ []
  none_public [] h = refl
  none_public (p ∷ ps) h =
      (elim p.is_public
          as (λ b. (b || any_public ps) ≡ false → (if b then p ∷ publics ps else publics ps) ≡ []) [
            | true ↦ λ k. absurd (true-not_false k)
            | false ↦ λ k. none_public ps k
          ])
        h

  -- Among parsers with valid MIME types, the look-up without a name takes the last public one if
  -- their number is odd, and fails if it is even.
  pub lookup_parser-odd :
      (ps : List (Parser U))
      → AreMimes ps
      → (init ps >>= (λ g. lookup_parser ps g [])) ≡ or_error (last_if_odd (publics ps))
  unfolding init lookup_parser
  lookup_parser-odd ps a =
      let (g, eg, sg, dg) = registered ps empty_globals a in
      ap (λ r. r >>= (λ g. lookup_parser ps g [])) eg ∙ elim (Bool-cases (any_public ps)) [
        | inl e ↦ rw e (ap or_error (dg ∙ defaults-none ps))
        | inr e ↦ rw e (ap (λ l. or_error (last_if_odd l)) (sym (none_public ps e)))
      ]
