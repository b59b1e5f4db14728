-- ===== src/Registry/Connections.antt =====
-- Which units `connect_mime_type` of spicy/runtime/src/sink.cc connects.
use spicy.Base.{
  invalid_mime_type, ℕ, ◌≡◌, refl, sym, ap, ap₂, ◌∙◌, Bool, true, false, ◌&&◌, List, [], ◌∷◌, ◌++◌,
  Option, none, some, if◌then◌else◌, Result, ok, err, ◌>>=◌, All,
}
use spicy.Text.Words.{same_text}
use spicy.Registry.{
  MimeType, star, key_of, Parser, Globals, find_at, empty_globals, init, in_scope, made,
  connect_parsers, connect_found, connect_matching, connect_mime_type,
}
use spicy.Registry.Keys.{IsMime, same_mime, key_of-exact, key_of-main, key_of-any}
use spicy.Registry.Tables.{
  or_none, as_key-key_of, valid_mime-true, at_types, matching, AreMimes, at_key, registered,
}

-- The tests that a parser's type is the wanted one, covers its main type, and covers all.
abbrev pub is_type : MimeType → MimeType → Bool
is_type m r = same_mime r m

abbrev pub covers_main : MimeType → MimeType → Bool
covers_main m r = same_text r.main_type m.main_type && same_text r.sub_type star

abbrev pub covers_all : MimeType → Bool
covers_all r = same_text r.main_type star

abbrev main_with_star : MimeType → MimeType
main_with_star m = record { main_type = m.main_type; sub_type = star }

abbrev star_type : MimeType
star_type = record { main_type = star; sub_type = star }

main_with_star-IsMime : (m : MimeType) → IsMime m → IsMime (main_with_star m)
main_with_star-IsMime m h = (h.0, refl, h.2)

module _ {U : Type 0} where
  at_types-congruent :
      (s t : MimeType → Bool) (p : Parser U) (ms : List MimeType)
      → All IsMime ms
      → ((r : MimeType) → IsMime r → s r ≡ t r)
      → at_types s p ms ≡ at_types t p ms
  at_types-congruent s t p [] a h = refl
  at_types-congruent s t p (m ∷ ms) a h =
      ap₂ (λ b l. (if b then p ∷ [] else []) ++ l) (h m a.0) (at_types-congruent s t p ms a.1 h)

  matching-congruent :
      (s t : MimeType → Bool) (ps : List (Parser U))
      → AreMimes ps
      → ((r : MimeType) → IsMime r → s r ≡ t r)
      → matching s ps ≡ matching t ps
  matching-congruent s t [] a h = refl
  matching-congruent s t (p ∷ ps) a h =
      ap₂ (λ k l. k ++ l) (at_types-congruent s t p p.mime_types a.0 h)
        (matching-congruent s t ps a.1 h)

  bind_made :
      (o : Option U) (h f : U → Result (List U)) (g : List U → Result (List U))
      → ((u : U) → h u ≡ (f u >>= g))
      → (made o >>= h) ≡ (made o >>= f >>= g)
  bind_made none h f g e = refl
  bind_made (some u) h f g e = e u

  connect_parsers-append :
      (scope : List ℕ) (ps qs : List (Parser U)) (units : List U)
      → connect_parsers scope (ps ++ qs) units
        ≡ (connect_parsers scope ps units >>= (λ us. connect_parsers scope qs us))
  unfolding connect_parsers
  connect_parsers-append scope [] qs units = refl
  connect_parsers-append scope (p ∷ ps) qs units =
      let more : U → Result (List U) = λ u. connect_parsers scope (ps ++ qs) (units ++ u ∷ []) in
      let first : U → Result (List U) = λ u. connect_parsers scope ps (units ++ u ∷ []) in
      let others : List U → Result (List U) = λ us. connect_parsers scope qs us in
      elim (in_scope scope p)
        as (λ b.
          elim b [
            | true ↦ made p.parse_sink >>= more
            | false ↦ connect_parsers scope (ps ++ qs) units
          ]
          ≡ (elim b [ true ↦ made p.parse_sink >>= first | false ↦ connect_parsers scope ps units ]
              >>= others)) [
                | true ↦
                    bind_made p.parse_sink more first others
                      (λ u. connect_parsers-append scope ps qs (units ++ u ∷ []))
                | false ↦ connect_parsers-append scope ps qs units
              ]

  connect_found-or_none :
      (scope : List ℕ) (o : Option (List (Parser U))) (units : List U)
      → connect_found scope o units ≡ connect_parsers scope (or_none o) units
  unfolding connect_parsers
  connect_found-or_none scope none units = refl
  connect_found-or_none scope (some ps) units = refl

  connect_matching-found :
      (g : Globals U) (scope : List ℕ) (m : MimeType) (units : List U)
      → IsMime m
      → connect_matching g scope m units
        ≡ connect_parsers scope (or_none (find_at g.by_mime_type (key_of m))) units
  unfolding connect_matching
  connect_matching-found g scope m units h =
      ap (λ r. r >>= (λ key. connect_found scope (find_at g.by_mime_type key) units))
        (as_key-key_of m h)
      ∙ connect_found-or_none scope (find_at g.by_mime_type (key_of m)) units

  bind-append :
      (scope : List ℕ) (ps qs rs : List (Parser U)) (units : List U)
      → (connect_parsers scope ps units
          >>= (λ us. connect_parsers scope qs us >>= (λ vs. connect_parsers scope rs vs)))
        ≡ connect_parsers scope (ps ++ (qs ++ rs)) units
  bind-append scope ps qs rs units = sym (
      connect_parsers-append scope ps (qs ++ rs) units
      ∙ ap (λ f. connect_parsers scope ps units >>= f)
          (λ i us. connect_parsers-append scope qs rs us i))

  -- After parsers with valid MIME types have been registered, connecting a sink by a MIME type whose
  -- main type is no wildcard calls the functions for sinks, in this order, of those in scope that
  -- have just this type, that have its main type with a wildcard, and that have a wildcard as the
  -- main type. A parser that is found twice, as each is that has the type where the type itself
  -- has a wildcard, is connected twice.
  pub connect_mime_type-matching :
      (ps : List (Parser U)) (m : MimeType) (scope : List ℕ) (units : List U)
      → AreMimes ps
      → IsMime m
      → same_text m.main_type star ≡ false
      → (init ps >>= (λ g. connect_mime_type g m scope units))
        ≡ connect_parsers scope
            (matching (is_type m) ps ++ (matching (covers_main m) ps ++ matching covers_all ps))
            units
  unfolding init connect_mime_type
  connect_mime_type-matching ps m scope units a v w =
      let (g, eg, sg, dg) = registered ps empty_globals a in
      let main_key : key_of (main_with_star m) ≡ m.main_type = rw w refl in
      let one =
        connect_matching-found g scope m units v
        ∙ ap (λ l. connect_parsers scope l units)
            (sg (key_of m)
              ∙ matching-congruent (at_key (key_of m)) (is_type m) ps a
                  (λ r h. key_of-exact r m h v w)) in
      let two : (us : List U)
          → connect_matching g scope (main_with_star m) us
            ≡ connect_parsers scope (matching (covers_main m) ps) us =
        λ us.
          connect_matching-found g scope (main_with_star m) us (main_with_star-IsMime m v)
          ∙ ap (λ l. connect_parsers scope l us)
              (ap (λ k. or_none (find_at g.by_mime_type k)) main_key
                ∙ sg m.main_type
                ∙ matching-congruent (at_key m.main_type) (covers_main m) ps a
                    (λ r h. key_of-main r m h v w)) in
      let three : (us : List U)
          → connect_matching g scope star_type us
            ≡ connect_parsers scope (matching covers_all ps) us =
        λ us.
          connect_matching-found g scope star_type us (refl, refl, (refl, tt))
          ∙ ap (λ l. connect_parsers scope l us)
              (sg [] ∙ matching-congruent (at_key []) covers_all ps a (λ r h. key_of-any r h)) in
      ap (λ r. r >>= (λ g. connect_mime_type g m scope units)) eg
      ∙ ap₂
          (λ r b. r >>= (λ us.
            (if b then ok m.main_type else err invalid_mime_type)
            >>= (λ main. connect_matching g scope (record { main_type = main; sub_type = star }) us)
            >>= (λ vs. connect_matching g scope star_type vs)))
          one (valid_mime-true m v)
      ∙ ap (λ f. connect_parsers scope (matching (is_type m) ps) units >>= f)
          (λ i us. two us i >>= (λ vs. three vs i))
      ∙ bind-append scope (matching (is_type m) ps) (matching (covers_main m) ps)
          (matching covers_all ps) units
