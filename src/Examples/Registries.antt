-- ===== src/Examples/Registries.antt =====
-- Parsers looked up, and connected to a sink by MIME type.
use spicy.Base.{
  ℕ, ◌≡◌, refl, Bool, true, List, [], ◌∷◌, ◌++◌, Option, none, some, ok, err, ◌>>=◌, undefined,
}
use spicy.Registry.{
  MimeType, star, mime_of_text, Parser, both, init, lookup_parser, connect_mime_type,
  connect_parsers, or_error,
}
use spicy.Registry.Tables.{matching}
use spicy.Registry.Connections.{is_type, covers_main, covers_all, connect_mime_type-matching}
use spicy.Registry.Defaults.{last_if_odd, publics, lookup_parser-odd}

-- "a/b" and "a/*".
abbrev a_b : MimeType
a_b = record { main_type = 97 ∷ []; sub_type = 98 ∷ [] }

abbrev a_star : MimeType
a_star = record { main_type = 97 ∷ []; sub_type = star }

abbrev parser : ℕ → Bool → MimeType → Option ℕ → Parser ℕ
parser id is_public mt unit = record {
  name = id ∷ [];
  is_public = is_public;
  linker_scope = 115 ∷ [];
  mime_types = mt ∷ [];
  ports = ((56 ∷ 48 ∷ [], both) ∷ []);
  parse_sink = unit;
}

abbrev three : List (Parser ℕ)
three =
    parser 1 true a_b (some 10) ∷ parser 2 true a_star (some 20) ∷ parser 3 true a_b (some 30) ∷ []

-- Each parser under "a/*" is connected twice by this type.
connected_twice : (init three >>= (λ g. connect_mime_type g a_star [] [])) ≡ ok (20 ∷ 20 ∷ [])
unfolding init connect_mime_type
connected_twice = refl

-- Of three public parsers, the last one is taken for the default.
default_of_three :
    (init three >>= (λ g. lookup_parser three g [])) ≡ ok (parser 3 true a_b (some 30))
unfolding init lookup_parser
default_of_three = refl

-- A parser with arguments has no function for sinks.
no_sink_function :
    (init (parser 1 true a_b none ∷ []) >>= (λ g. connect_mime_type g a_b [] [])) ≡ err undefined
unfolding init connect_mime_type
no_sink_function = refl

-- " a / b " is trimmed, and a slash alone is none.
texts :
    (mime_of_text (32 ∷ 97 ∷ 32 ∷ 47 ∷ 98 ∷ []) ≡ ok a_b)
    × (mime_of_text (42 ∷ []) ≡ ok (record { main_type = star; sub_type = star }))
unfolding mime_of_text
texts = (refl, refl)

connect_example :
    (init three >>= (λ g. connect_mime_type g a_b [] []))
    ≡ connect_parsers []
        (matching (is_type a_b) three
          ++ (matching (covers_main a_b) three ++ matching covers_all three))
        []
connect_example =
    connect_mime_type-matching three a_b [] []
      (
        ((refl, refl, (refl, tt)), tt),
        (((refl, refl, (refl, tt)), tt), (((refl, refl, (refl, tt)), tt), tt)),
      )
      (refl, refl, (refl, tt)) refl

lookup_example :
    (init three >>= (λ g. lookup_parser three g [])) ≡ or_error (last_if_odd (publics three))
lookup_example = lookup_parser-odd three (
  ((refl, refl, (refl, tt)), tt),
  (((refl, refl, (refl, tt)), tt), (((refl, refl, (refl, tt)), tt), tt)),
)
