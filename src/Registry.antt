-- ===== src/Registry.antt =====
-- The parsers by their names and MIME types: spicy/runtime/include/mime.h, `init` of
-- spicy/runtime/src/init.cc, `lookupParser` of spicy/runtime/src/driver.cc, and
-- `connect_mime_type` of spicy/runtime/src/sink.cc. A parser's function for sinks makes a unit of
-- the type `U`, a parameter.
pub mod Keys
pub mod Tables
pub mod Connections
pub mod Defaults
use spicy.Base.{
  ℕ, Bool, true, false, not, ◌||◌, List, [], ◌∷◌, ◌++◌, Option, none, some, ◌==◌, if◌then◌else◌,
  Result, ok, err, ◌>>=◌, undefined, invalid_mime_type, result_error,
}
use spicy.Text.Words.{same_text, trim}

pub record MimeType : Type 0 where
  pub main_type : List ℕ
  pub sub_type : List ℕ

abbrev pub star : List ℕ
star = 42 ∷ []

abbrev pub is_empty_text : List ℕ → Bool
is_empty_text [] = true
is_empty_text (c ∷ cs) = false

-- `split1` at a delimiter of one character.
abbrev pub put_in_front : ℕ → List ℕ × List ℕ → List ℕ × List ℕ
put_in_front c (a, b) = (c ∷ a, b)

unfoldable pub split1 : List ℕ → ℕ → List ℕ × List ℕ
split1 [] delim = ([], [])
split1 (c ∷ cs) delim =
    let rest = split1 cs delim in if c == delim then ([], cs) else put_in_front c rest

abbrev pub from_parts : List ℕ × List ℕ → Result MimeType
from_parts (a, b) =
    if is_empty_text (trim a) || is_empty_text (trim b)
    then err invalid_mime_type
    else ok (record { main_type = trim a; sub_type = trim b })

-- The constructor from a text.
unfoldable pub mime_of_text : List ℕ → Result MimeType
unfolding split1 trim
mime_of_text s =
    if same_text s star
    then ok (record { main_type = star; sub_type = star })
    else from_parts (split1 s 47)

abbrev pub is_wildcard : MimeType → Bool
is_wildcard m = same_text m.main_type star || same_text m.sub_type star

abbrev pub valid_mime : MimeType → Bool
valid_mime m = not (is_empty_text m.main_type || is_empty_text m.sub_type)

-- `ensureValid`, and then a value.
abbrev pub if_valid {ℓ} : {A : Type ℓ} → MimeType → A → Result A
if_valid m a = if valid_mime m then ok a else err invalid_mime_type

abbrev pub text_of : MimeType → List ℕ
text_of m = m.main_type ++ 47 ∷ m.sub_type

abbrev pub key_of : MimeType → List ℕ
key_of m =
    if same_text m.main_type star
    then []
    else if same_text m.sub_type star
    then m.main_type
    else text_of m

unfoldable pub as_key : MimeType → Result (List ℕ)
as_key m = if_valid m (key_of m)

pub data Direction : Type 0 where
  originator responder both undef : Direction

-- A port is given as the text it converts to.
pub record Parser (U : Type 0) : Type 0 where
  pub name : List ℕ
  pub is_public : Bool
  pub linker_scope : List ℕ
  pub mime_types : List MimeType
  pub ports : List (List ℕ × Direction)
  pub parse_sink : Option U

abbrev pub Map : Type 0 → Type 0
Map U = List (List ℕ × List (Parser U))

pub record Globals (U : Type 0) : Type 0 where
  pub default_parser : Option (Parser U)
  pub by_name : Map U
  pub by_mime_type : Map U

-- "%orig" and "%resp".
abbrev pub orig_suffix : List ℕ
orig_suffix = 37 ∷ 111 ∷ 114 ∷ 105 ∷ 103 ∷ []

abbrev pub resp_suffix : List ℕ
resp_suffix = 37 ∷ 114 ∷ 101 ∷ 115 ∷ 112 ∷ []

module _ {U : Type 0} where
  -- `map[key].push_back(p)`.
  abbrev pub push_at : List ℕ → Parser U → Map U → Map U
  push_at key p [] = (key, p ∷ []) ∷ []
  push_at key p ((k, ps) ∷ m) =
      let rest = push_at key p m in
      if same_text k key then (k, ps ++ p ∷ []) ∷ m else (k, ps) ∷ rest

  abbrev pub find_at : Map U → List ℕ → Option (List (Parser U))
  find_at [] key = none
  find_at ((k, ps) ∷ m) key = let rest = find_at m key in if same_text k key then some ps else rest

  abbrev pub name_parser : List ℕ → Parser U → Globals U → Globals U
  name_parser key p g = record g { by_name = push_at key p g.by_name }

  abbrev pub register_port : Parser U → List ℕ × Direction → Globals U → Globals U
  register_port p (idx, originator) g = name_parser (idx ++ orig_suffix) p g
  register_port p (idx, responder) g = name_parser (idx ++ resp_suffix) p g
  register_port p (idx, both) g =
      name_parser (idx ++ resp_suffix) p (name_parser (idx ++ orig_suffix) p (name_parser idx p g))
  register_port p (idx, undef) g = g

  abbrev pub register_ports : Parser U → List (List ℕ × Direction) → Globals U → Globals U
  register_ports p [] g = g
  register_ports p (x ∷ xs) g = register_ports p xs (register_port p x g)

  abbrev pub name_by_type : Parser U → MimeType → Globals U → Result (Globals U)
  name_by_type p mt g =
      if not (is_wildcard mt) then if_valid mt (name_parser (text_of mt) p g) else ok g

  abbrev pub key_parser : Parser U → Globals U → List ℕ → Globals U
  key_parser p g key = record g { by_mime_type = push_at key p g.by_mime_type }

  unfoldable pub register_types : Parser U → List MimeType → Globals U → Result (Globals U)
  unfolding as_key
  register_types p [] g = ok g
  register_types p (mt ∷ mts) g =
      name_by_type p mt g
      >>= (λ h. as_key mt >>= (λ key. register_types p mts (key_parser p h key)))

  -- What becomes of `default_parser` at a parser.
  abbrev pub next_default : Parser U → Option (Parser U) → Option (Parser U)
  next_default p none = if p.is_public then some p else none
  next_default p (some d) = if p.is_public then none else some d

  abbrev pub named : Parser U → Globals U → Globals U
  named p g = name_parser p.name p (record g { default_parser = next_default p g.default_parser })

  unfoldable pub register_parsers : List (Parser U) → Globals U → Result (Globals U)
  unfolding register_types
  register_parsers [] g = ok g
  register_parsers (p ∷ ps) g =
      register_types p p.mime_types (register_ports p p.ports (named p g))
      >>= (λ h. register_parsers ps h)

  abbrev pub empty_globals : Globals U
  empty_globals = record { default_parser = none; by_name = []; by_mime_type = [] }

  -- `init`, on the parsers that have registered themselves.
  unfoldable pub init : List (Parser U) → Result (Globals U)
  unfolding register_parsers
  init ps = register_parsers ps empty_globals

  abbrev pub any_public : List (Parser U) → Bool
  any_public [] = false
  any_public (p ∷ ps) = p.is_public || any_public ps

  abbrev pub single : Option (List (Parser U)) → Result (Parser U)
  single (some (p ∷ [])) = ok p
  single (some []) = err undefined
  single _ = err result_error

  abbrev pub or_error : Option (Parser U) → Result (Parser U)
  or_error (some p) = ok p
  or_error none = err result_error

  unfoldable pub lookup_parser : List (Parser U) → Globals U → List ℕ → Result (Parser U)
  lookup_parser parsers g name =
      if not (any_public parsers)
      then err result_error
      else if is_empty_text name
      then or_error g.default_parser
      else single (find_at g.by_name name)

  abbrev pub in_scope : List ℕ → Parser U → Bool
  in_scope scope p = p.is_public || same_text p.linker_scope scope

  -- A parser without a function for sinks is called all the same.
  abbrev pub made : Option U → Result U
  made none = err undefined
  made (some u) = ok u

  unfoldable pub connect_parsers : List ℕ → List (Parser U) → List U → Result (List U)
  connect_parsers scope [] units = ok units
  connect_parsers scope (p ∷ ps) units = elim (in_scope scope p) [
    | true ↦ made p.parse_sink >>= (λ u. connect_parsers scope ps (units ++ u ∷ []))
    | false ↦ connect_parsers scope ps units
  ]

  abbrev pub connect_found : List ℕ → Option (List (Parser U)) → List U → Result (List U)
  connect_found scope none units = ok units
  connect_found scope (some ps) units = connect_parsers scope ps units

  unfoldable pub connect_matching : Globals U → List ℕ → MimeType → List U → Result (List U)
  unfolding as_key connect_parsers
  connect_matching g scope mt units =
      as_key mt >>= (λ key. connect_found scope (find_at g.by_mime_type key) units)

  -- The units of the sink after those there were.
  unfoldable pub connect_mime_type : Globals U → MimeType → List ℕ → List U → Result (List U)
  unfolding connect_matching
  connect_mime_type g mt scope units = connect_matching g scope mt units >>= (λ units1.
      if_valid mt mt.main_type
      >>= (λ main. connect_matching g scope (record { main_type = main; sub_type = star }) units1)
      >>= (λ units2.
          connect_matching g scope (record { main_type = star; sub_type = star }) units2))
