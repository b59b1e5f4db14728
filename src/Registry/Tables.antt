-- ===== src/Registry/Tables.antt =====
-- What `init` of spicy/runtime/src/init.cc leaves in the table of MIME types, and as the default.
use mathlib.Core.List.{append_assoc, append-nil}
use spicy.Base.{
  ℕ, ◌≡◌, refl, sym, ap, ◌∙◌, Bool, true, false, List, [], ◌∷◌, ◌++◌, Option, none, some,
  if◌then◌else◌, Result, ok, ◌>>=◌, Bool-cases, All, inl, inr,
}
use spicy.Text.Words.{same_text}
use spicy.Registry.{
  MimeType, is_wildcard, valid_mime, key_of, as_key, Direction, originator, responder, both, undef,
  Parser, Map, Globals, push_at, find_at, register_port, register_ports, name_by_type, key_parser,
  register_types, next_default, named, register_parsers, text_of, name_parser,
}
use spicy.Registry.Keys.{IsMime, same_text_sound, true-not_false}

abbrev pub or_none {ℓ} : {A : Type ℓ} → Option (List A) → List A
or_none none = []
or_none (some xs) = xs

pub valid_mime-true : (m : MimeType) → IsMime m → valid_mime m ≡ true
valid_mime-true m h = rw (h.0, h.1) refl

pub as_key-key_of : (m : MimeType) → IsMime m → as_key m ≡ ok (key_of m)
unfolding as_key
as_key-key_of m h = rw (valid_mime-true m h) refl

abbrev pub at_key : List ℕ → MimeType → Bool
at_key k m = same_text (key_of m) k

module _ {U : Type 0} where
  -- The parsers at the types that pass the test `t`, one by one and in order.
  abbrev pub at_types : (MimeType → Bool) → Parser U → List MimeType → List (Parser U)
  at_types t p [] = []
  at_types t p (m ∷ ms) = (if t m then p ∷ [] else []) ++ at_types t p ms

  abbrev pub matching : (MimeType → Bool) → List (Parser U) → List (Parser U)
  matching t [] = []
  matching t (p ∷ ps) = at_types t p p.mime_types ++ matching t ps

  abbrev pub AreMimes : List (Parser U) → Type 0
  AreMimes ps = All (λ p. All IsMime p.mime_types) ps

  pushed-same :
      (key k : List ℕ) (p : Parser U) (qs rest : List (Parser U)) (b : Bool)
      → same_text key k ≡ b
      → (if b then qs ++ p ∷ [] else rest) ≡ (if b then qs else rest) ++ (if b then p ∷ [] else [])
  pushed-same key k p qs rest true h = refl
  pushed-same key k p qs rest false h = sym (append-nil rest)

  or_none-if :
      (b : Bool) (qs : List (Parser U)) (o : Option (List (Parser U)))
      → or_none (if b then some qs else o) ≡ (if b then qs else or_none o)
  or_none-if true qs o = refl
  or_none-if false qs o = refl

  find_at-push_at :
      (key k : List ℕ) (p : Parser U) (m : Map U)
      → or_none (find_at (push_at key p m) k)
        ≡ or_none (find_at m k) ++ (if same_text key k then p ∷ [] else [])
  find_at-push_at key k p [] = or_none-if (same_text key k) (p ∷ []) none
  find_at-push_at key k p ((j, qs) ∷ m) = elim (Bool-cases (same_text j key)) [
    | inl e ↦
        let same : j ≡ key = same_text_sound j key e in
        rw e (
          or_none-if (same_text j k) (qs ++ p ∷ []) (find_at m k)
          ∙ pushed-same j k p qs (or_none (find_at m k)) (same_text j k) refl
          ∙ ap (λ o. o ++ (if same_text j k then p ∷ [] else []))
              (sym (or_none-if (same_text j k) qs (find_at m k)))
          ∙ ap
              (λ t.
                or_none (if same_text j k then some qs else find_at m k)
                ++ (if same_text t k then p ∷ [] else []))
              same)
    | inr e ↦ elim (Bool-cases (same_text j k)) [
      | inl f ↦ elim (Bool-cases (same_text key k)) [
        | inl g ↦
            absurd (true-not_false (sym f ∙ ap (same_text j) (sym (same_text_sound key k g)) ∙ e))
        | inr g ↦ rw (e, f, g) (sym (append-nil qs))
      ]
      | inr f ↦ rw (e, f) (find_at-push_at key k p m)
    ]
  ]

  -- What registering more parsers adds: those at a key, behind the ones there.
  abbrev pub Registers : Result (Globals U) → Globals U → (List ℕ → List (Parser U)) → Type 0
  Registers r g added =
      (h : Globals U) × (r ≡ ok h)
      × ((k : List ℕ)
          → or_none (find_at h.by_mime_type k) ≡ or_none (find_at g.by_mime_type k) ++ added k)
      × (h.default_parser ≡ g.default_parser)

  -- Registering a name changes the names only.
  named_by_type :
      (p : Parser U) (m : MimeType) (g : Globals U)
      → IsMime m
      → (h : Globals U) × (name_by_type p m g ≡ ok h)
        × (h.by_mime_type ≡ g.by_mime_type)
        × (h.default_parser ≡ g.default_parser)
  named_by_type p m g v = elim (Bool-cases (is_wildcard m)) [
    | inl w ↦ (g, rw w refl, refl, refl)
    | inr w ↦ (name_parser (text_of m) p g, rw (w, valid_mime-true m v) refl, refl, refl)
  ]

  registered_types :
      (p : Parser U) (ms : List MimeType) (g : Globals U)
      → All IsMime ms
      → Registers (register_types p ms g) g (λ k. at_types (at_key k) p ms)
  unfolding register_types
  registered_types p [] g a =
      (g, refl, λ k. sym (append-nil (or_none (find_at g.by_mime_type k))), refl)
  registered_types p (m ∷ ms) g a =
      let (h, eh, sh, dh) = named_by_type p m g a.0 in
      let next = key_parser p h (key_of m) in
      let (r, er, sr, dr) = registered_types p ms next a.1 in
      (
        r,
        ap (λ x. x >>= (λ h. as_key m >>= (λ key. register_types p ms (key_parser p h key)))) eh
            ∙ ap (λ x. x >>= (λ key. register_types p ms (key_parser p h key)))
                (as_key-key_of m a.0)
            ∙ er,
        λ k.
            sr k
            ∙ ap (λ l. l ++ at_types (at_key k) p ms)
                (find_at-push_at (key_of m) k p h.by_mime_type
                  ∙ ap (λ t. or_none (find_at t k) ++ (if at_key k m then p ∷ [] else [])) sh)
            ∙ append_assoc (or_none (find_at g.by_mime_type k)) (if at_key k m then p ∷ [] else [])
                (at_types (at_key k) p ms),
        dr ∙ dh,
      )

  port_keeps :
      (p : Parser U) (x : List ℕ × Direction) (g : Globals U)
      → ((register_port p x g).by_mime_type ≡ g.by_mime_type)
        × ((register_port p x g).default_parser ≡ g.default_parser)
  port_keeps p (idx, originator) g = (refl, refl)
  port_keeps p (idx, responder) g = (refl, refl)
  port_keeps p (idx, both) g = (refl, refl)
  port_keeps p (idx, undef) g = (refl, refl)

  ports_keep :
      (p : Parser U) (xs : List (List ℕ × Direction)) (g : Globals U)
      → ((register_ports p xs g).by_mime_type ≡ g.by_mime_type)
        × ((register_ports p xs g).default_parser ≡ g.default_parser)
  ports_keep p [] g = (refl, refl)
  ports_keep p (x ∷ xs) g =
      let (a, b) = port_keeps p x g in
      let (c, d) = ports_keep p xs (register_port p x g) in (c ∙ a, d ∙ b)

  -- The default after going through parsers.
  abbrev pub defaults : List (Parser U) → Option (Parser U) → Option (Parser U)
  defaults [] d = d
  defaults (p ∷ ps) d = defaults ps (next_default p d)

  -- Registering parsers with valid MIME types succeeds, and leaves at a key those with a type of
  -- this key, in order.
  pub registered :
      (ps : List (Parser U)) (g : Globals U)
      → AreMimes ps
      → (h : Globals U) × (register_parsers ps g ≡ ok h)
        × ((k : List ℕ)
            → or_none (find_at h.by_mime_type k)
              ≡ or_none (find_at g.by_mime_type k) ++ matching (at_key k) ps)
        × (h.default_parser ≡ defaults ps g.default_parser)
  unfolding register_parsers
  registered [] g a = (g, refl, λ k. sym (append-nil (or_none (find_at g.by_mime_type k))), refl)
  registered (p ∷ ps) g a =
      let start = named p g in
      let (sp, dp) = ports_keep p p.ports start in
      let (h, eh, sh, dh) = registered_types p p.mime_types (register_ports p p.ports start) a.0 in
      let (r, er, sr, dr) = registered ps h a.1 in
      (
        r,
        ap (λ x. x >>= (λ h. register_parsers ps h)) eh ∙ er,
        λ k.
            sr k
            ∙ ap (λ l. l ++ matching (at_key k) ps)
                (sh k ∙ ap (λ t. or_none (find_at t k) ++ at_types (at_key k) p p.mime_types) sp)
            ∙ append_assoc (or_none (find_at g.by_mime_type k)) (at_types (at_key k) p p.mime_types)
                (matching (at_key k) ps),
        dr ∙ ap (λ d. defaults ps d) (dh ∙ dp),
      )
