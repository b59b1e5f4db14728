-- ===== src/Preprocessor/Documents.antt =====
-- Which code the preprocessor takes from a source file with nested conditional parts.
use mathlib.Core.List.{append_assoc, append-nil}
use spicy.Base.{
  ℕ, ◌≡◌, refl, sym, ap, ◌∙◌, Bool, true, false, not, ◌&&◌, List, [], ◌∷◌, ◌++◌, ok, ◌>>=◌,
  if◌then◌else◌,
}
use spicy.Text.Words.{trim}
use spicy.Text.Splitting.{trim-line}
use spicy.Preprocessor.{
  Mark, included, excluded, ignored, Stack, state_of, is_skip, Constants, if_text, else_text,
  endif_text, mark_of, push, opened, toggled, process_line, Line, code, directive, Driver,
  scan_line, scan_lines, after_line, fresh_driver,
}
use spicy.Preprocessor.Conditions.{
  Condition, IsCondition, written, holds, condition_words, condition_words-IsWord, parse_if-written,
}

-- A source file by its structure: code, and conditional parts. An `@else` may come more than once,
-- and each turns the condition around.
mutual
  pub data Document : Type 0 where
    nothing : Document
    then_code : List ℕ → Document → Document
    choice : Condition → Document → Alternatives → Document → Document

  pub data Alternatives : Type 0 where
    finished : Alternatives
    otherwise : Document → Alternatives → Alternatives

-- The lines that a document is written with.
abbrev if_line : Condition → Line
if_line c = directive if_text (32 ∷ (written c ++ 10 ∷ []))

abbrev else_line : Line
else_line = directive else_text (10 ∷ [])

abbrev endif_line : Line
endif_line = directive endif_text (10 ∷ [])

unfoldable mutual
  pub lines : Document → List Line
  lines nothing = []
  lines (then_code t d) = code t ∷ lines d
  lines (choice c d a rest) = if_line c ∷ (lines d ++ (alternative_lines a ++ lines rest))

  pub alternative_lines : Alternatives → List Line
  alternative_lines finished = endif_line ∷ []
  alternative_lines (otherwise d a) = else_line ∷ (lines d ++ alternative_lines a)

-- The code to be taken, given whether what surrounds it is.
unfoldable mutual
  pub chosen : Constants → Bool → Document → List (List ℕ)
  chosen constants b nothing = []
  chosen constants b (then_code t d) =
      let rest = chosen constants b d in if b then t ∷ rest else rest
  chosen constants b (choice c d a rest) =
      chosen constants (b && holds constants c) d
      ++ (chosen_alternatives constants b (not (holds constants c)) a ++ chosen constants b rest)

  pub chosen_alternatives : Constants → Bool → Bool → Alternatives → List (List ℕ)
  chosen_alternatives constants b now finished = []
  chosen_alternatives constants b now (otherwise d a) =
      chosen constants (b && now) d ++ chosen_alternatives constants b (not now) a

unfoldable mutual
  pub IsDocument : Document → Type 0
  IsDocument nothing = Unit {0}
  IsDocument (then_code t d) = IsDocument d
  IsDocument (choice c d a rest) =
      IsCondition c × IsDocument d × AreAlternatives a × IsDocument rest

  pub AreAlternatives : Alternatives → Type 0
  AreAlternatives finished = Unit {0}
  AreAlternatives (otherwise d a) = IsDocument d × AreAlternatives a

-- A driver whose scanner is in the mode that its stack says.
abbrev pub driver_at : Stack → List (List ℕ) → ℕ → Driver
driver_at s taken n = record {
  stack = s;
  ignoring = is_skip (state_of s);
  taken = taken;
  errors = n;
}

abbrev is_included : Mark → Bool
is_included included = true
is_included _ = false

-- The mark for a condition inside of what has the mark `m`.
abbrev inner : Mark → Bool → Mark
inner included b = mark_of b
inner _ b = ignored

is_included-inner : (m : Mark) (b : Bool) → is_included (inner m b) ≡ (is_included m && b)
is_included-inner included true = refl
is_included-inner included false = refl
is_included-inner excluded b = refl
is_included-inner ignored b = refl

toggled-inner : (m : Mark) (b : Bool) → toggled (inner m b) ≡ inner m (not b)
toggled-inner included true = refl
toggled-inner included false = refl
toggled-inner excluded b = refl
toggled-inner ignored b = refl

module _ (constants : Constants) where
  opened-inner :
      (c : Condition) (top : Mark) (below : List Mark)
      → IsCondition c
      → opened constants (written c) (top, below) (state_of (top, below))
        ≡ ok (inner top (holds constants c), top ∷ below)
  opened-inner c included below h =
      ap (λ r. r >>= (λ b. ok (push (mark_of b) (included, below))))
        (parse_if-written constants c h)
  opened-inner c excluded below h = refl
  opened-inner c ignored below h = refl

  scan_if :
      (c : Condition) (top : Mark) (below : List Mark) (taken : List (List ℕ)) (n : ℕ)
      (ls : List Line)
      → IsCondition c
      → scan_lines constants (driver_at (top, below) taken n) (if_line c ∷ ls)
        ≡ scan_lines constants (driver_at (inner top (holds constants c), top ∷ below) taken n) ls
  unfolding scan_lines scan_line process_line
  scan_if c top below taken n ls h =
      let d = driver_at (top, below) taken n in
      let (w, ws) = condition_words c in
      ap
        (λ t.
          after_line d (process_line constants (top, below) if_text t)
          >>= (λ next. scan_lines constants next ls))
        (trim-line w ws (condition_words-IsWord c h))
      ∙ ap (λ r. after_line d r >>= (λ next. scan_lines constants next ls))
          (opened-inner c top below h)

  scan_code :
      (t : List ℕ) (top : Mark) (below : List Mark) (taken : List (List ℕ)) (n : ℕ) (ls : List Line)
      → scan_lines constants (driver_at (top, below) taken n) (code t ∷ ls)
        ≡ scan_lines constants
            (driver_at (top, below) (taken ++ (if is_included top then t ∷ [] else [])) n)
            ls
  unfolding scan_lines scan_line
  scan_code t included below taken n ls = refl
  scan_code t excluded below taken n ls =
      ap (λ l. scan_lines constants (driver_at (excluded, below) l n) ls) (sym (append-nil taken))
  scan_code t ignored below taken n ls =
      ap (λ l. scan_lines constants (driver_at (ignored, below) l n) ls) (sym (append-nil taken))

  scan_else :
      (m outer : Mark) (below : List Mark) (taken : List (List ℕ)) (n : ℕ) (ls : List Line)
      → scan_lines constants (driver_at (m, outer ∷ below) taken n) (else_line ∷ ls)
        ≡ scan_lines constants (driver_at (toggled m, outer ∷ below) taken n) ls
  unfolding scan_lines scan_line process_line trim
  scan_else m outer below taken n ls = refl

  scan_endif :
      (m outer : Mark) (below : List Mark) (taken : List (List ℕ)) (n : ℕ) (ls : List Line)
      → scan_lines constants (driver_at (m, outer ∷ below) taken n) (endif_line ∷ ls)
        ≡ scan_lines constants (driver_at (outer, below) taken n) ls
  unfolding scan_lines scan_line process_line trim
  scan_endif m outer below taken n ls = refl

code-chosen :
    (b : Bool) (t : List ℕ) (taken xs : List (List ℕ))
    → (taken ++ (if b then t ∷ [] else [])) ++ xs ≡ taken ++ (if b then t ∷ xs else xs)
code-chosen true t taken xs = append_assoc taken (t ∷ []) xs
code-chosen false t taken xs = ap (λ l. l ++ xs) (append-nil taken)

append_three : {A : Type 0} (a b c d : List A) → ((a ++ b) ++ c) ++ d ≡ a ++ (b ++ (c ++ d))
append_three a b c d = append_assoc (a ++ b) c d ∙ append_assoc a b (c ++ d)

mutual
  unfolding lines chosen IsDocument

  lines-chosen :
      (constants : Constants) (doc : Document) (top : Mark) (below : List Mark)
      (taken : List (List ℕ)) (n : ℕ) (rest : List Line)
      → IsDocument doc
      → scan_lines constants (driver_at (top, below) taken n) (lines doc ++ rest)
        ≡ scan_lines constants
            (driver_at (top, below) (taken ++ chosen constants (is_included top) doc) n)
            rest
  lines-chosen constants nothing top below taken n rest h =
      ap (λ l. scan_lines constants (driver_at (top, below) l n) rest) (sym (append-nil taken))
  lines-chosen constants (then_code t d) top below taken n rest h =
      scan_code constants t top below taken n (lines d ++ rest)
      ∙ lines-chosen constants d top below (taken ++ (if is_included top then t ∷ [] else [])) n
          rest h
      ∙ ap (λ l. scan_lines constants (driver_at (top, below) l n) rest)
          (code-chosen (is_included top) t taken (chosen constants (is_included top) d))
  lines-chosen constants (choice c d a r) top below taken n rest h =
      let b = holds constants c in
      let i = is_included top in
      let first = chosen constants (i && b) d in
      let second = chosen_alternatives constants i (not b) a in
      let later = alternative_lines a ++ (lines r ++ rest) in
      ap (λ ls. scan_lines constants (driver_at (top, below) taken n) (if_line c ∷ ls))
        (append_assoc (lines d) (alternative_lines a ++ lines r) rest
          ∙ ap (λ ls. lines d ++ ls) (append_assoc (alternative_lines a) (lines r) rest))
      ∙ scan_if constants c top below taken n (lines d ++ later) h.0
      ∙ lines-chosen constants d (inner top b) (top ∷ below) taken n later h.1
      ∙ ap
          (λ x.
            scan_lines constants
              (driver_at (inner top b, top ∷ below) (taken ++ chosen constants x d) n) later)
          (is_included-inner top b)
      ∙ alternatives-chosen constants a b top below (taken ++ first) n (lines r ++ rest) h.2
      ∙ lines-chosen constants r top below ((taken ++ first) ++ second) n rest h.3
      ∙ ap (λ l. scan_lines constants (driver_at (top, below) l n) rest)
          (append_three taken first second (chosen constants i r))

  alternatives-chosen :
      (constants : Constants) (a : Alternatives) (b : Bool) (outer : Mark) (below : List Mark)
      (taken : List (List ℕ)) (n : ℕ) (rest : List Line)
      → AreAlternatives a
      → scan_lines constants
          (driver_at (inner outer b, outer ∷ below) taken n)
          (alternative_lines a ++ rest)
        ≡ scan_lines constants
            (driver_at
              (outer, below)
              (taken ++ chosen_alternatives constants (is_included outer) (not b) a)
              n)
            rest
  alternatives-chosen constants finished b outer below taken n rest h =
      scan_endif constants (inner outer b) outer below taken n rest
      ∙ ap (λ l. scan_lines constants (driver_at (outer, below) l n) rest) (sym (append-nil taken))
  alternatives-chosen constants (otherwise d a) b outer below taken n rest h =
      let i = is_included outer in
      let now = inner outer (not b) in
      let first = chosen constants (i && not b) d in
      let later = alternative_lines a ++ rest in
      ap
        (λ ls.
          scan_lines constants (driver_at (inner outer b, outer ∷ below) taken n) (else_line ∷ ls))
        (append_assoc (lines d) (alternative_lines a) rest)
      ∙ scan_else constants (inner outer b) outer below taken n (lines d ++ later)
      ∙ ap (λ m. scan_lines constants (driver_at (m, outer ∷ below) taken n) (lines d ++ later))
          (toggled-inner outer b)
      ∙ lines-chosen constants d now (outer ∷ below) taken n later h.0
      ∙ ap
          (λ x.
            scan_lines constants (driver_at (now, outer ∷ below) (taken ++ chosen constants x d) n)
              later)
          (is_included-inner outer (not b))
      ∙ alternatives-chosen constants a (not b) outer below (taken ++ first) n rest h.1
      ∙ ap (λ l. scan_lines constants (driver_at (outer, below) l n) rest)
          (append_assoc taken first (chosen_alternatives constants i (not (not b)) a))

-- Of a file whose conditional parts are nested and whose conditions are well formed, the parser's
-- driver takes exactly the code whose surrounding conditions all hold, in order: with each @else the
-- condition is turned around, a condition inside of what is left out is not looked at, no error is
-- reported, and the preprocessor is left as it was.
pub scan_lines-lines :
    (constants : Constants) (doc : Document)
    → IsDocument doc
    → scan_lines constants fresh_driver (lines doc)
      ≡ ok (record fresh_driver { taken = chosen constants true doc })
scan_lines-lines constants doc h =
    ap (scan_lines constants fresh_driver) (sym (append-nil (lines doc)))
    ∙ lines-chosen constants doc included [] [] 0 [] h
    ∙ unfold scan_lines in refl
