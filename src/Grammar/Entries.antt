-- ===== src/Grammar/Entries.antt =====
-- Looking up the entries of the tables in spicy/toolchain/src/compiler/codegen/grammar.cc.
use mathlib.Core.List.{Memᴰ}
use mathlib.Core.List.Memᴰ
use spicy.Base.{
  ℕ, ◌≡◌, refl, ap, subst, ◌∙◌, Bool, true, false, ◌||◌, List, [], ◌∷◌, ◌⊎◌, inl, inr, ◌==◌, ==_iff,
  and_true, Bool-cases, if◌then◌else◌,
}
use spicy.Grammar.{Entry, nullable, first, follow, same_entry, contains, firsts, follows}

same_numbers : (a b : ℕ) → (a == b) ≡ true → a ≡ b
same_numbers a b h = (==_iff a b).0 h

same_self : (a : ℕ) → (a == a) ≡ true
same_self a = (==_iff a a).1 refl

pub same_entry_sound : (d e : Entry) → same_entry d e ≡ true → d ≡ e
same_entry_sound (nullable a) (nullable b) h = ap nullable (same_numbers a b h)
same_entry_sound (first a s) (first b t) h =
    let k = and_true (a == b) (s == t) h in
    ap (λ c. first c s) (same_numbers a b k.0) ∙ ap (first b) (same_numbers s t k.1)
same_entry_sound (follow a s) (follow b t) h =
    let k = and_true (a == b) (s == t) h in
    ap (λ c. follow c s) (same_numbers a b k.0) ∙ ap (follow b) (same_numbers s t k.1)
same_entry_sound (nullable a) (first b t) h = cc
same_entry_sound (nullable a) (follow b t) h = cc
same_entry_sound (first a s) (nullable b) h = cc
same_entry_sound (first a s) (follow b t) h = cc
same_entry_sound (follow a s) (nullable b) h = cc
same_entry_sound (follow a s) (first b t) h = cc

pub same_entry_self : (e : Entry) → same_entry e e ≡ true
same_entry_self (nullable a) = same_self a
same_entry_self (first a s) = rw (same_self a) (same_self s)
same_entry_self (follow a s) = rw (same_self a) (same_self s)

pub contains-cons :
    (d e : Entry) (t : List Entry) → contains d (e ∷ t) ≡ true → (d ≡ e) ⊎ (contains d t ≡ true)
unfolding contains
contains-cons d e t h = elim (Bool-cases (same_entry d e)) [
  | inl k ↦ inl (same_entry_sound d e k)
  | inr k ↦ inr (subst (λ b. (b || contains d t) ≡ true) k h)
]

pub contains_head : (e : Entry) (t : List Entry) → contains e (e ∷ t) ≡ true
unfolding contains
contains_head e t = rw (same_entry_self e) refl

or_right : (a : Bool) {b : Bool} → b ≡ true → (a || b) ≡ true
or_right true h = refl
or_right false h = h

pub contains_tail : (d e : Entry) (t : List Entry) → contains d t ≡ true → contains d (e ∷ t) ≡ true
unfolding contains
contains_tail d e t h = or_right (same_entry d e) h

firsts-cons_tail :
    {t : ℕ} (a : ℕ) (e : Entry) (ts : List Entry)
    → Memᴰ t (firsts a ts)
    → Memᴰ t (firsts a (e ∷ ts))
unfolding firsts
firsts-cons_tail a (nullable b) ts m = m
firsts-cons_tail a (follow b s) ts m = m
firsts-cons_tail a (first b s) ts m = elim (Bool-cases (a == b)) [
  | inl k ↦ rw k (Memᴰ.tail m)
  | inr k ↦ rw k m
]

follows-cons_tail :
    {t : ℕ} (a : ℕ) (e : Entry) (ts : List Entry)
    → Memᴰ t (follows a ts)
    → Memᴰ t (follows a (e ∷ ts))
unfolding follows
follows-cons_tail a (nullable b) ts m = m
follows-cons_tail a (first b s) ts m = m
follows-cons_tail a (follow b s) ts m = elim (Bool-cases (a == b)) [
  | inl k ↦ rw k (Memᴰ.tail m)
  | inr k ↦ rw k m
]

pub contains-firsts :
    (a t : ℕ) (ts : List Entry) → contains (first a t) ts ≡ true → Memᴰ t (firsts a ts)
unfolding contains firsts
contains-firsts a t [] h = cc
contains-firsts a t (e ∷ ts) h = elim (contains-cons (first a t) e ts h) [
  | inl k ↦ subst (λ d. Memᴰ t (firsts a (d ∷ ts))) k (rw (same_self a) (Memᴰ.head refl))
  | inr k ↦ firsts-cons_tail a e ts (contains-firsts a t ts k)
]

pub contains-follows :
    (a t : ℕ) (ts : List Entry) → contains (follow a t) ts ≡ true → Memᴰ t (follows a ts)
unfolding contains follows
contains-follows a t [] h = cc
contains-follows a t (e ∷ ts) h = elim (contains-cons (follow a t) e ts h) [
  | inl k ↦ subst (λ d. Memᴰ t (follows a (d ∷ ts))) k (rw (same_self a) (Memᴰ.head refl))
  | inr k ↦ follows-cons_tail a e ts (contains-follows a t ts k)
]

pub firsts-contains :
    (a t : ℕ) (ts : List Entry) → Memᴰ t (firsts a ts) → contains (first a t) ts ≡ true
unfolding firsts
firsts-contains a t [] m = absurd (Memᴰ.not-nil m)
firsts-contains a t (nullable b ∷ ts) m =
    contains_tail (first a t) (nullable b) ts (firsts-contains a t ts m)
firsts-contains a t (follow b s ∷ ts) m =
    contains_tail (first a t) (follow b s) ts (firsts-contains a t ts m)
firsts-contains a t (first b s ∷ ts) m = elim (Bool-cases (a == b)) [
  | inl k ↦
      elim (Memᴰ.cases_cons
        (subst (λ c. Memᴰ t (if c then s ∷ firsts a ts else firsts a ts)) k m)) [
          | inl e ↦
              subst (λ d. contains (first a t) (d ∷ ts) ≡ true)
                (ap (first a) e ∙ ap (λ c. first c s) (same_numbers a b k))
                (contains_head (first a t) ts)
          | inr n ↦ contains_tail (first a t) (first b s) ts (firsts-contains a t ts n)
        ]
  | inr k ↦ contains_tail (first a t) (first b s) ts (
      firsts-contains a t ts (subst (λ c. Memᴰ t (if c then s ∷ firsts a ts else firsts a ts)) k m))
]

pub follows-contains :
    (a t : ℕ) (ts : List Entry) → Memᴰ t (follows a ts) → contains (follow a t) ts ≡ true
unfolding follows
follows-contains a t [] m = absurd (Memᴰ.not-nil m)
follows-contains a t (nullable b ∷ ts) m =
    contains_tail (follow a t) (nullable b) ts (follows-contains a t ts m)
follows-contains a t (first b s ∷ ts) m =
    contains_tail (follow a t) (first b s) ts (follows-contains a t ts m)
follows-contains a t (follow b s ∷ ts) m = elim (Bool-cases (a == b)) [
  | inl k ↦
      elim (Memᴰ.cases_cons
        (subst (λ c. Memᴰ t (if c then s ∷ follows a ts else follows a ts)) k m)) [
          | inl e ↦
              subst (λ d. contains (follow a t) (d ∷ ts) ≡ true)
                (ap (follow a) e ∙ ap (λ c. follow c s) (same_numbers a b k))
                (contains_head (follow a t) ts)
          | inr n ↦ contains_tail (follow a t) (follow b s) ts (follows-contains a t ts n)
        ]
  | inr k ↦ contains_tail (follow a t) (follow b s) ts (
      follows-contains a t ts
        (subst (λ c. Memᴰ t (if c then s ∷ follows a ts else follows a ts)) k m))
]
