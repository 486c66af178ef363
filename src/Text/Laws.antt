-- ===== src/Text/Laws.antt =====
-- What the string operations of Text.antt compute.
use shakti.Prelude.{
  ℕ, ◌≡◌, ◌≢◌, refl, ap, ◌↔◌, ◌⊎◌, inl, inr, true, false, none, some, List, [], ◌∷◌, ◌++◌, arith,
  ◌==◌, ==_iff, Bool-cases, Option-cases, length, length-append, All, Any, ◌||◌,
}
use shakti.Text.{
  Text, text_eq, starts_with, strip_suffix, contains, before, split, replace, push_first,
}

text_eq→eq : (s t : Text) → text_eq s t ≡ true → s ≡ t
unfolding text_eq
text_eq→eq [] [] h = refl
text_eq→eq (a ∷ s) (b ∷ t) h = ground (arith, text_eq→eq s t)
text_eq→eq [] (b ∷ t) h = cc
text_eq→eq (a ∷ s) [] h = cc

text_eq_self : (s : Text) → text_eq s s ≡ true
unfolding text_eq
text_eq_self [] = refl
text_eq_self (a ∷ s) = ground (arith, text_eq_self s)

pub text_eq_iff : (s t : Text) → (text_eq s t ≡ true) ↔ (s ≡ t)
text_eq_iff s t = (text_eq→eq s t, λ e. rw e (text_eq_self t))

pub text_eq_refl : (s : Text) → text_eq s s ≡ true
text_eq_refl s = text_eq_self s

pub text_eq-false : (s t : Text) → s ≢ t → text_eq s t ≡ false
text_eq-false s t h = ground (arith, text_eq_iff s t)

starts_with→append : (s t : Text) → starts_with s t ≡ true → (rest : Text) × (s ≡ t ++ rest)
unfolding starts_with
starts_with→append s [] h = (s, refl)
starts_with→append [] (b ∷ t) h = absurd (ground arith)
starts_with→append (a ∷ s) (b ∷ t) h =
    let (rest, e) = starts_with→append s t (ground arith) in (rest, ground (arith, e))

pub starts_with-append : (t rest : Text) → starts_with (t ++ rest) t ≡ true
unfolding starts_with
starts_with-append [] rest = refl
starts_with-append (b ∷ t) rest = ground (arith, starts_with-append t rest)

pub starts_with_iff : (s t : Text) → (starts_with s t ≡ true) ↔ ((rest : Text) × (s ≡ t ++ rest))
starts_with_iff s t = (starts_with→append s t, λ (rest, e). rw e (starts_with-append t rest))

text_eq-longer : (a : ℕ) (p suffix : Text) → text_eq (a ∷ (p ++ suffix)) suffix ≡ false
text_eq-longer a p suffix =
    text_eq-false (a ∷ (p ++ suffix)) suffix
      (λ e. omega (arith, ap (length {A = ℕ}) e, length-append {0} p suffix))

strip_suffix-append : (p suffix : Text) → strip_suffix (p ++ suffix) suffix ≡ some p
unfolding strip_suffix
strip_suffix-append [] [] = refl
strip_suffix-append [] (b ∷ suffix) = rw (text_eq_self (b ∷ suffix))
strip_suffix-append (a ∷ p) suffix =
    rw (text_eq-longer a p suffix) (rw (strip_suffix-append p suffix))

strip_suffix→append : (s suffix p : Text) → strip_suffix s suffix ≡ some p → s ≡ p ++ suffix
unfolding strip_suffix
strip_suffix→append [] suffix p h = ground (arith, text_eq_iff [] suffix)
strip_suffix→append (a ∷ s) suffix [] h = ground (arith, text_eq_iff (a ∷ s) suffix)
strip_suffix→append (a ∷ s) suffix (b ∷ p) h = ground (arith, strip_suffix→append s suffix p)

pub strip_suffix_iff : (s suffix p : Text) → (strip_suffix s suffix ≡ some p) ↔ (s ≡ p ++ suffix)
strip_suffix_iff s suffix p =
    (strip_suffix→append s suffix p, λ e. rw e (strip_suffix-append p suffix))

pub strip_suffix-none :
    (s suffix : Text) → ((p : Text) → s ≢ p ++ suffix) → strip_suffix s suffix ≡ none
strip_suffix-none s suffix h = elim (Option-cases (strip_suffix s suffix)) [
  | inl e ↦ e
  | inr (p, e) ↦ absurd (h p (strip_suffix→append s suffix p e))
]

contains→Any : (s : Text) (c : ℕ) → contains s c ≡ true → Any (λ a. a ≡ c) s
unfolding contains
contains→Any [] c h = cc
contains→Any (a ∷ s) c h = elim (Bool-cases (a == c)) [
  | inl e ↦ inl ((==_iff a c).0 e)
  | inr e ↦ inr (contains→Any s c (rw e at h))
]

Any→contains : (s : Text) (c : ℕ) → Any (λ a. a ≡ c) s → contains s c ≡ true
unfolding contains
Any→contains [] c h = absurd h
Any→contains (a ∷ s) c (inl e) = ground arith
Any→contains (a ∷ s) c (inr h) = ground (arith, Any→contains s c h)

pub contains_iff : (s : Text) (c : ℕ) → (contains s c ≡ true) ↔ Any (λ a. a ≡ c) s
contains_iff s c = (contains→Any s c, Any→contains s c)

pub contains-append : (s t : Text) (c : ℕ) → contains (s ++ t) c ≡ (contains s c || contains t c)
unfolding contains
contains-append [] t c = refl
contains-append (a ∷ s) t c = ground (arith, contains-append s t c)

-- No occurrence of the separator: the search runs to the end.
pub before_absent : (s : Text) (c : ℕ) → contains s c ≡ false → before s c ≡ s
unfolding contains before
before_absent [] c h = refl
before_absent (a ∷ s) c h = ground (arith, before_absent s c)

pub before-append : (s t : Text) (c : ℕ) → contains s c ≡ false → before (s ++ c ∷ t) c ≡ s
unfolding contains before
before-append [] t c h = ground arith
before-append (a ∷ s) t c h = ground (arith, before-append s t c)

pub contains-before : (s : Text) (c : ℕ) → contains (before s c) c ≡ false
unfolding contains before
contains-before [] c = refl
contains-before (a ∷ s) c = ground (arith, contains-before s c)

-- A text is what stands before the separator, or that, the separator and a rest.
pub before_split :
    (s : Text) (c : ℕ) → (before s c ≡ s) ⊎ ((rest : Text) × (s ≡ before s c ++ c ∷ rest))
unfolding before
before_split [] c = inl refl
before_split (a ∷ s) c = elim (Bool-cases (a == c)) [
  | inl e ↦ inr (s, ground arith)
  | inr e ↦ elim (before_split s c) [
    | inl h ↦ inl (ground arith)
    | inr (rest, h) ↦ inr (rest, ground arith)
  ]
]

pub split_absent : (s : Text) (c : ℕ) → contains s c ≡ false → split s c ≡ s ∷ []
unfolding contains split
split_absent [] c h = refl
split_absent (a ∷ s) c h = ground (arith, split_absent s c)

pub split-append :
    (s t : Text) (c : ℕ) → contains s c ≡ false → split (s ++ c ∷ t) c ≡ s ∷ split t c
unfolding contains split
split-append [] t c h = ground arith
split-append (a ∷ s) t c h = ground (arith, split-append s t c)

pub contains-replace :
    (s : Text) (from to : ℕ) → from ≢ to → contains (replace s from to) from ≡ false
unfolding contains replace
contains-replace [] from to h = refl
contains-replace (a ∷ s) from to h = ground (arith, contains-replace s from to h)

pub append_cancel_left : (s t u : Text) → s ++ t ≡ s ++ u → t ≡ u
append_cancel_left [] t u h = h
append_cancel_left (a ∷ s) t u h = append_cancel_left s t u (cc)

-- No piece between separators holds the separator.
abbrev pub Absent : ℕ → Text → Type 0
Absent c s = contains s c ≡ false

push_first-Absent :
    (c a : ℕ) (ss : List Text)
    → (a == c) ≡ false
    → All (Absent c) ss
    → All (Absent c) (push_first a ss)
unfolding contains
push_first-Absent c a [] e h = (ground arith, tt)
push_first-Absent c a (s ∷ ss) e h = (ground arith, h.1)

pub split-Absent : (s : Text) (c : ℕ) → All (Absent c) (split s c)
unfolding split contains
split-Absent [] c = (refl, tt)
split-Absent (a ∷ s) c = elim (Bool-cases (a == c)) [
  | inl e ↦ rw (e, split) (refl, split-Absent s c)
  | inr e ↦ rw (e, split) (push_first-Absent c a (split s c) e (split-Absent s c))
]
