-- ===== src/Validate/Parts.antt =====
-- What each test of `command_matches` in rust-old/src/validate.rs decides.
use shakti.Prelude.{
  ℕ, ◌≡◌, ◌≢◌, refl, ap, ◌∙◌, ◌⊎◌, inl, inr, true, false, none, some, List, [], ◌∷◌, ◌++◌, arith,
  Bool-cases, Option-cases, length, get_or, length-append, ltb, ◌==◌,
}
use shakti.Text.{Text, codes, text_eq, strip_suffix, contains}
use shakti.Text.Laws.{
  text_eq_iff, text_eq_refl, starts_with_iff, starts_with-append, strip_suffix_iff,
  strip_suffix-none, contains-append,
}
use mathlib.Core.Bool.{or-true}
use shakti.FilePath.{Component, root_dir, normal, parent, file_name}
use shakti.FilePath.Laws.{components_eq_iff, parent_iff, file_name_iff}
use shakti.Validate.{
  matches_prefix, glob_dir, matches_dir, matches_basename, matches_binary, binary_path,
}

get_or-append : (s t : Text) (c : ℕ) → get_or (s ++ c ∷ t) (length s) 0 ≡ c
get_or-append [] t c = refl
get_or-append (a ∷ s) t c = get_or-append s t c

abbrev pub FromPrefix : Text → Text → Type 0
FromPrefix command prefix = (command ≡ prefix) ⊎ ((rest : Text) × (command ≡ prefix ++ b' ' ∷ rest))

longer :
    (command prefix rest : Text)
    → command ≡ prefix ++ rest
    → ltb (length prefix) (length command) ≡ true
    → (get_or command (length prefix) 0 == b' ') ≡ true
    → (t : Text) × (command ≡ prefix ++ b' ' ∷ t)
longer command prefix [] e h k =
    absurd (ground (arith, ap (length {A = ℕ}) e, length-append {0} prefix []))
longer command prefix (r ∷ rest) e h k = (
  rest,
  ground (arith, e, get_or-append prefix rest r, ap (λ (t : Text). get_or t (length prefix) 0) e),
)

pub matches_prefix→ :
    (command prefix : Text) → matches_prefix command prefix ≡ true → FromPrefix command prefix
unfolding matches_prefix
matches_prefix→ command prefix h = elim (Bool-cases (text_eq command prefix)) [
  | inl e ↦ inl ((text_eq_iff command prefix).0 e)
  | inr e ↦
      let (rest, s) = (starts_with_iff command prefix).0 (ground arith) in
      inr (longer command prefix rest s (ground arith) (ground arith))
]

pub →matches_prefix :
    (command prefix : Text) → FromPrefix command prefix → matches_prefix command prefix ≡ true
unfolding matches_prefix
→matches_prefix command prefix (inl e) = rw ((text_eq_iff command prefix).1 e)
→matches_prefix command prefix (inr (rest, e)) = rw e (
    ground (
      arith,
      get_or-append prefix rest b' ',
      length-append {0} prefix (b' ' ∷ rest),
      starts_with-append prefix (b' ' ∷ rest),
    ))

abbrev pub InDir : Text → Text → Type 0
InDir command pattern =
    (dir : Text) × (c : Component) × (pattern ≡ dir ++ codes "/*")
    × (c ≢ root_dir)
    × (binary_path command ≡ glob_dir dir ++ c ∷ [])

matches_dir→ :
    (command pattern : Text)
    → matches_dir (binary_path command) pattern ≡ some true
    → InDir command pattern
unfolding matches_dir
matches_dir→ command pattern h = elim (Option-cases (strip_suffix pattern (codes "/*"))) [
  | inl e ↦ absurd (ground arith)
  | inr (dir, e) ↦ elim (Option-cases (parent (binary_path command))) [
    | inl p ↦ absurd (ground arith)
    | inr (up, p) ↦
        let (c, n, q) = (parent_iff (binary_path command) up).0 p in
        let same = (components_eq_iff up (glob_dir dir)).0 (ground arith) in
        (dir, c, (strip_suffix_iff pattern (codes "/*") dir).0 e, n, q ∙ ap (λ l. l ++ c ∷ []) same)
  ]
]

→matches_dir :
    (command pattern : Text)
    → InDir command pattern
    → matches_dir (binary_path command) pattern ≡ some true
unfolding matches_dir
→matches_dir command pattern (dir, c, e, n, q) = ground (
  arith,
  (strip_suffix_iff pattern (codes "/*") dir).1 e,
  (parent_iff (binary_path command) (glob_dir dir)).1 (c, n, q),
  (components_eq_iff (glob_dir dir) (glob_dir dir)).1 refl,
)

abbrev pub Named : Text → Text → Type 0
Named command pattern =
    (p : List Component) × (contains pattern b'/' ≡ false)
    × (binary_path command ≡ p ++ normal pattern ∷ [])

matches_basename→ :
    (command pattern : Text)
    → matches_basename (binary_path command) pattern ≡ true
    → Named command pattern
unfolding matches_basename
matches_basename→ command pattern h = elim (Option-cases (file_name (binary_path command))) [
  | inl e ↦ absurd (ground arith)
  | inr (name, e) ↦
      let (p, q) = (file_name_iff (binary_path command) name).0 e in
      let same : name ≡ pattern = (text_eq_iff name pattern).0 (ground arith) in
      (p, ground arith, q ∙ ap (λ t. p ++ normal t ∷ []) same)
]

-- A directory pattern holds a slash.
contains-glob : (dir : Text) → contains (dir ++ codes "/*") b'/' ≡ true
contains-glob dir = rw contains-append (unfold contains in or-true (contains dir b'/'))

pub matches_dir-none :
    (command pattern : Text)
    → contains pattern b'/' ≡ false
    → matches_dir (binary_path command) pattern ≡ none
unfolding matches_dir
matches_dir-none command pattern h = ground (
  arith,
  strip_suffix-none pattern (codes "/*")
      λ dir e. cc (contains-glob dir, ap (λ t. contains t b'/') e),
)

→matches_basename :
    (command pattern : Text)
    → Named command pattern
    → matches_basename (binary_path command) pattern ≡ true
unfolding matches_basename
→matches_basename command pattern (p, h, q) =
    ground (arith, (file_name_iff (binary_path command) pattern).1 (p, q), text_eq_refl pattern)

pub matches_binary→ :
    (command pattern : Text)
    → matches_binary (binary_path command) pattern ≡ true
    → InDir command pattern ⊎ Named command pattern
unfolding matches_binary
matches_binary→ command pattern h =
    elim (Option-cases (matches_dir (binary_path command) pattern)) [
      | inl e ↦ inr (matches_basename→ command pattern (ground arith))
      | inr (b, e) ↦ inl (matches_dir→ command pattern (ground arith))
    ]

pub →matches_binary :
    (command pattern : Text)
    → InDir command pattern ⊎ Named command pattern
    → matches_binary (binary_path command) pattern ≡ true
unfolding matches_binary
→matches_binary command pattern (inl d) = ground (arith, →matches_dir command pattern d)
→matches_binary command pattern (inr n) =
    ground (arith, →matches_basename command pattern n, matches_dir-none command pattern n.1)
