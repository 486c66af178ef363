-- ===== src/Validate/Match.antt =====
-- `command_matches` of rust-old/src/validate.rs against a relation of texts and path components.
use shakti.Prelude.{
  ◌≡◌, ◌≢◌, refl, sym, ap, ◌∙◌, ◌↔◌, ◌⊎◌, inl, inr, true, false, List, [], ◌∷◌, ◌++◌, arith,
  Bool-cases, Option-cases,
}
use shakti.Text.{Text, codes, text_eq, strip_suffix, contains}
use shakti.Text.Laws.{text_eq_iff, strip_suffix_iff, strip_suffix-none}
use shakti.FilePath.{Component, root_dir, normal}
use shakti.Validate.{glob_dir, binary_path, command_matches}
use shakti.Validate.Parts.{
  FromPrefix, InDir, Named, matches_prefix→, →matches_prefix, matches_binary→, →matches_binary,
}

-- No argument wildcard.
abbrev pub IsPlain : Text → Type 0
IsPlain pattern = (q : Text) → pattern ≢ q ++ codes " *"

-- What the patterns mean.
pub data Matches (command pattern : Text) : Type 0 where
  every : pattern ≡ codes "ALL" → Matches command pattern
  star : pattern ≡ codes "*" → Matches command pattern
  exact : command ≡ pattern → Matches command pattern
  no_args : pattern ≡ command ++ codes " *" → Matches command pattern
  args :
      (prefix rest : Text)
      → pattern ≡ prefix ++ codes " *"
      → command ≡ prefix ++ b' ' ∷ rest
      → Matches command pattern
  in_dir :
      (dir : Text) (c : Component)
      → IsPlain pattern
      → pattern ≡ dir ++ codes "/*"
      → c ≢ root_dir
      → binary_path command ≡ glob_dir dir ++ c ∷ []
      → Matches command pattern
  named :
      (p : List Component)
      → IsPlain pattern
      → contains pattern b'/' ≡ false
      → binary_path command ≡ p ++ normal pattern ∷ []
      → Matches command pattern

binary-Matches :
    (command pattern : Text)
    → IsPlain pattern
    → InDir command pattern ⊎ Named command pattern
    → Matches command pattern
binary-Matches command pattern plain (inl (dir, c, e, n, q)) = in_dir dir c plain e n q
binary-Matches command pattern plain (inr (p, h, q)) = named p plain h q

prefix-Matches :
    (command pattern prefix : Text)
    → pattern ≡ prefix ++ codes " *"
    → FromPrefix command prefix
    → Matches command pattern
prefix-Matches command pattern prefix e (inl same) =
    no_args (e ∙ ap (λ t. t ++ codes " *") (sym same))
prefix-Matches command pattern prefix e (inr (rest, c)) = args prefix rest e c

command_matches→ :
    (command pattern : Text) → command_matches command pattern ≡ true → Matches command pattern
unfolding command_matches
command_matches→ command pattern h = elim (Bool-cases (text_eq pattern (codes "ALL"))) [
  | inl a ↦ every ((text_eq_iff pattern (codes "ALL")).0 a)
  | inr a ↦ elim (Bool-cases (text_eq pattern (codes "*"))) [
    | inl b ↦ star ((text_eq_iff pattern (codes "*")).0 b)
    | inr b ↦ elim (Bool-cases (text_eq command pattern)) [
      | inl c ↦ exact ((text_eq_iff command pattern).0 c)
      | inr c ↦ elim (Option-cases (strip_suffix pattern (codes " *"))) [
        | inl d ↦
            binary-Matches command pattern
              (λ q e. cc (d, (strip_suffix_iff pattern (codes " *") q).1 e))
              (matches_binary→ command pattern (ground arith))
        | inr (prefix, d) ↦
            prefix-Matches command pattern prefix
              ((strip_suffix_iff pattern (codes " *") prefix).0 d)
              (matches_prefix→ command prefix (ground arith))
      ]
    ]
  ]
]

matches_suffix :
    (command pattern prefix : Text)
    → pattern ≡ prefix ++ codes " *"
    → FromPrefix command prefix
    → command_matches command pattern ≡ true
unfolding command_matches
matches_suffix command pattern prefix e f =
    ground
      (arith, (strip_suffix_iff pattern (codes " *") prefix).1 e, →matches_prefix command prefix f)

matches_plain :
    (command pattern : Text)
    → IsPlain pattern
    → InDir command pattern ⊎ Named command pattern
    → command_matches command pattern ≡ true
unfolding command_matches
matches_plain command pattern plain b =
    ground (arith, strip_suffix-none pattern (codes " *") plain, →matches_binary command pattern b)

of-Matches :
    (command pattern : Text) → Matches command pattern → command_matches command pattern ≡ true
unfolding command_matches
of-Matches command pattern (every e) = rw ((text_eq_iff pattern (codes "ALL")).1 e, command_matches)
of-Matches command pattern (star e) = ground (arith, (text_eq_iff pattern (codes "*")).1 e)
of-Matches command pattern (exact e) = ground (arith, (text_eq_iff command pattern).1 e)
of-Matches command pattern (no_args e) = matches_suffix command pattern command e (inl refl)
of-Matches command pattern (args prefix rest e c) =
    matches_suffix command pattern prefix e (inr (rest, c))
of-Matches command pattern (in_dir dir c plain e n q) =
    matches_plain command pattern plain (inl (dir, c, e, n, q))
of-Matches command pattern (named p plain h q) = matches_plain command pattern plain (inr (p, h, q))

-- A command matches a pattern exactly if the pattern is ALL or a star; or the texts are equal; or
-- the pattern ends in an argument wildcard and the command is what stands before it, alone or
-- followed by a space; or, the pattern having no argument wildcard, it names a directory that is
-- the parent of the command's binary, or, holding no slash, is the name of that binary.
pub command_matches_iff :
    (command pattern : Text) → (command_matches command pattern ≡ true) ↔ Matches command pattern
command_matches_iff command pattern = (command_matches→ command pattern, of-Matches command pattern)
