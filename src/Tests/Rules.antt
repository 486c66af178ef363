-- ===== src/Tests/Rules.antt =====
-- Examples of rules, of what the check answers by them, and of what the linter says of them.
use shakti.Prelude.{◌≡◌, refl, ◌↔◌, inl, inr, true, false, [], ◌∷◌, any}
use shakti.Text.{Text, codes, text_eq, starts_with, strip_suffix, contains, before, split}
use shakti.FilePath.{components, pieces, piece, components_eq, component_eq, parent, file_name}
use shakti.Validate.{command_matches, matches_binary, matches_dir, matches_basename, binary_path}
use shakti.Validate.Alias.{respell}
use shakti.Policy.{
  SudoPolicy, PolicyRule, allowed, denied, policy_defaults, user_matches, group_matches,
  matches_any, round, check_rules, check_authorization, deny_message,
}
use shakti.Policy.Verdict.{Applies, Grants, Passes, matches_any_iff}
use shakti.Policy.Decision.{Verdict, check, check_authorization_iff}
use shakti.Policy.Priority.{orphan-Passes}
use shakti.Policy.Growth.{deny_also, deny_also-allowed}
use shakti.Policy.Respelled.{respelled_is_allowed}
use shakti.Lint.{warning, at_rule, lint_policy, same_key, option_eq, duplicate_message}
use shakti.Lint.Merge.{Reported, second_rule_is_used}
use shakti.Tests.Fixtures.{alice, vi, root, one_command, all_but_one, orphan, policy_of}
use shakti.Tests.Commands.{vi-IsExactPath}

abbrev ordinary : SudoPolicy
ordinary = policy_of (one_command ∷ [])

abbrev open_policy : SudoPolicy
open_policy = policy_of (all_but_one ∷ [])

vi_allowed : check_authorization ordinary alice [] root vi ≡ allowed true
unfolding policy_defaults check_authorization check_rules round user_matches group_matches
    matches_any command_matches any text_eq
vi_allowed = refl

applies : (command : Text) → Applies alice [] root command one_command
applies command = (inr (inl refl), inr refl)

check_authorization_iff_example :
    (check_authorization ordinary alice [] root vi ≡ allowed true)
    ↔ Verdict alice [] root vi ordinary.defaults ordinary.rules (allowed true)
check_authorization_iff_example = check_authorization_iff alice [] root vi ordinary (allowed true)

unnamed-Passes : Passes alice [] root vi orphan
unnamed-Passes = orphan-Passes alice [] root vi orphan refl refl

respelled_is_allowed_example :
    (components (respell vi) ≡ components vi)
    × (check_authorization open_policy alice [] root vi ≡ denied (deny_message vi all_but_one))
    × (check_authorization open_policy alice [] root (respell vi) ≡ allowed false)
respelled_is_allowed_example =
    respelled_is_allowed alice [] root vi open_policy all_but_one [] refl (inr (inl refl), inr refl)
      refl refl vi-IsExactPath

-- Two rules with one key: the first denies and grants nothing that is asked for.
abbrev merged : SudoPolicy
merged = policy_of (one_command ∷ all_but_one ∷ [])

abbrev cat : Text
cat = codes "/bin/cat"

one_key : same_key one_command all_but_one ≡ true
unfolding same_key text_eq option_eq
one_key = refl

cat_missed : matches_any cat (vi ∷ []) ≡ false
unfolding matches_any command_matches any text_eq strip_suffix contains before components pieces
    piece starts_with split parent components_eq component_eq file_name matches_binary matches_dir
    matches_basename binary_path
cat_missed = refl

cat-Passes : Passes alice [] root cat one_command
cat-Passes = (
  λ d. d.1,
  λ g. elim g.2 [ inl e ↦ cc e | inr h ↦ cc ((matches_any_iff cat (vi ∷ [])).1 h, cat_missed) ],
)

cat-Grants : Grants alice [] root cat all_but_one
cat-Grants = (
  (inr (inl refl), inr refl),
  λ h. cc ((matches_any_iff cat (vi ∷ [])).1 h, cat_missed),
  inl refl,
)

second_rule_is_used_example :
    Reported (at_rule 0 warning (duplicate_message 0 1)) (lint_policy merged)
    × (check_authorization merged alice [] root cat ≡ allowed false)
second_rule_is_used_example =
    second_rule_is_used alice [] root cat merged [] one_command [] all_but_one [] refl one_key tt
      cat-Passes tt cat-Grants

abbrev with_orphan : SudoPolicy
with_orphan = policy_of (one_command ∷ orphan ∷ [])

-- The rule without the pattern.
abbrev all : PolicyRule
all = record all_but_one { deny_commands = [] }

cat_allowed : check alice [] root cat policy_defaults (deny_also vi all ∷ []) ≡ allowed false
unfolding policy_defaults check_authorization check_rules round user_matches group_matches
    matches_any command_matches any text_eq strip_suffix contains before components pieces piece
    starts_with split parent components_eq component_eq file_name matches_binary matches_dir
    matches_basename binary_path
cat_allowed = refl

deny_also-allowed_example : check alice [] root cat policy_defaults (all ∷ []) ≡ allowed false
deny_also-allowed_example =
    deny_also-allowed alice [] root cat policy_defaults [] vi all [] false cat_allowed
