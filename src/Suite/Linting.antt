-- ===== src/Suite/Linting.antt =====
-- The tests of `lint_policy` in rust-old/src/policy.rs.
use shakti.Prelude.{Bool, true, false, ◌≡◌, refl, ◌&&◌, not, some, [], ◌∷◌, any}
use shakti.Text.{Text, codes, text_eq, starts_with, strip_suffix, contains, before, split, decimal}
use shakti.FilePath.{components, pieces, piece, components_eq, component_eq, parent, file_name}
use shakti.Validate.{
  command_matches, matches_prefix, matches_binary, matches_dir, matches_basename, binary_path,
  glob_dir,
}
use shakti.Policy.{policy_defaults}
use shakti.Load.{Document, fill, fill_rule, fill_defaults}
use shakti.Lint.{
  Severity, error, warning, lint_policy, lint_defaults, lint_rules, lint_rule, lint_denies,
  lint_duplicates, is_star, overlaps, option_eq, same_key, duplicate_message, trim_end_matches,
}
use shakti.Suite.{all_true, mentions, no_defaults, bare, document, document_with}
use shakti.Suite.Samples.{sample_policy}

abbrev is_error : Severity → Bool
is_error error = true
is_error warning = false

-- A warning whose message contains a text.
abbrev warns : Document → Text → Bool
warns doc t = any (λ w. mentions w.message t) (lint_policy (fill doc))

-- The same, of an error.
abbrev errs : Document → Text → Bool
errs doc t = any (λ w. is_error w.severity && mentions w.message t) (lint_policy (fill doc))

abbrev test_lint_clean_policy : Bool
test_lint_clean_policy = not (any (λ w. is_error w.severity) (lint_policy (fill sample_policy)))

abbrev test_lint_empty_policy : Bool
test_lint_empty_policy = warns (document []) (codes "no rules")

abbrev test_lint_no_user_no_group : Bool
test_lint_no_user_no_group =
    errs (document (record bare { commands = some (codes "/usr/bin/ls" ∷ []) } ∷ []))
      (codes "neither")

abbrev test_lint_wildcard_nopasswd_all : Bool
test_lint_wildcard_nopasswd_all =
    errs
      (document (
        record bare { user = some (codes "*"); commands = some []; require_auth = some false }
        ∷ []))
      (codes "ALL commands")

abbrev test_lint_global_nopasswd : Bool
test_lint_global_nopasswd =
    warns
      (document_with (record no_defaults { require_auth = some false })
        (record bare { user = some (codes "admin") } ∷ []))
      (codes "Global require_auth is false")

abbrev test_lint_ttl_zero_with_auth : Bool
test_lint_ttl_zero_with_auth =
    warns
      (document_with (record no_defaults { timestamp_ttl = some 0; require_auth = some true })
        (record bare { user = some (codes "admin") } ∷ []))
      (codes "timestamp_ttl is 0")

abbrev test_lint_run_as_wildcard_all_commands : Bool
test_lint_run_as_wildcard_all_commands =
    warns
      (document (
        record bare { user = some (codes "admin"); run_as = some (codes "*"); commands = some [] }
        ∷ []))
      (codes "running as any user")

abbrev test_lint_duplicate_rules : Bool
test_lint_duplicate_rules =
    warns
      (document (
        record bare { user = some (codes "admin"); commands = some (codes "/usr/bin/ls" ∷ []) }
        ∷ record bare { user = some (codes "admin"); commands = some (codes "/usr/bin/rm" ∷ []) }
        ∷ []))
      (codes "merging")

abbrev test_lint_unreachable_deny : Bool
test_lint_unreachable_deny =
    warns
      (document (
        record bare {
          user = some (codes "admin");
          commands = some (codes "/usr/bin/ls" ∷ []);
          deny_commands = some (codes "/usr/bin/rm" ∷ []);
        }
        ∷ []))
      (codes "unreachable")

linting_tests_hold :
    all_true (
      test_lint_clean_policy ∷ test_lint_empty_policy ∷ test_lint_no_user_no_group
      ∷ test_lint_wildcard_nopasswd_all ∷ test_lint_global_nopasswd ∷ test_lint_ttl_zero_with_auth
      ∷ test_lint_run_as_wildcard_all_commands ∷ test_lint_duplicate_rules
      ∷ test_lint_unreachable_deny ∷ [])
    ≡ true
unfolding command_matches matches_prefix matches_binary matches_dir matches_basename binary_path
    glob_dir any text_eq starts_with strip_suffix contains before split decimal components pieces
    piece components_eq component_eq parent file_name policy_defaults fill fill_rule fill_defaults
    lint_policy lint_defaults lint_rules lint_rule lint_denies lint_duplicates is_star overlaps
    option_eq same_key duplicate_message trim_end_matches mentions
linting_tests_hold = refl
