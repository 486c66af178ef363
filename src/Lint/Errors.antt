-- ===== src/Lint/Errors.antt =====
-- When `lint_policy` of rust-old/src/policy.rs reports an error.
use shakti.Prelude.{◌≡◌, Bool, true, false, ◌&&◌, ◌||◌, not, none, some, List, [], any, is_empty}
use shakti.Text.{Text, codes}
use shakti.Policy.{PolicyRule}
use shakti.Lint.{error, warning, PolicyWarning, is_none, is_star}

abbrev pub is_error : PolicyWarning → Bool
is_error w = elim w.severity [ error ↦ true | warning ↦ false ]

unfoldable pub has_error : List PolicyWarning → Bool
has_error ws = any is_error ws

-- The two things that the linter calls an error.
abbrev flaw : PolicyRule → Bool
flaw rule =
    is_none rule.user && is_none rule.group
    || is_star rule.user && is_empty rule.commands && not rule.require_auth

-- Someone is named by the rule, and it does not open every command to everybody without a password.
pub record IsSound (rule : PolicyRule) : Type 0 where
  pub named : ¬ ((rule.user ≡ none) × (rule.group ≡ none))
  pub closed :
      ¬ ((rule.user ≡ some (codes "*")) × (rule.commands ≡ []) × (rule.require_auth ≡ false))
