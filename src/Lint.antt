-- ===== src/Lint.antt =====
-- rust-old/src/policy.rs: `lint_policy`. A message is the text that the source builds; the long
-- dash in it is three bytes.
pub mod Errors
pub mod Index
pub mod Merge
pub mod Trim
use shakti.Prelude.{
  ℕ, zero, suc, ◌+◌, Bool, true, false, ◌&&◌, ◌||◌, not, Option, none, some, List, [], ◌∷◌, ◌++◌,
  length, is_empty, any, ◌==◌, leb, if◌then◌else◌,
}
use shakti.Text.{Text, codes, text_eq, starts_with, strip_suffix, decimal}
use shakti.Validate.{command_matches}
use shakti.Policy.{PolicyRule, PolicyDefaults, SudoPolicy}

-- `"error"` and `"warning"`
pub data Severity : Type 0 where
  error warning : Severity

pub record PolicyWarning : Type 0 where
  pub severity : Severity
  pub rule_index : Option ℕ
  pub message : Text

abbrev dash : Text
dash = 0xe2 ∷ 0x80 ∷ 0x94 ∷ []

-- `if test { warnings.push(w) }`
abbrev pub push_if : Bool → PolicyWarning → List PolicyWarning
push_if true w = w ∷ []
push_if false w = []

unfoldable pub global_warning : Text → PolicyWarning
global_warning message = record { severity = warning; rule_index = none; message = message }

unfoldable pub lint_defaults : SudoPolicy → List PolicyWarning
unfolding global_warning
lint_defaults policy =
    push_if (is_empty policy.rules) (
      global_warning
        (codes "Policy has no rules " ++ (dash ++ codes " all commands will be denied")))
    ++ (push_if (policy.defaults.timestamp_ttl == 0 && policy.defaults.require_auth) (
          global_warning (
            codes "timestamp_ttl is 0 with require_auth=true "
            ++ (dash ++ codes " password required on every invocation")))
        ++ push_if (not policy.defaults.require_auth) (
            global_warning (
              codes "Global require_auth is false "
              ++ (dash ++ codes " all rules default to NOPASSWD"))))

abbrev pub is_none : Option Text → Bool
is_none none = true
is_none (some s) = false

-- `rule.user.as_deref() == Some("*")`
unfoldable pub is_star : Option Text → Bool
is_star none = false
is_star (some s) = text_eq s (codes "*")

unfoldable pub at_rule : ℕ → Severity → Text → PolicyWarning
at_rule i severity message = record { severity = severity; rule_index = some i; message = message }

-- The checks of one rule by itself, up to the loop over its deny patterns.
unfoldable pub lint_rule : ℕ → PolicyRule → List PolicyWarning
unfolding at_rule
lint_rule i rule =
    push_if (is_none rule.user && is_none rule.group) (
      at_rule i error
        (codes "Rule has neither 'user' nor 'group' " ++ (dash ++ codes " it will never match")))
    ++ (push_if (not (is_empty rule.deny_commands) && is_empty rule.commands) (
          at_rule i warning (
            codes "Rule has deny_commands but commands is empty (allows all) "
            ++ (dash
                ++ (codes " deny patterns will still be checked, but consider listing explicit "
                    ++ codes "allowed commands for defense-in-depth"))))
        ++ (push_if (is_star rule.user && not rule.require_auth) (
              at_rule i warning (
                codes "Rule grants all users (*) NOPASSWD access "
                ++ (dash ++ codes " verify this is intended")))
            ++ (push_if (is_star rule.user && is_empty rule.commands && not rule.require_auth) (
                  at_rule i error (
                    codes "Rule grants ALL commands to ALL users with NOPASSWD "
                    ++ (dash ++ codes " this effectively disables privilege escalation security")))
                ++ push_if (text_eq rule.run_as (codes "*") && is_empty rule.commands) (
                    at_rule i warning (
                      codes "Rule allows running as any user with all commands "
                      ++ (dash ++ codes " consider restricting run_as or commands"))))))

-- `s.trim_end_matches(suffix)` takes the suffix off as often as it stands there. Each time makes
-- the text shorter, so its length bounds the rounds.
trim_rounds : ℕ → Text → Text → Text
trim_rounds zero s suffix = s
trim_rounds (suc n) s suffix = elim (strip_suffix s suffix) [
  | none ↦ s
  | some t ↦ trim_rounds n t suffix
]

unfoldable pub trim_end_matches : Text → Text → Text
unfolding trim_rounds
trim_end_matches s suffix = trim_rounds (length s) s suffix

unfoldable pub overlaps : Text → Text → Bool
overlaps deny allow =
    text_eq allow (codes "ALL")
    || text_eq allow (codes "*")
    || starts_with deny (trim_end_matches allow (codes " *"))
    || command_matches deny allow

-- The loop over the deny patterns.
unfoldable pub lint_denies : ℕ → PolicyRule → List Text → List PolicyWarning
unfolding at_rule
lint_denies i rule [] = []
lint_denies i rule (deny ∷ denies) =
    push_if (not (is_empty rule.commands) && not (any (overlaps deny) rule.commands)) (
      at_rule i warning (
        codes "deny_commands pattern '"
        ++ (deny
            ++ (codes "' doesn't overlap with any commands entry "
                ++ (dash ++ codes " it may be unreachable")))))
    ++ lint_denies i rule denies

-- `a == b` on optional strings
unfoldable pub option_eq : Option Text → Option Text → Bool
option_eq none none = true
option_eq (some s) (some t) = text_eq s t
option_eq _ _ = false

unfoldable pub same_key : PolicyRule → PolicyRule → Bool
same_key rule other =
    option_eq rule.user other.user
    && option_eq rule.group other.group
    && text_eq rule.run_as other.run_as

unfoldable pub duplicate_message : ℕ → ℕ → Text
duplicate_message i j =
    codes "Rule "
    ++ (decimal i
        ++ (codes " has the same user/group/run_as as rule "
            ++ (decimal j
                ++ (codes " "
                    ++ (dash ++ codes " only the first matching rule is used; consider merging")))))

-- The loop over the other rules, which counts `j` from 0 and skips those up to `i`.
unfoldable pub lint_duplicates : ℕ → PolicyRule → ℕ → List PolicyRule → List PolicyWarning
unfolding at_rule
lint_duplicates i rule j [] = []
lint_duplicates i rule j (other ∷ others) =
    (if leb j i
      then []
      else push_if (same_key rule other) (at_rule i warning (duplicate_message i j)))
    ++ lint_duplicates i rule (suc j) others

-- The loop over the rules, from index `i`; `all` is the whole list.
unfoldable pub lint_rules : List PolicyRule → ℕ → List PolicyRule → List PolicyWarning
lint_rules all i [] = []
lint_rules all i (rule ∷ rules) =
    lint_rule i rule
    ++ (lint_denies i rule rule.deny_commands
        ++ (lint_duplicates i rule 0 all ++ lint_rules all (suc i) rules))

unfoldable pub lint_policy : SudoPolicy → List PolicyWarning
lint_policy policy = lint_defaults policy ++ lint_rules policy.rules 0 policy.rules
