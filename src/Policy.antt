-- ===== src/Policy.antt =====
-- rust-old/src/policy.rs: the policy's types with their defaults, and the authorization check.
use shakti.Prelude.{
  ℕ, Bool, true, false, ◌&&◌, ◌||◌, not, Option, none, some, List, [], ◌∷◌, ◌++◌, is_empty, any,
  if◌then◌else◌,
}
use shakti.Text.{Text, codes, text_eq}
use shakti.Validate.{command_matches}
pub mod Verdict
pub mod Rounds
pub mod Decision
pub mod Priority
pub mod Respelled
pub mod Growth
pub mod Members

pub record PolicyDefaults : Type 0 where
  pub timestamp_ttl : ℕ
  pub require_auth : Bool
  pub audit_log : Bool
  pub env_keep : List Text
  pub max_command_len : ℕ
  pub include_dir : Option Text

pub record PolicyRule : Type 0 where
  pub user : Option Text
  pub group : Option Text
  pub run_as : Text
  pub commands : List Text
  pub deny_commands : List Text
  pub require_auth : Bool
  pub description : Text

pub record SudoPolicy : Type 0 where
  pub defaults : PolicyDefaults
  pub rules : List PolicyRule

abbrev pub default_timestamp_ttl_secs : ℕ
default_timestamp_ttl_secs = 300

abbrev pub default_max_command_len : ℕ
default_max_command_len = 4096

-- `PolicyDefaults::default()`
unfoldable pub policy_defaults : PolicyDefaults
policy_defaults = record {
  timestamp_ttl = default_timestamp_ttl_secs;
  require_auth = true;
  audit_log = true;
  env_keep = [];
  max_command_len = default_max_command_len;
  include_dir = none;
}

abbrev pub default_target_user : Text
default_target_user = codes "root"

pub data AuthzResult : Type 0 where
  allowed : Bool → AuthzResult
  denied : Text → AuthzResult

unfoldable pub user_matches : PolicyRule → Text → Bool
user_matches rule username = elim rule.user [
  | none ↦ false
  | some u ↦ if text_eq u (codes "*") then true else text_eq u username
]

unfoldable pub group_matches : PolicyRule → List Text → Bool
group_matches rule groups = elim rule.group [
  | none ↦ false
  | some g ↦ any (λ ug. text_eq ug g) groups
]

-- The first of the given patterns that matches: the loop over `deny_commands`, and that over
-- `commands`.
unfoldable pub matches_any : Text → List Text → Bool
matches_any command patterns = any (λ p. command_matches command p) patterns

unfoldable pub deny_message : Text → PolicyRule → Text
deny_message command rule =
    codes "Command '" ++ (command ++ (codes "' is explicitly denied by rule: " ++ rule.description))

unfoldable pub default_message : Text → Text → Text → Text
default_message username command target_user =
    codes "User '"
    ++ (username
        ++ (codes "' is not authorized to run '"
            ++ (command ++ (codes "' as '" ++ (target_user ++ codes "'")))))

-- What one round of the loop over the rules does.
pub data Round : Type 0 where
  next : Round
  deny_now : Round
  matched : Round

unfoldable pub round : PolicyRule → Text → List Text → Text → Text → Round
round rule username groups target_user command =
    if not (user_matches rule username) && not (group_matches rule groups)
    then next
    else if not (text_eq rule.run_as (codes "*")) && not (text_eq rule.run_as target_user)
    then next
    else if matches_any command rule.deny_commands
    then deny_now
    else if is_empty rule.commands
    then matched
    else if matches_any command rule.commands
    then matched
    else next

-- The loop over the rules, with what follows it.
unfoldable pub check_rules :
    PolicyDefaults → List PolicyRule → Text → List Text → Text → Text → AuthzResult
check_rules defaults [] username groups target_user command =
    denied (default_message username command target_user)
check_rules defaults (rule ∷ rules) username groups target_user command =
    let rest = check_rules defaults rules username groups target_user command in
    elim (round rule username groups target_user command) [
      | next ↦ rest
      | deny_now ↦ denied (deny_message command rule)
      | matched ↦ allowed (rule.require_auth && defaults.require_auth)
    ]

unfoldable pub check_authorization : SudoPolicy → Text → List Text → Text → Text → AuthzResult
check_authorization policy username groups target_user command =
    check_rules policy.defaults policy.rules username groups target_user command
