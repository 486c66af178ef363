-- ===== src/Suite/Deciding.antt =====
-- The tests of `check_authorization` in rust-old/src/policy.rs.
use shakti.Prelude.{Bool, true, false, ◌≡◌, refl, ◌&&◌, some, List, [], ◌∷◌, any}
use shakti.Text.{Text, codes, text_eq, starts_with, strip_suffix, contains, before, split}
use shakti.FilePath.{components, pieces, piece, components_eq, component_eq, parent, file_name}
use shakti.Validate.{
  command_matches, matches_prefix, matches_binary, matches_dir, matches_basename, binary_path,
  glob_dir,
}
use shakti.Policy.{
  AuthzResult, policy_defaults, user_matches, group_matches, matches_any, round, check_rules,
  check_authorization,
}
use shakti.Load.{Document, fill, fill_rule, fill_defaults}
use shakti.Suite.{all_true, allows, denies, no_defaults, bare, document, document_with}
use shakti.Suite.Samples.{sample_policy}

abbrev decide : Document → Text → List Text → Text → Text → AuthzResult
decide doc username groups target_user command =
    check_authorization (fill doc) username groups target_user command

abbrev test_authz_admin_full_access : Bool
test_authz_admin_full_access =
    allows (decide sample_policy (codes "admin") [] (codes "root") (codes "/usr/bin/anything")) true

abbrev test_authz_wheel_group_allowed : Bool
test_authz_wheel_group_allowed =
    allows
      (decide sample_policy (codes "jdoe") (codes "wheel" ∷ []) (codes "root")
        (codes "/usr/bin/systemctl"))
      true

abbrev test_authz_wheel_group_denied_command : Bool
test_authz_wheel_group_denied_command =
    denies (
      decide sample_policy (codes "jdoe") (codes "wheel" ∷ []) (codes "root") (codes "/usr/bin/rm"))

abbrev test_authz_deploy_nopasswd : Bool
test_authz_deploy_nopasswd =
    allows (decide sample_policy (codes "deploy") [] (codes "root") (codes "/usr/bin/docker")) false

abbrev test_authz_deploy_denied_command : Bool
test_authz_deploy_denied_command = denies (
    decide sample_policy (codes "deploy") [] (codes "root")
      (codes "/usr/bin/systemctl stop firewall"))

abbrev test_authz_wildcard_user : Bool
test_authz_wildcard_user =
    allows (decide sample_policy (codes "anybody") [] (codes "root") (codes "/usr/bin/passwd")) true

abbrev test_authz_unknown_user_denied : Bool
test_authz_unknown_user_denied =
    denies (decide sample_policy (codes "unknown") [] (codes "root") (codes "/usr/bin/dangerous"))

abbrev test_authz_wrong_target_user : Bool
test_authz_wrong_target_user =
    denies (decide sample_policy (codes "admin") [] (codes "postgres") (codes "/usr/bin/anything"))

abbrev test_authz_run_as_wildcard : Bool
test_authz_run_as_wildcard =
    let doc = document (
      record bare { user = some (codes "admin"); run_as = some (codes "*"); commands = some [] }
      ∷ []) in
    allows (decide doc (codes "admin") [] (codes "postgres") (codes "/usr/bin/psql")) true

abbrev test_authz_no_rules : Bool
test_authz_no_rules =
    denies (decide (document []) (codes "admin") [] (codes "root") (codes "/usr/bin/ls"))

abbrev test_authz_group_only_rule : Bool
test_authz_group_only_rule =
    let doc = document (
      record bare {
        group = some (codes "devops");
        run_as = some (codes "root");
        commands = some (codes "/usr/bin/docker" ∷ []);
      }
      ∷ []) in
    denies (decide doc (codes "alice") [] (codes "root") (codes "/usr/bin/docker"))
    && allows
        (decide doc (codes "alice") (codes "devops" ∷ []) (codes "root") (codes "/usr/bin/docker"))
        true

abbrev test_policy_require_auth_override : Bool
test_policy_require_auth_override =
    let doc =
      document_with (record no_defaults { require_auth = some false })
        (record bare { user = some (codes "admin"); require_auth = some true } ∷ []) in
    allows (decide doc (codes "admin") [] (codes "root") (codes "/usr/bin/ls")) false

abbrev test_policy_deny_takes_precedence : Bool
test_policy_deny_takes_precedence =
    let doc = document (
      record bare {
        user = some (codes "admin");
        commands = some (codes "ALL" ∷ []);
        deny_commands = some (codes "/usr/bin/rm" ∷ []);
      }
      ∷ []) in
    denies (decide doc (codes "admin") [] (codes "root") (codes "/usr/bin/rm"))
    && allows (decide doc (codes "admin") [] (codes "root") (codes "/usr/bin/ls")) true

abbrev test_policy_multiple_groups : Bool
test_policy_multiple_groups =
    let doc = document (
      record bare { group = some (codes "docker"); commands = some (codes "/usr/bin/docker" ∷ []) }
      ∷ record bare { group = some (codes "admin"); commands = some (codes "ALL" ∷ []) }
      ∷ []) in
    let groups = codes "docker" ∷ codes "admin" ∷ [] in
    allows (decide doc (codes "bob") groups (codes "root") (codes "/usr/bin/docker")) true
    && allows (decide doc (codes "bob") groups (codes "root") (codes "/usr/bin/ls")) true

abbrev test_authz_deny_with_args : Bool
test_authz_deny_with_args = denies (
    decide sample_policy (codes "deploy") [] (codes "root")
      (codes "/usr/bin/systemctl stop firewall"))

abbrev test_authz_allow_with_arg_wildcard : Bool
test_authz_allow_with_arg_wildcard =
    allows
      (decide sample_policy (codes "deploy") [] (codes "root")
        (codes "/usr/bin/systemctl restart nginx"))
      false

abbrev test_authz_deny_takes_precedence_over_arg_wildcard : Bool
test_authz_deny_takes_precedence_over_arg_wildcard = denies (
    decide sample_policy (codes "deploy") [] (codes "root")
      (codes "/usr/bin/systemctl stop firewall"))

abbrev test_parse_policy_user_and_group_both_set : Bool
test_parse_policy_user_and_group_both_set =
    let doc = document (
      record bare {
        user = some (codes "admin");
        group = some (codes "wheel");
        commands = some (codes "/usr/bin/ls" ∷ []);
      }
      ∷ []) in
    allows (decide doc (codes "admin") [] (codes "root") (codes "/usr/bin/ls")) true
    && allows
        (decide doc (codes "nobody") (codes "wheel" ∷ []) (codes "root") (codes "/usr/bin/ls")) true

abbrev test_authz_deny_wildcard_in_rule : Bool
test_authz_deny_wildcard_in_rule =
    let doc = document (
      record bare {
        user = some (codes "deploy");
        commands = some (codes "/usr/bin/systemctl *" ∷ []);
        deny_commands = some (codes "/usr/bin/systemctl stop *" ∷ []);
      }
      ∷ []) in
    allows
      (decide doc (codes "deploy") [] (codes "root") (codes "/usr/bin/systemctl restart nginx"))
      true
    && denies
        (decide doc (codes "deploy") [] (codes "root") (codes "/usr/bin/systemctl stop nginx"))

abbrev test_authz_deny_does_not_bleed_across_rules : Bool
test_authz_deny_does_not_bleed_across_rules =
    let doc = document (
      record bare {
        user = some (codes "admin");
        commands = some (codes "ALL" ∷ []);
        deny_commands = some (codes "/usr/bin/rm" ∷ []);
      }
      ∷ record bare { group = some (codes "root-ops"); commands = some (codes "/usr/bin/rm" ∷ []) }
      ∷ []) in
    allows
      (decide doc (codes "operator") (codes "root-ops" ∷ []) (codes "root") (codes "/usr/bin/rm"))
      true

deciding_tests_hold :
    all_true (
      test_authz_admin_full_access ∷ test_authz_wheel_group_allowed
      ∷ test_authz_wheel_group_denied_command ∷ test_authz_deploy_nopasswd
      ∷ test_authz_deploy_denied_command ∷ test_authz_wildcard_user ∷ test_authz_unknown_user_denied
      ∷ test_authz_wrong_target_user ∷ test_authz_run_as_wildcard ∷ test_authz_no_rules
      ∷ test_authz_group_only_rule ∷ test_policy_require_auth_override
      ∷ test_policy_deny_takes_precedence ∷ test_policy_multiple_groups ∷ test_authz_deny_with_args
      ∷ test_authz_allow_with_arg_wildcard ∷ test_authz_deny_takes_precedence_over_arg_wildcard
      ∷ test_parse_policy_user_and_group_both_set ∷ test_authz_deny_wildcard_in_rule
      ∷ test_authz_deny_does_not_bleed_across_rules ∷ [])
    ≡ true
unfolding command_matches matches_prefix matches_binary matches_dir matches_basename binary_path
    glob_dir any text_eq starts_with strip_suffix contains before split components pieces piece
    components_eq component_eq parent file_name policy_defaults user_matches group_matches
    matches_any round check_rules check_authorization fill fill_rule fill_defaults
deciding_tests_hold = refl
