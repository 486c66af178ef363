-- ===== src/Suite/Evaluating.antt =====
-- The tests of rust-old/src/api.rs.
use shakti.Prelude.{
  Bool, true, false, ◌≡◌, refl, ◌&&◌, ◌||◌, not, some, List, [], ◌∷◌, any, is_empty,
}
use shakti.Text.{
  Text, codes, text_eq, starts_with, strip_suffix, contains, before, split, decimal, replace,
  trim_start_matches,
}
use shakti.FilePath.{
  components, pieces, piece, components_eq, component_eq, parent, file_name, join_path,
}
use shakti.Error.{Result, ok, err, authorization_denied, timestamp_expired}
use shakti.Validate.{
  validate_username, validate_command, sum_len, is_meta, is_executable, resolve_command, search_in,
  search_dirs, command_matches, matches_prefix, matches_binary, matches_dir, matches_basename,
  binary_path, glob_dir,
}
use shakti.Policy.{
  policy_defaults, user_matches, group_matches, matches_any, round, check_rules,
  check_authorization,
}
use shakti.Load.{fill, fill_rule, fill_defaults}
use shakti.Env.{unsafe_env_vars, fixed_vars, kept_vars, sanitize_environment}
use shakti.Timestamp.{timestamp_path, timestamp_name, tty_session_id, is_fresh, check_timestamp}
use shakti.Invocation.{full_command}
use shakti.Api.{
  AuthMode, interactive, timestamp_only, skip, is_skip, is_timestamp_only, ShaktiConfig, Evaluation,
  target_user_home, target_user_shell, account_of, timestamp_for, finish, decide_with,
  evaluate_with_policy,
}
use shakti.Api.Builder.{builder, policy_path, target_user, auth_mode, build}
use shakti.Suite.{all_true, is_ok, is_err, no_defaults, bare, document, document_with}
use shakti.Suite.Cleaning.{is_value, has_key}
use shakti.Suite.Samples.{test_policy, host}

abbrev with_mode : AuthMode → ShaktiConfig
with_mode mode = build (auth_mode builder mode)

abbrev is_interactive : AuthMode → Bool
is_interactive interactive = true
is_interactive _ = false

abbrev test_builder_defaults : Bool
test_builder_defaults =
    let config = build builder in
    text_eq config.policy_path (codes "/etc/agnos/sudoers.toml")
    && text_eq config.target_user (codes "root")
    && is_interactive config.auth_mode

abbrev test_builder_custom : Bool
test_builder_custom =
    let config = build (
      auth_mode
        (target_user (policy_path builder (codes "/etc/custom/policy.toml")) (codes "postgres"))
        timestamp_only) in
    text_eq config.policy_path (codes "/etc/custom/policy.toml")
    && text_eq config.target_user (codes "postgres")
    && is_timestamp_only config.auth_mode

abbrev test_builder_skip_auth : Bool
test_builder_skip_auth = is_skip (with_mode skip).auth_mode

abbrev evaluated : AuthMode → Text → List Text → Result Evaluation
evaluated mode caller args = evaluate_with_policy host (with_mode mode) test_policy caller [] args

-- The assertions on an evaluation that was unwrapped.
abbrev satisfies : Result Evaluation → (Evaluation → Bool) → Bool
satisfies (ok e) p = p e
satisfies (err x) p = false

abbrev is_denied : Result Evaluation → Bool
is_denied (err (authorization_denied m)) = true
is_denied _ = false

abbrev is_expired : Result Evaluation → Bool
is_expired (err timestamp_expired) = true
is_expired _ = false

abbrev test_evaluate_authorized_nopasswd : Bool
test_evaluate_authorized_nopasswd =
    satisfies (evaluated skip (codes "deploy") (codes "/usr/bin/docker" ∷ [])) λ eval.
      eval.authorized
      && not eval.require_auth
      && text_eq eval.resolved_command (codes "/usr/bin/docker")
      && not (is_empty eval.environment)

abbrev test_evaluate_authorized_with_auth : Bool
test_evaluate_authorized_with_auth =
    satisfies (evaluated skip (codes "anybody") (codes "/usr/bin/env" ∷ []))
      λ eval. eval.authorized && eval.require_auth

abbrev test_evaluate_denied : Bool
test_evaluate_denied = is_denied (evaluated skip (codes "unknown") (codes "/usr/bin/docker" ∷ []))

abbrev test_evaluate_invalid_username : Bool
test_evaluate_invalid_username =
    is_err (evaluated skip (codes "../evil") (codes "/usr/bin/env" ∷ []))

abbrev test_evaluate_invalid_command : Bool
test_evaluate_invalid_command =
    is_err (evaluated skip (codes "admin") (codes "/usr/bin/ls;rm" ∷ []))

abbrev test_evaluate_timestamp_only_no_timestamp : Bool
test_evaluate_timestamp_only_no_timestamp =
    is_expired (evaluated timestamp_only (codes "admin") (codes "/usr/bin/env" ∷ []))

abbrev test_evaluate_timestamp_only_nopasswd_succeeds : Bool
test_evaluate_timestamp_only_nopasswd_succeeds =
    satisfies (evaluated timestamp_only (codes "deploy") (codes "/usr/bin/docker" ∷ []))
      λ eval. eval.authorized && not eval.require_auth

abbrev test_evaluate_environment_has_target_user : Bool
test_evaluate_environment_has_target_user =
    let config = build (auth_mode (target_user builder (codes "root")) skip) in
    satisfies
      (evaluate_with_policy host config test_policy (codes "admin") [] (codes "/usr/bin/env" ∷ []))
      λ eval.
        is_value eval.environment (codes "USER") (codes "root") false
        && is_value eval.environment (codes "SUDO_USER") (codes "admin") false

abbrev test_evaluate_custom_target_user : Bool
test_evaluate_custom_target_user =
    let policy = fill (
      document (
        record bare {
          user = some (codes "admin");
          run_as = some (codes "*");
          commands = some [];
          require_auth = some false;
        }
        ∷ [])) in
    let config = build (auth_mode (target_user builder (codes "postgres")) skip) in
    satisfies
      (evaluate_with_policy host config policy (codes "admin") [] (codes "/usr/bin/env" ∷ []))
      λ eval. is_value eval.environment (codes "USER") (codes "postgres") false

abbrev test_target_user_home_root : Bool
test_target_user_home_root =
    let home = target_user_home host (codes "root") in
    text_eq home (codes "/root") || starts_with home (codes "/")

abbrev test_target_user_shell_fallback : Bool
test_target_user_shell_fallback =
    text_eq (target_user_shell host (codes "nonexistent_user_xyz_12345")) (codes "/bin/sh")

abbrev test_evaluate_empty_command_args : Bool
test_evaluate_empty_command_args = is_err (evaluated skip (codes "admin") [])

abbrev test_evaluate_custom_max_command_len : Bool
test_evaluate_custom_max_command_len =
    let policy = fill (
      document_with (record no_defaults { max_command_len = some 20 })
        (record bare { user = some (codes "admin"); commands = some [] } ∷ [])) in
    is_ok (
      evaluate_with_policy host (with_mode skip) policy (codes "admin") []
        (codes "/usr/bin/ls" ∷ []))
    && is_err (
        evaluate_with_policy host (with_mode skip) policy (codes "admin") []
          (codes "/usr/bin/very_long_command_name_that_exceeds" ∷ []))

abbrev test_evaluate_interactive_mode_flows_through : Bool
test_evaluate_interactive_mode_flows_through =
    satisfies (evaluated interactive (codes "deploy") (codes "/usr/bin/docker" ∷ []))
      λ eval. eval.authorized && not eval.require_auth

abbrev test_evaluate_environment_no_unsafe_vars : Bool
test_evaluate_environment_no_unsafe_vars =
    satisfies (evaluated skip (codes "admin") (codes "/usr/bin/env" ∷ []))
      λ eval. not (any (has_key eval.environment) unsafe_env_vars)

abbrev test_evaluate_resolved_command_is_absolute : Bool
test_evaluate_resolved_command_is_absolute =
    satisfies (evaluated skip (codes "admin") (codes "env" ∷ []))
      λ eval. starts_with eval.resolved_command (codes "/")

evaluating_tests_hold :
    all_true (
      test_builder_defaults ∷ test_builder_custom ∷ test_builder_skip_auth
      ∷ test_evaluate_authorized_nopasswd ∷ test_evaluate_authorized_with_auth
      ∷ test_evaluate_denied ∷ test_evaluate_invalid_username ∷ test_evaluate_invalid_command
      ∷ test_evaluate_timestamp_only_no_timestamp ∷ test_evaluate_timestamp_only_nopasswd_succeeds
      ∷ test_evaluate_environment_has_target_user ∷ test_evaluate_custom_target_user
      ∷ test_target_user_home_root ∷ test_target_user_shell_fallback
      ∷ test_evaluate_empty_command_args ∷ test_evaluate_custom_max_command_len
      ∷ test_evaluate_interactive_mode_flows_through ∷ test_evaluate_environment_no_unsafe_vars
      ∷ test_evaluate_resolved_command_is_absolute ∷ [])
    ≡ true
unfolding any text_eq starts_with strip_suffix contains before split decimal replace
    trim_start_matches components pieces piece components_eq component_eq parent file_name join_path
    validate_username validate_command sum_len is_meta is_executable resolve_command search_in
    search_dirs command_matches matches_prefix matches_binary matches_dir matches_basename
    binary_path glob_dir policy_defaults user_matches group_matches matches_any round check_rules
    check_authorization fill fill_rule fill_defaults unsafe_env_vars fixed_vars kept_vars
    sanitize_environment timestamp_path timestamp_name tty_session_id is_fresh check_timestamp
    full_command target_user_home target_user_shell account_of timestamp_for finish decide_with
    evaluate_with_policy builder policy_path target_user auth_mode build
evaluating_tests_hold = refl
