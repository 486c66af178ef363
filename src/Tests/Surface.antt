-- ===== src/Tests/Surface.antt =====
-- Examples of evaluations and of the command line.
use shakti.Prelude.{List, ◌≡◌, refl, ◌↔◌, true, false, none, [], ◌∷◌, any}
use shakti.Text.{Text, codes, text_eq, starts_with, contains}
use shakti.Error.{ok}
use shakti.Os.{exists, is_world_writable}
use shakti.Validate.{
  validate_username, validate_command, sum_len, is_meta, is_executable, resolve_command,
  command_matches,
}
use shakti.Policy.{
  SudoPolicy, policy_defaults, user_matches, group_matches, matches_any, round, check_rules,
  check_authorization,
}
use shakti.Load.{
  load_policy, check_trusted, check_metadata, read_file, parse_policy, fill, fill_rule,
  extend_rules,
}
use shakti.Env.{sanitize_environment}
use shakti.Timestamp.{check_timestamp}
use shakti.Timestamp.Memory.{memory}
use shakti.Invocation.{full_command}
use shakti.Api.{
  interactive, ShaktiConfig, Host, Evaluation, timestamp_for, account_of, finish, decide_with,
  evaluate_with_policy, evaluate,
}
use shakti.Api.Evaluated.{Evaluated, evaluate_with_policy_iff}
use shakti.Api.Modes.{Chain, evaluate-Chain}
use shakti.Cli.{CliArgs, arguments, parse_args}
use shakti.Cli.RoundTrip.{render, parse_args-render}
use shakti.Cli.Report.{concerns, grant_line, rule_lines, list_rules, list_permissions}
use shakti.Cli.Listing.{IsListing, list_permissions_iff}
use shakti.Tests.Fixtures.{alice, vi, root, one_command, policy_of, everywhere, reader}

abbrev ordinary : SudoPolicy
ordinary = policy_of (one_command ∷ [])

-- A host without accounts, on which no password has been given.
abbrev host : Host
host = record {
  files = everywhere;
  toml = reader;
  cache = memory;
  cache_state = record { time = 0; node = λ p. none };
  tty = none;
  user_from_name = λ name. none;
  uid = 1000;
  gid = 1000;
  vars = [];
}

abbrev config : ShaktiConfig
config = record { policy_path = codes "/p"; target_user = root; auth_mode = interactive }

abbrev evaluation : Evaluation
evaluation = record {
  authorized = true;
  require_auth = true;
  timestamp_valid = false;
  resolved_command = vi;
  environment = sanitize_environment ordinary (account_of host config alice) [];
  policy = ordinary;
}

evaluate_with_policy_iff_example :
    (evaluate_with_policy host config ordinary alice [] (vi ∷ []) ≡ ok evaluation)
    ↔ Evaluated host config ordinary alice [] (vi ∷ []) evaluation
evaluate_with_policy_iff_example =
    evaluate_with_policy_iff host config ordinary alice [] (vi ∷ []) evaluation

evaluated : evaluate host config alice [] (vi ∷ []) ≡ ok evaluation
unfolding evaluate evaluate_with_policy decide_with finish timestamp_for check_timestamp load_policy
    exists check_trusted check_metadata is_world_writable read_file parse_policy fill fill_rule
    extend_rules policy_defaults validate_username validate_command sum_len is_meta any contains
    text_eq resolve_command is_executable starts_with check_authorization check_rules round
    user_matches group_matches matches_any command_matches full_command
evaluated = refl

evaluate-Chain_example : Chain host config alice [] (vi ∷ []) evaluation
evaluate-Chain_example = evaluate-Chain host config alice [] (vi ∷ []) evaluation evaluated

abbrev asked_for : CliArgs
asked_for = record {
  target_user = codes "bob";
  policy_path = codes "-p";
  invalidate = false;
  list = true;
  check = false;
  command = codes "ls" ∷ codes "-l" ∷ [];
}

parse_args-render_example : parse_args (render asked_for) ≡ arguments asked_for
parse_args-render_example = parse_args-render asked_for

ls_plain : starts_with (codes "ls") (codes "-") ≡ false
unfolding starts_with
ls_plain = refl

-- The one rule of the policy, as alice sees it.
abbrev alice_sees : List Text
alice_sees =
    codes "User al may run the following commands on this host:"
    ∷ []
    ∷ codes "    (root) /bin/vi"
    ∷ []

list_permissions_iff_example :
    (list_permissions ordinary alice [] ≡ alice_sees) ↔ IsListing alice [] ordinary alice_sees
list_permissions_iff_example = list_permissions_iff alice [] ordinary alice_sees

alice_is_shown : list_permissions ordinary alice [] ≡ alice_sees
unfolding list_permissions list_rules concerns rule_lines grant_line user_matches group_matches any
    text_eq policy_defaults
alice_is_shown = refl
