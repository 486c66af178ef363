-- ===== src/Tests/Agreement.antt =====
-- Examples of a run and of an evaluation of the same request.
use shakti.Prelude.{◌≡◌, refl, inr, true, false, some, [], ◌∷◌, any}
use shakti.Text.{text_eq, starts_with, contains}
use shakti.Error.{ok}
use shakti.Os.{exists, is_world_writable}
use shakti.Validate.{
  validate_username, validate_command, sum_len, is_meta, is_executable, resolve_command,
  command_matches,
}
use shakti.Policy.{
  policy_defaults, user_matches, group_matches, matches_any, round, check_rules,
  check_authorization,
}
use shakti.Load.{
  load_policy, check_trusted, check_metadata, read_file, parse_policy, fill, fill_rule,
  extend_rules,
}
use shakti.Timestamp.{check_timestamp}
use shakti.Auth.{authenticate_user, attempt_loop, attempt, authenticate, su_authenticate, judge}
use shakti.Invocation.{full_command}
use shakti.Account.{get_caller_username, get_user_groups, groups_of, get_target_user_info}
use shakti.Privilege.{pre_exec, close_leaked, close_fds}
use shakti.Cli.{CliArgs, arguments, initial_args, parse_words, parse_args, word_of}
use shakti.Cli.Run.{
  Launch, Machine, replaced, prompt_masked, prove, gate, launch_of, exec, launch, obey,
  run_resolved, run_command, run_policy, run_caller, run,
}
use shakti.Cli.Agreement.{SameDatabase, Authorizes, run-Authorizes, evaluated, evaluate-run}
use shakti.Cli.Live.{CanStart}
use shakti.Tests.Fixtures.{alice, vi, root, one_command, policy_of}
use shakti.Tests.Machine.{remove, entry_of, machine, started}
use shakti.Api.{
  Evaluation, evaluate, evaluate_with_policy, decide_with, finish, timestamp_for, account_of,
}
use shakti.Env.{sanitize_environment}
use shakti.Cli.Agreement.{config_of}

-- The machine on which the consumer's function finds the same accounts.
abbrev joined_machine : Machine
joined_machine = record machine {
  host = record machine.host { user_from_name = λ name. some (entry_of name) };
}

vi_runs_there : (run joined_machine (vi ∷ [])).answer ≡ replaced started
unfolding run run_caller run_policy run_command run_resolved obey launch exec gate prove
    prompt_masked pre_exec close_leaked close_fds parse_args parse_words initial_args word_of
    get_caller_username get_user_groups groups_of get_target_user_info authenticate_user
    attempt_loop attempt authenticate su_authenticate judge check_timestamp load_policy exists
    check_trusted check_metadata is_world_writable read_file parse_policy fill fill_rule
    extend_rules policy_defaults validate_username validate_command sum_len is_meta any contains
    text_eq resolve_command is_executable starts_with check_authorization check_rules round
    user_matches group_matches matches_any command_matches full_command launch_of
vi_runs_there = refl

abbrev vi_line : CliArgs
vi_line = record initial_args { command = vi ∷ [] }

vi_parses : parse_args (vi ∷ []) ≡ arguments vi_line
unfolding parse_args parse_words initial_args word_of starts_with text_eq
vi_parses = refl

al_calls : get_caller_username joined_machine.accounts ≡ ok alice
unfolding get_caller_username
al_calls = refl

root_database : SameDatabase joined_machine vi_line.target_user
unfolding get_target_user_info
root_database entry h = cc h

al_accepted : validate_username alice ≡ ok tt
unfolding validate_username contains text_eq
al_accepted = refl

run-Authorizes_example : Authorizes joined_machine vi_line alice started
run-Authorizes_example =
    run-Authorizes joined_machine (vi ∷ []) vi_line alice started vi_parses al_calls al_accepted
      root_database vi_runs_there

abbrev vi_evaluation : Evaluation
vi_evaluation = record {
  authorized = true;
  require_auth = true;
  timestamp_valid = false;
  resolved_command = vi;
  environment =
      sanitize_environment (policy_of (one_command ∷ []))
        (account_of joined_machine.host (config_of vi_line) alice) [];
  policy = policy_of (one_command ∷ []);
}

vi_evaluates : evaluated joined_machine vi_line alice ≡ ok vi_evaluation
unfolding initial_args evaluate evaluate_with_policy decide_with finish timestamp_for
    get_user_groups groups_of check_timestamp load_policy exists check_trusted check_metadata
    is_world_writable read_file parse_policy fill fill_rule extend_rules policy_defaults
    validate_username validate_command sum_len is_meta any contains text_eq resolve_command
    is_executable starts_with check_authorization check_rules round user_matches group_matches
    matches_any command_matches full_command
vi_evaluates = refl

vi_starts : CanStart joined_machine vi_line.target_user vi
unfolding initial_args get_target_user_info contains pre_exec close_leaked close_fds remove
vi_starts = record {
  entry = entry_of root;
  is_entry = refl;
  no_null = refl;
  state = record { uid = 0; gid = 0; groups = 0 ∷ []; fds = 0 ∷ 1 ∷ 2 ∷ [] };
  drops = refl;
  starts = refl;
}

right_password : (authenticate_user alice joined_machine.meetings).0 ≡ ok true
unfolding authenticate_user attempt_loop attempt authenticate su_authenticate judge
right_password = refl

evaluate-run_example :
    (l : Launch) × ((run joined_machine (vi ∷ [])).answer ≡ replaced l)
    × (l.path ≡ vi)
    × (l.env ≡ vi_evaluation.environment)
unfolding initial_args
evaluate-run_example =
    evaluate-run joined_machine (vi ∷ []) vi_line alice vi_evaluation vi_parses (refl, refl, refl)
      al_calls root_database vi_evaluates (λ e. inr right_password) vi_starts
