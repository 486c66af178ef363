-- ===== src/Tests/Sequences.antt =====
-- Examples of several runs, and of a log around a run.
use shakti.Prelude.{◌↔◌, ◌≡◌, refl, true, false, none, some, List, [], ◌∷◌, ◌++◌, arith, any}
use shakti.Text.{Text, codes, text_eq, starts_with, contains, replace, trim_start_matches}
use shakti.FilePath.{join_path}
use shakti.Error.{ok}
use shakti.Os.{exists, is_world_writable}
use shakti.Validate.{
  validate_username, validate_command, sum_len, is_meta, is_executable, resolve_command,
  command_matches,
}
use shakti.Policy.{
  policy_defaults, user_matches, group_matches, matches_any, round, check_rules,
  check_authorization,
}
use shakti.Load.{
  load_policy, check_trusted, check_metadata, read_file, parse_policy, fill, fill_rule,
  extend_rules,
}
use shakti.Timestamp.{
  default_timestamp_dir, tty_session_id, timestamp_name, timestamp_path, check_timestamp, restrict,
  touch, ensure_timestamp_dir, update_timestamp, from_secs,
}
use shakti.Timestamp.Memory.{Disk, memory, directory, regular, set_node}
use shakti.Timestamp.Ledger.{IsUser}
use shakti.Auth.{authenticate_user, attempt_loop, attempt, authenticate, su_authenticate, judge}
use shakti.Audit.{Surroundings, audit_line}
use shakti.Audit.File.{LogFs, write_audit_file}
use shakti.Audit.File.Append.{Call, write_calls, AllWritten}
use shakti.Invocation.{full_command}
use shakti.Account.{get_caller_username, get_user_groups, groups_of, get_target_user_info}
use shakti.Privilege.{pre_exec, close_leaked, close_fds}
use shakti.Cli.{initial_args, parse_words, parse_args, word_of}
use shakti.Cli.Run.{
  replaced, mask_auth_signals, prompt_masked, prove, gate, launch_of, exec, launch, obey,
  run_resolved, run_command, run_policy, run_caller, run,
}
use shakti.Cli.Request.{IsRequest}
use shakti.Cli.Reached.{IsReached, run_replaced_iff}
use shakti.Cli.Logged.{calls_of, run-last_line}
use shakti.Cli.Prompt.{has_prompt, with_cache}
use shakti.Cli.Again.{after, asked_once}
use shakti.Tests.Fixtures.{alice, vi, root, one_command, policy_of}
use shakti.Tests.Machine.{machine, started}
use shakti.Tests.Runs.{vi_runs}

-- The request to run the one command, whatever the cache holds.
vi_request : (s : Disk) → IsRequest (with_cache machine s) (vi ∷ [])
unfolding parse_args parse_words initial_args word_of starts_with text_eq get_caller_username
    load_policy exists check_trusted check_metadata is_world_writable read_file parse_policy fill
    fill_rule extend_rules policy_defaults validate_username validate_command sum_len is_meta any
    contains resolve_command is_executable
vi_request s = record {
  cli = record initial_args { command = vi ∷ [] };
  is_cli = refl;
  no_mode = (refl, refl, refl);
  caller = alice;
  is_caller = refl;
  policy = policy_of (one_command ∷ []);
  loaded = refl;
  cmd = vi;
  args = [];
  is_command = refl;
  valid = refl;
  resolved = vi;
  resolves = refl;
}

abbrev blank : Disk
blank = machine.host.cache_state

run_replaced_iff_example :
    ((run machine (vi ∷ [])).answer ≡ replaced started) ↔ IsReached machine (vi ∷ []) started
run_replaced_iff_example = run_replaced_iff machine (vi ∷ []) started

-- The request gets its program.
vi_runs-IsReached : IsReached machine (vi ∷ []) started
vi_runs-IsReached = (run_replaced_iff machine (vi ∷ []) started).0 vi_runs

al-IsUser : IsUser alice
unfolding validate_username contains text_eq
al-IsUser = record { accepted = refl; colonless = refl }

-- The disk after a password was given, on no terminal.
abbrev stamped_disk : Disk
stamped_disk =
    set_node (set_node blank default_timestamp_dir (some (directory 0))) (timestamp_path alice none)
      (some (regular 0 0o600 0))

stamp : update_timestamp memory none blank alice ≡ (ok tt, stamped_disk)
unfolding update_timestamp ensure_timestamp_dir restrict touch validate_username contains text_eq
    timestamp_path timestamp_name tty_session_id replace trim_start_matches join_path starts_with
stamp = refl

vi_asks : has_prompt (run machine (vi ∷ [])).events ≡ true
unfolding run run_caller run_policy run_command run_resolved obey launch exec gate prove
    prompt_masked pre_exec close_leaked close_fds parse_args parse_words initial_args word_of
    get_caller_username get_user_groups groups_of get_target_user_info authenticate_user
    attempt_loop attempt authenticate su_authenticate judge check_timestamp load_policy exists
    check_trusted check_metadata is_world_writable read_file parse_policy fill fill_rule
    extend_rules policy_defaults validate_username validate_command sum_len is_meta any contains
    text_eq resolve_command is_executable starts_with check_authorization check_rules round
    user_matches group_matches matches_any command_matches full_command mask_auth_signals
vi_asks = refl

vi_later : IsRequest (after machine (vi ∷ []) 10) (vi ∷ [])
vi_later = vi_request (memory.wait (run machine (vi ∷ [])).cache 10)

asked_once_example : has_prompt (run (after machine (vi ∷ []) 10) (vi ∷ [])).events ≡ false
unfolding get_caller_username from_secs vi_later vi_request policy_defaults
asked_once_example =
    asked_once machine (λ user session. none) (vi ∷ []) started alice stamped_disk
      (λ user w v. refl) refl al-IsUser stamp vi_runs vi_asks 10 (vi ∷ []) vi_later (omega arith)

-- A log that can always be written.
abbrev log : LogFs
log = record {
  State = Text;
  ambient =
      λ s. record { seconds = some 7; tty = none; ssh_tty = none; current_dir = some (codes "/") };
  contents = λ s. s;
  open_append = λ s. some s;
  write_all = λ s x. (true, s ++ x);
  open-contents = λ s t e. cc;
  write_ok-contents = λ s t x e. cc;
  write_err-contents = λ s t x e. absurd (cc e);
}

written : (s : Text) (cs : List Call) → AllWritten log s cs
unfolding write_audit_file
written s [] = tt
written s (c ∷ cs) = (refl, written (write_audit_file log s c.caller c.target c.command).1 cs)

run-last_line_example :
    (caller : Text) × (get_caller_username machine.accounts ≡ ok caller)
    × (earlier : Text) × (at : Surroundings) × (write_calls log []
          (calls_of (run machine (vi ∷ [])).events)
        ≡ [] ++ (earlier ++ audit_line at caller root (full_command vi [])))
unfolding launch_of
run-last_line_example =
    run-last_line log machine (vi ∷ []) started [] vi_runs
      (written [] (calls_of (run machine (vi ∷ [])).events))
