-- ===== src/Tests/Chronicles.antt =====
-- An example of runs one after the other on one disk.
use shakti.Prelude.{subst, ◌≡◌, refl, ◌⊎◌, true, false, none, [], ◌∷◌, any}
use shakti.Text.{Text, text_eq, starts_with, contains}
use shakti.FilePath.{join_path}
use shakti.Error.{ok}
use shakti.Os.{exists, is_world_writable}
use shakti.Validate.{
  validate_username, validate_command, sum_len, is_meta, is_executable, resolve_command,
  command_matches,
}
use shakti.Policy.{
  policy_defaults, user_matches, group_matches, matches_any, round, check_rules,
  check_authorization,
}
use shakti.Load.{
  load_policy, check_trusted, check_metadata, read_file, parse_policy, fill, fill_rule,
  extend_rules,
}
use shakti.Timestamp.{
  is_fresh, tty_session_id, timestamp_name, timestamp_path, check_timestamp, restrict, touch,
  ensure_timestamp_dir, update_timestamp, from_secs,
}
use shakti.Timestamp.Memory.{Disk, memory}
use shakti.Timestamp.Ledger.{IsUser}
use shakti.Auth.{authenticate_user, attempt_loop, attempt, authenticate, su_authenticate, judge}
use shakti.Invocation.{full_command}
use shakti.Account.{get_caller_username, get_user_groups, groups_of, get_target_user_info}
use shakti.Privilege.{pre_exec, close_leaked, close_fds}
use shakti.Cli.{initial_args, parse_words, parse_args, word_of}
use shakti.Cli.Run.{
  replaced, prompt_masked, prove, gate, launch_of, exec, launch, obey, run_resolved, run_command,
  run_policy, run_caller, run,
}
use shakti.Cli.Guard.{IsGuarded}
use shakti.Tests.Fixtures.{alice, vi}
use shakti.Tests.Machine.{kernel, machine, started}
use shakti.Cli.Chronicle.{Occasion, machine_on, left_by, Chronicle, start, ran, paused, StillGood}
use shakti.Cli.Proved.{replaced-StillGood}

abbrev vi_occasion : Occasion
vi_occasion = record {
  files = machine.host.files;
  toml = machine.host.toml;
  tty = none;
  user_from_name = λ name. none;
  uid = 1000;
  gid = 1000;
  vars = [];
  accounts = machine.accounts;
  kernel = kernel;
  kernel_state = machine.kernel_state;
  mask_ok = true;
  meetings = machine.meetings;
  starts = machine.starts;
  words = vi ∷ [];
}

abbrev blank : Disk
blank = machine.host.cache_state

al-IsUser : (caller : Text) → get_caller_username machine.accounts ≡ ok caller → IsUser caller
unfolding get_caller_username validate_username contains text_eq
al-IsUser caller h = subst IsUser (al h) (record { accepted = refl; colonless = refl })
  where
    al : {c : Text} → ok alice ≡ ok c → alice ≡ c
    al e = cc e

-- One run, and then a while.
abbrev vi_before : Chronicle memory blank (memory.wait (left_by memory vi_occasion blank) 10)
vi_before = paused (ran start vi_occasion) 10

abbrev later_disk : Disk
later_disk = memory.wait (left_by memory vi_occasion blank) 10

vi_later_runs : (run (machine_on memory vi_occasion later_disk) (vi ∷ [])).answer ≡ replaced started
unfolding run run_caller run_policy run_command run_resolved obey launch exec gate prove
    prompt_masked pre_exec close_leaked close_fds parse_args parse_words initial_args word_of
    get_caller_username get_user_groups groups_of get_target_user_info authenticate_user
    attempt_loop attempt authenticate su_authenticate judge check_timestamp load_policy exists
    check_trusted check_metadata is_world_writable read_file parse_policy fill fill_rule
    extend_rules policy_defaults validate_username validate_command sum_len is_meta any contains
    text_eq resolve_command is_executable starts_with check_authorization check_rules round
    user_matches group_matches matches_any command_matches full_command launch_of update_timestamp
    ensure_timestamp_dir restrict touch timestamp_path timestamp_name tty_session_id join_path
    is_fresh
vi_later_runs = refl

al_calls : get_caller_username machine.accounts ≡ ok alice
unfolding get_caller_username
al_calls = refl

replaced-StillGood_example :
    (g : IsGuarded
      (machine_on memory vi_occasion later_disk)
      (vi ∷ [])
      started
      (run (machine_on memory vi_occasion later_disk) (vi ∷ [])).events)
    × ((g.commanded.obeyed.required ≡ false)
        ⊎ (((authenticate_user alice machine.meetings).0 ≡ ok true)
            ⊎ StillGood memory alice
                (tty_session_id none)
                (from_secs g.policy.defaults.timestamp_ttl)
                vi_before))
replaced-StillGood_example =
    replaced-StillGood memory vi_before vi_occasion alice started (λ user w v. refl) (al-IsUser, tt)
      al_calls (al-IsUser alice al_calls) vi_later_runs
