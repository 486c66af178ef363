-- ===== src/Tests/Runs.antt =====
-- Examples of accounts, of the closure before exec, and of whole runs.
use shakti.Prelude.{ℕ, ◌≡◌, refl, ◌↔◌, inl, inr, true, false, some, [], ◌∷◌, any, Any}
use shakti.Text.{Text, text_eq, starts_with, contains}
use shakti.Os.{exists, is_world_writable}
use shakti.Validate.{
  validate_username, validate_command, sum_len, is_meta, is_executable, resolve_command,
  command_matches,
}
use shakti.Policy.{
  policy_defaults, user_matches, group_matches, matches_any, round, check_rules,
  check_authorization,
}
use shakti.Load.{
  load_policy, check_trusted, check_metadata, read_file, parse_policy, fill, fill_rule,
  extend_rules,
}
use shakti.Timestamp.{check_timestamp}
use shakti.Auth.{authenticate_user, attempt_loop, attempt, authenticate, su_authenticate, judge}
use shakti.Invocation.{full_command}
use shakti.Account.{
  collect_groups, get_caller_username, get_user_groups, groups_of, get_target_user_info,
}
use shakti.Account.Order.{collected-SameIds}
use shakti.Account.Groups.{Listed, IsDistinct, collect_groups_lem}
use shakti.Privilege.{pre_exec, close_leaked, close_fds}
use shakti.Privilege.Dropped.{IsDropped, pre_exec-IsDropped}
use shakti.Cli.{initial_args, parse_words, parse_args, word_of}
use shakti.Cli.Run.{
  replaced, prompt_masked, prove, gate, exec, launch, obey, run_resolved, run_command, run_policy,
  run_caller, run,
}
use shakti.Cli.Guard.{IsGuarded, run-IsGuarded}
use shakti.Cli.Trace.{watch, run-watch}
use shakti.Tests.Fixtures.{alice, vi, root, one_command, policy_of}
use shakti.Tests.Machine.{name_of, remove, kernel, privileged, given_up, machine, started}

collect_groups_lem_example :
    IsDistinct (collect_groups name_of (0 ∷ 1 ∷ 2 ∷ []) [])
    × ((g : Text)
        → Listed g (collect_groups name_of (0 ∷ 1 ∷ 2 ∷ []) [])
          ↔ Any (λ gid. name_of gid ≡ some g) (0 ∷ 1 ∷ 2 ∷ []))
collect_groups_lem_example = collect_groups_lem name_of (0 ∷ 1 ∷ 2 ∷ [])

gives_up : pre_exec kernel alice 7 8 privileged ≡ some given_up
unfolding pre_exec close_leaked close_fds remove
gives_up = refl

pre_exec-IsDropped_example : IsDropped kernel privileged given_up alice 7 8
pre_exec-IsDropped_example = pre_exec-IsDropped kernel privileged given_up alice 7 8 gives_up

pub vi_runs : (run machine (vi ∷ [])).answer ≡ replaced started
unfolding run run_caller run_policy run_command run_resolved obey launch exec gate prove
    prompt_masked pre_exec close_leaked close_fds parse_args parse_words initial_args word_of
    get_caller_username get_user_groups groups_of get_target_user_info authenticate_user
    attempt_loop attempt authenticate su_authenticate judge check_timestamp load_policy exists
    check_trusted check_metadata is_world_writable read_file parse_policy fill fill_rule
    extend_rules policy_defaults validate_username validate_command sum_len is_meta any contains
    text_eq resolve_command is_executable starts_with check_authorization check_rules round
    user_matches group_matches matches_any command_matches full_command
vi_runs = refl

run-IsGuarded_example : IsGuarded machine (vi ∷ []) started (run machine (vi ∷ [])).events
run-IsGuarded_example = run-IsGuarded machine (vi ∷ []) started vi_runs

run-watch_example : watch false false (run machine (vi ∷ [])).events ≡ true
run-watch_example = run-watch machine (vi ∷ [])

collected-SameIds_example :
    (check_authorization
        (policy_of (one_command ∷ []))
        alice
        (collect_groups name_of (0 ∷ 1 ∷ []) [])
        root
        vi
      ≡ check_authorization
          (policy_of (one_command ∷ []))
          alice
          (collect_groups name_of (1 ∷ 0 ∷ 1 ∷ []) [])
          root
          vi)
    × IsDistinct (collect_groups name_of (0 ∷ 1 ∷ []) [])
collected-SameIds_example =
    collected-SameIds (policy_of (one_command ∷ [])) alice name_of (0 ∷ 1 ∷ []) (1 ∷ 0 ∷ 1 ∷ [])
      root vi λ n. (there n, back n)
  where
    there : (n : ℕ) → Any (λ m. m ≡ n) (0 ∷ 1 ∷ []) → Any (λ m. m ≡ n) (1 ∷ 0 ∷ 1 ∷ [])
    there n (inl e) = inr (inl e)
    there n (inr (inl e)) = inl e
    there n (inr (inr x)) = absurd x

    back : (n : ℕ) → Any (λ m. m ≡ n) (1 ∷ 0 ∷ 1 ∷ []) → Any (λ m. m ≡ n) (0 ∷ 1 ∷ [])
    back n (inl e) = inr (inl e)
    back n (inr (inl e)) = inl e
    back n (inr (inr (inl e))) = inr (inl e)
    back n (inr (inr (inr x))) = absurd x
