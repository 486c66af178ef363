-- ===== src/Cli/Trace.antt =====
-- The order of what `run` in rust-old/src/main.rs does, whichever way the run ends.
use shakti.Prelude.{
  ◌≡◌, refl, sym, ap, ◌∙◌, inl, inr, Bool, true, false, ◌&&◌, not, List, [], ◌∷◌, ◌++◌,
  append_assoc, append-nil, Bool-cases,
}
use shakti.Text.{Text, codes, contains}
use shakti.Error.{Answer-cases}
use shakti.Validate.{validate_command, resolve_command}
use shakti.Policy.{SudoPolicy, AuthzResult, allowed, denied, check_authorization}
use shakti.Load.{load_policy}
use shakti.Timestamp.{check_timestamp, from_secs}
use shakti.Audit.{command, auth_failure}
use shakti.Invocation.{full_command}
use shakti.Account.{get_caller_username, get_user_groups, get_target_user_info}
use shakti.Cli.{CliArgs, Parsed, arguments, failed, help, version, parse_args}
use shakti.Cli.Run.{
  Event, printed, usage, version_line, cleared, masked, unmasked, asked, stamped, logged, tried,
  Machine, mask_auth_signals, restore_signals, prompt_masked, prove, gate, launch, obey,
  run_resolved, run_command, run_policy, run_caller, run,
}

-- A watcher that knows whether the signals are masked and whether an allowed command has been
-- logged. It objects to a mask that is set twice, lifted without being set, or left at the end, and
-- to an `exec` under the mask or before the log.
abbrev pub watch : Bool → Bool → List Event → Bool
watch mask log [] = not mask
watch mask log (masked ∷ es) = not mask && watch true log es
watch mask log (unmasked ∷ es) = mask && watch false log es
watch mask log (logged command caller target cmd true reason ∷ es) = watch mask true es
watch mask log (tried l ∷ es) = not mask && log && watch mask log es
watch mask log (printed lines ∷ es) = watch mask log es
watch mask log (usage ∷ es) = watch mask log es
watch mask log (version_line ∷ es) = watch mask log es
watch mask log (cleared ∷ es) = watch mask log es
watch mask log (asked events ∷ es) = watch mask log es
watch mask log (stamped ∷ es) = watch mask log es
watch mask log (logged a caller target cmd b reason ∷ es) = watch mask log es

module _ (m : Machine) where
  prompt-watch :
      (caller : Text) (es : List Event)
      → watch false false ((prompt_masked m caller).1 ++ es) ≡ watch false false es
  unfolding prompt_masked mask_auth_signals restore_signals
  prompt-watch caller es = elim (Bool-cases m.mask_ok) [
    | inl e ↦ rw (e, mask_auth_signals, restore_signals) refl
    | inr e ↦ rw (e, mask_auth_signals, restore_signals) refl
  ]

  after_prompt :
      (caller : Text) (e : Event) (es : List Event)
      → watch false false (((prompt_masked m caller).1 ++ e ∷ []) ++ es)
        ≡ watch false false (e ∷ es)
  after_prompt caller e es =
      ap (watch false false) (append_assoc (prompt_masked m caller).1 (e ∷ []) es)
      ∙ prompt-watch caller (e ∷ es)

  prove-watch :
      (caller target cmd : Text) (es : List Event)
      → watch false false ((prove m caller target cmd).events ++ es) ≡ watch false false es
  unfolding prove
  prove-watch caller target cmd es = elim (Answer-cases (prompt_masked m caller).0) [
    | inl (true, e) ↦ rw (e, prove) (after_prompt caller stamped es)
    | inl (false, e) ↦
        rw (e, prove)
          (after_prompt caller
            (logged auth_failure caller target cmd false (codes "authentication failed")) es)
    | inr (x, e) ↦ rw (e, prove) (prompt-watch caller es)
  ]

  gate-watch :
      (policy : SudoPolicy) (caller target cmd : Text) (required : Bool) (es : List Event)
      → watch false false ((gate m policy caller target cmd required).events ++ es)
        ≡ watch false false es
  unfolding gate
  gate-watch policy caller target cmd false es = refl
  gate-watch policy caller target cmd true es =
      elim (Bool-cases (
        check_timestamp m.host.cache m.host.tty m.host.cache_state caller
          (from_secs policy.defaults.timestamp_ttl))) [
            | inl e ↦ rw e refl
            | inr e ↦ rw e (prove-watch caller target cmd es)
          ]

  -- `exec` is the last event, if it is one.
  launch-watch :
      (policy : SudoPolicy) (caller target resolved : Text) (args : List Text)
      → watch false true (launch m policy caller target resolved args).1 ≡ true
  unfolding launch
  launch-watch policy caller target resolved args =
      elim (Answer-cases (get_target_user_info m.accounts target)) [
        | inr (x, e) ↦ rw (e, launch) refl
        | inl (entry, e) ↦ elim (Bool-cases (contains target 0)) [
          | inl c ↦ rw (e, c, launch) refl
          | inr c ↦ rw (e, c, launch) refl
        ]
      ]

  gate_end :
      (policy : SudoPolicy) (caller target cmd : Text) (required : Bool)
      → watch false false (gate m policy caller target cmd required).events ≡ true
  gate_end policy caller target cmd required =
      sym (ap (watch false false) (append-nil (gate m policy caller target cmd required).events))
      ∙ gate-watch policy caller target cmd required []

  obey-watch :
      (policy : SudoPolicy) (caller target resolved : Text) (args : List Text) (cmd : Text)
      (r : AuthzResult)
      → watch false false (obey m policy caller target resolved args cmd r).events ≡ true
  unfolding obey
  obey-watch policy caller target resolved args cmd (denied reason) = refl
  obey-watch policy caller target resolved args cmd (allowed b) =
      elim (Answer-cases (gate m policy caller target cmd b).answer) [
        | inr (x, e) ↦ rw (e, obey) (gate_end policy caller target cmd b)
        | inl (u, e) ↦
            rw (e, obey)
              (gate-watch policy caller target cmd b (
                  logged command caller target cmd true (codes "authorized")
                  ∷ (launch m policy caller target resolved args).1)
                ∙ launch-watch policy caller target resolved args)
      ]

  command-watch :
      (policy : SudoPolicy) (caller : Text) (groups : List Text) (target : Text) (words : List Text)
      → watch false false (run_command m policy caller groups target words).events ≡ true
  unfolding run_command run_resolved
  command-watch policy caller groups target [] = refl
  command-watch policy caller groups target (cmd ∷ args) =
      elim (Answer-cases (validate_command (cmd ∷ args) policy.defaults.max_command_len)) [
        | inr (x, e) ↦ rw (e, run_command) refl
        | inl (u, e) ↦ elim (Answer-cases (resolve_command m.host.files cmd)) [
          | inr (x, f) ↦ rw (e, f, run_command) refl
          | inl (resolved, f) ↦
              rw (e, f, run_command)
                (obey-watch policy caller target resolved args (full_command resolved args)
                  (check_authorization policy caller groups target (full_command resolved args)))
        ]
      ]

  policy-watch :
      (cli : CliArgs) (caller : Text) (groups : List Text) (policy : SudoPolicy)
      → watch false false (run_policy m cli caller groups policy).events ≡ true
  unfolding run_policy
  policy-watch cli caller groups policy = elim (Bool-cases cli.check) [
    | inl c ↦ rw c refl
    | inr c ↦ elim (Bool-cases cli.list) [
      | inl l ↦ rw (c, l) refl
      | inr l ↦ rw (c, l) (command-watch policy caller groups cli.target_user cli.command)
    ]
  ]

  caller-watch :
      (cli : CliArgs) (caller : Text) → watch false false (run_caller m cli caller).events ≡ true
  unfolding run_caller
  caller-watch cli caller = elim (Bool-cases cli.invalidate) [
    | inl i ↦ rw i refl
    | inr i ↦ elim (Answer-cases (load_policy m.host.files m.host.toml cli.policy_path)) [
      | inr (x, e) ↦ rw (i, e, run_caller) refl
      | inl (policy, e) ↦
          rw (i, e, run_caller) (policy-watch cli caller (get_user_groups m.accounts caller) policy)
    ]
  ]

  -- Whatever the command line and the host, and however the run ends: the signal mask that is set
  -- for the prompts is lifted again, and `exec` is called only without it, and only after an allowed
  -- command has been logged.
  pub run-watch : (words : List Text) → watch false false (run m words).events ≡ true
  unfolding run
  run-watch words = go (parse_args words) refl
    where
      go : (p : Parsed) → parse_args words ≡ p → watch false false (run m words).events ≡ true
      go (failed x) e = rw (e, run) refl
      go help e = rw (e, run) refl
      go version e = rw (e, run) refl
      go (arguments cli) e = elim (Answer-cases (get_caller_username m.accounts)) [
        | inr (x, c) ↦ rw (e, c, run) refl
        | inl (caller, c) ↦ rw (e, c, run) (caller-watch cli caller)
      ]
