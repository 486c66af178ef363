-- ===== src/Cli/Guard.antt =====
-- What must have happened before `run` in rust-old/src/main.rs becomes another program.
use shakti.Prelude.{
  ◌≡◌, refl, sym, ap, ◌∙◌, inl, inr, false, List, [], ◌∷◌, arith, Bool-cases, subst,
}
use shakti.Text.{Text}
use shakti.Error.{Result, ok, err, Answer-cases}
use shakti.Validate.{validate_command, resolve_command}
use shakti.Policy.{SudoPolicy, check_authorization}
use shakti.Load.{load_policy}
use shakti.Timestamp.{invalidate_timestamp}
use shakti.Invocation.{full_command}
use shakti.Account.{get_caller_username, get_user_groups}
use shakti.Cli.{CliArgs, Parsed, arguments, failed, help, version, parse_args}
use shakti.Cli.Report.{check_policy}
use shakti.Cli.Run.{
  Launch, Event, End, replaced, end_of, Machine, Done, run_command, run_policy, run_caller, run,
}
use shakti.Cli.Request.{run_command_eq, run_eq, IsRequest}
use shakti.Cli.Obeyed.{IsObeyed, obey_replaced}

module _ (m : Machine) where
  -- A command line that is accepted and resolved, and then obeyed.
  pub record IsCommanded (policy : SudoPolicy) (caller : Text) (groups : List Text) (target : Text)
      (words : List Text) (l : Launch) (events : List Event) : Type 0 where
    pub cmd : Text
    pub args : List Text
    pub is_words : words ≡ cmd ∷ args
    pub valid : validate_command (cmd ∷ args) policy.defaults.max_command_len ≡ ok tt
    pub resolved : Text
    pub resolves : resolve_command m.host.files cmd ≡ ok resolved
    pub obeyed :
        IsObeyed m policy caller target resolved args
          (full_command resolved args)
          (check_authorization policy caller groups target (full_command resolved args))
          l
          events

  command_replaced :
      (policy : SudoPolicy) (caller : Text) (groups : List Text) (target : Text) (words : List Text)
      (l : Launch)
      → (run_command m policy caller groups target words).answer ≡ replaced l
      → IsCommanded policy caller groups target words l
          (run_command m policy caller groups target words).events
  unfolding run_command
  command_replaced policy caller groups target [] l h = absurd (ground arith)
  command_replaced policy caller groups target (cmd ∷ args) l h =
      elim (Answer-cases (validate_command (cmd ∷ args) policy.defaults.max_command_len)) [
        | inr (x, e) ↦ absurd (ground arith)
        | inl (u, v) ↦ elim (Answer-cases (resolve_command m.host.files cmd)) [
          | inr (x, e) ↦ absurd (ground arith)
          | inl (resolved, r) ↦
              let same = run_command_eq m policy caller groups target cmd args resolved v r in
              record {
                cmd = cmd;
                args = args;
                is_words = refl;
                valid = v;
                resolved = resolved;
                resolves = r;
                obeyed =
                    subst
                      (λ (d : Done m End).
                        IsObeyed m policy caller target resolved args (full_command resolved args)
                          (check_authorization policy caller groups target
                            (full_command resolved args))
                          l d.events)
                      (sym same)
                      (obey_replaced m policy caller target resolved args
                        (full_command resolved args)
                        (check_authorization policy caller groups target
                          (full_command resolved args))
                        l (sym (ap (λ (d : Done m End). d.answer) same) ∙ h));
              }
        ]
      ]

  -- What stands behind a program that replaces this one.
  pub record IsGuarded (words : List Text) (l : Launch) (events : List Event) : Type 0 where
    pub cli : CliArgs
    pub is_cli : parse_args words ≡ arguments cli
    pub no_mode : (cli.invalidate ≡ false) × (cli.check ≡ false) × (cli.list ≡ false)
    pub caller : Text
    pub is_caller : get_caller_username m.accounts ≡ ok caller
    pub policy : SudoPolicy
    pub loaded : load_policy m.host.files m.host.toml cli.policy_path ≡ ok policy
    pub commanded :
        IsCommanded policy caller
          (get_user_groups m.accounts caller)
          cli.target_user
          cli.command
          l
          events

  end_of-ne : (r : Result (Unit {0})) (l : Launch) → ¬ (end_of r ≡ replaced l)
  end_of-ne (ok u) l h = cc h
  end_of-ne (err e) l h = cc h

  policy_replaced :
      (cli : CliArgs) (caller : Text) (groups : List Text) (policy : SudoPolicy) (l : Launch)
      → (run_policy m cli caller groups policy).answer ≡ replaced l
      → ((cli.check ≡ false) × (cli.list ≡ false))
        × IsCommanded policy caller groups cli.target_user cli.command l
            (run_policy m cli caller groups policy).events
  unfolding run_policy
  policy_replaced cli caller groups policy l h = elim (Bool-cases cli.check) [
    | inl c ↦ absurd (end_of-ne (check_policy policy).0 l (ground arith))
    | inr c ↦ elim (Bool-cases cli.list) [
      | inl b ↦ absurd (ground arith)
      | inr b ↦ (
        (c, b),
        rw (c, b)
            (command_replaced policy caller groups cli.target_user cli.command l (rw (c, b) at h)),
      )
    ]
  ]

  -- The command line is read, or the run ends there.
  parsed :
      (words : List Text) (l : Launch)
      → (run m words).answer ≡ replaced l
      → (cli : CliArgs) × (parse_args words ≡ arguments cli)
  unfolding run
  parsed words l h = go (parse_args words) refl
    where
      go :
          (p : Parsed) → parse_args words ≡ p → (cli : CliArgs) × (parse_args words ≡ arguments cli)
      go (arguments cli) e = (cli, e)
      go (failed x) e = absurd (ground arith)
      go help e = absurd (ground arith)
      go version e = absurd (ground arith)

  guarded :
      (words : List Text) (cli : CliArgs) (caller : Text) (policy : SudoPolicy) (l : Launch)
      → parse_args words ≡ arguments cli
      → get_caller_username m.accounts ≡ ok caller
      → cli.invalidate ≡ false
      → load_policy m.host.files m.host.toml cli.policy_path ≡ ok policy
      → (run m words).answer ≡ replaced l
      → IsGuarded words l (run m words).events
  guarded words cli caller policy l p c i load h =
      let same = run_eq m words cli caller policy p c i load in
      let (modes, commanded) =
        policy_replaced cli caller (get_user_groups m.accounts caller) policy l
          (sym (ap (λ (d : Done m End). d.answer) same) ∙ h) in
      subst (λ (d : Done m End). IsGuarded words l d.events) (sym same)
        (record {
          cli = cli;
          is_cli = p;
          no_mode = (i, modes.0, modes.1);
          caller = caller;
          is_caller = c;
          policy = policy;
          loaded = load;
          commanded = commanded;
        })

  -- The program is replaced only by a command that was given on an accepted command line, that the
  -- loaded policy allows the caller, for which the password was given or the cache was fresh where
  -- the policy asks for one, and whose use was logged just before; it runs at the resolved path,
  -- with the target's ids and groups and a sanitized environment.
  pub run-IsGuarded :
      (words : List Text) (l : Launch)
      → (run m words).answer ≡ replaced l
      → IsGuarded words l (run m words).events
  unfolding run run_caller
  run-IsGuarded words l h =
      let (cli, p) = parsed words l h in
      elim (Answer-cases (get_caller_username m.accounts)) [
        | inr (x, c) ↦ absurd (ground arith)
        | inl (caller, c) ↦ elim (Bool-cases cli.invalidate) [
          | inl i ↦ absurd (
              end_of-ne (invalidate_timestamp m.host.cache m.host.tty m.host.cache_state caller).0 l
                (ground arith))
          | inr i ↦ elim (Answer-cases (load_policy m.host.files m.host.toml cli.policy_path)) [
            | inr (x, e) ↦ absurd (ground arith)
            | inl (policy, load) ↦ guarded words cli caller policy l p c i load h
          ]
        ]
      ]

  -- The request that a program was started for.
  abbrev pub Request-of :
      {words : List Text} {l : Launch} {events : List Event}
      → IsGuarded words l events
      → IsRequest m words
  Request-of g = record {
    cli = g.cli;
    is_cli = g.is_cli;
    no_mode = g.no_mode;
    caller = g.caller;
    is_caller = g.is_caller;
    policy = g.policy;
    loaded = g.loaded;
    cmd = g.commanded.cmd;
    args = g.commanded.args;
    is_command = g.commanded.is_words;
    valid = g.commanded.valid;
    resolved = g.commanded.resolved;
    resolves = g.commanded.resolves;
  }
