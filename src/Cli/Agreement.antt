-- ===== src/Cli/Agreement.antt =====
-- `run` of rust-old/src/main.rs and `evaluate` of rust-old/src/api.rs on the same request.
use shakti.Prelude.{
  ◌≡◌, refl, sym, ap, ◌∙◌, ◌⊎◌, inl, inr, Bool, true, false, ◌&&◌, some, List, Bool-cases, subst,
}
use shakti.Text.{Text}
use shakti.Error.{Result, ok, >>=-eq-ok}
use shakti.Validate.{validate_username}
use shakti.Policy.{SudoPolicy}
use shakti.Load.{load_policy}
use shakti.Env.{sanitize_environment}
use shakti.Api.{
  UserEntry, ShaktiConfig, interactive, Evaluation, evaluate, target_user_home, target_user_shell,
  account_of, timestamp_for,
}
use shakti.Api.Evaluated.{Evaluated, evaluate_with_policy_iff}
use shakti.Account.{get_caller_username, get_user_groups, get_target_user_info}
use shakti.Cli.{CliArgs, arguments, parse_args}
use shakti.Cli.Obeyed.{Proven}
use shakti.Cli.Request.{IsRequest}
use shakti.Cli.Guard.{IsGuarded, run-IsGuarded}
use shakti.Cli.Live.{CanStart, run-replaced}
use shakti.Cli.Run.{Event, Launch, Machine, replaced, launch_of, run}

-- The configuration of a consumer that asks for what a command line asks for.
abbrev pub config_of : CliArgs → ShaktiConfig
config_of cli = record {
  policy_path = cli.policy_path;
  target_user = cli.target_user;
  auth_mode = interactive;
}

module _ (m : Machine) where
  -- What the consumer's function answers to a command line of a caller.
  abbrev pub evaluated : CliArgs → Text → Result Evaluation
  evaluated cli caller =
      evaluate m.host (config_of cli) caller (get_user_groups m.accounts caller) cli.command

  -- Both programs look the target up in the same database.
  abbrev pub SameDatabase : Text → Type 0
  SameDatabase target =
      (entry : UserEntry)
      → get_target_user_info m.accounts target ≡ ok entry
      → m.host.user_from_name target ≡ some entry

  -- The environments of the two are one.
  launch-environment :
      (policy : SudoPolicy) (cli : CliArgs) (caller resolved : Text) (args : List Text)
      (entry : UserEntry)
      → m.host.user_from_name cli.target_user ≡ some entry
      → (launch_of m policy caller cli.target_user resolved args entry).env
        ≡ sanitize_environment policy (account_of m.host (config_of cli) caller) m.host.vars
  unfolding launch_of account_of target_user_home target_user_shell
  launch-environment policy cli caller resolved args entry e =
      rw (e, target_user_home, target_user_shell) refl

  load-evaluate :
      (cli : CliArgs) (caller : Text) (policy : SudoPolicy) (e : Evaluation)
      → load_policy m.host.files m.host.toml cli.policy_path ≡ ok policy
      → Evaluated m.host
          (config_of cli)
          policy
          caller
          (get_user_groups m.accounts caller)
          cli.command
          e
      → evaluated cli caller ≡ ok e
  unfolding evaluate
  load-evaluate cli caller policy e load v = rw load (
      (evaluate_with_policy_iff m.host (config_of cli) policy caller
          (get_user_groups m.accounts caller) cli.command e).1
        v)

  abbrev evaluation : CliArgs → SudoPolicy → Text → Text → Bool → Evaluation
  evaluation cli policy caller resolved required = record {
    authorized = true;
    require_auth = required;
    timestamp_valid = required && timestamp_for m.host policy caller;
    resolved_command = resolved;
    environment =
        sanitize_environment policy (account_of m.host (config_of cli) caller) m.host.vars;
    policy = policy;
  }

  -- The consumer's function authorizes what was started.
  abbrev pub Authorizes : CliArgs → Text → Launch → Type 0
  Authorizes cli caller l =
      (e : Evaluation) × (evaluated cli caller ≡ ok e)
      × (e.resolved_command ≡ l.path)
      × (e.environment ≡ l.env)
      × ((e.require_auth ≡ false) ⊎ Proven m e.policy caller)

  guarded-Authorizes :
      (words : List Text) (l : Launch) (events : List Event) (g : IsGuarded m words l events)
      → validate_username g.caller ≡ ok tt
      → SameDatabase g.cli.target_user
      → Authorizes g.cli g.caller l
  guarded-Authorizes words l events g name same =
      let o = g.commanded.obeyed in
      let resolved = g.commanded.resolved in
      let e = evaluation g.cli g.policy g.caller resolved o.required in
      let answer : evaluated g.cli g.caller ≡ ok e =
        load-evaluate g.cli g.caller g.policy e g.loaded (record {
          cmd = g.commanded.cmd;
          rest = g.commanded.args;
          is_args = g.commanded.is_words;
          caller_ok = name;
          args_ok = g.commanded.valid;
          resolves = g.commanded.resolves;
          permitted = o.is_allowed;
          mode_ok = refl;
          is_authorized = refl;
          is_environment = refl;
          is_policy = refl;
        }) in
      let k =
        launch_of m g.policy g.caller g.cli.target_user resolved g.commanded.args o.started.entry in
      let path : k.path ≡ resolved = unfold launch_of in refl in
      let env =
        launch-environment g.policy g.cli g.caller resolved g.commanded.args o.started.entry
          (same o.started.entry o.started.is_entry) in
      (
        e,
        answer,
        sym (ap (λ (x : Launch). x.path) o.started.is_launch ∙ path),
        sym (ap (λ (x : Launch). x.env) o.started.is_launch ∙ env),
        elim (Bool-cases o.required) [ inr free ↦ inl free | inl must ↦ inr (o.proven must) ],
      )

  -- Where a run becomes a program, the consumer's function, asked by the same caller for the same
  -- command line, authorizes the same program with the same environment, and asks for a password
  -- only if the cache is fresh or the user gave the right one to the run. The caller's name is one
  -- that the function accepts, and both look the target up in one database.
  pub run-Authorizes :
      (words : List Text) (cli : CliArgs) (caller : Text) (l : Launch)
      → parse_args words ≡ arguments cli
      → get_caller_username m.accounts ≡ ok caller
      → validate_username caller ≡ ok tt
      → SameDatabase cli.target_user
      → (run m words).answer ≡ replaced l
      → Authorizes cli caller l
  run-Authorizes words cli caller l p c name same a =
      let g = run-IsGuarded m words l a in
      let is_cli : g.cli ≡ cli = cc (g.is_cli, p) in
      let is_caller : g.caller ≡ caller = cc (g.is_caller, c) in
      subst (λ w. Authorizes w caller l) is_cli
        (subst (λ w. Authorizes g.cli w l) is_caller
          (guarded-Authorizes words l (run m words).events g (ap validate_username is_caller ∙ name)
            (λ entry h.
              ap (λ (w : CliArgs). m.host.user_from_name w.target_user) is_cli
              ∙ same entry (
                  sym (ap (λ (w : CliArgs). get_target_user_info m.accounts w.target_user) is_cli)
                  ∙ h))))

  -- What an evaluation has found is a request.
  request :
      (words : List Text) (cli : CliArgs) (caller : Text) (policy : SudoPolicy) (e : Evaluation)
      → parse_args words ≡ arguments cli
      → (cli.invalidate ≡ false) × (cli.check ≡ false) × (cli.list ≡ false)
      → get_caller_username m.accounts ≡ ok caller
      → load_policy m.host.files m.host.toml cli.policy_path ≡ ok policy
      → Evaluated m.host
          (config_of cli)
          policy
          caller
          (get_user_groups m.accounts caller)
          cli.command
          e
      → IsRequest m words
  request words cli caller policy e p modes c load v = record {
    cli = cli;
    is_cli = p;
    no_mode = modes;
    caller = caller;
    is_caller = c;
    policy = policy;
    loaded = load;
    cmd = v.cmd;
    args = v.rest;
    is_command = v.is_args;
    valid = v.args_ok;
    resolved = e.resolved_command;
    resolves = v.resolves;
  }

  -- What the consumer's function authorizes for the caller, a run on the same command line becomes,
  -- at the same path and with the same environment, where the command line has none of -k, -c and
  -- -l, the caller is found, both look the target up in one database, the cache is fresh or the user
  -- gives the right password if the function asks for one, the target's account is found and its
  -- name holds no null, the privileges can be given up, and a program can be started at the path.
  pub evaluate-run :
      (words : List Text) (cli : CliArgs) (caller : Text) (e : Evaluation)
      → parse_args words ≡ arguments cli
      → (cli.invalidate ≡ false) × (cli.check ≡ false) × (cli.list ≡ false)
      → get_caller_username m.accounts ≡ ok caller
      → SameDatabase cli.target_user
      → evaluated cli caller ≡ ok e
      → (e.require_auth ≡ true → Proven m e.policy caller)
      → CanStart m cli.target_user e.resolved_command
      → (l : Launch) × ((run m words).answer ≡ replaced l)
        × (l.path ≡ e.resolved_command)
        × (l.env ≡ e.environment)
  unfolding evaluate request
  evaluate-run words cli caller e p modes c same h proven can =
      let groups = get_user_groups m.accounts caller in
      let (policy, load, rest) =
        >>=-eq-ok (load_policy m.host.files m.host.toml cli.policy_path) _ h in
      let v =
        (evaluate_with_policy_iff m.host (config_of cli) policy caller groups cli.command e).0
          rest in
      let r = request words cli caller policy e p modes c load v in
      let l = launch_of m policy caller cli.target_user e.resolved_command v.rest can.entry in
      let path : l.path ≡ e.resolved_command = unfold launch_of in refl in
      (
        l,
        run-replaced m r e.require_auth v.permitted
            (λ must. subst (λ q. Proven m q caller) v.is_policy (proven must)) can,
        path,
        launch-environment policy cli caller e.resolved_command v.rest can.entry
              (same can.entry can.is_entry)
            ∙ sym v.is_environment,
      )
