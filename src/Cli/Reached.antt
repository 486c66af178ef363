-- ===== src/Cli/Reached.antt =====
-- Exactly when `run` in rust-old/src/main.rs gets to the program.
use shakti.Prelude.{
  ◌≡◌, sym, ap, ◌∙◌, ◌↔◌, ◌⊎◌, inl, inr, Bool, true, false, some, List, ◌∷◌, arith, Bool-cases,
  Option-cases,
}
use shakti.Text.{Text, contains}
use shakti.Error.{ok, Answer-cases}
use shakti.Validate.Safe.{IsValid, validate_command_iff}
use shakti.Validate.Resolve.{Resolves, resolve_command_iff}
use shakti.Policy.{SudoPolicy, AuthzResult, allowed}
use shakti.Policy.Decision.{Verdict, check_authorization_iff}
use shakti.Load.Loaded.{Loads, load_policy_iff}
use shakti.Timestamp.{from_secs}
use shakti.Timestamp.Session.{IsFresh, check_timestamp_iff}
use shakti.Auth.Attempts.{IsAuthenticated, authenticate_user_iff}
use shakti.Invocation.{full_command}
use shakti.Account.{get_caller_username, get_user_groups, get_target_user_info}
use shakti.Privilege.{pre_exec}
use shakti.Cli.{CliArgs, arguments, parse_args}
use shakti.Cli.Obeyed.{Proven}
use shakti.Cli.Request.{IsRequest, verdict, request_eq}
use shakti.Cli.Guard.{run-IsGuarded, Request-of}
use shakti.Cli.Live.{CanStart, run-replaced}
use shakti.Cli.Run.{Launch, Done, End, replaced, Machine, gate, launch_of, exec, launch, obey, run}

module _ (m : Machine) where
  -- The cache has a fresh file for the user, or one of the prompts is answered rightly.
  abbrev pub Vouched : SudoPolicy → Text → Type 0
  Vouched policy caller =
      IsFresh m.host.cache m.host.tty m.host.cache_state caller
        (from_secs policy.defaults.timestamp_ttl)
      ⊎ IsAuthenticated caller m.meetings

  Vouched-iff :
      (policy : SudoPolicy) (caller : Text) → Proven m policy caller ↔ Vouched policy caller
  Vouched-iff policy caller =
      let (fresh→, →fresh) =
        check_timestamp_iff m.host.cache m.host.tty m.host.cache_state caller
          (from_secs policy.defaults.timestamp_ttl) in
      let (right→, →right) = authenticate_user_iff caller m.meetings in
      (
        λ p. elim p [ inl fresh ↦ inl (fresh→ fresh) | inr right ↦ inr (right→ right) ],
        λ v. elim v [ inl fresh ↦ inl (→fresh fresh) | inr right ↦ inr (→right right) ],
      )

  -- What has to hold for a run to end as a program.
  pub record IsReached (words : List Text) (l : Launch) : Type 0 where
    pub cli : CliArgs
    pub is_cli : parse_args words ≡ arguments cli
    pub no_mode : (cli.invalidate ≡ false) × (cli.check ≡ false) × (cli.list ≡ false)
    pub caller : Text
    pub is_caller : get_caller_username m.accounts ≡ ok caller
    pub policy : SudoPolicy
    pub loads : Loads m.host.files m.host.toml cli.policy_path policy
    pub cmd : Text
    pub args : List Text
    pub is_command : cli.command ≡ cmd ∷ args
    pub valid : IsValid (cmd ∷ args) policy.defaults.max_command_len
    pub resolved : Text
    pub resolves : Resolves m.host.files cmd resolved
    pub required : Bool
    pub permits :
        Verdict caller
          (get_user_groups m.accounts caller)
          cli.target_user
          (full_command resolved args)
          policy.defaults
          policy.rules
          (allowed required)
    pub vouched : required ≡ true → Vouched policy caller
    pub can : CanStart m cli.target_user resolved
    pub is_launch : l ≡ launch_of m policy caller cli.target_user resolved args can.entry

  exec→ :
      (k l : Launch)
      → exec m k ≡ replaced l
      → (s : m.kernel.State) × (pre_exec m.kernel k.user k.uid k.gid m.kernel_state ≡ some s)
        × (m.starts k.path ≡ true)
        × (k ≡ l)
  unfolding exec
  exec→ k l h = elim (Option-cases (pre_exec m.kernel k.user k.uid k.gid m.kernel_state)) [
    | inl e ↦ absurd (ground arith)
    | inr (s, e) ↦ elim (Bool-cases (m.starts k.path)) [
      | inl b ↦ (s, e, b, ground arith)
      | inr b ↦ absurd (ground arith)
    ]
  ]

  launch_replaced→ :
      (policy : SudoPolicy) (caller target resolved : Text) (args : List Text) (l : Launch)
      → (launch m policy caller target resolved args).0 ≡ replaced l
      → (c : CanStart m target resolved) × (l
          ≡ launch_of m policy caller target resolved args c.entry)
  unfolding launch launch_of
  launch_replaced→ policy caller target resolved args l h =
      elim (Answer-cases (get_target_user_info m.accounts target)) [
        | inr (x, e) ↦ absurd (ground arith)
        | inl (entry, e) ↦ elim (Bool-cases (contains target 0)) [
          | inl c ↦ absurd (ground arith)
          | inr c ↦
              let k = launch_of m policy caller target resolved args entry in
              let (s, drops, starts, same) = exec→ k l (ground arith) in
              (
                record {
                  entry = entry;
                  is_entry = e;
                  no_null = c;
                  state = s;
                  drops = drops;
                  starts = starts;
                },
                sym same,
              )
        ]
      ]

  obeyed→ :
      (policy : SudoPolicy) (caller target resolved : Text) (args : List Text) (cmd : Text)
      (required : Bool) (r : AuthzResult) (l : Launch)
      → r ≡ allowed required
      → (obey m policy caller target resolved args cmd r).answer ≡ replaced l
      → (c : CanStart m target resolved) × (l
          ≡ launch_of m policy caller target resolved args c.entry)
  unfolding obey
  obeyed→ policy caller target resolved args cmd required r l e h =
      elim (Answer-cases (gate m policy caller target cmd required).answer) [
        | inr (x, g) ↦ absurd (ground arith)
        | inl (u, g) ↦ launch_replaced→ policy caller target resolved args l (ground arith)
      ]

  reached→ :
      (words : List Text) (l : Launch) → (run m words).answer ≡ replaced l → IsReached words l
  reached→ words l h =
      let g = run-IsGuarded m words l h in
      let r = Request-of m g in
      let o = g.commanded.obeyed in
      let cmd = full_command g.commanded.resolved g.commanded.args in
      let (can, is_launch) =
        obeyed→ g.policy g.caller g.cli.target_user g.commanded.resolved g.commanded.args cmd
          o.required (verdict m r) l o.is_allowed
          (sym (ap (λ (d : Done m End). d.answer) (request_eq m r)) ∙ h) in
      record {
        cli = g.cli;
        is_cli = g.is_cli;
        no_mode = g.no_mode;
        caller = g.caller;
        is_caller = g.is_caller;
        policy = g.policy;
        loads = (load_policy_iff m.host.files m.host.toml g.cli.policy_path g.policy).0 g.loaded;
        cmd = g.commanded.cmd;
        args = g.commanded.args;
        is_command = g.commanded.is_words;
        valid = (validate_command_iff _ _).0 g.commanded.valid;
        resolved = g.commanded.resolved;
        resolves =
            (resolve_command_iff m.host.files g.commanded.cmd g.commanded.resolved).0
              g.commanded.resolves;
        required = o.required;
        permits =
            (check_authorization_iff g.caller _ g.cli.target_user cmd g.policy _).0 o.is_allowed;
        vouched = λ must. (Vouched-iff g.policy g.caller).0 (o.proven must);
        can = can;
        is_launch = is_launch;
      }

  abbrev request-of : {words : List Text} {l : Launch} → IsReached words l → IsRequest m words
  request-of n = record {
    cli = n.cli;
    is_cli = n.is_cli;
    no_mode = n.no_mode;
    caller = n.caller;
    is_caller = n.is_caller;
    policy = n.policy;
    loaded = (load_policy_iff m.host.files m.host.toml n.cli.policy_path n.policy).1 n.loads;
    cmd = n.cmd;
    args = n.args;
    is_command = n.is_command;
    valid = (validate_command_iff (n.cmd ∷ n.args) n.policy.defaults.max_command_len).1 n.valid;
    resolved = n.resolved;
    resolves = (resolve_command_iff m.host.files n.cmd n.resolved).1 n.resolves;
  }

  →reached :
      (words : List Text) (l : Launch) → IsReached words l → (run m words).answer ≡ replaced l
  →reached words l n =
      run-replaced m (request-of n) n.required
        ((check_authorization_iff n.caller _ n.cli.target_user _ n.policy _).1 n.permits)
        (λ must. (Vouched-iff n.policy n.caller).1 (n.vouched must)) n.can
      ∙ ap (λ k. replaced k) (sym n.is_launch)

  -- A run ends as a program exactly if the command line is read and has none of -k, -c and -l, the
  -- caller is found, the files are a policy that loads, the command is acceptable and resolves, the
  -- rules allow it, a file of the cache is fresh or a prompt is answered rightly where they ask for
  -- a password, the target's account is found, its name holds no null, the privileges can be given
  -- up and a program can be started at the path. The program is then started with the path, the
  -- arguments, the environment and the ids of that request and account.
  pub run_replaced_iff :
      (words : List Text) (l : Launch) → ((run m words).answer ≡ replaced l) ↔ IsReached words l
  run_replaced_iff words l = (reached→ words l, →reached words l)
