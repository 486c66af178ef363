-- ===== src/Cli/Run.antt =====
-- rust-old/src/main.rs: `run`, from the words of the command line to the program that replaces this
-- one. What the program does on the way is a list of events, in order; reading the policy and the
-- accounts are none, since nobody can see them.
use shakti.Prelude.{ℕ, Bool, true, false, none, some, List, [], ◌∷◌, ◌++◌, if◌then◌else◌}
use shakti.Text.{Text, codes, contains}
use shakti.Error.{
  Error, Result, ok, err, no_command_specified, permission_denied, incorrect_password_attempts,
  target_contains_null, exec_failed,
}
use shakti.Validate.{validate_command, resolve_command}
use shakti.Policy.{SudoPolicy, AuthzResult, allowed, denied, check_authorization}
use shakti.Load.{load_policy}
use shakti.Env.{Vars, sanitize_environment}
use shakti.Timestamp.{check_timestamp, update_timestamp, invalidate_timestamp, from_secs}
use shakti.Auth.{Meeting, AuthEvent, authenticate_user, max_auth_attempts}
use shakti.Audit.{AuditAction, command, auth_failure}
use shakti.Invocation.{full_command}
use shakti.Api.{UserEntry, Host}
use shakti.Account.{Accounts, get_caller_username, get_user_groups, get_target_user_info}
use shakti.Privilege.{Kernel, pre_exec}
use shakti.Cli.{CliArgs, arguments, failed, help, version, parse_args}
use shakti.Cli.Report.{check_policy, list_permissions}

-- The command that `exec` is given.
pub record Launch : Type 0 where
  pub path : Text
  pub args : List Text
  pub env : Vars
  pub user : Text
  pub uid : ℕ
  pub gid : ℕ

-- What can be seen of a run, in order. `logged` is a call of `audit_log` with its arguments, `asked`
-- the loop of password prompts, `stamped` an update of the cache that is begun, `tried` a call of
-- `exec`.
pub data Event : Type 0 where
  printed : List Text → Event
  usage version_line : Event
  cleared : Event
  masked unmasked : Event
  asked : List AuthEvent → Event
  stamped : Event
  logged : AuditAction → Text → Text → Text → Bool → Text → Event
  tried : Launch → Event

-- How a run ends: with an error, with status 0, or as another program.
pub data End : Type 0 where
  stopped : Error → End
  done : End
  replaced : Launch → End

abbrev pub end_of : Result (Unit {0}) → End
end_of (ok u) = done
end_of (err e) = stopped e

-- The host, the accounts, and what the run meets: whether the signal mask can be set, the password
-- prompts, and whether a program can be started at a path.
pub record Machine : Type 1 where
  pub host : Host
  pub accounts : Accounts
  pub kernel : Kernel
  pub kernel_state : kernel.State
  pub mask_ok : Bool
  pub meetings : ℕ → Meeting
  pub starts : Text → Bool

module _ (m : Machine) where
  abbrev pub Cache : Type 0
  Cache = m.host.cache.State

  -- An answer with the events on the way to it, and the cache after them.
  pub record Done {ℓ} (A : Type ℓ) : Type ℓ where
    pub answer : A
    pub events : List Event
    pub cache : Cache

  abbrev pub finish {ℓ} : {A : Type ℓ} → A → List Event → Done A
  finish a events = record { answer = a; events = events; cache = m.host.cache_state }

  -- Whether there is a mask to go back to is known to both.
  unfoldable pub mask_auth_signals : List Event
  mask_auth_signals = if m.mask_ok then masked ∷ [] else []

  unfoldable pub restore_signals : List Event
  restore_signals = if m.mask_ok then unmasked ∷ [] else []

  -- The prompts, behind the mask.
  unfoldable pub prompt_masked : Text → Result Bool × List Event
  prompt_masked caller =
      let (answer, events) = authenticate_user caller m.meetings in
      (answer, mask_auth_signals ++ asked events ∷ restore_signals)

  -- Authentication, where the cache does not spare it. That the cache cannot be updated is no error.
  unfoldable pub prove : Text → Text → Text → Done (Result (Unit {0}))
  prove caller target cmd =
      let (answer, events) = prompt_masked caller in
      elim answer [
        | err e ↦ finish (err e) events
        | ok b ↦
            if b
            then record {
              answer = ok tt;
              events = events ++ stamped ∷ [];
              cache = (update_timestamp m.host.cache m.host.tty m.host.cache_state caller).1;
            }
            else finish (err (incorrect_password_attempts max_auth_attempts)) (
                events
                ++ logged auth_failure caller target cmd false (codes "authentication failed") ∷ [])
      ]

  unfoldable pub gate : SudoPolicy → Text → Text → Text → Bool → Done (Result (Unit {0}))
  gate policy caller target cmd require_auth =
      if require_auth
      then (if check_timestamp m.host.cache m.host.tty m.host.cache_state caller
            (from_secs policy.defaults.timestamp_ttl)
          then finish (ok tt) []
          else prove caller target cmd)
      else finish (ok tt) []

  unfoldable pub launch_of : SudoPolicy → Text → Text → Text → List Text → UserEntry → Launch
  launch_of policy caller target resolved args entry = record {
    path = resolved;
    args = args;
    env =
        sanitize_environment policy
          (record {
            caller_user = caller;
            uid = m.host.uid;
            gid = m.host.gid;
            target_user = target;
            target_home = entry.dir;
            target_shell = entry.shell;
          })
          m.host.vars;
    user = target;
    uid = entry.uid;
    gid = entry.gid;
  }

  -- `cmd.exec()`: the closure runs first, and then the program starts, or does not.
  unfoldable pub exec : Launch → End
  exec l = elim (pre_exec m.kernel l.user l.uid l.gid m.kernel_state) [
    | none ↦ stopped (exec_failed l.path)
    | some s ↦ if m.starts l.path then replaced l else stopped (exec_failed l.path)
  ]

  -- After authentication: the target's account, the environment, and the call of `exec`.
  unfoldable pub launch : SudoPolicy → Text → Text → Text → List Text → End × List Event
  launch policy caller target resolved args = elim (get_target_user_info m.accounts target) [
    | err e ↦ (stopped e, [])
    | ok entry ↦ if contains target 0 then (stopped target_contains_null, []) else (
      exec (launch_of policy caller target resolved args entry),
      tried (launch_of policy caller target resolved args entry) ∷ [],
    )
  ]

  -- The match on the answer of the authorization check.
  unfoldable pub obey : SudoPolicy → Text → Text → Text → List Text → Text → AuthzResult → Done End
  obey policy caller target resolved args cmd (denied reason) =
      finish (stopped permission_denied) (logged command caller target cmd false reason ∷ [])
  obey policy caller target resolved args cmd (allowed require_auth) =
      let g = gate policy caller target cmd require_auth in
      let (end, events) = launch policy caller target resolved args in
      elim g.answer [
        | err e ↦ record { answer = stopped e; events = g.events; cache = g.cache }
        | ok u ↦ record {
          answer = end;
          events = g.events ++ logged command caller target cmd true (codes "authorized") ∷ events;
          cache = g.cache;
        }
      ]

  unfoldable pub run_resolved : SudoPolicy → Text → List Text → Text → List Text → Text → Done End
  run_resolved policy caller groups target args resolved =
      obey policy caller target resolved args (full_command resolved args)
        (check_authorization policy caller groups target (full_command resolved args))

  unfoldable pub run_command : SudoPolicy → Text → List Text → Text → List Text → Done End
  run_command policy caller groups target [] = finish (stopped no_command_specified) (usage ∷ [])
  run_command policy caller groups target (cmd ∷ args) =
      elim (validate_command (cmd ∷ args) policy.defaults.max_command_len) [
        | err e ↦ finish (stopped e) []
        | ok u ↦ elim (resolve_command m.host.files cmd) [
          | err e ↦ finish (stopped e) []
          | ok resolved ↦ run_resolved policy caller groups target args resolved
        ]
      ]

  unfoldable pub run_policy : CliArgs → Text → List Text → SudoPolicy → Done End
  run_policy cli caller groups policy =
      if cli.check
      then finish (end_of (check_policy policy).0) (printed (check_policy policy).1 ∷ [])
      else if cli.list
      then finish done (printed (list_permissions policy caller groups) ∷ [])
      else run_command policy caller groups cli.target_user cli.command

  unfoldable pub run_caller : CliArgs → Text → Done End
  run_caller cli caller =
      if cli.invalidate
      then (let (r, s) = invalidate_timestamp m.host.cache m.host.tty m.host.cache_state caller in
          record { answer = end_of r; events = cleared ∷ []; cache = s })
      else elim (load_policy m.host.files m.host.toml cli.policy_path) [
        | err e ↦ finish (stopped e) []
        | ok policy ↦ run_policy cli caller (get_user_groups m.accounts caller) policy
      ]

  unfoldable pub run : List Text → Done End
  run words = elim (parse_args words) [
    | failed e ↦ finish (stopped e) []
    | help ↦ finish done (usage ∷ [])
    | version ↦ finish done (version_line ∷ [])
    | arguments cli ↦ elim (get_caller_username m.accounts) [
      | err e ↦ finish (stopped e) []
      | ok caller ↦ run_caller cli caller
    ]
  ]
