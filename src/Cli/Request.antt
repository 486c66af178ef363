-- ===== src/Cli/Request.antt =====
-- A command line that `run` in rust-old/src/main.rs accepts, up to the answer of the policy.
use shakti.Prelude.{◌≡◌, ◌∙◌, false, List, ◌∷◌, arith}
use shakti.Text.{Text}
use shakti.Error.{ok}
use shakti.Validate.{validate_command, resolve_command}
use shakti.Policy.{SudoPolicy, AuthzResult, check_authorization}
use shakti.Load.{load_policy}
use shakti.Invocation.{full_command}
use shakti.Account.{get_caller_username, get_user_groups}
use shakti.Cli.{CliArgs, arguments, parse_args}
use shakti.Cli.Run.{Machine, obey, run_resolved, run_command, run_policy, run_caller, run}

module _ (m : Machine) where
  pub run_command_eq :
      (policy : SudoPolicy) (caller : Text) (groups : List Text) (target cmd : Text)
      (args : List Text) (resolved : Text)
      → validate_command (cmd ∷ args) policy.defaults.max_command_len ≡ ok tt
      → resolve_command m.host.files cmd ≡ ok resolved
      → run_command m policy caller groups target (cmd ∷ args)
        ≡ obey m policy caller target resolved args
            (full_command resolved args)
            (check_authorization policy caller groups target (full_command resolved args))
  unfolding run_command run_resolved
  run_command_eq policy caller groups target cmd args resolved v r = ground arith

  pub run_eq :
      (words : List Text) (cli : CliArgs) (caller : Text) (policy : SudoPolicy)
      → parse_args words ≡ arguments cli
      → get_caller_username m.accounts ≡ ok caller
      → cli.invalidate ≡ false
      → load_policy m.host.files m.host.toml cli.policy_path ≡ ok policy
      → run m words ≡ run_policy m cli caller (get_user_groups m.accounts caller) policy
  unfolding run run_caller
  run_eq words cli caller policy p c i l = ground arith

  -- What the run has found when it asks the policy.
  pub record IsRequest (words : List Text) : Type 0 where
    pub cli : CliArgs
    pub is_cli : parse_args words ≡ arguments cli
    pub no_mode : (cli.invalidate ≡ false) × (cli.check ≡ false) × (cli.list ≡ false)
    pub caller : Text
    pub is_caller : get_caller_username m.accounts ≡ ok caller
    pub policy : SudoPolicy
    pub loaded : load_policy m.host.files m.host.toml cli.policy_path ≡ ok policy
    pub cmd : Text
    pub args : List Text
    pub is_command : cli.command ≡ cmd ∷ args
    pub valid : validate_command (cmd ∷ args) policy.defaults.max_command_len ≡ ok tt
    pub resolved : Text
    pub resolves : resolve_command m.host.files cmd ≡ ok resolved

  module _ {words : List Text} (r : IsRequest words) where
    open r use {cli, caller, policy, cmd, args, resolved}

    -- The answer of the policy to the request.
    abbrev pub verdict : AuthzResult
    verdict =
        check_authorization policy caller (get_user_groups m.accounts caller) cli.target_user
          (full_command resolved args)

    policy_eq :
        run_policy m cli caller (get_user_groups m.accounts caller) policy
        ≡ run_command m policy caller
            (get_user_groups m.accounts caller)
            cli.target_user
            (cmd ∷ args)
    unfolding run_policy
    policy_eq = ground (arith, r.no_mode.1, r.no_mode.2, r.is_command)

    -- The run is what the answer of the policy makes of it.
    pub request_eq :
        run m words
        ≡ obey m policy caller cli.target_user resolved args (full_command resolved args) verdict
    request_eq =
        run_eq words cli caller policy r.is_cli r.is_caller r.no_mode.0 r.loaded
        ∙ (policy_eq
            ∙ run_command_eq policy caller (get_user_groups m.accounts caller) cli.target_user cmd
                args resolved r.valid r.resolves)
