-- ===== src/Api.antt =====
-- rust-old/src/api.rs: the consumer API. The host that a request is evaluated on is one record: the
-- file system, the credential cache's file system, the terminal, the accounts, and the process.
pub mod Builder
pub mod Evaluated
pub mod Modes
use shakti.Prelude.{
  ℕ, Bool, true, false, ◌&&◌, not, Option, none, some, List, [], ◌∷◌, ◌++◌, if◌then◌else◌,
}
use shakti.Text.{Text, codes, text_eq}
use shakti.Error.{
  Error, Result, ok, err, bail_if, ◌>>=◌, ◌>>◌, authorization_denied, timestamp_expired,
  no_command_specified,
}
use shakti.Os.{Files}
use shakti.Validate.{validate_username, validate_command, resolve_command}
use shakti.Policy.{SudoPolicy, AuthzResult, allowed, denied, check_authorization}
use shakti.Load.{Document, load_policy}
use shakti.Env.{Vars, Account, sanitize_environment}
use shakti.Timestamp.{TimestampFs, check_timestamp, from_secs}
use shakti.Invocation.{full_command}

pub data AuthMode : Type 0 where
  interactive timestamp_only skip : AuthMode

abbrev pub is_skip : AuthMode → Bool
is_skip skip = true
is_skip _ = false

abbrev pub is_timestamp_only : AuthMode → Bool
is_timestamp_only timestamp_only = true
is_timestamp_only _ = false

pub record ShaktiConfig : Type 0 where
  pub policy_path : Text
  pub target_user : Text
  pub auth_mode : AuthMode

-- What `User::from_name` finds.
pub record UserEntry : Type 0 where
  pub name : Text
  pub uid : ℕ
  pub gid : ℕ
  pub dir : Text
  pub shell : Text

pub record Host : Type 1 where
  pub files : Files
  pub toml : Text → Option Document
  pub cache : TimestampFs
  pub cache_state : cache.State
  pub tty : Option Text
  pub user_from_name : Text → Option UserEntry
  pub uid : ℕ
  pub gid : ℕ
  pub vars : Vars

pub record Evaluation : Type 0 where
  pub authorized : Bool
  pub require_auth : Bool
  pub timestamp_valid : Bool
  pub resolved_command : Text
  pub environment : Vars
  pub policy : SudoPolicy

module _ (host : Host) where
  unfoldable pub target_user_home : Text → Text
  target_user_home username = elim (host.user_from_name username) [
    | some user ↦ user.dir
    | none ↦ if text_eq username (codes "root") then codes "/root" else codes "/home/" ++ username
  ]

  unfoldable pub target_user_shell : Text → Text
  target_user_shell username = elim (host.user_from_name username) [
    | some user ↦ user.shell
    | none ↦ codes "/bin/sh"
  ]

  unfoldable pub account_of : ShaktiConfig → Text → Account
  account_of config caller = record {
    caller_user = caller;
    uid = host.uid;
    gid = host.gid;
    target_user = config.target_user;
    target_home = target_user_home config.target_user;
    target_shell = target_user_shell config.target_user;
  }

  unfoldable pub timestamp_for : SudoPolicy → Text → Bool
  timestamp_for policy caller =
      check_timestamp host.cache host.tty host.cache_state caller
        (from_secs policy.defaults.timestamp_ttl)

  -- The arm for an allowed command.
  unfoldable pub finish : ShaktiConfig → SudoPolicy → Text → Text → Bool → Result Evaluation
  finish config policy caller resolved require_auth =
      let effective_require_auth = require_auth && not (is_skip config.auth_mode) in
      let timestamp_valid = if effective_require_auth then timestamp_for policy caller else false in
      do
        bail_if
            (is_timestamp_only config.auth_mode && effective_require_auth && not timestamp_valid)
            timestamp_expired
        ok (record {
          authorized = true;
          require_auth = require_auth;
          timestamp_valid = timestamp_valid;
          resolved_command = resolved;
          environment = sanitize_environment policy (account_of config caller) host.vars;
          policy = policy;
        })

  unfoldable pub decide_with :
      ShaktiConfig → SudoPolicy → Text → Text → AuthzResult → Result Evaluation
  decide_with config policy caller resolved (denied reason) = err (authorization_denied reason)
  decide_with config policy caller resolved (allowed require_auth) =
      finish config policy caller resolved require_auth

  -- An empty command line has been refused by `validate_command` before its first word is read.
  unfoldable pub evaluate_with_policy :
      ShaktiConfig → SudoPolicy → Text → List Text → List Text → Result Evaluation
  evaluate_with_policy config policy caller groups [] = do
    validate_username caller
    validate_command [] policy.defaults.max_command_len
    err no_command_specified
  evaluate_with_policy config policy caller groups (cmd ∷ args) = do
    validate_username caller
    validate_command (cmd ∷ args) policy.defaults.max_command_len
    resolved ← resolve_command host.files cmd
    decide_with config policy caller resolved
        (check_authorization policy caller groups config.target_user (full_command resolved args))

  unfoldable pub evaluate : ShaktiConfig → Text → List Text → List Text → Result Evaluation
  evaluate config caller groups command_args = do
    policy ← load_policy host.files host.toml config.policy_path
    evaluate_with_policy config policy caller groups command_args
