-- ===== src/Api/Modes.antt =====
-- What a consumer may rely on after `evaluate` of rust-old/src/api.rs, from the file to the answer.
use mathlib.Core.Path.{subst, subst⁻¹}
use shakti.Prelude.{◌≡◌, sym, ap, ◌∙◌, Bool, true, List, ◌∷◌}
use shakti.Text.{Text}
use shakti.Error.{ok, >>=-eq-ok}
use shakti.Policy.Priority.{Permit, allowed-Permit}
use shakti.Env.Clean.{IsClean, sanitize_environment-IsClean}
use shakti.Load.{load_policy}
use shakti.Load.Loaded.{Loads, load_policy_iff}
use shakti.Timestamp.{from_secs}
use shakti.Timestamp.Session.{IsFresh, check_timestamp_iff}
use shakti.Validate.{validate_command}
use shakti.Validate.Resolve.{Resolves, resolve_command_iff}
use shakti.Validate.Safe.{IsValid, validate_command_iff}
use shakti.Invocation.{full_command}
use shakti.Api.{
  AuthMode, timestamp_only, ShaktiConfig, Host, Evaluation, evaluate, timestamp_for, account_of,
}
use shakti.Api.Evaluated.{Evaluated, evaluate_with_policy_iff, ModeAllows}

module _ (host : Host) (config : ShaktiConfig) (caller : Text) (groups : List Text) where
  -- The chain that stands behind an evaluation.
  pub record Chain (args : List Text) (e : Evaluation) : Type 0 where
    pub cmd : Text
    pub rest : List Text
    pub is_args : args ≡ cmd ∷ rest
    pub loaded : Loads host.files host.toml config.policy_path e.policy
    pub valid : IsValid args e.policy.defaults.max_command_len
    pub runs : Resolves host.files cmd e.resolved_command
    pub permit :
        Permit caller groups config.target_user
          (full_command e.resolved_command rest)
          e.policy
          e.require_auth
    pub clean : IsClean e.environment
    pub fresh :
        config.auth_mode ≡ timestamp_only
        → e.require_auth ≡ true
        → IsFresh host.cache host.tty host.cache_state caller
            (from_secs e.policy.defaults.timestamp_ttl)

  fresh_in :
      (mode : AuthMode) (required fresh valid : Bool)
      → ModeAllows mode required fresh valid
      → mode ≡ timestamp_only
      → required ≡ true
      → fresh ≡ true
  fresh_in mode required fresh valid m is_mode r = (rw is_mode at m).1 r

  Chain-of :
      (args : List Text) (e : Evaluation)
      → load_policy host.files host.toml config.policy_path ≡ ok e.policy
      → Evaluated host config e.policy caller groups args e
      → Chain args e
  Chain-of args e load v = record {
    cmd = v.cmd;
    rest = v.rest;
    is_args = v.is_args;
    loaded = (load_policy_iff host.files host.toml config.policy_path e.policy).0 load;
    valid =
        (validate_command_iff args e.policy.defaults.max_command_len).0
          (ap (λ l. validate_command l e.policy.defaults.max_command_len) v.is_args ∙ v.args_ok);
    runs = (resolve_command_iff host.files v.cmd e.resolved_command).0 v.resolves;
    permit =
        allowed-Permit caller groups config.target_user (full_command e.resolved_command v.rest)
          e.policy e.require_auth v.permitted;
    clean =
        subst⁻¹ IsClean v.is_environment
          (sanitize_environment-IsClean e.policy (account_of host config caller) host.vars);
    fresh = λ is_mode required.
        (check_timestamp_iff host.cache host.tty host.cache_state caller
            (from_secs e.policy.defaults.timestamp_ttl)).0
          (unfold timestamp_for in
            fresh_in config.auth_mode e.require_auth (timestamp_for host e.policy caller)
              e.timestamp_valid v.mode_ok is_mode required);
  }

  -- A successful evaluation has loaded its policy from trusted files, accepted the command line,
  -- found an executable by the rules of the search, and found a rule of the policy that grants the
  -- command and before which none denies or grants; its environment is clean; and in the mode that
  -- only trusts the cache, a required authentication is covered by a fresh timestamp.
  pub evaluate-Chain :
      (args : List Text) (e : Evaluation)
      → evaluate host config caller groups args ≡ ok e
      → Chain args e
  unfolding evaluate
  evaluate-Chain args e h =
      let (policy, load, rest) =
        >>=-eq-ok (load_policy host.files host.toml config.policy_path) _ h in
      let v = (evaluate_with_policy_iff host config policy caller groups args e).0 rest in
      Chain-of args e (load ∙ ap ok (sym v.is_policy))
        (subst (λ p. Evaluated host config p caller groups args e) (sym v.is_policy) v)
