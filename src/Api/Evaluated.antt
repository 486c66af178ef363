-- ===== src/Api/Evaluated.antt =====
-- What a successful `evaluate_with_policy` of rust-old/src/api.rs has gone through.
use shakti.Prelude.{
  ◌≡◌, refl, ◌↔◌, Bool, true, false, ◌&&◌, not, List, [], ◌∷◌, arith, if◌then◌else◌,
}
use shakti.Text.{Text}
use shakti.Error.{ok, >>=-eq-ok}
use shakti.Validate.{validate_username, validate_command, resolve_command}
use shakti.Policy.{SudoPolicy, AuthzResult, allowed, denied, check_authorization}
use shakti.Env.{sanitize_environment}
use shakti.Invocation.{full_command}
use shakti.Api.{
  AuthMode, interactive, timestamp_only, skip, is_skip, is_timestamp_only, ShaktiConfig, Host,
  Evaluation, account_of, timestamp_for, finish, decide_with, evaluate_with_policy,
}

-- How each mode treats a request: `required` is what the policy asks for, `fresh` whether the cache
-- is valid, `valid` what the evaluation reports.
abbrev pub ModeAllows : AuthMode → Bool → Bool → Bool → Type 0
ModeAllows skip required fresh valid = valid ≡ false
ModeAllows interactive required fresh valid = valid ≡ (required && fresh)
ModeAllows timestamp_only required fresh valid =
    (valid ≡ required) × (required ≡ true → fresh ≡ true)

module _ (host : Host) (config : ShaktiConfig) (policy : SudoPolicy) (caller : Text)
    (groups : List Text) where
  pub record Evaluated (args : List Text) (e : Evaluation) : Type 0 where
    pub cmd : Text
    pub rest : List Text
    pub is_args : args ≡ cmd ∷ rest
    pub caller_ok : validate_username caller ≡ ok tt
    pub args_ok : validate_command (cmd ∷ rest) policy.defaults.max_command_len ≡ ok tt
    pub resolves : resolve_command host.files cmd ≡ ok e.resolved_command
    pub permitted :
        check_authorization policy caller groups config.target_user
          (full_command e.resolved_command rest)
        ≡ allowed e.require_auth
    pub mode_ok :
        ModeAllows config.auth_mode e.require_auth
          (timestamp_for host policy caller)
          e.timestamp_valid
    pub is_authorized : e.authorized ≡ true
    pub is_environment :
        e.environment ≡ sanitize_environment policy (account_of host config caller) host.vars
    pub is_policy : e.policy ≡ policy

  abbrev evaluation : Text → Bool → Bool → Evaluation
  evaluation resolved require_auth valid = record {
    authorized = true;
    require_auth = require_auth;
    timestamp_valid = valid;
    resolved_command = resolved;
    environment = sanitize_environment policy (account_of host config caller) host.vars;
    policy = policy;
  }

  -- The last step: the evaluation is the one of the text, and the mode allows it.
  abbrev Finished : Text → Bool → Evaluation → Type 0
  Finished resolved require_auth e =
      (valid : Bool) × (e ≡ evaluation resolved require_auth valid)
      × ModeAllows config.auth_mode require_auth (timestamp_for host policy caller) valid

  mode→ :
      (mode : AuthMode) (required fresh valid : Bool)
      → (if required && not (is_skip mode) then fresh else false) ≡ valid
      → (is_timestamp_only mode && (required && not (is_skip mode)) && not valid) ≡ false
      → ModeAllows mode required fresh valid
  mode→ skip required fresh valid v t = ground arith
  mode→ interactive required fresh valid v t = ground arith
  mode→ timestamp_only required fresh valid v t = (ground arith, ground arith)

  finish→ :
      (resolved : Text) (require_auth : Bool) (e : Evaluation)
      → finish host config policy caller resolved require_auth ≡ ok e
      → Finished resolved require_auth e
  unfolding finish
  finish→ resolved require_auth e h =
      let fresh = timestamp_for host policy caller in
      let effective = require_auth && not (is_skip config.auth_mode) in
      let valid = if effective then fresh else false in
      (valid, ground arith, mode→ config.auth_mode require_auth fresh valid refl (ground arith))

  →mode :
      (mode : AuthMode) (required fresh valid : Bool)
      → ModeAllows mode required fresh valid
      → ((if required && not (is_skip mode) then fresh else false) ≡ valid)
        × ((is_timestamp_only mode && (required && not (is_skip mode)) && not valid) ≡ false)
  →mode skip required fresh valid m = (ground arith, ground arith)
  →mode interactive required fresh valid m = (ground arith, ground arith)
  →mode timestamp_only required fresh valid (v, f) = (ground arith, ground arith)

  →finish :
      (resolved : Text) (require_auth : Bool) (e : Evaluation)
      → Finished resolved require_auth e
      → finish host config policy caller resolved require_auth ≡ ok e
  unfolding finish
  →finish resolved require_auth e (valid, same, m) =
      let (v, t) = →mode config.auth_mode require_auth (timestamp_for host policy caller) valid m in
      rw (same, v, t) refl

  decide→ :
      (resolved : Text) (a : AuthzResult) (e : Evaluation)
      → decide_with host config policy caller resolved a ≡ ok e
      → (b : Bool) × (a ≡ allowed b) × Finished resolved b e
  unfolding decide_with
  decide→ resolved (denied reason) e h = absurd (cc h)
  decide→ resolved (allowed b) e h = (b, refl, finish→ resolved b e h)

  evaluate→ :
      (args : List Text) (e : Evaluation)
      → evaluate_with_policy host config policy caller groups args ≡ ok e
      → Evaluated args e
  unfolding evaluate_with_policy
  evaluate→ [] e h = absurd (ground arith)
  evaluate→ (cmd ∷ rest) e h =
      let (u, caller_ok, h₁) = >>=-eq-ok (validate_username caller) _ h in
      let (v, args_ok, h₂) =
        >>=-eq-ok (validate_command (cmd ∷ rest) policy.defaults.max_command_len) _ h₁ in
      let (resolved, found, h₃) = >>=-eq-ok (resolve_command host.files cmd) _ h₂ in
      let (b, permitted, (valid, same, m)) = decide→ resolved _ e h₃ in
      rw same (record {
        cmd = cmd;
        rest = rest;
        is_args = refl;
        caller_ok = caller_ok;
        args_ok = args_ok;
        resolves = found;
        permitted = permitted;
        mode_ok = m;
        is_authorized = refl;
        is_environment = refl;
        is_policy = refl;
      })

  evaluation_lem :
      (args : List Text) (e : Evaluation) (v : Evaluated args e)
      → e ≡ evaluation e.resolved_command e.require_auth e.timestamp_valid
  evaluation_lem args e v i = record {
    authorized = v.is_authorized i;
    require_auth = e.require_auth;
    timestamp_valid = e.timestamp_valid;
    resolved_command = e.resolved_command;
    environment = v.is_environment i;
    policy = v.is_policy i;
  }

  →evaluate :
      (args : List Text) (e : Evaluation)
      → Evaluated args e
      → evaluate_with_policy host config policy caller groups args ≡ ok e
  unfolding evaluate_with_policy decide_with
  →evaluate args e v =
      let done =
        →finish e.resolved_command e.require_auth e
          (e.timestamp_valid, evaluation_lem args e v, v.mode_ok) in
      rw v.is_args (rw v.caller_ok (rw v.args_ok (rw v.resolves (rw v.permitted done))))

  -- An evaluation succeeds exactly if the caller's name and the command line are accepted, the
  -- command resolves, the policy allows the full command, and the mode of authentication accepts
  -- the state of the cache; and it reports just that, with the sanitized environment.
  pub evaluate_with_policy_iff :
      (args : List Text) (e : Evaluation)
      → (evaluate_with_policy host config policy caller groups args ≡ ok e) ↔ Evaluated args e
  evaluate_with_policy_iff args e = (evaluate→ args e, →evaluate args e)
