-- ===== src/Cli/Effect.antt =====
-- What a run of rust-old/src/main.rs does to the credential cache.
use shakti.Prelude.{◌≡◌, refl, ◌⊎◌, inl, inr, Bool, true, false, List, [], ◌∷◌, Bool-cases}
use shakti.Text.{Text}
use shakti.Error.{ok, Answer-cases}
use shakti.Validate.{validate_command, resolve_command}
use shakti.Policy.{SudoPolicy, AuthzResult, allowed, denied}
use shakti.Load.{load_policy}
use shakti.Timestamp.{check_timestamp, update_timestamp, invalidate_timestamp, from_secs}
use shakti.Auth.{authenticate_user}
use shakti.Account.{get_caller_username, get_user_groups}
use shakti.Cli.{CliArgs, Parsed, arguments, failed, help, version, parse_args}
use shakti.Cli.Run.{
  Machine, prompt_masked, prove, gate, obey, run_resolved, run_command, run_policy, run_caller, run,
}

module _ (m : Machine) where
  -- As it was, or updated after the right password of the caller.
  abbrev pub Kept : Text → m.host.cache.State → Type 0
  Kept caller t =
      (t ≡ m.host.cache_state)
      ⊎ (((authenticate_user caller m.meetings).0 ≡ ok true)
          × (t ≡ (update_timestamp m.host.cache m.host.tty m.host.cache_state caller).1))

  -- The same, or what an invalidation by the caller makes of it.
  pub data Effect (t : m.host.cache.State) : Type 0 where
    untouched : t ≡ m.host.cache_state → Effect t
    proved :
        (caller : Text)
        → get_caller_username m.accounts ≡ ok caller
        → (authenticate_user caller m.meetings).0 ≡ ok true
        → t ≡ (update_timestamp m.host.cache m.host.tty m.host.cache_state caller).1
        → Effect t
    withdrawn :
        (caller : Text)
        → get_caller_username m.accounts ≡ ok caller
        → t ≡ (invalidate_timestamp m.host.cache m.host.tty m.host.cache_state caller).1
        → Effect t

  prove-Kept : (caller target cmd : Text) → Kept caller (prove m caller target cmd).cache
  unfolding prove prompt_masked
  prove-Kept caller target cmd = elim (Answer-cases (authenticate_user caller m.meetings).0) [
    | inl (true, e) ↦ inr (e, rw (e, prove) refl)
    | inl (false, e) ↦ inl (rw (e, prove) refl)
    | inr (x, e) ↦ inl (rw (e, prove) refl)
  ]

  gate-Kept :
      (policy : SudoPolicy) (caller target cmd : Text) (b : Bool)
      → Kept caller (gate m policy caller target cmd b).cache
  unfolding gate
  gate-Kept policy caller target cmd false = inl refl
  gate-Kept policy caller target cmd true =
      elim (Bool-cases (
        check_timestamp m.host.cache m.host.tty m.host.cache_state caller
          (from_secs policy.defaults.timestamp_ttl))) [
            | inl e ↦ inl (rw (e, gate) refl)
            | inr e ↦ rw (e, gate) (prove-Kept caller target cmd)
          ]

  obey-Kept :
      (policy : SudoPolicy) (caller target resolved : Text) (args : List Text) (cmd : Text)
      (r : AuthzResult)
      → Kept caller (obey m policy caller target resolved args cmd r).cache
  unfolding obey
  obey-Kept policy caller target resolved args cmd (denied reason) = inl refl
  obey-Kept policy caller target resolved args cmd (allowed b) =
      elim (Answer-cases (gate m policy caller target cmd b).answer) [
        | inl (u, e) ↦ rw (e, obey) (gate-Kept policy caller target cmd b)
        | inr (x, e) ↦ rw (e, obey) (gate-Kept policy caller target cmd b)
      ]

  command-Kept :
      (policy : SudoPolicy) (caller : Text) (groups : List Text) (target : Text) (words : List Text)
      → Kept caller (run_command m policy caller groups target words).cache
  unfolding run_command run_resolved
  command-Kept policy caller groups target [] = inl refl
  command-Kept policy caller groups target (cmd ∷ args) =
      elim (Answer-cases (validate_command (cmd ∷ args) policy.defaults.max_command_len)) [
        | inr (x, e) ↦ inl (rw (e, run_command) refl)
        | inl (u, e) ↦ elim (Answer-cases (resolve_command m.host.files cmd)) [
          | inr (x, f) ↦ inl (rw (e, f, run_command) refl)
          | inl (resolved, f) ↦
              rw (e, f, run_command) (obey-Kept policy caller target resolved args _ _)
        ]
      ]

  policy-Kept :
      (cli : CliArgs) (caller : Text) (groups : List Text) (policy : SudoPolicy)
      → Kept caller (run_policy m cli caller groups policy).cache
  unfolding run_policy
  policy-Kept cli caller groups policy = elim (Bool-cases cli.check) [
    | inl c ↦ inl (rw (c, run_policy) refl)
    | inr c ↦ elim (Bool-cases cli.list) [
      | inl l ↦ inl (rw (c, l, run_policy) refl)
      | inr l ↦
          rw (c, l, run_policy) (command-Kept policy caller groups cli.target_user cli.command)
    ]
  ]

  Effect-of :
      (caller : Text) (t : m.host.cache.State)
      → get_caller_username m.accounts ≡ ok caller
      → Kept caller t
      → Effect t
  Effect-of caller t c (inl e) = untouched e
  Effect-of caller t c (inr (a, e)) = proved caller c a e

  caller-Effect :
      (cli : CliArgs) (caller : Text)
      → get_caller_username m.accounts ≡ ok caller
      → Effect (run_caller m cli caller).cache
  unfolding run_caller
  caller-Effect cli caller c = elim (Bool-cases cli.invalidate) [
    | inl i ↦ withdrawn caller c (rw (i, run_caller) refl)
    | inr i ↦ elim (Answer-cases (load_policy m.host.files m.host.toml cli.policy_path)) [
      | inr (x, e) ↦ untouched (rw (i, e, run_caller) refl)
      | inl (policy, e) ↦ Effect-of caller _ c (
          rw (i, e, run_caller) (policy-Kept cli caller (get_user_groups m.accounts caller) policy))
    ]
  ]

  -- A run leaves the cache alone, or updates it for a caller who gave the right password to it, or
  -- revokes the caller's entry.
  pub run-Effect : (words : List Text) → Effect (run m words).cache
  unfolding run
  run-Effect words = go (parse_args words) refl
    where
      go : (p : Parsed) → parse_args words ≡ p → Effect (run m words).cache
      go (failed x) e = untouched (rw (e, run) refl)
      go help e = untouched (rw (e, run) refl)
      go version e = untouched (rw (e, run) refl)
      go (arguments cli) e = elim (Answer-cases (get_caller_username m.accounts)) [
        | inr (x, c) ↦ untouched (rw (e, c, run) refl)
        | inl (caller, c) ↦ rw (e, c, run) (caller-Effect cli caller c)
      ]
