-- ===== src/Cli/Live.antt =====
-- When `run` in rust-old/src/main.rs gets to the program.
use shakti.Prelude.{◌≡◌, refl, ap, inl, inr, Bool, true, false, some, List, arith, Bool-cases}
use shakti.Text.{Text, contains}
use shakti.Error.{ok}
use shakti.Policy.{SudoPolicy, allowed}
use shakti.Timestamp.{check_timestamp, from_secs}
use shakti.Auth.{authenticate_user}
use shakti.Invocation.{full_command}
use shakti.Api.{UserEntry}
use shakti.Account.{get_target_user_info}
use shakti.Privilege.{pre_exec}
use shakti.Cli.Obeyed.{Proven}
use shakti.Cli.Request.{IsRequest, verdict, request_eq}
use shakti.Cli.Run.{
  End, replaced, Machine, Done, prompt_masked, prove, gate, launch_of, exec, launch, obey, run,
}

module _ (m : Machine) where
  prove-ok :
      (caller target cmd : Text)
      → (authenticate_user caller m.meetings).0 ≡ ok true
      → (prove m caller target cmd).answer ≡ ok tt
  unfolding prove prompt_masked
  prove-ok caller target cmd e = rw (e, prove) refl

  gate-ok :
      (policy : SudoPolicy) (caller target cmd : Text) (required : Bool)
      → (required ≡ true → Proven m policy caller)
      → (gate m policy caller target cmd required).answer ≡ ok tt
  unfolding gate
  gate-ok policy caller target cmd false h = refl
  gate-ok policy caller target cmd true h =
      elim (Bool-cases (
        check_timestamp m.host.cache m.host.tty m.host.cache_state caller
          (from_secs policy.defaults.timestamp_ttl))) [
            | inl e ↦ rw e refl
            | inr e ↦ elim (h refl) [
              | inl fresh ↦ absurd (ground (arith, fresh))
              | inr proof ↦ rw e (prove-ok caller target cmd proof)
            ]
          ]

  -- The target's account is found, its name can be passed on, the privileges can be given up, and a
  -- program can be started at the path.
  pub record CanStart (target resolved : Text) : Type 0 where
    pub entry : UserEntry
    pub is_entry : get_target_user_info m.accounts target ≡ ok entry
    pub no_null : contains target 0 ≡ false
    pub state : m.kernel.State
    pub drops : pre_exec m.kernel target entry.uid entry.gid m.kernel_state ≡ some state
    pub starts : m.starts resolved ≡ true

  launch-replaced :
      (policy : SudoPolicy) (caller target resolved : Text) (args : List Text)
      (c : CanStart target resolved)
      → (launch m policy caller target resolved args).0
        ≡ replaced (launch_of m policy caller target resolved args c.entry)
  unfolding launch exec launch_of
  launch-replaced policy caller target resolved args c =
      rw (c.is_entry, launch) (rw (c.no_null) (rw (c.drops, exec) (rw (c.starts) refl)))

  -- A request that the policy allows, and that is proven where it asks for a password, becomes the
  -- program with its launch, where that can start.
  pub run-replaced :
      {words : List Text} (r : IsRequest m words) (required : Bool)
      → verdict m r ≡ allowed required
      → (required ≡ true → Proven m r.policy r.caller)
      → (c : CanStart r.cli.target_user r.resolved)
      → (run m words).answer
        ≡ replaced (launch_of m r.policy r.caller r.cli.target_user r.resolved r.args c.entry)
  unfolding obey
  run-replaced r required v proven c = ground (
    arith,
    ap (λ (d : Done m End). d.answer) (request_eq m r),
    v,
    gate-ok r.policy r.caller r.cli.target_user (full_command r.resolved r.args) required proven,
    launch-replaced r.policy r.caller r.cli.target_user r.resolved r.args c,
  )
