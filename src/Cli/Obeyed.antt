-- ===== src/Cli/Obeyed.antt =====
-- What must have happened before the answer "allowed" becomes another program, in `run` of
-- rust-old/src/main.rs.
use shakti.Prelude.{
  ◌≡◌, refl, sym, ◌⊎◌, inl, inr, Bool, true, false, some, List, [], ◌∷◌, ◌++◌, arith, Bool-cases,
  Option-cases, subst,
}
use shakti.Text.{Text, codes, contains}
use shakti.Error.{ok, Answer-cases}
use shakti.Policy.{SudoPolicy, AuthzResult, allowed, denied}
use shakti.Env.Clean.{IsClean, sanitize_environment-IsClean}
use shakti.Timestamp.{check_timestamp, from_secs}
use shakti.Auth.{authenticate_user}
use shakti.Audit.{command}
use shakti.Api.{UserEntry}
use shakti.Account.{get_target_user_info}
use shakti.Privilege.{pre_exec}
use shakti.Privilege.Dropped.{IsDropped, pre_exec-IsDropped}
use shakti.Cli.Run.{
  Launch, Event, logged, tried, replaced, Machine, prompt_masked, prove, gate, launch_of, exec,
  launch, obey,
}

module _ (m : Machine) where
  -- The cache is fresh, or the user has just given the password.
  abbrev pub Proven : SudoPolicy → Text → Type 0
  Proven policy caller =
      (check_timestamp m.host.cache m.host.tty m.host.cache_state caller
          (from_secs policy.defaults.timestamp_ttl)
        ≡ true)
      ⊎ ((authenticate_user caller m.meetings).0 ≡ ok true)

  prove_ok :
      (caller target cmd : Text)
      → (prove m caller target cmd).answer ≡ ok tt
      → (authenticate_user caller m.meetings).0 ≡ ok true
  unfolding prove prompt_masked
  prove_ok caller target cmd h = elim (Answer-cases (authenticate_user caller m.meetings).0) [
    | inl (true, e) ↦ e
    | inl (false, e) ↦ absurd (ground arith)
    | inr (x, e) ↦ absurd (ground arith)
  ]

  gate_ok :
      (policy : SudoPolicy) (caller target cmd : Text) (required : Bool)
      → (gate m policy caller target cmd required).answer ≡ ok tt
      → required ≡ true
      → Proven policy caller
  unfolding gate
  gate_ok policy caller target cmd required h r =
      elim (Bool-cases (
        check_timestamp m.host.cache m.host.tty m.host.cache_state caller
          (from_secs policy.defaults.timestamp_ttl))) [
            | inl e ↦ inl e
            | inr e ↦ inr (prove_ok caller target cmd (ground arith))
          ]

  -- The program that was started, as the target, from the resolved path.
  pub record IsStarted (policy : SudoPolicy) (caller target resolved : Text) (args : List Text)
      (l : Launch) : Type 0 where
    pub entry : UserEntry
    pub is_entry : get_target_user_info m.accounts target ≡ ok entry
    pub is_launch : l ≡ launch_of m policy caller target resolved args entry
    pub state : m.kernel.State
    pub dropped : IsDropped m.kernel m.kernel_state state l.user l.uid l.gid
    pub clean : IsClean l.env

  exec_replaced :
      (l k : Launch)
      → exec m l ≡ replaced k
      → (l ≡ k)
        × ((s : m.kernel.State) × (pre_exec m.kernel l.user l.uid l.gid m.kernel_state ≡ some s))
  unfolding exec
  exec_replaced l k h = elim (Option-cases (pre_exec m.kernel l.user l.uid l.gid m.kernel_state)) [
    | inl e ↦ absurd (ground arith)
    | inr (s, e) ↦ (ground arith, (s, e))
  ]

  launch-IsClean :
      (policy : SudoPolicy) (caller target resolved : Text) (args : List Text) (entry : UserEntry)
      → IsClean (launch_of m policy caller target resolved args entry).env
  unfolding launch_of
  launch-IsClean policy caller target resolved args entry =
      sanitize_environment-IsClean policy _ m.host.vars

  launch_replaced :
      (policy : SudoPolicy) (caller target resolved : Text) (args : List Text) (l : Launch)
      → (launch m policy caller target resolved args).0 ≡ replaced l
      → IsStarted policy caller target resolved args l
        × ((launch m policy caller target resolved args).1 ≡ tried l ∷ [])
  unfolding launch
  launch_replaced policy caller target resolved args l h =
      elim (Answer-cases (get_target_user_info m.accounts target)) [
        | inr (x, e) ↦ absurd (ground arith)
        | inl (entry, e) ↦ elim (Bool-cases (contains target 0)) [
          | inl c ↦ absurd (ground arith)
          | inr c ↦
              let k = launch_of m policy caller target resolved args entry in
              let started : exec m k ≡ replaced l = ground arith in
              let (same, (s, p)) = exec_replaced k l started in
              (
                record {
                  entry = entry;
                  is_entry = e;
                  is_launch = sym same;
                  state = s;
                  dropped =
                      subst (λ (x : Launch). IsDropped m.kernel m.kernel_state s x.user x.uid x.gid)
                        same (pre_exec-IsDropped m.kernel m.kernel_state s k.user k.uid k.gid p);
                  clean =
                      subst (λ (x : Launch). IsClean x.env) same
                        (launch-IsClean policy caller target resolved args entry);
                },
                ground (arith, same),
              )
        ]
      ]

  -- Policy, password and audit record, in that order, before the program.
  pub record IsObeyed (policy : SudoPolicy) (caller target resolved : Text) (args : List Text)
      (cmd : Text) (r : AuthzResult) (l : Launch) (events : List Event) : Type 0 where
    pub required : Bool
    pub is_allowed : r ≡ allowed required
    pub proven : required ≡ true → Proven policy caller
    pub started : IsStarted policy caller target resolved args l
    pub earlier : List Event
    pub audited :
        events
        ≡ earlier ++ logged command caller target cmd true (codes "authorized") ∷ tried l ∷ []

  pub obey_replaced :
      (policy : SudoPolicy) (caller target resolved : Text) (args : List Text) (cmd : Text)
      (r : AuthzResult) (l : Launch)
      → (obey m policy caller target resolved args cmd r).answer ≡ replaced l
      → IsObeyed policy caller target resolved args cmd r l
          (obey m policy caller target resolved args cmd r).events
  unfolding obey
  obey_replaced policy caller target resolved args cmd (denied reason) l h = absurd (ground arith)
  obey_replaced policy caller target resolved args cmd (allowed required) l h =
      elim (Answer-cases (gate m policy caller target cmd required).answer) [
        | inr (x, e) ↦ absurd (ground arith)
        | inl (u, e) ↦
            let (started, last) =
              launch_replaced policy caller target resolved args l (ground arith) in
            record {
              required = required;
              is_allowed = refl;
              proven = gate_ok policy caller target cmd required e;
              started = started;
              earlier = (gate m policy caller target cmd required).events;
              audited = ground (arith, last);
            }
      ]
