-- ===== src/Cli/Prompt.antt =====
-- Whether a run of rust-old/src/main.rs asks for a password, and what it leaves of the cache then.
use shakti.Prelude.{
  ◌≡◌, refl, sym, ap, ◌∙◌, inl, inr, Bool, true, false, List, ◌∷◌, arith, any, any-append,
  Bool-cases, subst,
}
use shakti.Text.{Text, contains, codes}
use shakti.Error.{ok, Answer-cases}
use shakti.Policy.{SudoPolicy, AuthzResult, allowed, denied}
use shakti.Timestamp.{check_timestamp, update_timestamp, from_secs}
use shakti.Auth.{authenticate_user}
use shakti.Audit.{command}
use shakti.Invocation.{full_command}
use shakti.Account.{get_target_user_info}
use shakti.Cli.Request.{IsRequest, verdict, request_eq}
use shakti.Cli.Run.{
  Launch, Event, asked, logged, End, replaced, Machine, Done, prompt_masked, prove, gate, launch,
  obey, run,
}

abbrev pub is_asked : Event → Bool
is_asked (asked events) = true
is_asked _ = false

-- The user was asked for a password.
abbrev pub has_prompt : List Event → Bool
has_prompt events = any is_asked events

-- The same machine with a later cache.
abbrev pub with_cache : (m : Machine) → m.host.cache.State → Machine
with_cache m s = record m { host = record m.host { cache_state = s } }

module _ (m : Machine) where
  launch-quiet :
      (policy : SudoPolicy) (caller target resolved : Text) (args : List Text)
      → has_prompt (launch m policy caller target resolved args).1 ≡ false
  unfolding launch any
  launch-quiet policy caller target resolved args =
      elim (Answer-cases (get_target_user_info m.accounts target)) [
        | inr (x, e) ↦ rw (e, launch) refl
        | inl (entry, e) ↦ elim (Bool-cases (contains target 0)) [
          | inl c ↦ rw (e, c, launch) refl
          | inr c ↦ rw (e, c, launch) refl
        ]
      ]

  -- A request asks for a password exactly if the gate does.
  obey-prompt :
      (policy : SudoPolicy) (caller target resolved : Text) (args : List Text) (cmd : Text)
      (b : Bool)
      → has_prompt (obey m policy caller target resolved args cmd (allowed b)).events
        ≡ has_prompt (gate m policy caller target cmd b).events
  unfolding obey any
  obey-prompt policy caller target resolved args cmd b =
      elim (Answer-cases (gate m policy caller target cmd b).answer) [
        | inr (x, e) ↦ rw (e, obey) refl
        | inl (u, e) ↦
            rw (e, obey)
              (ground (
                arith,
                any-append is_asked (gate m policy caller target cmd b).events (
                    logged command caller target cmd true (codes "authorized")
                    ∷ (launch m policy caller target resolved args).1),
                launch-quiet policy caller target resolved args,
              ))
      ]

  -- With a fresh cache the gate opens without a question.
  gate-fresh :
      (policy : SudoPolicy) (caller target cmd : Text) (b : Bool)
      → check_timestamp m.host.cache m.host.tty m.host.cache_state caller
          (from_secs policy.defaults.timestamp_ttl)
        ≡ true
      → has_prompt (gate m policy caller target cmd b).events ≡ false
  unfolding gate any
  gate-fresh policy caller target cmd false h = refl
  gate-fresh policy caller target cmd true h = rw (h, gate) refl

  obey-fresh :
      (policy : SudoPolicy) (caller target resolved : Text) (args : List Text) (cmd : Text)
      (r : AuthzResult)
      → check_timestamp m.host.cache m.host.tty m.host.cache_state caller
          (from_secs policy.defaults.timestamp_ttl)
        ≡ true
      → has_prompt (obey m policy caller target resolved args cmd r).events ≡ false
  obey-fresh policy caller target resolved args cmd (denied reason) h = unfold obey any in refl
  obey-fresh policy caller target resolved args cmd (allowed b) h =
      obey-prompt policy caller target resolved args cmd b ∙ gate-fresh policy caller target cmd b h

  -- A gate that opened after a question has updated the cache.
  gate-cache :
      (policy : SudoPolicy) (caller target cmd : Text) (b : Bool)
      → (gate m policy caller target cmd b).answer ≡ ok tt
      → has_prompt (gate m policy caller target cmd b).events ≡ true
      → (gate m policy caller target cmd b).cache
        ≡ (update_timestamp m.host.cache m.host.tty m.host.cache_state caller).1
  unfolding gate any prove prompt_masked
  gate-cache policy caller target cmd false h p = absurd (cc p)
  gate-cache policy caller target cmd true h p =
      elim (Bool-cases (
        check_timestamp m.host.cache m.host.tty m.host.cache_state caller
          (from_secs policy.defaults.timestamp_ttl))) [
            | inl e ↦ absurd (ground arith)
            | inr e ↦ elim (Answer-cases (authenticate_user caller m.meetings).0) [
              | inl (true, a) ↦ ground arith
              | inl (false, a) ↦ absurd (ground arith)
              | inr (x, a) ↦ absurd (ground arith)
            ]
          ]

  obey-cache :
      (policy : SudoPolicy) (caller target resolved : Text) (args : List Text) (cmd : Text)
      (r : AuthzResult) (l : Launch)
      → (obey m policy caller target resolved args cmd r).answer ≡ replaced l
      → has_prompt (obey m policy caller target resolved args cmd r).events ≡ true
      → (obey m policy caller target resolved args cmd r).cache
        ≡ (update_timestamp m.host.cache m.host.tty m.host.cache_state caller).1
  unfolding obey
  obey-cache policy caller target resolved args cmd (denied reason) l h p = absurd (cc h)
  obey-cache policy caller target resolved args cmd (allowed b) l h p =
      elim (Answer-cases (gate m policy caller target cmd b).answer) [
        | inr (x, e) ↦ absurd (ground arith)
        | inl (u, e) ↦
            rw (e, obey)
              (gate-cache policy caller target cmd b e
                (sym (obey-prompt policy caller target resolved args cmd b) ∙ p))
      ]

  -- A run that asked and got to its program leaves the cache that the update made.
  pub run-cache :
      {words : List Text} (r : IsRequest m words) (l : Launch)
      → (run m words).answer ≡ replaced l
      → has_prompt (run m words).events ≡ true
      → (run m words).cache
        ≡ (update_timestamp m.host.cache m.host.tty m.host.cache_state r.caller).1
  run-cache {words} r l =
      subst
        (λ (d : Done m End).
          d.answer ≡ replaced l
          → has_prompt d.events ≡ true
          → d.cache ≡ (update_timestamp m.host.cache m.host.tty m.host.cache_state r.caller).1)
        (sym (request_eq m r))
        (obey-cache r.policy r.caller r.cli.target_user r.resolved r.args
          (full_command r.resolved r.args) (verdict m r) l)

  pub run-quiet :
      {words : List Text} (r : IsRequest m words)
      → check_timestamp m.host.cache m.host.tty m.host.cache_state r.caller
          (from_secs r.policy.defaults.timestamp_ttl)
        ≡ true
      → has_prompt (run m words).events ≡ false
  run-quiet {words} r h =
      ap (λ (d : Done m End). has_prompt d.events) (request_eq m r)
      ∙ obey-fresh r.policy r.caller r.cli.target_user r.resolved r.args
          (full_command r.resolved r.args) (verdict m r) h
