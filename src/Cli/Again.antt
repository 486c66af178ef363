-- ===== src/Cli/Again.antt =====
-- Two runs of rust-old/src/main.rs, one after the other, on one credential cache.
use shakti.Prelude.{
  ℕ, ◌<◌, ◌≡◌, refl, sym, ap, ◌∙◌, ◌⊎◌, inl, inr, true, false, some, none, List, arith, Bool-cases,
}
use shakti.Text.{Text}
use shakti.Error.{Result, ok, Result-cases}
use shakti.Policy.{SudoPolicy}
use shakti.Timestamp.{check_timestamp, update_timestamp, invalidate_timestamp, from_secs}
use shakti.Auth.{authenticate_user}
use shakti.Account.{get_caller_username}
use shakti.Text.Laws.{text_eq_refl}
use shakti.Timestamp.{tty_session_id}
use shakti.Timestamp.Ledger.{
  Ledger, enter, History, IsUser, here, next, authenticated, waited, Tracks,
}
use shakti.Timestamp.Lifetime.{History-check}
use shakti.Timestamp.{timestamp_path}
use shakti.Timestamp.Frame.{invalidate_ok-removed}
use shakti.Cli.{CliArgs, arguments, parse_args}
use shakti.Cli.Obeyed.{Proven}
use shakti.Cli.Request.{IsRequest}
use shakti.Cli.Guard.{IsGuarded, run-IsGuarded, Request-of}
use shakti.Cli.Run.{Launch, done, replaced, Machine, run_caller, run}
use shakti.Cli.Prompt.{has_prompt, with_cache, run-quiet, run-cache}

-- The machine after a run, and after some time.
abbrev pub after : (m : Machine) → List Text → ℕ → Machine
after m words n = with_cache m (m.host.cache.wait (run m words).cache n)

module _ (m : Machine) where
  -- One authentication, then time: the cache is good for the rest of the time to live.
  fresh-after :
      (ledger : Ledger) (caller : Text) (t : m.host.cache.State) (n ttl : ℕ)
      → Tracks m.host.cache m.host.cache_state ledger
      → IsUser caller
      → update_timestamp m.host.cache m.host.tty m.host.cache_state caller ≡ (ok tt, t)
      → n < ttl
      → check_timestamp m.host.cache m.host.tty (m.host.cache.wait t n) caller ttl ≡ true
  fresh-after ledger caller t n ttl h v u short =
      let entry = enter ledger caller (tty_session_id m.host.tty) (some (m.host.cache.now t)) in
      let past : History m.host.cache m.host.cache_state ledger (m.host.cache.wait t n) entry =
        next (next here (authenticated caller m.host.tty v u refl)) (waited n refl refl) in
      History-check m.host.cache caller m.host.tty ttl h past v
      ∙ ground (
        arith,
        m.host.cache.wait-now t n,
        text_eq_refl caller,
        text_eq_refl (tty_session_id m.host.tty),
      )

  -- Take a machine whose timestamps stand for the entries of a ledger, for all users that the cache
  -- tells apart: each is root's own file and no link, or is absent; and a caller who is such a user.
  -- If a run of the caller asked for the password, got to its program and could update the cache,
  -- and nothing happens on the machine for a while, and then the same user at the same terminal runs
  -- the program again, with a request that gets as far as asking the policy, before the time to live
  -- of that request's policy is over, then this next run asks for no password.
  pub asked_once :
      (ledger : Ledger) (words : List Text) (l : Launch) (caller : Text) (t : m.host.cache.State)
      → Tracks m.host.cache m.host.cache_state ledger
      → get_caller_username m.accounts ≡ ok caller
      → IsUser caller
      → update_timestamp m.host.cache m.host.tty m.host.cache_state caller ≡ (ok tt, t)
      → (run m words).answer ≡ replaced l
      → has_prompt (run m words).events ≡ true
      → (n : ℕ) (later : List Text) (r : IsRequest (after m words n) later)
      → n < from_secs r.policy.defaults.timestamp_ttl
      → has_prompt (run (after m words n) later).events ≡ false
  asked_once ledger words l caller t h c v u a p n later r short =
      let first = Request-of m (run-IsGuarded m words l a) in
      let same : first.caller ≡ caller = cc (first.is_caller, c) in
      let again : r.caller ≡ caller = cc (r.is_caller, c) in
      let cache : (run m words).cache ≡ t =
        run-cache m first l a p
        ∙ (ap (λ w. (update_timestamp m.host.cache m.host.tty m.host.cache_state w).1) same
            ∙ ap (λ (x : Result (Unit {0}) × m.host.cache.State). x.1) u) in
      run-quiet (after m words n) r (
        ap
          (λ w.
            check_timestamp m.host.cache m.host.tty (m.host.cache.wait (run m words).cache n) w
              (from_secs r.policy.defaults.timestamp_ttl))
          again
        ∙ (ap
              (λ s.
                check_timestamp m.host.cache m.host.tty (m.host.cache.wait s n) caller
                  (from_secs r.policy.defaults.timestamp_ttl))
              cache
            ∙ fresh-after ledger caller t n (from_secs r.policy.defaults.timestamp_ttl) h v u
                short))

  -- After an invalidation that succeeded, the user's cache is not valid, however much later.
  stale-after :
      (caller : Text) (t : m.host.cache.State) (n ttl : ℕ)
      → invalidate_timestamp m.host.cache m.host.tty m.host.cache_state caller ≡ (ok tt, t)
      → check_timestamp m.host.cache m.host.tty (m.host.cache.wait t n) caller ttl ≡ false
  unfolding check_timestamp
  stale-after caller t n ttl h =
      let path = timestamp_path caller m.host.tty in
      let gone : m.host.cache.symlink_metadata t path ≡ none =
        elim (invalidate_ok-removed m.host.cache m.host.cache_state t caller m.host.tty h) [
          | inl (e, same) ↦ ap (λ s. m.host.cache.symlink_metadata s path) same ∙ e
          | inr removed ↦ m.host.cache.remove-stat m.host.cache_state t path removed
        ] in
      ground (arith, m.host.cache.wait-stat t n path)

  pub invalidated :
      (words : List Text) (cli : CliArgs) (caller : Text)
      → parse_args words ≡ arguments cli
      → cli.invalidate ≡ true
      → get_caller_username m.accounts ≡ ok caller
      → (run m words).answer ≡ done
      → invalidate_timestamp m.host.cache m.host.tty m.host.cache_state caller
        ≡ (ok tt, (run m words).cache)
  unfolding run run_caller
  invalidated words cli caller p i c d =
      elim (Result-cases
        (invalidate_timestamp m.host.cache m.host.tty m.host.cache_state caller).0) [
          | inl e ↦ ground arith
          | inr (x, e) ↦ absurd (ground arith)
        ]

  -- After a run with -k that ends well, however much later, a run of the same user becomes a program
  -- only where the policy asks for no password for it, or the user has given the right one again.
  pub asked_again :
      (words : List Text) (cli : CliArgs) (caller : Text) (n : ℕ) (later : List Text) (l : Launch)
      → parse_args words ≡ arguments cli
      → cli.invalidate ≡ true
      → get_caller_username m.accounts ≡ ok caller
      → (run m words).answer ≡ done
      → (run (after m words n) later).answer ≡ replaced l
      → (g : IsGuarded (after m words n) later l (run (after m words n) later).events)
        × ((g.commanded.obeyed.required ≡ false)
            ⊎ ((authenticate_user caller m.meetings).0 ≡ ok true))
  asked_again words cli caller n later l p i c d a =
      let g = run-IsGuarded (after m words n) later l a in
      let same : g.caller ≡ caller = cc (g.is_caller, c) in
      let stale =
        stale-after caller (run m words).cache n (from_secs g.policy.defaults.timestamp_ttl)
          (invalidated words cli caller p i c d) in
      (
        g,
        elim (Bool-cases g.commanded.obeyed.required) [
          | inr free ↦ inl free
          | inl must ↦ inr (again g.caller same g.policy stale (g.commanded.obeyed.proven must))
        ],
      )
    where
      again :
          (w : Text)
          → w ≡ caller
          → (policy : SudoPolicy)
          → check_timestamp m.host.cache m.host.tty
              (m.host.cache.wait (run m words).cache n)
              caller
              (from_secs policy.defaults.timestamp_ttl)
            ≡ false
          → Proven (after m words n) policy w
          → (authenticate_user caller m.meetings).0 ≡ ok true
      again w same policy stale (inr proof) =
          ap (λ x. (authenticate_user x m.meetings).0) (sym same) ∙ proof
      again w same policy stale (inl fresh) = absurd (cc (fresh, same, stale))
