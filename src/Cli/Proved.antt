-- ===== src/Cli/Proved.antt =====
-- Why a program can replace rust-old/src/main.rs after any sequence of runs on one credential cache.
use shakti.Prelude.{
  ℕ, ◌≡◌, refl, sym, ap, ◌∙◌, ◌⊎◌, inl, inr, true, false, Option, none, some, arith, Bool-cases,
}
use shakti.Text.{Text}
use shakti.Error.{ok}
use shakti.Timestamp.{TimestampFs, tty_session_id, check_timestamp, from_secs}
use shakti.Timestamp.Ledger.{nothing_cached, Ledger, is_current, IsUser, Tracks, Shows-check}
use shakti.Auth.{authenticate_user}
use shakti.Account.{get_caller_username}
use shakti.Cli.Guard.{IsGuarded, run-IsGuarded}
use shakti.Cli.Run.{Launch, replaced, run}
use shakti.Cli.Chronicle.{AllUsers, Occasion, machine_on, Chronicle, StillGood}
use shakti.Cli.Backed.{IsBacked, chronicle-Backed}

module _ (fs : TimestampFs) where
  open fs use {State, now, wait, wait-now, symlink_metadata, remove-stat}

  current-StillGood :
      (user session : Text) (ttl : ℕ) {s t : State} (past : Chronicle fs s t) (l : Ledger)
      (entry : Option ℕ)
      → IsBacked fs l past
      → l user session ≡ entry
      → is_current (now t) entry ttl ≡ true
      → StillGood fs user session ttl past
  current-StillGood user session ttl past l none backed e h = absurd (cc h)
  current-StillGood user session ttl past l (some since) backed e h =
      (since, ground (arith, h), ground (arith, h), backed user session since e)

  -- After any sequence of runs and pauses that began without timestamps, all by users whose names the
  -- cache can tell apart, a run becomes a program for which the policy asks for a password only if
  -- the user gives the right one to it, or has given it to an earlier run in the same session, less
  -- than the policy's time to live ago, and has not revoked that with -k since.
  pub replaced-StillGood :
      {s t : State} (past : Chronicle fs s t) (o : Occasion) (caller : Text) (l : Launch)
      → Tracks fs s nothing_cached
      → AllUsers fs past
      → get_caller_username o.accounts ≡ ok caller
      → IsUser caller
      → (run (machine_on fs o t) o.words).answer ≡ replaced l
      → (g : IsGuarded (machine_on fs o t) o.words l (run (machine_on fs o t) o.words).events)
        × ((g.commanded.obeyed.required ≡ false)
            ⊎ (((authenticate_user caller o.meetings).0 ≡ ok true)
                ⊎ StillGood fs caller
                    (tty_session_id o.tty)
                    (from_secs g.policy.defaults.timestamp_ttl)
                    past))
  replaced-StillGood {t = t} past o caller l h all c v a =
      let g = run-IsGuarded (machine_on fs o t) o.words l a in
      let same : g.caller ≡ caller = cc (g.is_caller, c) in
      (
        g,
        elim (Bool-cases g.commanded.obeyed.required) [
          | inr free ↦ inl free
          | inl must ↦ inr (elim (g.commanded.obeyed.proven must) [
            | inr proof ↦ inl (ap (λ w. (authenticate_user w o.meetings).0) (sym same) ∙ proof)
            | inl fresh ↦
                let ttl = from_secs g.policy.defaults.timestamp_ttl in
                let session = tty_session_id o.tty in
                let (k, shows, backed) = chronicle-Backed fs past h all in
                inr (
                  current-StillGood caller session ttl past k (k caller session) backed refl (
                    sym
                      (Shows-check fs t caller o.tty (k caller session) ttl (shows caller o.tty v))
                    ∙ (ap (λ w. check_timestamp fs o.tty t w ttl) (sym same) ∙ fresh)))
          ])
        ],
      )
