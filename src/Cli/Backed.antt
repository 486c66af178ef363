-- ===== src/Cli/Backed.antt =====
-- The ledger behind any sequence of runs of rust-old/src/main.rs: what stands in it was proved, and the
-- files show it.
use shakti.Prelude.{
  ℕ, ◌≡◌, refl, sym, ap, ◌∙◌, ◌⊎◌, inl, inr, true, ◌&&◌, Option, none, some, arith, Bool-cases,
  subst,
}
use shakti.Text.{Text, text_eq}
use shakti.Text.Laws.{text_eq_iff}
use shakti.Error.{Result, ok, err, Result-cases}
use shakti.Os.{Metadata}
use shakti.Timestamp.{
  TimestampFs, tty_session_id, update_timestamp, invalidate_timestamp, timestamp_path,
}
use shakti.Timestamp.Ledger.{
  nothing_cached, Ledger, enter, IsUser, authenticated, unrecorded, revoked, unrevoked, waited,
  Tracks, Shows,
}
use shakti.Timestamp.Frame.{invalidate_ok-removed}
use shakti.Cli.Again.{invalidated}
use shakti.Timestamp.Lifetime.{Step-Tracks}
use shakti.Auth.{authenticate_user}
use shakti.Account.{get_caller_username}
use shakti.Cli.Effect.{Effect, untouched, proved, withdrawn, run-Effect}
use shakti.Cli.Chronicle.{
  AllUsers, Occasion, machine_on, left_by, Chronicle, start, ran, paused, Revokes, Proof, given,
  before_run, before_pause,
}

module _ (fs : TimestampFs) where
  open fs use {State, now, wait, wait-now, symlink_metadata, remove-stat}

  -- What stands in the ledger was proved.
  abbrev pub IsBacked : Ledger → {s t : State} → Chronicle fs s t → Type 1
  IsBacked l {t = t} past =
      (user session : Text) (time : ℕ)
      → l user session ≡ some time
      → Proof fs user session time t past

  -- Files that show a ledger in which everything was proved.
  abbrev pub Backed : {s t : State} → Chronicle fs s t → Type 1
  Backed {t = t} past = (l : Ledger) × Tracks fs t l × IsBacked l past

  enter-some :
      (l : Ledger) (user session : Text) (entry : Option ℕ) (other at : Text) (time : ℕ)
      → enter l user session entry other at ≡ some time
      → ((user ≡ other) × (session ≡ at) × (entry ≡ some time)) ⊎ (l other at ≡ some time)
  enter-some l user session entry other at time h =
      elim (Bool-cases (text_eq other user && text_eq at session)) [
        | inl e ↦ inl (
          sym ((text_eq_iff other user).0 (ground arith)),
          sym ((text_eq_iff at session).0 (ground arith)),
          ground arith,
        )
        | inr e ↦ inr (ground arith)
      ]

  gone :
      (o : Occasion) (t : State) (user session : Text)
      → Revokes fs o t user session
      → symlink_metadata (left_by fs o t) (timestamp_path user o.tty) ≡ none
  gone o t user session (c, there, cli, p, i, d) =
      elim (invalidate_ok-removed fs t (left_by fs o t) user o.tty
        (invalidated (machine_on fs o t) o.words cli user p i c d)) [
          | inl (e, same) ↦ ap (λ u. symlink_metadata u (timestamp_path user o.tty)) same ∙ e
          | inr removed ↦ remove-stat t (left_by fs o t) (timestamp_path user o.tty) removed
        ]

  -- What a ledger still has after a run, the run has not revoked.
  not_revoked :
      (o : Occasion) (t : State) (k : Ledger) (user session : Text) (time : ℕ)
      → ((caller : Text) → get_caller_username o.accounts ≡ ok caller → IsUser caller)
      → Tracks fs (left_by fs o t) k
      → k user session ≡ some time
      → ¬ Revokes fs o t user session
  not_revoked o t k user session time names shows h r =
      let shown : Shows none (k user (tty_session_id o.tty)) =
        subst (λ (f : Option Metadata). Shows f (k user (tty_session_id o.tty)))
          (gone o t user session r) (shows user o.tty (names user r.0)) in
      cc (shown, ap (k user) r.1, h)

  -- The step of the ledger that a call of the cache makes.
  module _ {s t : State} (past : Chronicle fs s t) (o : Occasion)
      (names : (caller : Text) → get_caller_username o.accounts ≡ ok caller → IsUser caller)
      (l : Ledger) (shows : Tracks fs t l) (backed : IsBacked l past) where
    abbrev after_run : Chronicle fs s (left_by fs o t)
    after_run = ran past o

    unchanged : Tracks fs (left_by fs o t) l → Backed after_run
    unchanged shown = (
      l,
      shown,
      λ user session time h.
          before_run o (backed user session time h)
            (not_revoked o t l user session time names shown h),
    )

    stamped :
        (caller : Text)
        → get_caller_username o.accounts ≡ ok caller
        → (authenticate_user caller o.meetings).0 ≡ ok true
        → update_timestamp fs o.tty t caller ≡ (ok tt, left_by fs o t)
        → Backed after_run
    stamped caller c a u =
        let session = tty_session_id o.tty in
        let k = enter l caller session (some (now (left_by fs o t))) in
        let shown =
          Step-Tracks fs t (left_by fs o t) l k (authenticated caller o.tty (names caller c) u refl)
            shows in
        (
          k,
          shown,
          λ user at time h.
              elim (enter-some l caller session (some (now (left_by fs o t))) user at time h) [
                | inr old ↦
                    before_run o (backed user at time old)
                      (not_revoked o t k user at time names shown h)
                | inl (same, there, entry) ↦
                    given o (c ∙ ap ok same) there
                      (ap (λ w. (authenticate_user w o.meetings).0) (sym same) ∙ a) (cc entry)
              ],
        )

    cleared :
        (caller : Text)
        → get_caller_username o.accounts ≡ ok caller
        → invalidate_timestamp fs o.tty t caller ≡ (ok tt, left_by fs o t)
        → Backed after_run
    cleared caller c u =
        let session = tty_session_id o.tty in
        let k = enter l caller session none in
        let shown =
          Step-Tracks fs t (left_by fs o t) l k (revoked caller o.tty (names caller c) u refl)
            shows in
        (
          k,
          shown,
          λ user at time h. elim (enter-some l caller session none user at time h) [
            | inr old ↦
                before_run o (backed user at time old)
                  (not_revoked o t k user at time names shown h)
            | inl (same, there, entry) ↦ absurd (cc entry)
          ],
        )

    pair :
        (r : Result (Unit {0}) × State) (a : Result (Unit {0})) (u : State)
        → r.0 ≡ a
        → u ≡ r.1
        → r ≡ (a, u)
    pair r a u e f = λ i. (e i, sym f i)

    run-Backed : Backed after_run
    run-Backed = go (run-Effect (machine_on fs o t) o.words)
      where
        go : Effect (machine_on fs o t) (left_by fs o t) → Backed after_run
        go (untouched e) = unchanged (subst (λ u. Tracks fs u l) (sym e) shows)
        go (proved caller c a e) = elim (Result-cases (update_timestamp fs o.tty t caller).0) [
          | inl f ↦ stamped caller c a (pair _ (ok tt) (left_by fs o t) f e)
          | inr (x, f) ↦ unchanged (
              Step-Tracks fs t (left_by fs o t) l l
                (unrecorded caller o.tty x (pair _ (err x) (left_by fs o t) f e) refl) shows)
        ]
        go (withdrawn caller c e) = elim (Result-cases (invalidate_timestamp fs o.tty t caller).0) [
          | inl f ↦ cleared caller c (pair _ (ok tt) (left_by fs o t) f e)
          | inr (x, f) ↦ unchanged (
              Step-Tracks fs t (left_by fs o t) l l
                (unrevoked caller o.tty x (pair _ (err x) (left_by fs o t) f e) refl) shows)
        ]

  pub chronicle-Backed :
      {s t : State} (past : Chronicle fs s t)
      → Tracks fs s nothing_cached
      → AllUsers fs past
      → Backed past
  chronicle-Backed start h all = (nothing_cached, h, λ user session time e. absurd (cc e))
  chronicle-Backed (ran past o) h (names, all) =
      let (l, shows, backed) = chronicle-Backed past h all in run-Backed past o names l shows backed
  chronicle-Backed (paused {t = t} past n) h all =
      let (l, shows, backed) = chronicle-Backed past h all in
      (
        l,
        Step-Tracks fs t (wait t n) l l (waited n refl refl) shows,
        λ user session time e. before_pause n (backed user session time e),
      )
