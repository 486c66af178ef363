-- ===== src/Timestamp/Lifetime.antt =====
-- The cache of rust-old/src/timestamp.rs over any sequence of its operations, against what it is for:
-- for each user and session, the time of the last authentication that has not been revoked.
use shakti.Prelude.{
  ℕ, ◌≡◌, ◌≢◌, refl, sym, ap, ◌∙◌, inl, inr, true, false, ◌&&◌, Option, none, some, arith, subst,
  Bool-cases, Option-cases,
}
use shakti.Text.{Text, text_eq}
use shakti.Text.Laws.{text_eq_iff}
use shakti.FilePath.{components}
use shakti.Error.{ok}
use shakti.Timestamp.{
  TimestampFs, default_timestamp_dir, tty_session_id, timestamp_path, timestamp_name,
  check_timestamp, ensure_timestamp_dir, update_timestamp, invalidate_timestamp,
}
use shakti.Timestamp.Frame.{
  ensure-stat, update_err-stat, update_ok-opened, invalidate_err-stat, invalidate_ok-removed,
}
use shakti.Timestamp.Location.{timestamp_path-below, timestamp_path-session, timestamp_path-apart}
use shakti.Timestamp.Ledger.{
  Ledger, enter, is_current, IsUser, Step, authenticated, unrecorded, revoked, unrevoked, waited,
  History, here, next, Shows, Tracks, Shows-check,
}

module _ (fs : TimestampFs) where
  open fs use {
    State, now, symlink_metadata, metadata, create_dir_all, set_permissions, open_trunc,
    remove_file, wait, open-stat, remove-stat, create-stat, chmod-stat, open-rest, remove-rest,
    wait-stat, wait-now,
  }

  -- The file of one user and session, seen from the entry that another operation makes.
  same_key :
      (user other : Text) (a b : Option Text)
      → (text_eq other user && text_eq (tty_session_id b) (tty_session_id a)) ≡ true
      → timestamp_path other b ≡ timestamp_path user a
  same_key user other a b e =
      let u : other ≡ user = (text_eq_iff other user).0 (ground arith) in
      ap (λ w. timestamp_path w b) u
      ∙ timestamp_path-session user b a
          ((text_eq_iff (tty_session_id b) (tty_session_id a)).0 (ground arith))

  other_key :
      (user other : Text) (a b : Option Text)
      → IsUser user
      → IsUser other
      → (text_eq other user && text_eq (tty_session_id b) (tty_session_id a)) ≡ false
      → components (timestamp_path other b) ≢ components (timestamp_path user a)
  other_key user other a b v w e =
      timestamp_path-apart other user b a w.accepted v.accepted w.colonless v.colonless λ (u, t).
        ground (arith, text_eq_iff other user, text_eq_iff (tty_session_id b) (tty_session_id a))

  -- An operation that makes one entry, and leaves the other files alone.
  entered :
      (s t : State) (l : Ledger) (user : Text) (tty : Option Text) (time : Option ℕ)
      → IsUser user
      → Shows (symlink_metadata t (timestamp_path user tty)) time
      → ((other : Text) (b : Option Text)
          → IsUser other
          → components (timestamp_path other b) ≢ components (timestamp_path user tty)
          → symlink_metadata t (timestamp_path other b)
            ≡ symlink_metadata s (timestamp_path other b))
      → Tracks fs s l
      → Tracks fs t (enter l user (tty_session_id tty) time)
  entered s t l user tty time v own rest h other b w =
      elim (Bool-cases (text_eq other user && text_eq (tty_session_id b) (tty_session_id tty))) [
        | inl e ↦
            rw e (
              subst (λ p. Shows (symlink_metadata t p) time) (sym (same_key user other tty b e))
                own)
        | inr e ↦ rw e (
            subst (λ o. Shows o (l other (tty_session_id b)))
              (sym (rest other b w (other_key user other tty b v w e))) (h other b w))
      ]

  update-rest :
      (s t : State) (user : Text) (tty : Option Text)
      → update_timestamp fs tty s user ≡ (ok tt, t)
      → (other : Text) (b : Option Text) → IsUser other
      → components (timestamp_path other b) ≢ components (timestamp_path user tty)
      → symlink_metadata t (timestamp_path other b) ≡ symlink_metadata s (timestamp_path other b)
  update-rest s t user tty h other b w n =
      let mid = (ensure_timestamp_dir fs tty s default_timestamp_dir).1 in
      let below = timestamp_path-below other b w.accepted in
      open-rest mid t (timestamp_path user tty) (timestamp_path other b) 0o600
        (update_ok-opened fs s t user tty h) n
      ∙ subst (λ q. symlink_metadata mid q ≡ symlink_metadata s q) (sym below)
          (ensure-stat fs s tty (timestamp_name other b))

  -- A file that was root's, or is new, is root's after it was opened.
  update-own :
      (s t : State) (l : Ledger) (user : Text) (tty : Option Text)
      → IsUser user
      → Tracks fs s l
      → update_timestamp fs tty s user ≡ (ok tt, t)
      → Shows (symlink_metadata t (timestamp_path user tty)) (some (now t))
  update-own s t l user tty v h done =
      let mid = (ensure_timestamp_dir fs tty s default_timestamp_dir).1 in
      let path = timestamp_path user tty in
      let (m, is_m, no_link, time, (fresh, kept)) =
        open-stat mid t path 0o600 (update_ok-opened fs s t user tty done) in
      let same : symlink_metadata mid path ≡ symlink_metadata s path =
        subst (λ q. symlink_metadata mid q ≡ symlink_metadata s q)
          (sym (timestamp_path-below user tty v.accepted))
          (ensure-stat fs s tty (timestamp_name user tty)) in
      let root : m.uid ≡ 0 = elim (Option-cases (symlink_metadata s path)) [
        | inl e ↦ fresh (same ∙ e)
        | inr (old, e) ↦
            let shown : Shows (some old) (l user (tty_session_id tty)) =
              subst (λ o. Shows o (l user (tty_session_id tty))) e (h user tty v) in
            kept old (same ∙ e) ∙ shown.1
      ] in
      subst (λ o. Shows o (some (now t))) (sym is_m) (no_link, root, ap some (sym time))

  unchanged :
      (s t : State) (l : Ledger)
      → ((user : Text) (tty : Option Text)
          → IsUser user
          → symlink_metadata t (timestamp_path user tty)
            ≡ symlink_metadata s (timestamp_path user tty))
      → Tracks fs s l
      → Tracks fs t l
  unchanged s t l same h user tty v =
      subst (λ o. Shows o (l user (tty_session_id tty))) (sym (same user tty v)) (h user tty v)

  revoke-Tracks :
      (s t : State) (l : Ledger) (user : Text) (tty : Option Text)
      → IsUser user
      → invalidate_timestamp fs tty s user ≡ (ok tt, t)
      → Tracks fs s l
      → Tracks fs t (enter l user (tty_session_id tty) none)
  revoke-Tracks s t l user tty v done h = elim (invalidate_ok-removed fs s t user tty done) [
    | inl (gone, same) ↦
        entered s t l user tty none v
          (subst (λ u. Shows (symlink_metadata u (timestamp_path user tty)) none) (sym same)
            (subst (λ o. Shows o none) (sym gone) refl))
          (λ other b w n. ap (λ u. symlink_metadata u (timestamp_path other b)) same) h
    | inr removed ↦
        entered s t l user tty none v
          (subst (λ o. Shows o none) (sym (remove-stat s t (timestamp_path user tty) removed)) refl)
          (λ other b w n.
            remove-rest s t (timestamp_path user tty) (timestamp_path other b) removed n)
          h
  ]

  -- One operation keeps the files and the ledger together.
  pub Step-Tracks : (s t : State) (l k : Ledger) → Step fs s l t k → Tracks fs s l → Tracks fs t k
  Step-Tracks s t l k (authenticated user tty v done e) h = subst (Tracks fs t) (sym e) (
      entered s t l user tty (some (now t)) v (update-own s t l user tty v h done)
        (update-rest s t user tty done) h)
  Step-Tracks s t l k (unrecorded user tty x failed e) h = subst (Tracks fs t) (sym e) (
      unchanged s t l
        (λ other b w.
          subst (λ q. symlink_metadata t q ≡ symlink_metadata s q)
            (sym (timestamp_path-below other b w.accepted))
            (update_err-stat fs s t user (timestamp_name other b) tty x failed))
        h)
  Step-Tracks s t l k (revoked user tty v done e) h =
      subst (Tracks fs t) (sym e) (revoke-Tracks s t l user tty v done h)
  Step-Tracks s t l k (unrevoked user tty x failed e) h = subst (Tracks fs t) (sym e) (
      unchanged s t l
        (λ other b w.
          ap (λ u. symlink_metadata u (timestamp_path other b))
            (invalidate_err-stat fs s t user tty x failed))
        h)
  Step-Tracks s t l k (waited n same e) h = subst (Tracks fs t) (sym e) (
      unchanged s t l
        (λ other b w.
          ap (λ u. symlink_metadata u (timestamp_path other b)) same
          ∙ wait-stat s n (timestamp_path other b))
        h)

  History-Tracks :
      {s : State} {l : Ledger} {t : State} {k : Ledger}
      → History fs s l t k
      → Tracks fs s l
      → Tracks fs t k
  History-Tracks here h = h
  History-Tracks (next {t = t} {u = u} {k = k} {j = j} past step) h =
      Step-Tracks t u k j step (History-Tracks past h)

  -- After any sequence of authentications and revocations, failing ones and the passing of time
  -- included, in any sessions, by users whose names the cache can tell apart, the cache is valid for
  -- a user in a session exactly if the last of that user's operations there that succeeded was an
  -- authentication less than the time to live ago, where the files stood for the entries at the start.
  pub History-check :
      {s t : State} {l k : Ledger} (user : Text) (tty : Option Text) (ttl : ℕ)
      → Tracks fs s l
      → History fs s l t k
      → IsUser user
      → check_timestamp fs tty t user ttl ≡ is_current (now t) (k user (tty_session_id tty)) ttl
  History-check {t = t} {k = k} user tty ttl h past v =
      Shows-check fs t user tty (k user (tty_session_id tty)) ttl (History-Tracks past h user tty v)
