-- ===== src/Timestamp/Ledger.antt =====
-- What the cache of rust-old/src/timestamp.rs is for: for each user and session, the time of the last
-- authentication that has not been revoked. Its operations as steps, and when files show such a view.
use shakti.Prelude.{
  ℕ, ◌≡◌, inl, inr, Bool, false, ◌&&◌, Option, none, some, arith, subst, Option-cases,
  if◌then◌else◌, leb, ltb, ◌-◌,
}
use shakti.Text.{Text, text_eq, contains}
use shakti.Error.{Error, ok, err}
use shakti.Os.{Metadata}
use shakti.Validate.{validate_username}
use shakti.Timestamp.{
  TimestampFs, tty_session_id, timestamp_path, is_fresh, check_timestamp, update_timestamp,
  invalidate_timestamp,
}

-- What a cache promises: when each user was last authenticated in each session.
abbrev pub Ledger : Type 0
Ledger = Text → Text → Option ℕ

-- Nobody has been authenticated.
abbrev pub nothing_cached : Ledger
nothing_cached user session = none

abbrev pub enter : Ledger → Text → Text → Option ℕ → Ledger
enter l user session time other at =
    if text_eq other user && text_eq at session then time else l other at

-- An entry is good for the time to live, and not from the future.
abbrev pub is_current : ℕ → Option ℕ → ℕ → Bool
is_current now none ttl = false
is_current now (some since) ttl = if leb since now then ltb (now - since) ttl else false

-- A name that the program accepts and that the separator of the file's name does not occur in.
pub record IsUser (user : Text) : Type 0 where
  pub accepted : validate_username user ≡ ok tt
  pub colonless : contains user b':' ≡ false

-- The files show an entry: none, or a file of root's whose time it is.
abbrev pub Shows : Option Metadata → Option ℕ → Type 0
Shows none entry = entry ≡ none
Shows (some m) entry = (m.is_symlink ≡ false) × (m.uid ≡ 0) × (entry ≡ some m.modified)

module _ (fs : TimestampFs) where
  open fs use {
    State, now, symlink_metadata, metadata, create_dir_all, set_permissions, open_trunc,
    remove_file, wait, open-stat, remove-stat, create-stat, chmod-stat, open-rest, remove-rest,
    wait-stat, wait-now,
  }

  -- One operation, by some user in some session, or time that passes; what it does to the ledger.
  pub data Step (s : State) (l : Ledger) (t : State) (k : Ledger) : Type 0 where
    authenticated :
        (user : Text) (tty : Option Text)
        → IsUser user
        → update_timestamp fs tty s user ≡ (ok tt, t)
        → k ≡ enter l user (tty_session_id tty) (some (now t))
        → Step s l t k
    unrecorded :
        (user : Text) (tty : Option Text) (e : Error)
        → update_timestamp fs tty s user ≡ (err e, t)
        → k ≡ l
        → Step s l t k
    revoked :
        (user : Text) (tty : Option Text)
        → IsUser user
        → invalidate_timestamp fs tty s user ≡ (ok tt, t)
        → k ≡ enter l user (tty_session_id tty) none
        → Step s l t k
    unrevoked :
        (user : Text) (tty : Option Text) (e : Error)
        → invalidate_timestamp fs tty s user ≡ (err e, t)
        → k ≡ l
        → Step s l t k
    waited : (n : ℕ) → t ≡ wait s n → k ≡ l → Step s l t k

  pub data History (s : State) (l : Ledger) : State → Ledger → Type 0 where
    here : History s l s l
    next : {t u : State} {k j : Ledger} → History s l t k → Step t k u j → History s l u j

  abbrev pub Tracks : State → Ledger → Type 0
  Tracks s l =
      (user : Text) (tty : Option Text)
      → IsUser user
      → Shows (symlink_metadata s (timestamp_path user tty)) (l user (tty_session_id tty))

  pub Shows-check :
      (s : State) (user : Text) (tty : Option Text) (entry : Option ℕ) (ttl : ℕ)
      → Shows (symlink_metadata s (timestamp_path user tty)) entry
      → check_timestamp fs tty s user ttl ≡ is_current (now s) entry ttl
  unfolding check_timestamp is_fresh
  Shows-check s user tty entry ttl h =
      elim (Option-cases (symlink_metadata s (timestamp_path user tty))) [
        | inl e ↦ let g : Shows none entry = subst (λ o. Shows o entry) e h in ground (arith, g)
        | inr (m, e) ↦
            let g : Shows (some m) entry = subst (λ o. Shows o entry) e h in ground (arith, g)
      ]
