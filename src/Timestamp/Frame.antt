-- ===== src/Timestamp/Frame.antt =====
-- What the operations of rust-old/src/timestamp.rs leave alone.
use shakti.Prelude.{◌≡◌, ◌⊎◌, inl, inr, Option, none, some, ◌++◌, ◌∷◌, arith, Option-cases}
use shakti.Text.{Text}
use shakti.Error.{Error, ok, err, Result-cases}
use shakti.Validate.{validate_username}
use shakti.Timestamp.{
  TimestampFs, default_timestamp_dir, timestamp_path, restrict, check_dir, ensure_timestamp_dir,
  touch, update_timestamp, remove_timestamp, invalidate_timestamp,
}

module _ (fs : TimestampFs) where
  open fs use {
    State, now, symlink_metadata, metadata, create_dir_all, set_permissions, open_trunc,
    remove_file, wait, open-stat, remove-stat, create-stat, chmod-stat, open-rest, remove-rest,
    wait-stat, wait-now,
  }

  -- Making sure of the directory leaves the files in it alone, also where it fails.
  pub ensure-stat :
      (s : State) (tty : Option Text) (name : Text)
      → symlink_metadata
          (ensure_timestamp_dir fs tty s default_timestamp_dir).1
          (default_timestamp_dir ++ b'/' ∷ name)
        ≡ symlink_metadata s (default_timestamp_dir ++ b'/' ∷ name)
  unfolding ensure_timestamp_dir restrict check_dir
  ensure-stat s tty name = elim (Option-cases (metadata s default_timestamp_dir)) [
    | inr (m, e) ↦ ground arith
    | inl e ↦ elim (Option-cases (create_dir_all s default_timestamp_dir)) [
      | inl f ↦ ground arith
      | inr (t, f) ↦ elim (Option-cases (set_permissions t default_timestamp_dir 0o700)) [
        | inl g ↦ ground (arith, create-stat s t default_timestamp_dir name)
        | inr (u, g) ↦ ground (
          arith,
          create-stat s t default_timestamp_dir name,
          chmod-stat t u default_timestamp_dir name 0o700,
        )
      ]
    ]
  ]

  -- What an update that fails leaves, and what one that succeeds leaves beside its file.
  pub update_err-stat :
      (s t : State) (user name : Text) (tty : Option Text) (e : Error)
      → update_timestamp fs tty s user ≡ (err e, t)
      → symlink_metadata t (default_timestamp_dir ++ b'/' ∷ name)
        ≡ symlink_metadata s (default_timestamp_dir ++ b'/' ∷ name)
  unfolding update_timestamp touch
  update_err-stat s t user name tty e h = elim (Result-cases (validate_username user)) [
    | inr (x, v) ↦ ground arith
    | inl v ↦ elim (Result-cases (ensure_timestamp_dir fs tty s default_timestamp_dir).0) [
      | inr (x, d) ↦ ground (arith, ensure-stat s tty name)
      | inl d ↦
          elim (Option-cases (
            open_trunc (ensure_timestamp_dir fs tty s default_timestamp_dir).1
              (timestamp_path user tty) 0o600)) [
                | inl o ↦ ground (arith, ensure-stat s tty name)
                | inr (u, o) ↦ absurd (ground arith)
              ]
    ]
  ]

  pub update_ok-opened :
      (s t : State) (user : Text) (tty : Option Text)
      → update_timestamp fs tty s user ≡ (ok tt, t)
      → open_trunc
          (ensure_timestamp_dir fs tty s default_timestamp_dir).1
          (timestamp_path user tty)
          0o600
        ≡ some t
  unfolding update_timestamp touch
  update_ok-opened s t user tty h = elim (Result-cases (validate_username user)) [
    | inr (x, v) ↦ absurd (ground arith)
    | inl v ↦ elim (Result-cases (ensure_timestamp_dir fs tty s default_timestamp_dir).0) [
      | inr (x, d) ↦ absurd (ground arith)
      | inl d ↦
          elim (Option-cases (
            open_trunc (ensure_timestamp_dir fs tty s default_timestamp_dir).1
              (timestamp_path user tty) 0o600)) [
                | inl e ↦ absurd (ground arith)
                | inr (u, e) ↦ ground arith
              ]
    ]
  ]

  -- An invalidation that fails changes nothing, and one that succeeds nothing beside its file.
  pub invalidate_err-stat :
      (s t : State) (user : Text) (tty : Option Text) (e : Error)
      → invalidate_timestamp fs tty s user ≡ (err e, t)
      → t ≡ s
  unfolding invalidate_timestamp remove_timestamp
  invalidate_err-stat s t user tty e h = elim (Result-cases (validate_username user)) [
    | inr (x, v) ↦ ground arith
    | inl v ↦ elim (Option-cases (symlink_metadata s (timestamp_path user tty))) [
      | inl f ↦ absurd (ground arith)
      | inr (m, f) ↦ elim (Option-cases (remove_file s (timestamp_path user tty))) [
        | inl g ↦ ground arith
        | inr (u, g) ↦ ground arith
      ]
    ]
  ]

  -- Nothing was there, or it was removed.
  pub invalidate_ok-removed :
      (s t : State) (user : Text) (tty : Option Text)
      → invalidate_timestamp fs tty s user ≡ (ok tt, t)
      → ((symlink_metadata s (timestamp_path user tty) ≡ none) × (t ≡ s))
        ⊎ (remove_file s (timestamp_path user tty) ≡ some t)
  unfolding invalidate_timestamp remove_timestamp
  invalidate_ok-removed s t user tty h = elim (Result-cases (validate_username user)) [
    | inr (x, v) ↦ absurd (ground arith)
    | inl v ↦ elim (Option-cases (symlink_metadata s (timestamp_path user tty))) [
      | inl f ↦ inl (f, ground arith)
      | inr (m, f) ↦ elim (Option-cases (remove_file s (timestamp_path user tty))) [
        | inl g ↦ absurd (ground arith)
        | inr (u, g) ↦ inr (ground arith)
      ]
    ]
  ]
