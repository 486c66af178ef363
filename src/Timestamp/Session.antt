-- ===== src/Timestamp/Session.antt =====
-- What the cache of rust-old/src/timestamp.rs answers after it has been written, cleared, or left alone.
use shakti.Prelude.{
  ℕ, ◌≡◌, ◌≢◌, ◌+◌, ◌≤◌, ◌<◌, ◌∙◌, ◌↔◌, ◌⊎◌, inl, inr, true, false, Option, some, arith, Bool-cases,
  Option-cases, ◌==◌, ltb,
}
use shakti.Text.{Text}
use shakti.Error.{
  Error, ok, err, timestamp_is_symlink, world_writable, not_owned_by_root, Result-cases,
}
use shakti.Os.{Metadata, is_world_writable}
use shakti.Validate.{validate_username}
use shakti.Timestamp.{
  TimestampFs, default_timestamp_dir, timestamp_path, is_fresh, check_timestamp, check_dir,
  ensure_timestamp_dir, touch, update_timestamp, remove_timestamp, invalidate_timestamp,
}

module _ (fs : TimestampFs) (tty : Option Text) where
  open fs use {
    State, now, symlink_metadata, metadata, open_trunc, wait, open-stat, remove-stat, wait-stat,
    wait-now,
  }

  -- A file of root's that is no link and was modified less than the limit ago.
  pub record IsFresh (s : State) (user : Text) (ttl : ℕ) : Type 0 where
    pub meta : Metadata
    pub is_meta : symlink_metadata s (timestamp_path user tty) ≡ some meta
    pub no_link : meta.is_symlink ≡ false
    pub by_root : meta.uid ≡ 0
    pub past : meta.modified ≤ now s
    pub recent : now s < meta.modified + ttl

  check→ :
      (s : State) (user : Text) (ttl : ℕ)
      → check_timestamp fs tty s user ttl ≡ true
      → IsFresh s user ttl
  unfolding check_timestamp is_fresh
  check→ s user ttl h = elim (Option-cases (symlink_metadata s (timestamp_path user tty))) [
    | inl e ↦ absurd (ground arith)
    | inr (meta, e) ↦ record {
      meta = meta;
      is_meta = e;
      no_link = ground arith;
      by_root = ground arith;
      past = ground arith;
      recent = ground arith;
    }
  ]

  →check :
      (s : State) (user : Text) (ttl : ℕ)
      → IsFresh s user ttl
      → check_timestamp fs tty s user ttl ≡ true
  unfolding check_timestamp is_fresh
  →check s user ttl f = ground (arith, f.is_meta, f.no_link, f.by_root, f.past, f.recent)

  -- The cache is valid exactly if the user's file is there, is no symbolic link, belongs to root,
  -- and was modified in the past, less than the limit ago.
  pub check_timestamp_iff :
      (s : State) (user : Text) (ttl : ℕ)
      → (check_timestamp fs tty s user ttl ≡ true) ↔ IsFresh s user ttl
  check_timestamp_iff s user ttl = (check→ s user ttl, →check s user ttl)

  opened :
      (s mid t : State) (user : Text)
      → ensure_timestamp_dir fs tty s default_timestamp_dir ≡ (ok tt, mid)
      → update_timestamp fs tty s user ≡ (ok tt, t)
      → open_trunc mid (timestamp_path user tty) 0o600 ≡ some t
  unfolding update_timestamp touch
  opened s mid t user d h = elim (Option-cases (open_trunc mid (timestamp_path user tty) 0o600)) [
    | inl e ↦ absurd (ground arith)
    | inr (u, e) ↦ ground arith
  ]

  fresh_for :
      (t : State) (user : Text) (n ttl : ℕ) (m : Metadata)
      → symlink_metadata t (timestamp_path user tty) ≡ some m
      → m.is_symlink ≡ false
      → m.uid ≡ 0
      → m.modified ≡ now t
      → check_timestamp fs tty (wait t n) user ttl ≡ ltb n ttl
  unfolding check_timestamp is_fresh
  fresh_for t user n ttl m e l u k =
      ground (arith, wait-stat t n (timestamp_path user tty), wait-now t n)

  -- After an update that succeeds, where the file is new or was root's before, the cache is valid for
  -- exactly the time to live.
  pub check-update :
      (s mid t : State) (user : Text) (n ttl : ℕ)
      → ensure_timestamp_dir fs tty s default_timestamp_dir ≡ (ok tt, mid)
      → ((old : Metadata) → symlink_metadata mid (timestamp_path user tty) ≡ some old → old.uid ≡ 0)
      → update_timestamp fs tty s user ≡ (ok tt, t)
      → check_timestamp fs tty (wait t n) user ttl ≡ ltb n ttl
  check-update s mid t user n ttl d mine h =
      let (m, e, l, k, (fresh, kept)) =
        open-stat mid t (timestamp_path user tty) 0o600 (opened s mid t user d h) in
      fresh_for t user n ttl m e l
        (elim (Option-cases (symlink_metadata mid (timestamp_path user tty))) [
          | inl none_before ↦ fresh none_before
          | inr (old, before) ↦ kept old before ∙ mine old before
        ])
        k

  -- After an invalidation that succeeds the cache is not valid, whatever the time to live.
  pub check-invalidate :
      (s t : State) (user : Text) (ttl : ℕ)
      → invalidate_timestamp fs tty s user ≡ (ok tt, t)
      → check_timestamp fs tty t user ttl ≡ false
  unfolding invalidate_timestamp remove_timestamp check_timestamp
  check-invalidate s t user ttl h =
      elim (Option-cases (symlink_metadata s (timestamp_path user tty))) [
        | inl e ↦ ground arith
        | inr (m, e) ↦ elim (Option-cases (fs.remove_file s (timestamp_path user tty))) [
          | inl f ↦ absurd (ground arith)
          | inr (u, f) ↦ ground (arith, remove-stat s u (timestamp_path user tty))
        ]
      ]

  -- A symbolic link in the file's place is neither believed nor removed.
  pub symlink_is_refused :
      (s : State) (user : Text) (ttl : ℕ) (m : Metadata)
      → symlink_metadata s (timestamp_path user tty) ≡ some m
      → m.is_symlink ≡ true
      → validate_username user ≡ ok tt
      → (check_timestamp fs tty s user ttl ≡ false)
        × (invalidate_timestamp fs tty s user
            ≡ (err (timestamp_is_symlink (timestamp_path user tty)), s))
  unfolding check_timestamp invalidate_timestamp remove_timestamp
  symlink_is_refused s user ttl m e l v = (ground arith, ground arith)

  -- In a directory that is not root's, or that everybody can write, an update fails and changes
  -- nothing.
  pub update_needs_trust :
      (s : State) (user : Text) (m : Metadata)
      → metadata s default_timestamp_dir ≡ some m
      → (m.uid ≢ 0) ⊎ (is_world_writable m ≡ true)
      → (e : Error) × (update_timestamp fs tty s user ≡ (err e, s))
  unfolding update_timestamp ensure_timestamp_dir check_dir
  update_needs_trust s user m e bad = elim (Result-cases (validate_username user)) [
    | inl v ↦ elim (Bool-cases (m.uid == 0)) [
      | inl u ↦ (world_writable default_timestamp_dir m.mode, ground arith)
      | inr u ↦ (not_owned_by_root default_timestamp_dir m.uid, ground arith)
    ]
    | inr (x, v) ↦ (x, ground arith)
  ]
