-- ===== src/Privilege.antt =====
-- rust-old/src/main.rs: what the child does between `fork`-less `exec` and the new program, the
-- closure given to `pre_exec`. The kernel is an interface: the calls, and what is documented of them
-- for a process that may make them.
pub mod Dropped
use shakti.Prelude.{
  ℕ, ◌≡◌, ◌≢◌, Bool, true, false, Option, none, some, List, [], ◌∷◌, ltb, Any, if◌then◌else◌,
}
use shakti.Text.{Text}

pub record Kernel : Type 1 where
  pub State : Type 0
  pub uid : State → ℕ
  pub gid : State → ℕ
  pub groups : State → List ℕ
  pub is_open : State → ℕ → Bool
  -- The groups that the database gives a user, with the group named beside.
  pub groups_in_database : Text → ℕ → List ℕ
  -- `read_dir("/proc/self/fd")`, `none` where it fails: the process with the directory's descriptor,
  -- which descriptor that is, and what the iteration yields while the loop closes descriptors, which
  -- may end early. An entry that cannot be read or is no number is `none`.
  pub read_dir : State → Option (State × ℕ × List (Option ℕ))
  -- A failing `close` changes nothing, as its error is ignored.
  pub close : State → ℕ → State
  pub initgroups : State → Text → ℕ → Option State
  pub setgid : State → ℕ → Option State
  pub setuid : State → ℕ → Option State
  -- The descriptor is a new one.
  pub read_dir-open :
      (s t : State) (dir : ℕ) (entries : List (Option ℕ))
      → read_dir s ≡ some (t, dir, entries)
      → (is_open s dir ≡ false) × ((n : ℕ) → is_open s n ≡ true → is_open t n ≡ true)
  pub close-closed : (s : State) (n : ℕ) → is_open (close s n) n ≡ false
  pub close-rest : (s : State) (n m : ℕ) → m ≢ n → is_open (close s n) m ≡ is_open s m
  pub initgroups-groups :
      (s t : State) (user : Text) (g : ℕ)
      → initgroups s user g ≡ some t
      → groups t ≡ groups_in_database user g
  pub setgid-gid : (s t : State) (g : ℕ) → setgid s g ≡ some t → gid t ≡ g
  pub setgid-groups : (s t : State) (g : ℕ) → setgid s g ≡ some t → groups t ≡ groups s
  pub setuid-uid : (s t : State) (u : ℕ) → setuid s u ≡ some t → uid t ≡ u
  pub setuid-rest :
      (s t : State) (u : ℕ) → setuid s u ≡ some t → (gid t ≡ gid s) × (groups t ≡ groups s)

module _ (k : Kernel) where
  open k use {State, read_dir, close, initgroups, setgid, setuid}

  -- The loop over the entries.
  unfoldable pub close_fds : List (Option ℕ) → State → State
  close_fds [] s = s
  close_fds (none ∷ entries) s = close_fds entries s
  close_fds (some fd ∷ entries) s = close_fds entries (if ltb 2 fd then close s fd else s)

  -- The iterator goes at the end of the loop, and closes its own descriptor, if that is still open.
  abbrev close_listed : State → Option (State × ℕ × List (Option ℕ)) → State
  close_listed s none = s
  close_listed s (some (t, dir, entries)) = close (close_fds entries t) dir

  unfoldable pub close_leaked : State → State
  close_leaked s = close_listed s (read_dir s)

  abbrev pub and_then : Option State → (State → Option State) → Option State
  and_then none f = none
  and_then (some s) f = f s

  -- `none`: the closure fails, and the new program does not start.
  unfoldable pub pre_exec : Text → ℕ → ℕ → State → Option State
  pre_exec user target_uid target_gid s =
      and_then (initgroups (close_leaked s) user target_gid)
        λ s. and_then (setgid s target_gid) λ s. setuid s target_uid
