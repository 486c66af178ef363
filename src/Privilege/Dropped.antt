-- ===== src/Privilege/Dropped.antt =====
-- What the new program starts with, after the closure of rust-old/src/main.rs.
use shakti.Prelude.{
  ℕ, ◌≡◌, ◌≤◌, ◌<◌, refl, sym, ap, ◌∙◌, inl, inr, true, false, Option, none, some, List, [], ◌∷◌,
  arith, Any, ltb, Bool-cases, Option-cases, subst, ◌==◌, ==_iff,
}
use shakti.Text.{Text}
use shakti.Privilege.{Kernel, close_fds, close_leaked, pre_exec}

module _ (k : Kernel) where
  open k use {
    State, uid, gid, groups, is_open, groups_in_database, read_dir, close, initgroups, setgid,
    setuid, read_dir-open, close-closed, close-rest, initgroups-groups, setgid-gid, setgid-groups,
    setuid-uid, setuid-rest,
  }

  -- Of the descriptors, `a` has those of the standard streams that `s` has, and none of the others
  -- that the iteration over the descriptors of `s` yields.
  pub record IsClosedUp (s a : State) : Type 0 where
    pub standard : (n : ℕ) → n ≤ 2 → is_open s n ≡ true → is_open a n ≡ true
    pub closed :
        (t : State) (dir : ℕ) (entries : List (Option ℕ)) (n : ℕ)
        → read_dir s ≡ some (t, dir, entries)
        → Any (λ e. e ≡ some n) entries
        → 2 < n
        → is_open a n ≡ false

  -- The process runs as the target, in the target's groups alone, and the groups were looked up by
  -- a process without the descriptors that could be listed.
  pub record IsDropped (s t : State) (user : Text) (target_uid target_gid : ℕ) : Type 0 where
    pub is_uid : uid t ≡ target_uid
    pub is_gid : gid t ≡ target_gid
    pub is_groups : groups t ≡ groups_in_database user target_gid
    pub at_lookup : State
    pub grouped : State
    pub looked_up : initgroups at_lookup user target_gid ≡ some grouped
    pub closed_up : IsClosedUp s at_lookup

  close-stays : (s : State) (n m : ℕ) → is_open s m ≡ false → is_open (close s n) m ≡ false
  close-stays s n m h = elim (Bool-cases (m == n)) [
    | inl e ↦ ap (λ j. is_open (close s n) j) ((==_iff m n).0 e) ∙ close-closed s n
    | inr e ↦ close-rest s n m (λ same. ground (arith, e, same)) ∙ h
  ]

  loop-stays :
      (entries : List (Option ℕ)) (s : State) (n : ℕ)
      → is_open s n ≡ false
      → is_open (close_fds k entries s) n ≡ false
  unfolding close_fds
  loop-stays [] s n h = h
  loop-stays (none ∷ entries) s n h = loop-stays entries s n h
  loop-stays (some fd ∷ entries) s n h =
      loop-stays entries _ n
        (elim (Bool-cases (ltb 2 fd)) [ inl e ↦ rw e (close-stays s fd n h) | inr e ↦ rw e h ])

  loop-closed :
      (entries : List (Option ℕ)) (s : State) (n : ℕ)
      → Any (λ e. e ≡ some n) entries
      → 2 < n
      → is_open (close_fds k entries s) n ≡ false
  unfolding close_fds
  loop-closed [] s n h big = absurd h
  loop-closed (none ∷ entries) s n (inl e) big = absurd (cc e)
  loop-closed (none ∷ entries) s n (inr h) big = loop-closed entries s n h big
  loop-closed (some fd ∷ entries) s n (inr h) big = loop-closed entries _ n h big
  loop-closed (some fd ∷ entries) s n (inl e) big =
      let same : fd ≡ n = cc e in
      let large : ltb 2 fd ≡ true = ground (arith, same, big) in
      loop-stays entries _ n
        (rw large (ap (λ j. is_open (close s fd) j) (sym same) ∙ close-closed s fd))

  loop-standard :
      (entries : List (Option ℕ)) (s : State) (n : ℕ)
      → n ≤ 2
      → is_open s n ≡ true
      → is_open (close_fds k entries s) n ≡ true
  unfolding close_fds
  loop-standard [] s n small h = h
  loop-standard (none ∷ entries) s n small h = loop-standard entries s n small h
  loop-standard (some fd ∷ entries) s n small h =
      loop-standard entries _ n small (elim (Bool-cases (ltb 2 fd)) [
        | inl e ↦ rw e (close-rest s fd n (λ same. ground (arith, e, same, small)) ∙ h)
        | inr e ↦ rw e h
      ])

  leaked-IsClosedUp : (s : State) → IsClosedUp s (close_leaked k s)
  unfolding close_leaked
  leaked-IsClosedUp s = go (read_dir s) refl
    where
      same_entries :
          {o : Option (State × ℕ × List (Option ℕ))} {t u : State} {c d : ℕ}
          {es fs : List (Option ℕ)}
          → o ≡ some (t, c, es)
          → o ≡ some (u, d, fs)
          → es ≡ fs
      same_entries e f = cc (e, f)

      go :
          (r : Option (State × ℕ × List (Option ℕ)))
          → read_dir s ≡ r
          → IsClosedUp s (close_leaked k s)
      go none e = record {
        standard = λ n small h. rw (e, close_leaked) h;
        closed = λ t dir entries n listed. absurd (cc (e, listed));
      }
      go (some (t, dir, entries)) e =
          let (new, still) = read_dir-open s t dir entries e in
          record {
            standard = λ n small h.
                rw (e, close_leaked)
                  (close-rest (close_fds k entries t) dir n (λ same. cc (same, h, new))
                    ∙ loop-standard entries t n small (still n h));
            closed = λ u d es n listed yielded big.
                rw (e, close_leaked)
                  (close-stays (close_fds k entries t) dir n (
                    loop-closed entries t n
                      (subst (λ w. Any (λ y. y ≡ some n) w) (same_entries listed e) yielded) big));
          }

  -- Where the closure succeeds, the process has the target's uid and gid and the groups that the
  -- database gives the target. When those groups were looked up, every descriptor past the standard
  -- three that the iteration over the open ones yielded was closed, and of the standard three every
  -- one that had been open was open.
  pub pre_exec-IsDropped :
      (s t : State) (user : Text) (target_uid target_gid : ℕ)
      → pre_exec k user target_uid target_gid s ≡ some t
      → IsDropped s t user target_uid target_gid
  unfolding pre_exec
  pre_exec-IsDropped s t user u g h = elim (Option-cases (initgroups (close_leaked k s) user g)) [
    | inl e ↦ absurd (ground arith)
    | inr (a, e) ↦ elim (Option-cases (setgid a g)) [
      | inl f ↦ absurd (ground arith)
      | inr (b, f) ↦
          let last : setuid b u ≡ some t = ground arith in
          let (same_gid, same_groups) = setuid-rest b t u last in
          record {
            is_uid = setuid-uid b t u last;
            is_gid = same_gid ∙ setgid-gid a b g f;
            is_groups =
                same_groups
                ∙ (setgid-groups a b g f ∙ initgroups-groups (close_leaked k s) a user g e);
            at_lookup = close_leaked k s;
            grouped = a;
            looked_up = e;
            closed_up = leaked-IsClosedUp s;
          }
    ]
  ]
