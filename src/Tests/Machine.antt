-- ===== src/Tests/Machine.antt =====
-- A process that gives up its privileges, and a machine on which one user may run one command.
use shakti.Prelude.{
  ℕ, zero, suc, ◌+◌, ◌<◌, subst, ◌≢◌, ◌≡◌, refl, inl, inr, Bool, true, false, Option, none, some,
  List, [], ◌∷◌, arith, any, Bool-cases, ◌==◌, ==_iff, if◌then◌else◌,
}
use shakti.Text.{Text, codes}
use shakti.Timestamp.Memory.{memory}
use shakti.Api.{UserEntry}
use shakti.Account.{found}
use shakti.Privilege.{Kernel}
use shakti.Cli.Run.{Launch, Machine, launch_of}
use shakti.Tests.Fixtures.{alice, vi, root, one_command, policy_of, everywhere, reader, meeting}

abbrev pub name_of : ℕ → Option Text
name_of zero = some root
name_of (suc n) = some (codes "staff")

-- A process, as far as the closure changes it.
pub record Process : Type 0 where
  pub uid : ℕ
  pub gid : ℕ
  pub groups : List ℕ
  pub fds : List ℕ

abbrev pub opened : Process → ℕ → Bool
opened p n = any (λ m. m == n) p.fds

unfoldable pub remove : ℕ → List ℕ → List ℕ
remove n [] = []
remove n (m ∷ ms) = let rest = remove n ms in if m == n then rest else m ∷ rest

pub removed : (n : ℕ) (ms : List ℕ) → any (λ m. m == n) (remove n ms) ≡ false
unfolding remove any
removed n [] = refl
removed n (m ∷ ms) = elim (Bool-cases (m == n)) [
  | inl e ↦ rw (e, remove) (removed n ms)
  | inr e ↦ rw (e, remove) (rw e (removed n ms))
]

pub kept : (n k : ℕ) (ms : List ℕ) → k ≢ n → any (λ m. m == k) (remove n ms) ≡ any (λ m. m == k) ms
unfolding remove any
kept n k [] d = refl
kept n k (m ∷ ms) d = elim (Bool-cases (m == n)) [
  | inl e ↦ rw (e, remove) (ground (arith, kept n k ms d, e, d, ==_iff m n, ==_iff m k))
  | inr e ↦ rw (e, remove) (ground (arith, kept n k ms d))
]

-- More than any of the numbers.
abbrev pub total : List ℕ → ℕ
total [] = 0
total (m ∷ ms) = m + total ms

pub total_fresh : (n : ℕ) (ms : List ℕ) → total ms < n → any (λ m. m == n) ms ≡ false
unfolding any
total_fresh n [] h = refl
total_fresh n (m ∷ ms) h = ground (arith, total_fresh n ms, h)

abbrev pub listing : List ℕ → List (Option ℕ)
listing [] = []
listing (m ∷ ms) = some m ∷ listing ms

abbrev pub dir_of : Process → ℕ
dir_of p = suc (total p.fds)

abbrev pub open_dir : Process → Option (Process × ℕ × List (Option ℕ))
open_dir p = some (record p { fds = dir_of p ∷ p.fds }, dir_of p, listing (dir_of p ∷ p.fds))

pub opened_dir :
    (p q : Process) (dir : ℕ) (entries : List (Option ℕ))
    → open_dir p ≡ some (q, dir, entries)
    → (opened p dir ≡ false) × ((n : ℕ) → opened p n ≡ true → opened q n ≡ true)
unfolding any
opened_dir p q dir entries e =
    let d : dir_of p ≡ dir = cc e in
    let fds : dir_of p ∷ p.fds ≡ q.fds = cc e in
    (
      total_fresh dir p.fds (omega (arith, d)),
      λ n h. subst (λ l. any (λ m. m == n) l ≡ true) fds (ground (arith, h)),
    )

-- The closure may do all that it does.
abbrev pub kernel : Kernel
kernel = record {
  State = Process;
  uid = λ p. p.uid;
  gid = λ p. p.gid;
  groups = λ p. p.groups;
  is_open = opened;
  groups_in_database = λ user g. g ∷ [];
  read_dir = open_dir;
  close = λ p n. record p { fds = remove n p.fds };
  initgroups = λ p user g. some (record p { groups = g ∷ [] });
  setgid = λ p g. some (record p { gid = g });
  setuid = λ p u. some (record p { uid = u });
  read_dir-open = λ p q dir entries e. opened_dir p q dir entries e;
  close-closed = λ p n. removed n p.fds;
  close-rest = λ p n m d. kept n m p.fds d;
  initgroups-groups = λ p q user g e. cc;
  setgid-gid = λ p q g e. cc;
  setgid-groups = λ p q g e. cc;
  setuid-uid = λ p q u e. cc;
  setuid-rest = λ p q u e. (cc, cc);
}

abbrev pub privileged : Process
privileged = record { uid = 0; gid = 0; groups = 0 ∷ []; fds = 0 ∷ 1 ∷ 2 ∷ 3 ∷ [] }

abbrev pub given_up : Process
given_up = record { uid = 7; gid = 8; groups = 8 ∷ []; fds = 0 ∷ 1 ∷ 2 ∷ [] }

abbrev pub entry_of : Text → UserEntry
entry_of name = record {
  name = name;
  uid = 0;
  gid = 0;
  dir = codes "/root";
  shell = codes "/bin/sh";
}

abbrev pub machine : Machine
machine = record {
  host = record {
    files = everywhere;
    toml = reader;
    cache = memory;
    cache_state = record { time = 0; node = λ p. none };
    tty = none;
    user_from_name = λ name. none;
    uid = 1000;
    gid = 1000;
    vars = [];
  };
  accounts = record {
    real_uid = 1000;
    from_uid = λ n. found (entry_of alice);
    from_name = λ name. found (entry_of name);
    getgrouplist = λ name g. none;
    group_name = name_of;
  };
  kernel = kernel;
  kernel_state = privileged;
  mask_ok = true;
  meetings = λ i. meeting;
  starts = λ p. true;
}

abbrev pub started : Launch
started = launch_of machine (policy_of (one_command ∷ [])) alice root vi [] (entry_of root)
