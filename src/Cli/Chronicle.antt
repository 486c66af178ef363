-- ===== src/Cli/Chronicle.antt =====
-- Any sequence of runs of rust-old/src/main.rs on one credential cache: by any users, at any
-- terminals, on any command lines, with any policies and passwords, and with time between them.
use shakti.Prelude.{ℕ, ◌<◌, ◌-◌, ◌≤◌, ◌≡◌, Bool, true, Option, List}
use shakti.Text.{Text}
use shakti.Error.{ok}
use shakti.Os.{Files}
use shakti.Load.{Document}
use shakti.Env.{Vars}
use shakti.Timestamp.{TimestampFs, tty_session_id}
use shakti.Timestamp.Ledger.{IsUser}
use shakti.Cli.{CliArgs, arguments, parse_args}
use shakti.Auth.{Meeting, authenticate_user}
use shakti.Api.{UserEntry}
use shakti.Account.{Accounts, get_caller_username}
use shakti.Privilege.{Kernel}
use shakti.Cli.Run.{Machine, done, run}

-- All that a run meets but the cache.
pub record Occasion : Type 1 where
  pub files : Files
  pub toml : Text → Option Document
  pub tty : Option Text
  pub user_from_name : Text → Option UserEntry
  pub uid : ℕ
  pub gid : ℕ
  pub vars : Vars
  pub accounts : Accounts
  pub kernel : Kernel
  pub kernel_state : kernel.State
  pub mask_ok : Bool
  pub meetings : ℕ → Meeting
  pub starts : Text → Bool
  pub words : List Text

module _ (fs : TimestampFs) where
  open fs use {State, now, wait, wait-now, symlink_metadata, remove-stat}

  abbrev pub machine_on : Occasion → State → Machine
  machine_on o s = record {
    host = record {
      files = o.files;
      toml = o.toml;
      cache = fs;
      cache_state = s;
      tty = o.tty;
      user_from_name = o.user_from_name;
      uid = o.uid;
      gid = o.gid;
      vars = o.vars;
    };
    accounts = o.accounts;
    kernel = o.kernel;
    kernel_state = o.kernel_state;
    mask_ok = o.mask_ok;
    meetings = o.meetings;
    starts = o.starts;
  }

  -- The cache after a run.
  abbrev pub left_by : Occasion → State → State
  left_by o s = (run (machine_on o s) o.words).cache

  -- A sequence of runs and of pauses.
  pub data Chronicle (s : State) : State → Type 1 where
    start : Chronicle s s
    ran : {t : State} → Chronicle s t → (o : Occasion) → Chronicle s (left_by o t)
    paused : {t : State} → Chronicle s t → (n : ℕ) → Chronicle s (wait t n)

  -- The callers of the runs have names that the cache can tell apart.
  abbrev pub AllUsers : {s t : State} → Chronicle s t → Type 0
  AllUsers start = Unit
  AllUsers (ran past o) =
      ((caller : Text) → get_caller_username o.accounts ≡ ok caller → IsUser caller) × AllUsers past
  AllUsers (paused past n) = AllUsers past

  -- A run with -k by the user in the session that ends well.
  abbrev pub Revokes : Occasion → State → Text → Text → Type 0
  Revokes o t user session =
      (get_caller_username o.accounts ≡ ok user)
      × (tty_session_id o.tty ≡ session)
      × (cli : CliArgs) × (parse_args o.words ≡ arguments cli)
      × (cli.invalidate ≡ true)
      × ((run (machine_on o t) o.words).answer ≡ done)

  -- In one of the runs the user gave the right password in the session, it was then that time, and
  -- no run after it revoked that.
  pub data Proof {s : State} (user session : Text) (time : ℕ)
      : (t : State) → Chronicle s t → Type 1 where
    given :
        {t : State} {past : Chronicle s t} (o : Occasion)
        → get_caller_username o.accounts ≡ ok user
        → tty_session_id o.tty ≡ session
        → (authenticate_user user o.meetings).0 ≡ ok true
        → now (left_by o t) ≡ time
        → Proof user session time (left_by o t) (ran past o)
    before_run :
        {t : State} {past : Chronicle s t} (o : Occasion)
        → Proof user session time t past
        → ¬ Revokes o t user session
        → Proof user session time (left_by o t) (ran past o)
    before_pause :
        {t : State} {past : Chronicle s t} (n : ℕ)
        → Proof user session time t past
        → Proof user session time (wait t n) (paused past n)

  -- A password that is good now: given in one of the runs, in the session, less than the time to live
  -- ago, and not revoked since.
  abbrev pub StillGood : Text → Text → ℕ → {s t : State} → Chronicle s t → Type 1
  StillGood user session ttl {t = t} past =
      (since : ℕ) × (since ≤ now t) × (now t - since < ttl) × Proof user session since t past
