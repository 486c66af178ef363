-- ===== src/Tests/Sessions.antt =====
-- Examples of timestamps, password attempts and audit lines.
use shakti.Prelude.{
  ℕ, Bool, ◌≡◌, ◌≢◌, ◌≤◌, refl, ◌↔◌, true, false, Option, none, some, [], ◌∷◌, ◌++◌,
}
use shakti.Text.{Text, codes, contains, text_eq, starts_with, replace, trim_start_matches}
use shakti.FilePath.{normal, components, join_path}
use shakti.Error.{ok}
use shakti.Os.{Metadata}
use shakti.Validate.{validate_username}
use shakti.Timestamp.{
  default_timestamp_dir, tty_session_id, timestamp_name, timestamp_path, check_timestamp, restrict,
  touch, ensure_timestamp_dir, update_timestamp, invalidate_timestamp, remove_timestamp,
}
use shakti.Timestamp.Location.{timestamp_path-inside, timestamp_path-injective}
use shakti.Timestamp.Session.{IsFresh, check_timestamp_iff}
use shakti.Timestamp.Ledger.{
  Ledger, enter, is_current, IsUser, History, here, next, authenticated, waited,
}
use shakti.Timestamp.Lifetime.{History-check}
use shakti.Auth.Console.{Surround, authenticate_on, meetings_on, authenticate_on-refines}
use shakti.Timestamp.Memory.{Disk, memory, directory, regular, set_node}
use shakti.Auth.{authenticate_user, max_auth_attempts}
use shakti.Auth.Attempts.{IsAuthenticated, authenticate_user_iff}
use shakti.Auth.Trace.{times_asked, still_held, authenticate_user_trace}
use shakti.Terminal.{Terminal, line, read_password}
use shakti.Terminal.Restored.{ReadQuietly, watched, unwatched, read_password-restores}
use shakti.Audit.{Surroundings, audit_line}
use shakti.Audit.Line.{audit_line-forged}
use shakti.Invocation.{full_command}
use shakti.Invocation.Words.{full_command-merged}
use shakti.Tests.Fixtures.{alice, vi, root, meeting}

al_accepted : validate_username alice ≡ ok tt
unfolding validate_username contains text_eq
al_accepted = refl

al_colonless : contains alice b':' ≡ false
unfolding contains
al_colonless = refl

abbrev tty : Option Text
tty = some (codes "/dev/pts/1")

timestamp_path-inside_example :
    components (timestamp_path alice tty)
    ≡ components default_timestamp_dir ++ normal (timestamp_name alice tty) ∷ []
timestamp_path-inside_example = timestamp_path-inside alice tty al_accepted

timestamp_path-injective_example : (alice ≡ alice) × (tty_session_id tty ≡ tty_session_id tty)
timestamp_path-injective_example =
    timestamp_path-injective alice alice tty tty al_accepted al_accepted al_colonless al_colonless
      refl

-- An empty disk, and one that holds the directory.
abbrev blank : Disk
blank = record { time = 0; node = λ p. none }

abbrev ready : Disk
ready = set_node blank default_timestamp_dir (some (directory 0))

abbrev written : Disk
written = set_node ready (timestamp_path alice tty) (some (regular 0 0o600 0))

check_timestamp_iff_example :
    (check_timestamp memory tty written alice 300 ≡ true) ↔ IsFresh memory tty written alice 300
check_timestamp_iff_example = check_timestamp_iff memory tty written alice 300

made : ensure_timestamp_dir memory tty blank default_timestamp_dir ≡ (ok tt, ready)
unfolding ensure_timestamp_dir restrict
made = refl

updated : update_timestamp memory tty blank alice ≡ (ok tt, written)
unfolding update_timestamp ensure_timestamp_dir restrict touch validate_username contains text_eq
    timestamp_path timestamp_name tty_session_id replace trim_start_matches join_path starts_with
updated = refl

nothing_before : memory.symlink_metadata ready (timestamp_path alice tty) ≡ none
unfolding text_eq timestamp_path timestamp_name tty_session_id replace trim_start_matches join_path
    starts_with
nothing_before = refl

abbrev cleared : Disk
cleared = set_node written (timestamp_path alice tty) none

invalidated : invalidate_timestamp memory tty written alice ≡ (ok tt, cleared)
unfolding invalidate_timestamp remove_timestamp validate_username contains text_eq timestamp_path
    timestamp_name tty_session_id replace trim_start_matches join_path starts_with
invalidated = refl

abbrev link : Metadata
link = record (regular 0 0o777 0) { is_symlink = true }

abbrev trapped : Disk
trapped = record { time = 0; node = λ p. some link }

-- A directory of another user's.
abbrev foreign : Disk
foreign = record { time = 0; node = λ p. some (record (directory 0) { uid = 1000 }) }

authenticate_user_iff_example :
    ((authenticate_user alice (λ i. meeting)).0 ≡ ok true) ↔ IsAuthenticated alice (λ i. meeting)
authenticate_user_iff_example = authenticate_user_iff alice (λ i. meeting)

authenticate_user_trace_example :
    (times_asked (authenticate_user alice (λ i. meeting)).1 ≤ max_auth_attempts)
    × (still_held false (authenticate_user alice (λ i. meeting)).1 ≡ false)
authenticate_user_trace_example = authenticate_user_trace alice (λ i. meeting)

abbrev there : Surroundings
there = record { timestamp = 1; tty = codes "pts"; pwd = codes "/" }

audit_line-forged_example :
    audit_line there alice root (vi ++ (codes "\n" ++ codes "0 root"))
    ≡ audit_line there alice root vi ++ (codes "0 root" ++ codes "\n")
audit_line-forged_example = audit_line-forged there alice root vi (codes "0 root")

full_command-merged_example :
    (full_command vi ((codes "a" ++ (codes " " ++ codes "b")) ∷ [])
      ≡ full_command vi (codes "a" ∷ codes "b" ∷ []))
    × ((codes "a" ++ (codes " " ++ codes "b")) ∷ [] ≢ codes "a" ∷ codes "b" ∷ [])
full_command-merged_example = full_command-merged vi (codes "a") (codes "b") []

-- A terminal whose only setting is its echo.
abbrev console : Terminal
console = record {
  State = Bool;
  Termios = Bool;
  remove_echo = λ a. false;
  tcgetattr = λ s. some s;
  tcsetattr = λ s a. some a;
  next_line = λ s. (line (codes "pw"), s);
  set-get = λ s t a e. cc;
  next_line-get = λ s. refl;
}

read_password-restores_example :
    (console.tcgetattr (read_password console true).1 ≡ some true)
    × ReadQuietly console true true (read_password (watched console) (true, [])).1.1
    × (unwatched console (read_password (watched console) (true, [])) ≡ read_password console true)
read_password-restores_example = read_password-restores console true true refl (λ t. (true, refl))

abbrev start : Ledger
start = λ user session. none

abbrev al_there : Ledger
al_there = enter start alice (tty_session_id tty) (some 0)

al-IsUser : IsUser alice
al-IsUser = record { accepted = al_accepted; colonless = al_colonless }

-- One authentication, and then a while.
a_while : History memory blank start (memory.wait written 299) al_there
a_while = next (next here (authenticated alice tty al-IsUser updated refl)) (waited 299 refl refl)

History-check_example :
    check_timestamp memory tty (memory.wait written 299) alice 300
    ≡ is_current (memory.now (memory.wait written 299)) (al_there alice (tty_session_id tty)) 300
History-check_example = History-check memory alice tty 300 (λ user w v. refl) a_while al-IsUser

abbrev around : ℕ → Surround
around i = record { flushed = true; backend = meeting.backend }

authenticate_on-refines_example :
    ((authenticate_on console around alice true).0
      ≡ authenticate_user alice (meetings_on console around alice true))
    × (console.tcgetattr (authenticate_on console around alice true).1 ≡ some true)
authenticate_on-refines_example =
    authenticate_on-refines console around alice true true refl (λ t. (true, refl))
