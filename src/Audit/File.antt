-- ===== src/Audit/File.antt =====
-- rust-old/src/audit.rs: `write_audit_file`. The file system is an interface: opening the log for
-- appending, and writing to it, which may stop in the middle.
pub mod Append
use shakti.Prelude.{
  ℕ, ◌≡◌, Bool, true, false, Option, none, some, List, [], ◌∷◌, ◌++◌, if◌then◌else◌,
}
use shakti.Text.{Text, codes}
use shakti.Audit.{Surroundings, audit_line}

-- What the process can find out: the seconds since the epoch, unless the clock is before it; the
-- variables TTY and SSH_TTY; and the working directory.
pub record Ambient : Type 0 where
  pub seconds : Option ℕ
  pub tty : Option Text
  pub ssh_tty : Option Text
  pub current_dir : Option Text

abbrev unwrap_or : {A : Type 0} → Option A → A → A
unwrap_or none a = a
unwrap_or (some b) a = b

abbrev or_else : {A : Type 0} → Option A → Option A → Option A
or_else none b = b
or_else (some a) b = some a

unfoldable pub surroundings : Ambient → Surroundings
surroundings a = record {
  timestamp = unwrap_or a.seconds 0;
  tty = unwrap_or (or_else a.tty a.ssh_tty) (codes "unknown");
  pwd = unwrap_or a.current_dir (codes "unknown");
}

-- `contents` is what the log holds, nothing where it is not there. `open_append` opens with `create`
-- and `append`; `none` is its error. `write_all` tells whether all was written.
pub record LogFs : Type 1 where
  pub State : Type 0
  pub ambient : State → Ambient
  pub contents : State → Text
  pub open_append : State → Option State
  pub write_all : State → Text → Bool × State
  pub open-contents : (s t : State) → open_append s ≡ some t → contents t ≡ contents s
  pub write_ok-contents :
      (s t : State) (x : Text) → write_all s x ≡ (true, t) → contents t ≡ contents s ++ x
  -- A write that fails may have written a part.
  pub write_err-contents :
      (s t : State) (x : Text)
      → write_all s x ≡ (false, t)
      → (part rest : Text) × (x ≡ part ++ rest) × (contents t ≡ contents s ++ part)

module _ (fs : LogFs) where
  open fs use {State, ambient, open_append, write_all}

  -- Whether the line was written; where it was not, a warning is printed, and the run goes on.
  unfoldable pub write_audit_file : State → Text → Text → Text → Bool × State
  write_audit_file s caller target cmd = elim (open_append s) [
    | none ↦ (false, s)
    | some t ↦ write_all t (audit_line (surroundings (ambient s)) caller target cmd)
  ]
