-- ===== src/Audit.antt =====
-- rust-old/src/audit.rs: the record of an action, and the line of the file. The clock, the terminal and
-- the directory, which the line shows, are arguments; the writing is in Audit/File.
pub mod Line
pub mod File
use shakti.Prelude.{ℕ, Bool, true, false, List, [], ◌∷◌, ◌++◌, if◌then◌else◌}
use shakti.Text.{Text, codes, decimal}

pub data AuditAction : Type 0 where
  command auth_failure timestamp_invalidated : AuditAction

unfoldable pub as_str : AuditAction → Text
as_str command = codes "COMMAND"
as_str auth_failure = codes "AUTH_FAILURE"
as_str timestamp_invalidated = codes "TIMESTAMP_INVALIDATED"

pub data Level : Type 0 where
  info warn : Level

-- The structured event for the journal.
pub record AuditEvent : Type 0 where
  pub level : Level
  pub action : Text
  pub caller : Text
  pub target_user : Text
  pub command : Text
  pub status : Text
  pub reason : Text
  pub message : Text

-- What the process knows of its surroundings.
pub record Surroundings : Type 0 where
  pub timestamp : ℕ
  pub tty : Text
  pub pwd : Text

unfoldable pub event_message : Text → Text → Text → Text → Text → Text → Text
event_message action caller target cmd status reason =
    codes "shakti: "
    ++ (action
        ++ (codes " : "
            ++ (caller
                ++ (codes " ; USER="
                    ++ (target
                        ++ (codes " ; COMMAND="
                            ++ (cmd
                                ++ (codes " ; STATUS="
                                    ++ (status ++ (codes " ; REASON=" ++ reason))))))))))

-- The line that `write_audit_file` appends.
unfoldable pub audit_line : Surroundings → Text → Text → Text → Text
audit_line s caller target cmd =
    decimal s.timestamp
    ++ (codes " "
        ++ (caller
            ++ (codes " : TTY="
                ++ (s.tty
                    ++ (codes " ; PWD="
                        ++ (s.pwd
                            ++ (codes " ; USER="
                                ++ (target ++ (codes " ; COMMAND=" ++ (cmd ++ codes "\n"))))))))))

pub record AuditRecord : Type 0 where
  pub event : AuditEvent
  pub file_line : Text

unfoldable pub audit_log :
    Surroundings → AuditAction → Text → Text → Text → Bool → Text → AuditRecord
audit_log s action caller target cmd success reason =
    let status = if success then codes "ALLOWED" else codes "DENIED" in
    record {
      event = record {
        level = if success then info else warn;
        action = as_str action;
        caller = caller;
        target_user = target;
        command = cmd;
        status = status;
        reason = reason;
        message = event_message (as_str action) caller target cmd status reason;
      };
      file_line = audit_line s caller target cmd;
    }
