-- ===== src/Audit/Line.antt =====
-- What the line in the file of rust-old/src/audit.rs can tell.
use shakti.Prelude.{◌≡◌, refl, Bool, ◌++◌, append_assoc}
use shakti.Text.{Text, codes}
use shakti.Audit.{AuditAction, Surroundings, audit_line, audit_log}

-- The file's line is the same for an allowed command, a denied one and a failed authentication: it
-- shows the caller, the target and the command, and no outcome.
pub file_line-same :
    (s : Surroundings) (a b : AuditAction) (caller target cmd : Text) (c d : Bool) (r q : Text)
    → (audit_log s a caller target cmd c r).file_line
      ≡ (audit_log s b caller target cmd d q).file_line
unfolding audit_log
file_line-same s a b caller target cmd c d r q = refl

-- The line of a command that holds a line break and a text of the caller's choice is the line of
-- the command before the break, followed by that text as a line of its own.
pub audit_line-forged :
    (s : Surroundings) (caller target cmd forged : Text)
    → audit_line s caller target (cmd ++ (codes "\n" ++ forged))
      ≡ audit_line s caller target cmd ++ (forged ++ codes "\n")
unfolding audit_line
audit_line-forged s caller target cmd forged = simp append_assoc
