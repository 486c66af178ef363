-- ===== src/Suite/Caching.antt =====
-- The tests of rust-old/src/timestamp.rs and rust-old/src/audit.rs, on an empty disk.
use shakti.Prelude.{Bool, true, false, ◌≡◌, refl, ◌&&◌, not, Option, none, some, [], ◌∷◌, any}
use shakti.Text.{Text, codes, text_eq, starts_with, contains, split, replace, trim_start_matches}
use shakti.FilePath.{join_path, file_name, components, pieces, piece}
use shakti.Validate.{validate_username}
use shakti.Timestamp.{
  default_timestamp_dir, tty_session_id, timestamp_name, timestamp_path, is_fresh, check_timestamp,
  update_timestamp, invalidate_timestamp, from_secs,
}
use shakti.Timestamp.Memory.{Disk, memory}
use shakti.Audit.{command, auth_failure, timestamp_invalidated, as_str}
use shakti.Suite.{all_true, is_err}

abbrev blank : Disk
blank = record { time = 0; node = λ p. none }

abbrev tty : Option Text
tty = some (codes "/dev/pts/1")

abbrev named : Option Text → Text → Bool
named none t = false
named (some s) t = starts_with s t

abbrev test_timestamp_path_includes_user : Bool
test_timestamp_path_includes_user =
    named (file_name (components (timestamp_path (codes "alice") tty))) (codes "alice")

abbrev test_check_timestamp_nonexistent : Bool
test_check_timestamp_nonexistent =
    not (check_timestamp memory tty blank (codes "test_nonexistent_user_xyz") (from_secs 300))

abbrev test_default_timestamp_dir : Bool
test_default_timestamp_dir = text_eq default_timestamp_dir (codes "/var/run/agnos/sudo")

abbrev test_tty_session_id_is_safe : Bool
test_tty_session_id_is_safe =
    not (contains (tty_session_id tty) b'/') && not (contains (tty_session_id tty) 0)

abbrev test_check_timestamp_zero_ttl : Bool
test_check_timestamp_zero_ttl =
    not (check_timestamp memory tty blank (codes "test_zero_ttl_user") 0)

abbrev update_fails : Text → Bool
update_fails user = is_err (update_timestamp memory tty blank user).0

abbrev test_update_timestamp_rejects_path_traversal : Bool
test_update_timestamp_rejects_path_traversal =
    update_fails (codes "../evil")
    && update_fails (codes "..")
    && update_fails (codes ".")
    && update_fails (codes "user/name")

abbrev test_invalidate_timestamp_rejects_path_traversal : Bool
test_invalidate_timestamp_rejects_path_traversal =
    is_err (invalidate_timestamp memory tty blank (codes "../evil")).0
    && is_err (invalidate_timestamp memory tty blank []).0

abbrev test_audit_action_as_str : Bool
test_audit_action_as_str =
    text_eq (as_str command) (codes "COMMAND")
    && text_eq (as_str auth_failure) (codes "AUTH_FAILURE")
    && text_eq (as_str timestamp_invalidated) (codes "TIMESTAMP_INVALIDATED")

caching_tests_hold :
    all_true (
      test_timestamp_path_includes_user ∷ test_check_timestamp_nonexistent
      ∷ test_default_timestamp_dir ∷ test_tty_session_id_is_safe ∷ test_check_timestamp_zero_ttl
      ∷ test_update_timestamp_rejects_path_traversal
      ∷ test_invalidate_timestamp_rejects_path_traversal ∷ test_audit_action_as_str ∷ [])
    ≡ true
unfolding any text_eq starts_with contains replace trim_start_matches join_path file_name components
    pieces piece split validate_username tty_session_id timestamp_name timestamp_path is_fresh
    check_timestamp update_timestamp invalidate_timestamp as_str
caching_tests_hold = refl
