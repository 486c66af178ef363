-- ===== src/Suite/Validating.antt =====
-- The tests of `validate_username`, `validate_command` and `resolve_command` in
-- rust-old/src/validate.rs.
use shakti.Prelude.{ℕ, zero, suc, Bool, true, false, ◌≡◌, refl, ◌&&◌, [], ◌∷◌, ◌++◌, any}
use shakti.Text.{Text, codes, text_eq, starts_with, contains}
use shakti.FilePath.{join_path}
use shakti.Error.{Result, ok, err, relative_path}
use shakti.Validate.{
  validate_username, validate_command, sum_len, is_meta, is_executable, resolve_command, search_in,
  search_dirs,
}
use shakti.Suite.{all_true, is_ok, is_err, files}

-- `"a".repeat(n)`
unfoldable repeat_a : ℕ → Text
repeat_a zero = []
repeat_a (suc n) = b'a' ∷ repeat_a n

abbrev test_validate_username_ok : Bool
test_validate_username_ok =
    is_ok (validate_username (codes "alice")) && is_ok (validate_username (codes "bob_123"))

abbrev test_validate_username_empty : Bool
test_validate_username_empty = is_err (validate_username [])

abbrev test_validate_username_path_traversal : Bool
test_validate_username_path_traversal =
    is_err (validate_username (codes "../etc/passwd"))
    && is_err (validate_username (codes ".."))
    && is_err (validate_username (codes "."))
    && is_err (validate_username (codes "user/name"))

abbrev test_validate_username_null_byte : Bool
test_validate_username_null_byte = is_err (validate_username (codes "alice" ++ 0 ∷ codes "bob"))

abbrev test_validate_command_ok : Bool
test_validate_command_ok = is_ok (validate_command (codes "ls" ∷ codes "-la" ∷ []) 4096)

abbrev test_validate_command_empty : Bool
test_validate_command_empty = is_err (validate_command [] 4096)

abbrev test_validate_command_too_long : Bool
test_validate_command_too_long = is_err (validate_command (repeat_a 5000 ∷ []) 4096)

abbrev test_validate_command_null_byte : Bool
test_validate_command_null_byte =
    is_err (validate_command ((codes "ls" ++ 0 ∷ codes "-la") ∷ []) 4096)

abbrev test_validate_command_empty_name : Bool
test_validate_command_empty_name = is_err (validate_command ([] ∷ []) 4096)

abbrev test_validate_command_shell_metachar_semicolon : Bool
test_validate_command_shell_metachar_semicolon =
    is_err (validate_command (codes "/usr/bin/ls;rm" ∷ []) 4096)

abbrev test_validate_command_shell_metachar_pipe : Bool
test_validate_command_shell_metachar_pipe =
    is_err (validate_command (codes "/usr/bin/cat|nc" ∷ []) 4096)

abbrev test_validate_command_shell_metachar_backtick : Bool
test_validate_command_shell_metachar_backtick =
    is_err (validate_command (codes "/usr/bin/`whoami`" ∷ []) 4096)

abbrev test_validate_command_shell_metachar_dollar : Bool
test_validate_command_shell_metachar_dollar = is_err (validate_command (codes "$(id)" ∷ []) 4096)

abbrev test_validate_command_args_may_contain_metachar : Bool
test_validate_command_args_may_contain_metachar =
    is_ok (validate_command (codes "grep" ∷ codes "foo|bar" ∷ []) 4096)

abbrev test_validate_command_exact_boundary_len : Bool
test_validate_command_exact_boundary_len =
    is_ok (validate_command (repeat_a 10 ∷ []) 11)
    && is_err (validate_command (repeat_a 10 ∷ []) 10)

abbrev test_validate_command_pure_metachar : Bool
test_validate_command_pure_metachar =
    is_err (validate_command (codes "|" ∷ []) 4096)
    && is_err (validate_command (codes "$" ∷ []) 4096)
    && is_err (validate_command (codes ";" ∷ []) 4096)

abbrev test_validate_command_unicode_accepted : Bool
test_validate_command_unicode_accepted =
    is_ok (validate_command ((codes "/usr/bin/t" ++ 0xC3 ∷ 0xAB ∷ codes "st") ∷ []) 4096)

abbrev test_validate_command_unicode_with_metachar : Bool
test_validate_command_unicode_with_metachar =
    is_err (validate_command ((codes "/usr/bin/t" ++ 0xC3 ∷ 0xAB ∷ codes "st;evil") ∷ []) 4096)

abbrev test_validate_username_very_long : Bool
test_validate_username_very_long = is_ok (validate_username (repeat_a 10000))

abbrev test_validate_username_unicode : Bool
test_validate_username_unicode = is_ok (
    validate_username (
      0xC3 ∷ 0xBC ∷ codes "n"
      ++ (0xC3 ∷ 0xAF ∷ codes "c" ++ (0xC3 ∷ 0xB6 ∷ codes "d" ++ (0xC3 ∷ 0xAB ∷ [])))))

abbrev test_validate_username_null_in_middle : Bool
test_validate_username_null_in_middle = is_err (validate_username (codes "alice" ++ 0 ∷ []))

abbrev resolves_to : Result Text → Text → Bool
resolves_to (ok p) q = text_eq p q
resolves_to (err e) q = false

abbrev test_resolve_command_absolute : Bool
test_resolve_command_absolute =
    resolves_to (resolve_command files (codes "/usr/bin/env")) (codes "/usr/bin/env")

abbrev test_resolve_command_basename : Bool
test_resolve_command_basename = is_ok (resolve_command files (codes "env"))

abbrev test_resolve_command_not_found : Bool
test_resolve_command_not_found =
    is_err (resolve_command files (codes "/nonexistent/path/to/binary"))

abbrev is_relative : Result Text → Bool
is_relative (err (relative_path p)) = true
is_relative _ = false

abbrev test_resolve_command_relative_rejected : Bool
test_resolve_command_relative_rejected = is_relative (resolve_command files (codes "../bin/bash"))

abbrev test_resolve_command_directory_rejected : Bool
test_resolve_command_directory_rejected = is_err (resolve_command files (codes "/usr/bin"))

validating_tests_hold :
    all_true (
      test_validate_username_ok ∷ test_validate_username_empty
      ∷ test_validate_username_path_traversal ∷ test_validate_username_null_byte
      ∷ test_validate_command_ok ∷ test_validate_command_empty ∷ test_validate_command_too_long
      ∷ test_validate_command_null_byte ∷ test_validate_command_empty_name
      ∷ test_validate_command_shell_metachar_semicolon ∷ test_validate_command_shell_metachar_pipe
      ∷ test_validate_command_shell_metachar_backtick ∷ test_validate_command_shell_metachar_dollar
      ∷ test_validate_command_args_may_contain_metachar ∷ test_validate_command_exact_boundary_len
      ∷ test_validate_command_pure_metachar ∷ test_validate_command_unicode_accepted
      ∷ test_validate_command_unicode_with_metachar ∷ test_validate_username_very_long
      ∷ test_validate_username_unicode ∷ test_validate_username_null_in_middle
      ∷ test_resolve_command_absolute ∷ test_resolve_command_basename
      ∷ test_resolve_command_not_found ∷ test_resolve_command_relative_rejected
      ∷ test_resolve_command_directory_rejected ∷ [])
    ≡ true
unfolding validate_username validate_command sum_len is_meta is_executable resolve_command search_in
    search_dirs any text_eq contains starts_with repeat_a join_path
validating_tests_hold = refl
