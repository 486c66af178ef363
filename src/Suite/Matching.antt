-- ===== src/Suite/Matching.antt =====
-- The tests of `command_matches` in rust-old/src/validate.rs.
use shakti.Prelude.{Bool, ◌≡◌, refl, true, ◌&&◌, not, [], ◌∷◌, any}
use shakti.Text.{codes, text_eq, starts_with, strip_suffix, contains, before, split}
use shakti.FilePath.{components, pieces, piece, components_eq, component_eq, parent, file_name}
use shakti.Validate.{
  command_matches, matches_prefix, matches_binary, matches_dir, matches_basename, binary_path,
  glob_dir,
}
use shakti.Suite.{all_true}

abbrev test_command_matches_exact : Bool
test_command_matches_exact =
    command_matches (codes "/usr/bin/ls") (codes "/usr/bin/ls")
    && not (command_matches (codes "/usr/bin/rm") (codes "/usr/bin/ls"))

abbrev test_command_matches_all : Bool
test_command_matches_all =
    command_matches (codes "/usr/bin/anything") (codes "ALL")
    && command_matches (codes "/usr/bin/anything") (codes "*")

abbrev test_command_matches_glob : Bool
test_command_matches_glob =
    command_matches (codes "/usr/bin/ls") (codes "/usr/bin/*")
    && not (command_matches (codes "/usr/sbin/reboot") (codes "/usr/bin/*"))

abbrev test_command_matches_basename : Bool
test_command_matches_basename =
    command_matches (codes "/usr/bin/systemctl") (codes "systemctl")
    && command_matches (codes "/usr/local/bin/systemctl") (codes "systemctl")
    && not (command_matches (codes "/usr/bin/systemd") (codes "systemctl"))

abbrev test_command_matches_no_match : Bool
test_command_matches_no_match = not (command_matches (codes "/usr/bin/rm") (codes "/usr/bin/ls"))

abbrev test_command_matches_arg_wildcard : Bool
test_command_matches_arg_wildcard =
    command_matches (codes "/usr/bin/systemctl restart nginx")
      (codes "/usr/bin/systemctl restart *")

abbrev test_command_matches_arg_wildcard_different_args : Bool
test_command_matches_arg_wildcard_different_args =
    command_matches (codes "/usr/bin/systemctl restart sshd") (codes "/usr/bin/systemctl restart *")

abbrev test_command_matches_arg_wildcard_no_args : Bool
test_command_matches_arg_wildcard_no_args =
    not (command_matches (codes "/usr/bin/systemctl") (codes "/usr/bin/systemctl restart *"))

abbrev test_command_matches_arg_wildcard_wrong_subcommand : Bool
test_command_matches_arg_wildcard_wrong_subcommand =
    not (
      command_matches (codes "/usr/bin/systemctl stop nginx")
        (codes "/usr/bin/systemctl restart *"))

abbrev test_command_matches_arg_wildcard_exact_prefix : Bool
test_command_matches_arg_wildcard_exact_prefix =
    command_matches (codes "/usr/bin/systemctl restart") (codes "/usr/bin/systemctl restart *")

abbrev test_command_matches_exact_with_args : Bool
test_command_matches_exact_with_args =
    command_matches (codes "/usr/bin/systemctl stop firewall")
      (codes "/usr/bin/systemctl stop firewall")

abbrev test_command_matches_exact_with_args_no_match : Bool
test_command_matches_exact_with_args_no_match = not (
    command_matches (codes "/usr/bin/systemctl stop nginx")
      (codes "/usr/bin/systemctl stop firewall"))

abbrev test_command_matches_glob_with_args : Bool
test_command_matches_glob_with_args = command_matches (codes "/usr/bin/ls -la") (codes "/usr/bin/*")

abbrev test_command_matches_basename_with_args : Bool
test_command_matches_basename_with_args =
    command_matches (codes "/usr/bin/systemctl restart nginx") (codes "systemctl")

abbrev test_command_matches_empty_command_against_all : Bool
test_command_matches_empty_command_against_all =
    command_matches [] (codes "ALL") && command_matches [] (codes "*")

abbrev test_command_matches_empty_pattern : Bool
test_command_matches_empty_pattern = not (command_matches (codes "/usr/bin/ls") [])

abbrev test_command_matches_root_glob : Bool
test_command_matches_root_glob = command_matches (codes "/ls") (codes "/*")

abbrev test_command_matches_basename_no_parent : Bool
test_command_matches_basename_no_parent = not (command_matches (codes "ls") (codes "/bin/*"))

matching_tests_hold :
    all_true (
      test_command_matches_exact ∷ test_command_matches_all ∷ test_command_matches_glob
      ∷ test_command_matches_basename ∷ test_command_matches_no_match
      ∷ test_command_matches_arg_wildcard ∷ test_command_matches_arg_wildcard_different_args
      ∷ test_command_matches_arg_wildcard_no_args
      ∷ test_command_matches_arg_wildcard_wrong_subcommand
      ∷ test_command_matches_arg_wildcard_exact_prefix ∷ test_command_matches_exact_with_args
      ∷ test_command_matches_exact_with_args_no_match ∷ test_command_matches_glob_with_args
      ∷ test_command_matches_basename_with_args ∷ test_command_matches_empty_command_against_all
      ∷ test_command_matches_empty_pattern ∷ test_command_matches_root_glob
      ∷ test_command_matches_basename_no_parent ∷ [])
    ≡ true
unfolding command_matches matches_prefix matches_binary matches_dir matches_basename binary_path
    glob_dir any text_eq starts_with strip_suffix contains before split components pieces piece
    components_eq component_eq parent file_name
matching_tests_hold = refl
