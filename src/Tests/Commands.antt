-- ===== src/Tests/Commands.antt =====
-- Examples of names, commands and patterns.
use shakti.Prelude.{◌≡◌, refl, ◌↔◌, true, false, none, [], ◌∷◌}
use shakti.Text.{codes, text_eq, starts_with, strip_suffix, contains, before, split}
use shakti.Text.Laws.{strip_suffix_iff}
use shakti.FilePath.{components, pieces, piece, components_eq, component_eq, parent, file_name}
use shakti.Error.{ok}
use shakti.Validate.{
  validate_command, command_matches, matches_prefix, matches_binary, matches_dir, matches_basename,
  glob_dir, binary_path, resolve_command,
}
use shakti.Validate.Match.{Matches, command_matches_iff}
use shakti.Validate.Safe.{IsValid, validate_command_iff}
use shakti.Validate.Resolve.{Resolves, resolve_command_iff}
use shakti.Validate.Alias.{IsExactPath}
use shakti.Tests.Fixtures.{vi, everywhere}

command_matches_iff_example :
    (command_matches vi (codes "/bin/*") ≡ true) ↔ Matches vi (codes "/bin/*")
command_matches_iff_example = command_matches_iff vi (codes "/bin/*")

directory_pattern : command_matches (codes "/bin/vi -R") (codes "/bin/*") ≡ true
unfolding command_matches text_eq strip_suffix matches_binary matches_dir binary_path before
    components pieces piece starts_with split parent components_eq component_eq glob_dir
directory_pattern = refl

wildcard_stays_apart : command_matches (codes "/bin/vixen") (codes "/bin/vi *") ≡ false
unfolding command_matches text_eq strip_suffix matches_prefix starts_with
wildcard_stays_apart = refl

basename_pattern : command_matches (codes "/opt/vi -R") (codes "vi") ≡ true
unfolding command_matches text_eq strip_suffix matches_binary matches_dir matches_basename
    binary_path before components pieces piece starts_with split file_name contains
basename_pattern = refl

validate_command_iff_example :
    (validate_command (vi ∷ codes "-R" ∷ []) 4096 ≡ ok tt) ↔ IsValid (vi ∷ codes "-R" ∷ []) 4096
validate_command_iff_example = validate_command_iff (vi ∷ codes "-R" ∷ []) 4096

resolve_command_iff_example :
    (resolve_command everywhere (codes "vi") ≡ ok (codes "/usr/local/sbin/vi"))
    ↔ Resolves everywhere (codes "vi") (codes "/usr/local/sbin/vi")
resolve_command_iff_example =
    resolve_command_iff everywhere (codes "vi") (codes "/usr/local/sbin/vi")

vi_plain : strip_suffix vi (codes " *") ≡ none
unfolding strip_suffix text_eq
vi_plain = refl

vi_no_glob : strip_suffix vi (codes "/*") ≡ none
unfolding strip_suffix text_eq
vi_no_glob = refl

pub vi-IsExactPath : IsExactPath vi
vi-IsExactPath = record {
  tail = codes "bin/vi";
  absolute = refl;
  plain = λ q e. cc ((strip_suffix_iff vi (codes " *") q).1 e, vi_plain);
  no_glob = λ q e. cc ((strip_suffix_iff vi (codes "/*") q).1 e, vi_no_glob);
}
