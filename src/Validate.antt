-- ===== src/Validate.antt =====
-- rust-old/src/validate.rs: the checks of names and commands, and the resolution of a command.
pub mod Alias
pub mod Match
pub mod Parts
pub mod Safe
pub mod Resolve
use Prim.Native.Nat.{bit_and}
use shakti.Prelude.{
  ℕ, zero, suc, ◌+◌, Bool, true, false, ◌&&◌, ◌||◌, not, Option, none, some, List, [], ◌∷◌, ◌++◌,
  length, get_or, is_empty, any, ◌==◌, ltb, if◌then◌else◌,
}
use shakti.Text.{Text, codes, text_eq, starts_with, strip_suffix, contains, before, split}
use shakti.FilePath.{Component, components, components_eq, parent, file_name, join_path, slash}
use shakti.Error.{
  Error, Result, ok, err, bail_if, ◌>>=◌, ◌>>◌, empty_username, path_traversal_username,
  no_command_specified, null_byte_argument, empty_command_name, command_too_long,
  shell_metacharacter, not_executable, relative_path, not_in_path,
}
use shakti.Os.{Files, Metadata}

unfoldable pub validate_username : Text → Result (Unit {0})
validate_username user =
    if is_empty user
    then err empty_username
    else if contains user b'/'
        || contains user 0
        || text_eq user (codes ".")
        || text_eq user (codes "..")
    then err path_traversal_username
    else ok tt

-- `args.iter().map(|a| a.len()).sum::<usize>()`
unfoldable pub sum_len : List Text → ℕ
sum_len [] = 0
sum_len (a ∷ args) = length a + sum_len args

abbrev pub total_len : List Text → ℕ
total_len args = sum_len args + length args

abbrev pub shell_meta : Text
shell_meta = codes ";|&`$(){}<>!"

unfoldable pub is_meta : ℕ → Bool
is_meta c = contains shell_meta c

unfoldable pub validate_command : List Text → ℕ → Result (Unit {0})
validate_command [] max_len = err no_command_specified
validate_command (cmd ∷ args) max_len = do
  let total = total_len (cmd ∷ args)
  bail_if (ltb max_len total) (command_too_long total max_len)
  bail_if (any (λ arg. contains arg 0) (cmd ∷ args)) null_byte_argument
  bail_if (is_empty cmd) empty_command_name
  bail_if (any is_meta cmd) (shell_metacharacter cmd)

-- The command is the prefix, or goes on after it with a space. The byte is read behind a test of
-- the length.
unfoldable pub matches_prefix : Text → Text → Bool
matches_prefix command prefix =
    text_eq command prefix
    || ltb (length prefix) (length command)
      && get_or command (length prefix) 0 == b' '
      && starts_with command prefix

-- What a directory pattern stands for: the empty prefix is the root.
unfoldable pub glob_dir : Text → List Component
glob_dir dir_prefix = components (if is_empty dir_prefix then slash else dir_prefix)

-- The directory glob. `none`: its two conditions do not both hold, and the next test is made.
unfoldable pub matches_dir : List Component → Text → Option Bool
unfolding glob_dir
matches_dir cmd_path pattern = elim (strip_suffix pattern (codes "/*")) [
  | none ↦ none
  | some dir_prefix ↦ elim (parent cmd_path) [
    | none ↦ none
    | some p ↦ some (components_eq p (glob_dir dir_prefix))
  ]
]

unfoldable pub matches_basename : List Component → Text → Bool
matches_basename cmd_path pattern =
    if contains pattern b'/'
    then false
    else elim (file_name cmd_path) [ none ↦ false | some basename ↦ text_eq basename pattern ]

unfoldable pub matches_binary : List Component → Text → Bool
matches_binary cmd_path pattern = elim (matches_dir cmd_path pattern) [
  | some b ↦ b
  | none ↦ matches_basename cmd_path pattern
]

-- The components of the part before the first space.
unfoldable pub binary_path : Text → List Component
binary_path command = components (before command b' ')

unfoldable pub command_matches : Text → Text → Bool
command_matches command pattern =
    if text_eq pattern (codes "ALL") || text_eq pattern (codes "*")
    then true
    else if text_eq command pattern
    then true
    else elim (strip_suffix pattern (codes " *")) [
      | some prefix ↦ matches_prefix command prefix
      | none ↦ matches_binary (binary_path command) pattern
    ]

unfoldable pub is_executable : Files → Text → Bool
is_executable fs p = elim (fs.metadata p) [
  | none ↦ false
  | some m ↦ m.is_file && not (bit_and m.mode 0o111 == 0)
]

-- `search_path.split(':')`
unfoldable pub search_dirs : List Text
unfolding split
search_dirs = split (codes "/usr/local/sbin:/usr/local/bin:/usr/sbin:/usr/bin:/sbin:/bin") b':'

unfoldable pub search_in : Files → Text → List Text → Result Text
search_in fs cmd [] = err (not_in_path cmd)
search_in fs cmd (dir ∷ dirs) =
    let candidate = join_path dir cmd in
    let rest = search_in fs cmd dirs in if is_executable fs candidate then ok candidate else rest

unfoldable pub resolve_command : Files → Text → Result Text
resolve_command fs cmd =
    if starts_with cmd slash
    then (if is_executable fs cmd then ok cmd else err (not_executable cmd))
    else if contains cmd b'/'
    then err (relative_path cmd)
    else search_in fs cmd search_dirs
