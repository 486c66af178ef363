-- ===== src/Cli.antt =====
-- rust-old/src/main.rs: the command line. Its children are the rest of that file: what the program
-- prints about a policy, and what it does with a command.
pub mod RoundTrip
pub mod Report
pub mod Lines
pub mod Listing
pub mod Summary
pub mod Run
pub mod Obeyed
pub mod Request
pub mod Guard
pub mod Live
pub mod Reached
pub mod Agreement
pub mod Logged
pub mod Prompt
pub mod Effect
pub mod Chronicle
pub mod Backed
pub mod Proved
pub mod Again
pub mod Trace
use shakti.Prelude.{Bool, true, false, ◌||◌, Option, none, some, List, [], ◌∷◌, ◌++◌, if◌then◌else◌}
use shakti.Text.{Text, codes, text_eq, starts_with}
use shakti.Error.{Error, missing_username, missing_policy_path, unknown_option}

pub record CliArgs : Type 0 where
  pub target_user : Text
  pub policy_path : Text
  pub invalidate : Bool
  pub list : Bool
  pub check : Bool
  pub command : List Text

-- How parsing ends: with the arguments, with an error, or by leaving the process with status 0.
pub data Parsed : Type 0 where
  arguments : CliArgs → Parsed
  failed : Error → Parsed
  help : Parsed
  version : Parsed

-- The arms of the match on one word.
pub data Word : Type 0 where
  user_flag policy_flag invalidate_flag list_flag check_flag : Word
  help_flag version_flag separator : Word
  unknown : Word
  plain : Word

abbrev is_either : Text → Text → Text → Bool
is_either w short long = text_eq w short || text_eq w long

unfoldable pub word_of : Text → Word
word_of w =
    if is_either w (codes "-u") (codes "--user")
    then user_flag
    else if is_either w (codes "-p") (codes "--policy")
    then policy_flag
    else if is_either w (codes "-k") (codes "--invalidate")
    then invalidate_flag
    else if is_either w (codes "-l") (codes "--list")
    then list_flag
    else if is_either w (codes "-c") (codes "--check")
    then check_flag
    else if is_either w (codes "-h") (codes "--help")
    then help_flag
    else if is_either w (codes "-V") (codes "--version")
    then version_flag
    else if text_eq w (codes "--")
    then separator
    else if starts_with w (codes "-")
    then unknown
    else plain

-- Which option the next word is the value of: the `i += 1` of the arms for -u and -p.
pub data Awaiting : Type 0 where
  nothing : Awaiting
  a_user : Awaiting
  a_policy : Awaiting

unfoldable pub parse_words : Awaiting → CliArgs → List Text → Parsed
parse_words nothing c [] = arguments c
parse_words a_user c [] = failed missing_username
parse_words a_policy c [] = failed missing_policy_path
parse_words a_user c (w ∷ ws) = parse_words nothing (record c { target_user = w }) ws
parse_words a_policy c (w ∷ ws) = parse_words nothing (record c { policy_path = w }) ws
parse_words nothing c (w ∷ ws) = elim (word_of w) [
  | user_flag ↦ parse_words a_user c ws
  | policy_flag ↦ parse_words a_policy c ws
  | invalidate_flag ↦ parse_words nothing (record c { invalidate = true }) ws
  | list_flag ↦ parse_words nothing (record c { list = true }) ws
  | check_flag ↦ parse_words nothing (record c { check = true }) ws
  | help_flag ↦ help
  | version_flag ↦ version
  | separator ↦ arguments (record c { command = c.command ++ ws })
  | unknown ↦ failed (unknown_option w)
  | plain ↦ arguments (record c { command = c.command ++ (w ∷ ws) })
]

unfoldable pub initial_args : CliArgs
initial_args = record {
  target_user = codes "root";
  policy_path = codes "/etc/agnos/sudoers.toml";
  invalidate = false;
  list = false;
  check = false;
  command = [];
}

unfoldable pub parse_args : List Text → Parsed
parse_args words = parse_words nothing initial_args words
