-- ===== src/Lib.antt =====
-- shakti runs a command as another user, as sudo does. This library models its Rust implementation
-- under rust-old/src.
--
-- The parts and how they interact. `run` (rust-old/src/main.rs) reads the command line, finds the
-- caller, loads the policy, validates and resolves the command, asks the policy, authenticates the
-- caller where the policy wants it and the credential cache does not spare it, logs, and replaces
-- itself by the command with the target's ids and a sanitized environment. `evaluate`
-- (rust-old/src/api.rs) makes the same decision for another program, without authenticating or
-- executing.
--
-- Which file models what:
--   Prelude, Text, FilePath, Os, Error: numbers, lists, strings, paths, the file system's answers,
--     and `anyhow::Result`, as far as the program uses them. A string is the list of its bytes.
--   Validate: rust-old/src/validate.rs, all functions under their names; `command_matches` is cut
--     into one helper for each of its tests.
--   Policy, Load, Lint: rust-old/src/policy.rs. Policy has the types and `check_authorization`, whose
--     loop is `check_rules` and whose body is `round`; Load has `load_policy`, `load_fragments` and
--     `parse_policy`; Lint has `lint_policy`, a function for each of its groups of tests.
--   Env: rust-old/src/env.rs.
--   Timestamp: rust-old/src/timestamp.rs. Timestamp/Ledger says what the cache is for, and
--     Timestamp/Lifetime compares any sequence of operations with it.
--   Audit: rust-old/src/audit.rs, the writing of the log in Audit/File.
--   Auth: rust-old/src/auth.rs, and `authenticate_user` of rust-old/src/main.rs: over the lines that
--     are read, and in Auth/Console on the terminal itself.
--   Invocation: the joined command string of rust-old/src/api.rs and rust-old/src/main.rs.
--   Api: rust-old/src/api.rs.
--   Account, Privilege, Terminal, Cli: rust-old/src/main.rs: the caller's and the target's accounts;
--     the closure given to `pre_exec`; `read_password`; the command line, the two reports, and `run`
--     itself in Cli/Run. Cli/Guard and Cli/Obeyed are about the run that becomes a program, Cli/Live and
--     Cli/Reached about the request that does, Cli/Agreement about a run beside `evaluate`, Cli/Again about two
--     runs on one cache, Cli/Chronicle and Cli/Proved about any sequence of runs and pauses on one,
--     Cli/Logged about the log.
--   Suite: the unit tests of rust-old/src, run on the definitions.
--   Tests: the theorems at concrete inputs.
--
-- State is passed explicitly. The file system that the credential cache changes, the kernel that
-- changes a process, the terminal and the audit log are interfaces: records of calls with the laws
-- that are documented of them. In a run the prompts of `authenticate_user` take the lines read as an
-- argument; what PAM, `su`, the databases of users and groups and the TOML reader answer is an
-- argument too. What a run does is a list of events; its calls of `audit_log` are the events that
-- the log takes in.
--
-- Bounds. The loops over lists are structural. The loop of password prompts counts down from the
-- source's three attempts. `decimal`, `trim_start_matches` and `trim_end_matches` run on fuel, which
-- is more than the number of digits and the length of the text; each round divides the number by ten
-- or shortens the text; Text/Fuel and Lint/Trim are about that. The counters of the policy check are
-- `u32` and wrap around, as in a release build. Lengths, times
-- and ids are numbers without a bound: `u64` seconds are far from theirs, and the sum of the
-- arguments' lengths is that of texts in memory.
--
-- Not modelled: the writing of messages on the error stream, the set-up of tracing, the text of the
-- usage message, the benchmarks and fuzz targets, and the implementation in Cyrius.
pub mod Prelude
pub mod Text
pub mod FilePath
pub mod Error
pub mod Os
pub mod Validate
pub mod Policy
pub mod Lint
pub mod Load
pub mod Env
pub mod Timestamp
pub mod Auth
pub mod Terminal
pub mod Audit
pub mod Invocation
pub mod Api
pub mod Account
pub mod Privilege
pub mod Cli
pub mod Suite
pub mod Tests
