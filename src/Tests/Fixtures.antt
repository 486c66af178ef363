-- ===== src/Tests/Fixtures.antt =====
-- A policy, a host and the texts that the examples share.
use shakti.Prelude.{true, false, Option, none, some, List, [], ◌∷◌}
use shakti.Text.{Text, codes}
use shakti.Os.{Metadata, Files}
use shakti.Policy.{PolicyRule, SudoPolicy, policy_defaults}
use shakti.Load.{Document, RawRule}
use shakti.Env.{Account}
use shakti.Auth.{Meeting, exited}

abbrev pub alice : Text
alice = codes "al"

abbrev pub vi : Text
vi = codes "/bin/vi"

abbrev pub root : Text
root = codes "root"

-- The user may run one command.
abbrev pub one_command : PolicyRule
one_command = record {
  user = some alice;
  group = none;
  run_as = root;
  commands = vi ∷ [];
  deny_commands = [];
  require_auth = true;
  description = [];
}

-- The user may run every command but one.
abbrev pub all_but_one : PolicyRule
all_but_one = record {
  user = some alice;
  group = none;
  run_as = root;
  commands = [];
  deny_commands = vi ∷ [];
  require_auth = false;
  description = [];
}

-- Nobody is named.
abbrev pub orphan : PolicyRule
orphan = record {
  user = none;
  group = none;
  run_as = root;
  commands = [];
  deny_commands = [];
  require_auth = true;
  description = [];
}

abbrev pub policy_of : List PolicyRule → SudoPolicy
policy_of rules = record { defaults = policy_defaults; rules = rules }

-- Every path is an executable file of root's.
abbrev pub program : Metadata
program = record {
  is_file = true;
  is_dir = false;
  is_symlink = false;
  uid = 0;
  mode = 0o755;
  modified = 0;
}

abbrev pub everywhere : Files
everywhere = record {
  metadata = λ p. some program;
  symlink_metadata = λ p. some program;
  read_to_string = λ p. some [];
  read_dir = λ p. none;
}

abbrev pub account : Account
account = record {
  caller_user = alice;
  uid = 1000;
  gid = 1000;
  target_user = root;
  target_home = codes "/root";
  target_shell = codes "/bin/sh";
}

-- The first password is wrong and the second right.
abbrev pub meeting : Meeting
meeting = record {
  flushed = true;
  line = some (codes "pw");
  backend = record { pam = none; su = λ username password. exited true };
}

-- Every text parses as a policy of the one rule.
abbrev pub reader : Text → Option Document
reader s = some (record { defaults = none; rules = some (raw_rule ∷ []) })
  where
    raw_rule : RawRule
    raw_rule = record {
      user = some alice;
      group = none;
      run_as = none;
      commands = some (vi ∷ []);
      deny_commands = none;
      require_auth = none;
      description = none;
    }
