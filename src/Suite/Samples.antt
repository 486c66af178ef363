-- ===== src/Suite/Samples.antt =====
-- The policies that the tests of rust-old/src/policy.rs and rust-old/src/api.rs share, and the host of
-- the latter.
use shakti.Prelude.{true, false, some, [], ◌∷◌, none}
use shakti.Text.{codes}
use shakti.Policy.{SudoPolicy}
use shakti.Load.{Document, fill}
use shakti.Suite.{no_defaults, bare, document_with, files}
use shakti.Timestamp.Memory.{memory}
use shakti.Api.{Host}

abbrev pub sample_policy : Document
sample_policy =
    document_with
      (record no_defaults {
        timestamp_ttl = some 300;
        require_auth = some true;
        audit_log = some true;
        env_keep = some (codes "EDITOR" ∷ codes "VISUAL" ∷ []);
        max_command_len = some 4096;
      })
      (record bare {
        user = some (codes "admin");
        run_as = some (codes "root");
        commands = some [];
        require_auth = some true;
        description = some (codes "Admin has full access");
      }
        ∷ record bare {
          group = some (codes "wheel");
          run_as = some (codes "root");
          commands = some (codes "/usr/bin/systemctl" ∷ codes "/usr/bin/journalctl" ∷ []);
          require_auth = some true;
          description = some (codes "Wheel group can manage services");
        }
        ∷ record bare {
          user = some (codes "deploy");
          run_as = some (codes "root");
          commands = some (codes "/usr/bin/systemctl restart *" ∷ codes "/usr/bin/docker" ∷ []);
          deny_commands = some (codes "/usr/bin/systemctl stop firewall" ∷ []);
          require_auth = some false;
          description = some (codes "Deploy user can restart services (no password)");
        }
        ∷ record bare {
          user = some (codes "*");
          run_as = some (codes "root");
          commands = some (codes "/usr/bin/passwd" ∷ []);
          require_auth = some true;
          description = some (codes "Anyone can change passwords");
        }
        ∷ [])

abbrev pub test_policy : SudoPolicy
test_policy = fill (
    document_with (record no_defaults { timestamp_ttl = some 300; require_auth = some true })
      (record bare {
        user = some (codes "admin");
        run_as = some (codes "root");
        commands = some [];
        require_auth = some true;
        description = some (codes "Admin full access");
      }
        ∷ record bare {
          user = some (codes "deploy");
          run_as = some (codes "root");
          commands = some (codes "/usr/bin/systemctl" ∷ codes "/usr/bin/docker" ∷ []);
          require_auth = some false;
          description = some (codes "Deploy user (no password)");
        }
        ∷ record bare {
          user = some (codes "*");
          run_as = some (codes "root");
          commands = some (codes "/usr/bin/env" ∷ []);
          require_auth = some true;
          description = some (codes "Anyone can run env");
        }
        ∷ []))

abbrev pub host : Host
host = record {
  files = files;
  toml = λ s. none;
  cache = memory;
  cache_state = record { time = 0; node = λ p. none };
  tty = none;
  user_from_name = λ name. none;
  uid = 0;
  gid = 0;
  vars = [];
}
