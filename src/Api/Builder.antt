-- ===== src/Api/Builder.antt =====
-- rust-old/src/api.rs: `ShaktiConfigBuilder`.
use shakti.Text.{Text, codes}
use shakti.Api.{AuthMode, interactive, ShaktiConfig}

pub record ShaktiConfigBuilder : Type 0 where
  pub policy_path : Text
  pub target_user : Text
  pub auth_mode : AuthMode

-- `ShaktiConfig::builder()`
unfoldable pub builder : ShaktiConfigBuilder
builder = record {
  policy_path = codes "/etc/agnos/sudoers.toml";
  target_user = codes "root";
  auth_mode = interactive;
}

unfoldable pub policy_path : ShaktiConfigBuilder → Text → ShaktiConfigBuilder
policy_path self path = record self { policy_path = path }

unfoldable pub target_user : ShaktiConfigBuilder → Text → ShaktiConfigBuilder
target_user self user = record self { target_user = user }

unfoldable pub auth_mode : ShaktiConfigBuilder → AuthMode → ShaktiConfigBuilder
auth_mode self mode = record self { auth_mode = mode }

unfoldable pub build : ShaktiConfigBuilder → ShaktiConfig
build self = record {
  policy_path = self.policy_path;
  target_user = self.target_user;
  auth_mode = self.auth_mode;
}
