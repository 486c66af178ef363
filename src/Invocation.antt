-- ===== src/Invocation.antt =====
-- The command string that `api.rs` and `main.rs` build alike for the policy and the audit log: the
-- resolved path and the arguments, joined by spaces.
pub mod Words
use shakti.Prelude.{Bool, List, [], ◌∷◌, ◌++◌}
use shakti.Text.{Text, codes, join}

unfoldable pub full_command : Text → List Text → Text
full_command resolved [] = resolved
full_command resolved (a ∷ args) = resolved ++ (codes " " ++ join (a ∷ args) (codes " "))
