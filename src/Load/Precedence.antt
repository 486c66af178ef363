-- ===== src/Load/Precedence.antt =====
-- The main file of `load_policy` in rust-old/src/policy.rs against the files of its include directory.
use shakti.Prelude.{◌≡◌, ap, ◌∙◌, ◌⊎◌, inl, inr, Option, List, All}
use shakti.Text.{Text}
use shakti.Error.{ok}
use shakti.Os.{Files}
use shakti.Policy.{SudoPolicy, check_authorization}
use shakti.Policy.Decision.{check}
use shakti.Policy.Priority.{PassesHere}
use shakti.Policy.Growth.{decided_first}
use shakti.Load.{Document, fill, load_policy}
use shakti.Load.Trust.{Holds}
use shakti.Load.Loaded.{load_policy_iff}

module _ (fs : Files) (toml : Text → Option Document) where
  check-loaded :
      (username : Text) (groups : List Text) (target_user command : Text) (policy main : SudoPolicy)
      → check username groups target_user command policy.defaults policy.rules
        ≡ check username groups target_user command main.defaults main.rules
      → check_authorization policy username groups target_user command
        ≡ check_authorization main username groups target_user command
  unfolding check_authorization
  check-loaded username groups target_user command policy main e = e

  -- The files of the include directory never change an answer that the main file gives: of a policy
  -- that was loaded, for any request, either no rule of the main file denies or grants it, or the
  -- policy answers as the main file alone.
  pub main_file_decides :
      (path : Text) (policy : SudoPolicy) (username : Text) (groups : List Text)
      (target_user command : Text)
      → load_policy fs toml path ≡ ok policy
      → (doc : Document) × Holds fs toml path doc
        × (All (PassesHere username groups target_user command) (fill doc).rules
            ⊎ (check_authorization policy username groups target_user command
                ≡ check_authorization (fill doc) username groups target_user command))
  main_file_decides path policy username groups target_user command h =
      let l = (load_policy_iff fs toml path policy).0 h in
      let main = fill l.doc in
      (
        l.doc,
        l.holds,
        elim (decided_first username groups target_user command main.defaults main.rules l.more) [
          | inl passed ↦ inl passed
          | inr same ↦ inr (
              check-loaded username groups target_user command policy main (
                ap (λ d. check username groups target_user command d policy.rules) l.is_defaults
                ∙ (ap (check username groups target_user command main.defaults) l.is_rules ∙ same)))
        ],
      )
