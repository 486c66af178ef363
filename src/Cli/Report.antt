-- ===== src/Cli/Report.antt =====
-- rust-old/src/main.rs: `list_permissions` and `check_policy`, with the lines that they print.
use shakti.Prelude.{
  ℕ, ◌+◌, ◌%◌, ◌^◌, Bool, true, false, ◌||◌, none, some, List, [], ◌∷◌, ◌++◌, map, length, is_empty,
  ltb, if◌then◌else◌,
}
use shakti.Text.{Text, codes, decimal}
use shakti.Error.{Result, ok, err, policy_has_errors}
use shakti.Policy.{PolicyRule, SudoPolicy, user_matches, group_matches}
use shakti.Lint.{error, warning, PolicyWarning, lint_policy}

unfoldable pub concerns : PolicyRule → Text → List Text → Bool
concerns rule username groups = user_matches rule username || group_matches rule groups

-- The line for one command, or for ALL.
unfoldable pub grant_line : PolicyRule → Text → Text
grant_line rule command =
    codes "    ("
    ++ (rule.run_as
        ++ (codes ") " ++ ((if rule.require_auth then [] else codes "NOPASSWD: ") ++ command)))

unfoldable pub deny_line : PolicyRule → Text → Text
deny_line rule command = codes "    (" ++ (rule.run_as ++ (codes ") DENY: " ++ command))

unfoldable pub rule_lines : PolicyRule → List Text
rule_lines rule =
    (if is_empty rule.commands
      then grant_line rule (codes "ALL") ∷ []
      else map (grant_line rule) rule.commands)
    ++ (map (deny_line rule) rule.deny_commands
        ++ (if is_empty rule.description then [] else (codes "    # " ++ rule.description) ∷ []))

-- The loop over the rules: the lines, and whether one was found.
unfoldable pub list_rules : List PolicyRule → Text → List Text → List Text × Bool
list_rules [] username groups = ([], false)
list_rules (rule ∷ rules) username groups =
    let (lines, found) = list_rules rules username groups in
    if concerns rule username groups then (rule_lines rule ++ lines, true) else (lines, found)

unfoldable pub list_permissions : SudoPolicy → Text → List Text → List Text
list_permissions policy username groups =
    let (lines, found) = list_rules policy.rules username groups in
    (codes "User " ++ (username ++ codes " may run the following commands on this host:"))
    ∷ []
    ∷ (lines ++ (if found then [] else codes "    (none)" ∷ []))

-- The counters and the lines of the loop over the warnings. The counters are `u32`, which wrap around
-- in a release build.
pub record Tally : Type 0 where
  pub errors : ℕ
  pub warns : ℕ
  pub lines : List Text

unfoldable pub warning_line : PolicyWarning → Text
warning_line w =
    let prefix : Text = elim w.severity [ error ↦ codes "ERROR" | warning ↦ codes "WARN" ] in
    elim w.rule_index [
      | some i ↦
          codes "  [" ++ (prefix ++ (codes "] rule[" ++ (decimal i ++ (codes "]: " ++ w.message))))
      | none ↦ codes "  [" ++ (prefix ++ (codes "] " ++ w.message))
    ]

unfoldable pub tally : ℕ → ℕ → List PolicyWarning → Tally
tally errors warns [] = record { errors = errors; warns = warns; lines = [] }
tally errors warns (w ∷ ws) =
    let is_error : Bool = elim w.severity [ error ↦ true | warning ↦ false ] in
    let t =
      tally (if is_error then (errors + 1) % 2 ^ 32 else errors)
        (if is_error then warns else (warns + 1) % 2 ^ 32) ws in
    record t { lines = warning_line w ∷ t.lines }

unfoldable pub show_bool : Bool → Text
show_bool true = codes "true"
show_bool false = codes "false"

unfoldable pub policy_line : SudoPolicy → Text
policy_line policy =
    codes "Policy: "
    ++ (decimal (length policy.rules)
        ++ (codes " rules, timestamp_ttl="
            ++ (decimal policy.defaults.timestamp_ttl
                ++ (codes "s, require_auth=" ++ show_bool policy.defaults.require_auth))))

unfoldable pub summary_line : Tally → Text
summary_line t =
    codes "Summary: "
    ++ (decimal t.errors ++ (codes " error(s), " ++ (decimal t.warns ++ codes " warning(s)")))

-- The result, and the lines printed before it.
unfoldable pub check_policy : SudoPolicy → Result (Unit {0}) × List Text
check_policy policy =
    let warnings = lint_policy policy in
    let t = tally 0 0 warnings in
    if is_empty warnings
    then (ok tt, policy_line policy ∷ [] ∷ codes "No issues found." ∷ [])
    else (
      if ltb 0 t.errors then err policy_has_errors else ok tt,
      policy_line policy ∷ [] ∷ (t.lines ++ ([] ∷ summary_line t ∷ [])),
    )
