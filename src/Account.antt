-- ===== src/Account.antt =====
-- rust-old/src/main.rs: who the caller is, which groups the caller is in, and who the target is. The
-- databases of users and groups are not code of the repository: what they answer is a parameter.
pub mod Groups
pub mod Order
use shakti.Prelude.{
  ℕ, Bool, true, false, Option, none, some, List, [], ◌∷◌, ◌++◌, any, if◌then◌else◌,
}
use shakti.Text.{Text, text_eq, contains}
use shakti.Error.{Error, Result, ok, err, caller_unknown, target_not_found, user_lookup_failed}
use shakti.Api.{UserEntry}

-- `User::from_uid` and `User::from_name`: an error, nobody, or an entry.
pub data Lookup : Type 0 where
  lookup_failed absent : Lookup
  found : UserEntry → Lookup

pub record Accounts : Type 0 where
  pub real_uid : ℕ
  pub from_uid : ℕ → Lookup
  pub from_name : Text → Lookup
  pub getgrouplist : Text → ℕ → Option (List ℕ)
  -- The name of a group, where the lookup finds one.
  pub group_name : ℕ → Option Text

unfoldable pub get_caller_username : Accounts → Result Text
get_caller_username a = elim (a.from_uid a.real_uid) [
  | lookup_failed ↦ err user_lookup_failed
  | absent ↦ err (caller_unknown a.real_uid)
  | found u ↦ ok u.name
]

-- `groups.contains(&group.name)`
unfoldable pub has_name : Text → List Text → Bool
has_name name groups = any (λ g. text_eq g name) groups

-- One round of the loop over the group ids.
unfoldable pub push_group : Option Text → List Text → List Text
push_group none groups = groups
push_group (some name) groups = if has_name name groups then groups else groups ++ name ∷ []

unfoldable pub collect_groups : (ℕ → Option Text) → List ℕ → List Text → List Text
collect_groups name_of [] groups = groups
collect_groups name_of (gid ∷ gids) groups =
    collect_groups name_of gids (push_group (name_of gid) groups)

unfoldable pub groups_of : Accounts → Text → UserEntry → List Text
groups_of a username user =
    if contains username 0 then [] else elim (a.getgrouplist username user.gid) [
      | none ↦ []
      | some gids ↦ collect_groups a.group_name gids []
    ]

unfoldable pub get_user_groups : Accounts → Text → List Text
get_user_groups a username = elim (a.from_name username) [
  | lookup_failed ↦ []
  | absent ↦ []
  | found user ↦ groups_of a username user
]

unfoldable pub get_target_user_info : Accounts → Text → Result UserEntry
get_target_user_info a username = elim (a.from_name username) [
  | lookup_failed ↦ err user_lookup_failed
  | absent ↦ err (target_not_found username)
  | found user ↦ ok user
]
