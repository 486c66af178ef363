-- ===== src/Account/Order.antt =====
-- The groups that rust-old/src/main.rs collects, as the check of rust-old/src/policy.rs uses them.
use shakti.Prelude.{
  ℕ, ◌≡◌, refl, sym, ◌↔◌, inl, inr, Option, some, List, [], ◌∷◌, Any, Any-map, subst,
}
use shakti.Text.{Text}
use shakti.Policy.{SudoPolicy, check_authorization}
use shakti.Policy.Members.{check-SameGroups}
use shakti.Account.{collect_groups}
use shakti.Account.Groups.{IsDistinct, collect_groups_lem}

-- The same numbers, in any order and any number of times.
abbrev pub SameIds : List ℕ → List ℕ → Type 0
SameIds gids hids = (n : ℕ) → Any (λ m. m ≡ n) gids ↔ Any (λ m. m ≡ n) hids

-- An element of a list with a property, and back.
Any-pick : (P : ℕ → Type 0) (ns : List ℕ) → Any P ns → (n : ℕ) × Any (λ m. m ≡ n) ns × P n
Any-pick P [] h = absurd h
Any-pick P (n ∷ ns) (inl p) = (n, inl refl, p)
Any-pick P (n ∷ ns) (inr h) = let (m, a, p) = Any-pick P ns h in (m, inr a, p)

moved : (P : ℕ → Type 0) (gids hids : List ℕ) → SameIds gids hids → Any P gids → Any P hids
moved P gids hids same h =
    let (n, a, p) = Any-pick P gids h in Any-map (λ m e. subst P (sym e) p) hids ((same n).0 a)

-- The answer depends only on which group ids the database lists for the caller, not on their order nor
-- on how often each is listed; and the collected names have no repetitions.
pub collected-SameIds :
    (policy : SudoPolicy) (username : Text) (group_name : ℕ → Option Text) (gids hids : List ℕ)
    (target_user command : Text)
    → SameIds gids hids
    → (check_authorization policy username (collect_groups group_name gids []) target_user command
        ≡ check_authorization policy username
            (collect_groups group_name hids [])
            target_user
            command)
      × IsDistinct (collect_groups group_name gids [])
collected-SameIds policy username group_name gids hids target_user command same =
    let P = λ (g : Text) (n : ℕ). group_name n ≡ some g in
    let a = (collect_groups_lem group_name gids).1 in
    let b = (collect_groups_lem group_name hids).1 in
    let back : SameIds hids gids = λ n. ((same n).1, (same n).0) in
    (
      check-SameGroups policy username (collect_groups group_name gids [])
          (collect_groups group_name hids []) target_user command
          λ g. (
            λ h. (b g).1 (moved (P g) gids hids same ((a g).0 h)),
            λ h. (a g).1 (moved (P g) hids gids back ((b g).0 h)),
          ),
      (collect_groups_lem group_name gids).0,
    )
