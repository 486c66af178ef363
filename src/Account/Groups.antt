-- ===== src/Account/Groups.antt =====
-- The names that `get_user_groups` of rust-old/src/main.rs collects.
use shakti.Prelude.{
  ℕ, ◌≡◌, ◌≢◌, sym, ap, ◌↔◌, ◌⊎◌, inl, inr, true, Option, none, some, List, [], ◌∷◌, ◌++◌, arith,
  All, Any, any_iff, Any-map, Any-left, Any-right, Bool-cases,
}
use shakti.Text.{Text, text_eq}
use shakti.Text.Laws.{text_eq_iff}
use shakti.Account.{has_name, push_group, collect_groups}

-- A name is among those collected.
abbrev pub Listed : Text → List Text → Type 0
Listed g names = Any (λ n. n ≡ g) names

-- Each name differs from those that follow it.
abbrev pub IsDistinct : List Text → Type 0
IsDistinct [] = Unit
IsDistinct (n ∷ names) = All (λ k. k ≢ n) names × IsDistinct names

has_name_iff : (g : Text) (names : List Text) → (has_name g names ≡ true) ↔ Listed g names
unfolding has_name
has_name_iff g names = (
  λ h. Any-map (λ n. (text_eq_iff n g).0) names ((any_iff (λ n. text_eq n g) names).0 h),
  λ h. (any_iff (λ n. text_eq n g) names).1 (Any-map (λ n. (text_eq_iff n g).1) names h),
)

Listed-split : (g : Text) (xs ys : List Text) → Listed g (xs ++ ys) → Listed g xs ⊎ Listed g ys
Listed-split g [] ys h = inr h
Listed-split g (x ∷ xs) ys (inl e) = inl (inl e)
Listed-split g (x ∷ xs) ys (inr h) = elim (Listed-split g xs ys h) [
  | inl a ↦ inl (inr a)
  | inr b ↦ inr b
]

All-snoc :
    (n : Text) (names : List Text) (k : Text)
    → All (λ j. j ≢ n) names
    → k ≢ n
    → All (λ j. j ≢ n) (names ++ k ∷ [])
All-snoc n [] k h d = (d, tt)
All-snoc n (x ∷ names) k h d = (h.0, All-snoc n names k h.1 d)

IsDistinct-snoc :
    (names : List Text) (k : Text)
    → IsDistinct names
    → ¬ Listed k names
    → IsDistinct (names ++ k ∷ [])
IsDistinct-snoc [] k h d = (tt, tt)
IsDistinct-snoc (n ∷ names) k h d =
    (All-snoc n names k h.0 (λ e. d (inl (sym e))), IsDistinct-snoc names k h.1 (λ l. d (inr l)))

push-IsDistinct :
    (o : Option Text) (names : List Text) → IsDistinct names → IsDistinct (push_group o names)
unfolding push_group
push-IsDistinct none names h = h
push-IsDistinct (some k) names h = elim (Bool-cases (has_name k names)) [
  | inl e ↦ rw e h
  | inr e ↦ rw e (IsDistinct-snoc names k h (λ l. cc ((has_name_iff k names).1 l, e)))
]

push-Listed :
    (g : Text) (o : Option Text) (names : List Text)
    → Listed g (push_group o names) ↔ (Listed g names ⊎ (o ≡ some g))
unfolding push_group
push-Listed g none names = (λ l. inl l, λ h. elim h [ inl l ↦ l | inr e ↦ absurd (cc e) ])
push-Listed g (some k) names = elim (Bool-cases (has_name k names)) [
  | inl e ↦ rw e (
    λ l. inl l,
    λ h. elim h [ inl l ↦ l | inr s ↦ (has_name_iff g names).0 (ground (arith, s, e)) ],
  )
  | inr e ↦ rw e (
    λ l. elim (Listed-split g names (k ∷ []) l) [
      | inl a ↦ inl a
      | inr (inl a) ↦ inr (ap some a)
      | inr (inr a) ↦ absurd a
    ],
    λ h. elim h [
      | inl l ↦ Any-left (λ n. n ≡ g) names (k ∷ []) l
      | inr s ↦ Any-right (λ n. n ≡ g) names (k ∷ []) (inl (ground (arith, s)))
    ],
  )
]

module _ (name_of : ℕ → Option Text) where
  collected-IsDistinct :
      (gids : List ℕ) (names : List Text)
      → IsDistinct names
      → IsDistinct (collect_groups name_of gids names)
  unfolding collect_groups
  collected-IsDistinct [] names h = h
  collected-IsDistinct (gid ∷ gids) names h =
      collected-IsDistinct gids (push_group (name_of gid) names)
        (push-IsDistinct (name_of gid) names h)

  collected→ :
      (g : Text) (gids : List ℕ) (names : List Text)
      → Listed g (collect_groups name_of gids names)
      → Listed g names ⊎ Any (λ gid. name_of gid ≡ some g) gids
  unfolding collect_groups
  collected→ g [] names l = inl l
  collected→ g (gid ∷ gids) names l = elim (collected→ g gids (push_group (name_of gid) names) l) [
    | inl a ↦ elim ((push-Listed g (name_of gid) names).0 a) [ inl b ↦ inl b | inr e ↦ inr (inl e) ]
    | inr b ↦ inr (inr b)
  ]

  →collected :
      (g : Text) (gids : List ℕ) (names : List Text)
      → Listed g names ⊎ Any (λ gid. name_of gid ≡ some g) gids
      → Listed g (collect_groups name_of gids names)
  unfolding collect_groups
  →collected g [] names (inl l) = l
  →collected g [] names (inr l) = absurd l
  →collected g (gid ∷ gids) names (inl l) =
      →collected g gids (push_group (name_of gid) names)
        (inl ((push-Listed g (name_of gid) names).1 (inl l)))
  →collected g (gid ∷ gids) names (inr (inl e)) =
      →collected g gids (push_group (name_of gid) names)
        (inl ((push-Listed g (name_of gid) names).1 (inr e)))
  →collected g (gid ∷ gids) names (inr (inr h)) =
      →collected g gids (push_group (name_of gid) names) (inr h)

  -- The groups are the names of the ids that have one, each once.
  pub collect_groups_lem :
      (gids : List ℕ)
      → IsDistinct (collect_groups name_of gids [])
        × ((g : Text)
            → Listed g (collect_groups name_of gids []) ↔ Any (λ gid. name_of gid ≡ some g) gids)
  collect_groups_lem gids = (
    collected-IsDistinct gids [] tt,
    λ g. (
      λ l. elim (collected→ g gids [] l) [ inl a ↦ absurd a | inr b ↦ b ],
      λ h. →collected g gids [] (inr h),
    ),
  )
