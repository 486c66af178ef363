-- ===== src/Validate/Resolve.antt =====
-- What `resolve_command` of rust-old/src/validate.rs answers.
use shakti.Prelude.{
  ◌≡◌, refl, sym, ap, ◌↔◌, ◌⊎◌, inl, inr, true, false, List, [], ◌∷◌, ◌++◌, arith, Bool-cases, All,
}
use shakti.Text.{Text, starts_with}
use shakti.Text.Laws.{Absent}
use shakti.FilePath.{slash, join_path}
use shakti.FilePath.Names.{not-starts_with}
use shakti.Error.{ok}
use shakti.Os.{Files}
use shakti.Validate.{is_executable, search_dirs, search_in, resolve_command}

-- The answer is the first executable in the directories' order.
pub record FoundIn (fs : Files) (cmd : Text) (dirs : List Text) (p : Text) : Type 0 where
  pub before : List Text
  pub dir : Text
  pub after : List Text
  pub is_dirs : dirs ≡ before ++ dir ∷ after
  pub passed : All (λ d. is_executable fs (join_path d cmd) ≡ false) before
  pub is_path : p ≡ join_path dir cmd
  pub runs : is_executable fs p ≡ true

module _ (fs : Files) (cmd : Text) where
  search_in→ : (dirs : List Text) (p : Text) → search_in fs cmd dirs ≡ ok p → FoundIn fs cmd dirs p
  unfolding search_in
  search_in→ [] p h = absurd (cc)
  search_in→ (d ∷ dirs) p h = elim (Bool-cases (is_executable fs (join_path d cmd))) [
    | inl e ↦
        let same : join_path d cmd ≡ p = ground arith in
        record {
          before = [];
          dir = d;
          after = dirs;
          is_dirs = refl;
          passed = tt;
          is_path = sym same;
          runs = rw same at e;
        }
    | inr e ↦
        let f = search_in→ dirs p (ground arith) in
        record {
          before = d ∷ f.before;
          dir = f.dir;
          after = f.after;
          is_dirs = ap (λ ds. d ∷ ds) f.is_dirs;
          passed = (e, f.passed);
          is_path = f.is_path;
          runs = f.runs;
        }
  ]

  search_in-append :
      (before : List Text) (dir : Text) (after : List Text)
      → All (λ d. is_executable fs (join_path d cmd) ≡ false) before
      → is_executable fs (join_path dir cmd) ≡ true
      → search_in fs cmd (before ++ dir ∷ after) ≡ ok (join_path dir cmd)
  unfolding search_in
  search_in-append [] dir after passed runs = ground arith
  search_in-append (d ∷ before) dir after passed runs =
      ground (arith, search_in-append before dir after)

  -- An absolute command that is executable as it is spelled, or a bare name found on the path.
  abbrev pub Resolves : Text → Type 0
  Resolves p =
      (starts_with cmd slash ≡ true) × (p ≡ cmd) × (is_executable fs cmd ≡ true)
      ⊎ Absent b'/' cmd × FoundIn fs cmd search_dirs p

  resolve→ : (p : Text) → resolve_command fs cmd ≡ ok p → Resolves p
  unfolding resolve_command
  resolve→ p h = elim (Bool-cases (starts_with cmd slash)) [
    | inl e ↦ inl (e, ground arith, ground arith)
    | inr e ↦ inr (ground arith, search_in→ search_dirs p (ground arith))
  ]

  →resolve : (p : Text) → Resolves p → resolve_command fs cmd ≡ ok p
  unfolding resolve_command
  →resolve p (inl (e, same, runs)) = ground arith
  →resolve p (inr (plain, f)) = ground (
    arith,
    not-starts_with cmd plain,
    f.is_dirs,
    f.is_path,
    f.runs,
    search_in-append f.before f.dir f.after,
  )

  -- A command resolves to a path exactly if it is absolute, executable, and the path as it was
  -- spelled; or it holds no slash and the path is that of the first directory of the fixed search
  -- path that holds an executable of its name.
  pub resolve_command_iff : (p : Text) → (resolve_command fs cmd ≡ ok p) ↔ Resolves p
  resolve_command_iff p = (resolve→ p, →resolve p)
