-- ===== src/Load/Loaded.antt =====
-- `load_policy` of rust-old/src/policy.rs against the files that a policy is made of.
use shakti.Prelude.{
  ◌≡◌, refl, sym, ap, ◌∙◌, ◌↔◌, ◌⊎◌, inl, inr, true, false, Option, none, some, List, [], ◌++◌,
  arith, Bool-cases, Option-cases, append-nil,
}
use shakti.Text.{Text}
use shakti.Error.{ok, >>=-eq-ok}
use shakti.Os.{Files, exists}
use shakti.Policy.{PolicyRule, SudoPolicy}
use shakti.Load.{
  Document, fill, fragment_names, read_file, parse_policy, is_dir, list_entries, load_fragments,
  extend_rules, load_policy,
}
use shakti.Load.Trust.{IsTrusted, check_trusted_iff, Holds, Fragments, load_entries→, →load_entries}

module _ (fs : Files) (toml : Text → Option Document) where
  -- What an include directory adds: nothing where it does not exist.
  pub data Included (dir : Text) (rules : List PolicyRule) : Type 0 where
    absent : exists fs dir ≡ false → rules ≡ [] → Included dir rules
    listed :
        (entries : List (Option Text))
        → exists fs dir ≡ true
        → is_dir fs toml dir ≡ true
        → IsTrusted fs toml dir
        → fs.read_dir dir ≡ some entries
        → Fragments fs toml dir (fragment_names entries) rules
        → Included dir rules

  load_fragments→ :
      (dir : Text) (rules : List PolicyRule)
      → load_fragments fs toml dir ≡ ok rules
      → Included dir rules
  unfolding load_fragments list_entries
  load_fragments→ dir rules h = elim (Bool-cases (exists fs dir)) [
    | inr e ↦ absent e (ground arith)
    | inl e ↦ elim (Option-cases (fs.read_dir dir)) [
      | inl r ↦ absurd (ground arith)
      | inr (entries, r) ↦
          listed entries e (ground arith) ((check_trusted_iff fs toml dir).0 (ground arith)) r
            (load_entries→ fs toml dir (fragment_names entries) rules (ground arith))
    ]
  ]

  →load_fragments :
      (dir : Text) (rules : List PolicyRule)
      → Included dir rules
      → load_fragments fs toml dir ≡ ok rules
  unfolding load_fragments list_entries
  →load_fragments dir rules (absent e r) = ground arith
  →load_fragments dir rules (listed entries e d t r f) = ground (
    arith,
    (check_trusted_iff fs toml dir).1 t,
    →load_entries fs toml dir (fragment_names entries) rules f,
  )

  -- The main file's document, its defaults, and its rules followed by those of the fragments.
  pub record Loads (path : Text) (policy : SudoPolicy) : Type 0 where
    pub doc : Document
    pub holds : Holds fs toml path doc
    pub is_defaults : policy.defaults ≡ (fill doc).defaults
    pub more : List PolicyRule
    pub is_rules : policy.rules ≡ (fill doc).rules ++ more
    pub included :
        ((fill doc).defaults.include_dir ≡ none) × (more ≡ [])
        ⊎ ((dir : Text) × ((fill doc).defaults.include_dir ≡ some dir) × Included dir more)

  Holds-exists : (path : Text) (doc : Document) → Holds fs toml path doc → exists fs path ≡ true
  unfolding exists
  Holds-exists path doc x = ground (arith, x.trusted.is_meta)

  -- The main file, up to the fragments.
  main→ :
      (path : Text) (policy : SudoPolicy)
      → load_policy fs toml path ≡ ok policy
      → (doc : Document) × Holds fs toml path doc × (extend_rules fs toml (fill doc) ≡ ok policy)
  unfolding load_policy read_file parse_policy
  main→ path policy h = elim (Option-cases (fs.read_to_string path)) [
    | inl e ↦ absurd (ground arith)
    | inr (content, e) ↦ elim (Option-cases (toml content)) [
      | inl p ↦ absurd (ground arith)
      | inr (doc, p) ↦ (
        doc,
        record {
          trusted = (check_trusted_iff fs toml path).0 (ground arith);
          content = content;
          is_content = e;
          parses = p;
        },
        ground arith,
      )
    ]
  ]

  →main :
      (path : Text) (policy : SudoPolicy) (doc : Document)
      → Holds fs toml path doc
      → extend_rules fs toml (fill doc) ≡ ok policy
      → load_policy fs toml path ≡ ok policy
  unfolding load_policy read_file parse_policy
  →main path policy doc x h = ground (
    arith,
    Holds-exists path doc x,
    (check_trusted_iff fs toml path).1 x.trusted,
    x.is_content,
    x.parses,
  )

  extend→ :
      (path : Text) (policy : SudoPolicy) (doc : Document)
      → Holds fs toml path doc
      → extend_rules fs toml (fill doc) ≡ ok policy
      → Loads path policy
  unfolding extend_rules
  extend→ path policy doc x h = elim (Option-cases (fill doc).defaults.include_dir) [
    | inl e ↦
        let same : fill doc ≡ policy = ground arith in
        record {
          doc = doc;
          holds = x;
          is_defaults = ap (λ (p : SudoPolicy). p.defaults) (sym same);
          more = [];
          is_rules =
              ap (λ (p : SudoPolicy). p.rules) (sym same) ∙ sym (append-nil (fill doc).rules);
          included = inl (e, refl);
        }
    | inr (dir, e) ↦ included_in dir e
  ]
    where
      included_in : (dir : Text) → (fill doc).defaults.include_dir ≡ some dir → Loads path policy
      included_in dir e =
          let step =
            >>=-eq-ok (load_fragments fs toml dir)
              (λ rules. ok (record (fill doc) { rules = (fill doc).rules ++ rules })) {b = policy}
              (ground arith) in
          record {
            doc = doc;
            holds = x;
            is_defaults = ground (arith, step.2);
            more = step.0;
            is_rules = ground (arith, step.2);
            included = inr (dir, e, load_fragments→ dir step.0 step.1);
          }

  →extend :
      (path : Text) (policy : SudoPolicy) (l : Loads path policy)
      → extend_rules fs toml (fill l.doc) ≡ ok policy
  unfolding extend_rules
  →extend path policy l = elim l.included [
    | inl (e, none_more) ↦ ground (arith, l.is_defaults, l.is_rules, append-nil (fill l.doc).rules)
    | inr (dir, e, i) ↦ ground (arith, l.is_defaults, l.is_rules, →load_fragments dir l.more i)
  ]

  -- A policy is loaded exactly if the main file is trusted, reads and parses; its defaults are that
  -- file's; and its rules are that file's followed by those of the include directory: none where it
  -- names none or the directory does not exist, and otherwise those of the directory's `.toml`
  -- files in order of name, where the directory and each file are trusted, read and parse.
  pub load_policy_iff :
      (path : Text) (policy : SudoPolicy)
      → (load_policy fs toml path ≡ ok policy) ↔ Loads path policy
  load_policy_iff path policy = (
    λ h. let (doc, x, e) = main→ path policy h in extend→ path policy doc x e,
    λ l. →main path policy l.doc l.holds (→extend path policy l),
  )
