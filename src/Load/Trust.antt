-- ===== src/Load/Trust.antt =====
-- The files that `load_policy` of rust-old/src/policy.rs reads: their owner, mode and content.
use mathlib.Core.Path.{subst}
use shakti.Prelude.{
  ◌≡◌, refl, ◌↔◌, inl, inr, false, Option, some, List, [], ◌∷◌, ◌++◌, arith, Option-cases,
}
use shakti.Text.{Text}
use shakti.FilePath.{join_path}
use shakti.Error.{ok, >>=-eq-ok}
use shakti.Os.{Files, Metadata, is_world_writable}
use shakti.Policy.{PolicyRule}
use shakti.Load.{
  Document, fill, check_metadata, check_trusted, read_file, parse_policy, load_fragment,
  load_entries,
}

module _ (fs : Files) (toml : Text → Option Document) where
  -- Owned by root, and not writable by everybody.
  pub record IsTrusted (path : Text) : Type 0 where
    pub meta : Metadata
    pub is_meta : fs.metadata path ≡ some meta
    pub by_root : meta.uid ≡ 0
    pub closed : is_world_writable meta ≡ false

  check_trusted→ : (path : Text) → check_trusted fs toml path ≡ ok tt → IsTrusted path
  unfolding check_trusted check_metadata
  check_trusted→ path h = elim (Option-cases (fs.metadata path)) [
    | inl e ↦ absurd (ground arith)
    | inr (meta, e) ↦ record {
      meta = meta;
      is_meta = e;
      by_root = ground arith;
      closed = ground arith;
    }
  ]

  →check_trusted : (path : Text) → IsTrusted path → check_trusted fs toml path ≡ ok tt
  unfolding check_trusted check_metadata
  →check_trusted path t = ground (arith, t.is_meta, t.by_root, t.closed)

  pub check_trusted_iff : (path : Text) → (check_trusted fs toml path ≡ ok tt) ↔ IsTrusted path
  check_trusted_iff path = (check_trusted→ path, →check_trusted path)

  -- A trusted file that reads and parses as the document.
  pub record Holds (path : Text) (doc : Document) : Type 0 where
    pub trusted : IsTrusted path
    pub content : Text
    pub is_content : fs.read_to_string path ≡ some content
    pub parses : toml content ≡ some doc

  pub load_fragment→ :
      (path : Text) (rules : List PolicyRule)
      → load_fragment fs toml path ≡ ok rules
      → (doc : Document) × Holds path doc × (rules ≡ (fill doc).rules)
  unfolding load_fragment read_file parse_policy
  load_fragment→ path rules h = elim (Option-cases (fs.read_to_string path)) [
    | inl e ↦ absurd (ground arith)
    | inr (content, e) ↦ elim (Option-cases (toml content)) [
      | inl p ↦ absurd (ground arith)
      | inr (doc, p) ↦ (
        doc,
        record {
          trusted = check_trusted→ path (ground arith);
          content = content;
          is_content = e;
          parses = p;
        },
        ground arith,
      )
    ]
  ]

  pub →load_fragment :
      (path : Text) (doc : Document)
      → Holds path doc
      → load_fragment fs toml path ≡ ok (fill doc).rules
  unfolding load_fragment read_file parse_policy
  →load_fragment path doc x = ground (arith, →check_trusted path x.trusted, x.is_content, x.parses)

  -- The rules of the fragments, file by file.
  pub data Fragments (dir : Text) : List Text → List PolicyRule → Type 0 where
    nil : Fragments dir [] []
    cons :
        {name : Text} {names : List Text} {rules : List PolicyRule} (doc : Document)
        → Holds (join_path dir name) doc
        → Fragments dir names rules
        → Fragments dir (name ∷ names) ((fill doc).rules ++ rules)

  pub load_entries→ :
      (dir : Text) (names : List Text) (rules : List PolicyRule)
      → load_entries fs toml dir names ≡ ok rules
      → Fragments dir names rules
  unfolding load_entries
  load_entries→ dir [] rules h = subst (Fragments dir []) (cc) nil
  load_entries→ dir (name ∷ names) rules h =
      let (mine, first, rest) = >>=-eq-ok (load_fragment fs toml (join_path dir name)) _ h in
      let (more, second, e) = >>=-eq-ok (load_entries fs toml dir names) _ rest in
      let (doc, holds, is_mine) = load_fragment→ (join_path dir name) mine first in
      subst (Fragments dir (name ∷ names)) (cc)
        (cons doc holds (load_entries→ dir names more second))

  pub →load_entries :
      (dir : Text) (names : List Text) (rules : List PolicyRule)
      → Fragments dir names rules
      → load_entries fs toml dir names ≡ ok rules
  unfolding load_entries
  →load_entries dir _ _ nil = refl
  →load_entries dir (name ∷ names) _ (cons {rules = rules} doc holds more) =
      ground
        (arith, →load_fragment (join_path dir name) doc holds, →load_entries dir names rules more)
