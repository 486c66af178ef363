-- ===== src/Timestamp/Location.antt =====
-- Where a user's timestamp lies: `timestamp_path` of rust-old/src/timestamp.rs.
use shakti.Prelude.{
  ◌≡◌, ◌≢◌, refl, sym, ap, ◌∙◌, inl, inr, true, false, Option, none, some, [], ◌∷◌, ◌++◌, arith,
  Bool-cases, is_empty,
}
use mathlib.Core.List
use mathlib.Core.List.{List}
use mathlib.Core.Bool.{true≢false, or-true}
use shakti.Text.{Text, codes, contains, split, before, text_eq}
use shakti.Text.Laws.{
  contains-append, contains-replace, split_absent, before-append, before_absent, append_cancel_left,
  Absent,
}
use shakti.FilePath.{Component, normal, components, pieces, piece, join_path, slash}
use shakti.FilePath.Laws.{piece-plain}
use shakti.FilePath.Names.{components-name_iff, not-starts_with}
use shakti.Error.{ok}
use shakti.Validate.{validate_username}
use shakti.Validate.Safe.{validate_username_iff}
use shakti.Timestamp.{tty_session_id, timestamp_name, timestamp_path, default_timestamp_dir}

-- The name of a session holds no slash.
session-Absent : (tty : Option Text) → Absent b'/' (tty_session_id tty)
unfolding tty_session_id
session-Absent none = unfold contains in refl
session-Absent (some name) = contains-replace _ b'/' b'-' (λ e. omega arith)

-- What stands before the session's name makes the whole no dot name.
colon-ne : (user suffix t : Text) → contains t b':' ≡ false → user ++ (codes ":" ++ suffix) ≢ t
colon-ne user suffix t h e = true≢false (
    sym (rw contains-append (unfold contains in or-true (contains user b':')))
    ∙ (ap (λ s. contains s b':') e ∙ h))

abbrev IsPlainName : Text → Type 0
IsPlainName s = Absent b'/' s × (s ≢ []) × (s ≢ codes ".") × (s ≢ codes "..")

user-IsPlainName : (user : Text) → validate_username user ≡ ok tt → IsPlainName user
user-IsPlainName user v = (components-name_iff user).0 ((validate_username_iff user).0 v).0

name-IsPlainName :
    (user : Text) (tty : Option Text)
    → validate_username user ≡ ok tt
    → IsPlainName (timestamp_name user tty)
unfolding timestamp_name
name-IsPlainName user tty v = elim (Bool-cases (is_empty (tty_session_id tty))) [
  | inl e ↦ rw e (user-IsPlainName user v)
  | inr e ↦ rw e (
    no_slash,
    colon-ne user (tty_session_id tty) [] (unfold contains in refl),
    colon-ne user (tty_session_id tty) (codes ".") (unfold contains in refl),
    colon-ne user (tty_session_id tty) (codes "..") (unfold contains in refl),
  )
]
  where
    no_slash : Absent b'/' (user ++ (codes ":" ++ tty_session_id tty))
    no_slash =
        rw contains-append
          (unfold contains in ground (arith, (user-IsPlainName user v).0, session-Absent tty))

join-name :
    (s : Text)
    → IsPlainName s
    → join_path default_timestamp_dir s ≡ default_timestamp_dir ++ b'/' ∷ s
unfolding join_path
join-name s p = rw (not-starts_with s p.0) (unfold text_eq in refl)

components-under :
    (s : Text)
    → IsPlainName s
    → components (default_timestamp_dir ++ b'/' ∷ s)
      ≡ components default_timestamp_dir ++ normal s ∷ []
unfolding components split pieces
components-under s p =
    rw (split_absent s b'/' p.0) (rw (piece-plain s p.1 p.2 p.3) (unfold piece in refl))

-- The timestamp of an accepted user name is a file of the timestamp directory itself, whatever the
-- terminal is called.
pub timestamp_path-inside :
    (user : Text) (tty : Option Text)
    → validate_username user ≡ ok tt
    → components (timestamp_path user tty)
      ≡ components default_timestamp_dir ++ normal (timestamp_name user tty) ∷ []
unfolding timestamp_path
timestamp_path-inside user tty v =
    let p = name-IsPlainName user tty v in
    rw (join-name (timestamp_name user tty) p) (components-under (timestamp_name user tty) p)

-- The part of the name before the colon is the user's.
before-name :
    (user : Text) (tty : Option Text)
    → contains user b':' ≡ false
    → before (timestamp_name user tty) b':' ≡ user
unfolding timestamp_name
before-name user tty h = elim (Bool-cases (is_empty (tty_session_id tty))) [
  | inl e ↦ rw e (before_absent user b':' h)
  | inr e ↦ rw e (before-append user (tty_session_id tty) b':' h)
]

empty-eq : (s : Text) → is_empty s ≡ true → s ≡ []
empty-eq [] h = refl
empty-eq (a ∷ s) h = cc

same_session :
    (user : Text) (a b : Option Text)
    → contains user b':' ≡ false
    → timestamp_name user a ≡ timestamp_name user b
    → tty_session_id a ≡ tty_session_id b
unfolding timestamp_name
same_session user a b h e = elim (Bool-cases (is_empty (tty_session_id a))) [
  | inl p ↦ elim (Bool-cases (is_empty (tty_session_id b))) [
    | inl q ↦ empty-eq (tty_session_id a) p ∙ sym (empty-eq (tty_session_id b) q)
    | inr q ↦ absurd (colon-ne user (tty_session_id b) user h (ground arith))
  ]
  | inr p ↦ elim (Bool-cases (is_empty (tty_session_id b))) [
    | inl q ↦ absurd (colon-ne user (tty_session_id a) user h (ground arith))
    | inr q ↦ append_cancel_left (codes ":") _ _ (append_cancel_left user _ _ (ground arith))
  ]
]

-- Two accepted users whose names hold no colon, at two terminals, share a timestamp only if they
-- are the same user in the same session.
pub timestamp_path-injective :
    (user other : Text) (a b : Option Text)
    → validate_username user ≡ ok tt
    → validate_username other ≡ ok tt
    → contains user b':' ≡ false
    → contains other b':' ≡ false
    → timestamp_path user a ≡ timestamp_path other b
    → (user ≡ other) × (tty_session_id a ≡ tty_session_id b)
unfolding timestamp_path
timestamp_path-injective user other a b v w h k e =
    let joined =
      sym (join-name (timestamp_name user a) (name-IsPlainName user a v))
      ∙ (e ∙ join-name (timestamp_name other b) (name-IsPlainName other b w)) in
    let names : timestamp_name user a ≡ timestamp_name other b =
      append_cancel_left slash _ _ (append_cancel_left default_timestamp_dir _ _ joined) in
    let same : user ≡ other =
      sym (before-name user a h) ∙ (ap (λ s. before s b':') names ∙ before-name other b k) in
    (same, same_session user a b h (names ∙ ap (λ u. timestamp_name u b) (sym same)))

-- The path is the directory's, a slash, and the name.
pub timestamp_path-below :
    (user : Text) (tty : Option Text)
    → validate_username user ≡ ok tt
    → timestamp_path user tty ≡ default_timestamp_dir ++ b'/' ∷ timestamp_name user tty
unfolding timestamp_path
timestamp_path-below user tty v = join-name (timestamp_name user tty) (name-IsPlainName user tty v)

-- A session decides the path, whatever else the terminal is called.
pub timestamp_path-session :
    (user : Text) (a b : Option Text)
    → tty_session_id a ≡ tty_session_id b
    → timestamp_path user a ≡ timestamp_path user b
unfolding timestamp_path timestamp_name
timestamp_path-session user a b e = rw e

normal_injective : (s t : Text) → ◌≡◌ {A = List Component} (normal s ∷ []) (normal t ∷ []) → s ≡ t
normal_injective s t e = cc

-- As paths, the timestamps of different users, or in different sessions, differ.
pub timestamp_path-apart :
    (user other : Text) (a b : Option Text)
    → validate_username user ≡ ok tt
    → validate_username other ≡ ok tt
    → contains user b':' ≡ false
    → contains other b':' ≡ false
    → ¬ ((user ≡ other) × (tty_session_id a ≡ tty_session_id b))
    → components (timestamp_path user a) ≢ components (timestamp_path other b)
timestamp_path-apart user other a b v w h k apart e =
    let last = sym (timestamp_path-inside user a v) ∙ (e ∙ timestamp_path-inside other b w) in
    let names : timestamp_name user a ≡ timestamp_name other b =
      normal_injective _ _ (List.append_cancel_left (components default_timestamp_dir) _ _ last) in
    apart (
      timestamp_path-injective user other a b v w h k (
        timestamp_path-below user a v
        ∙ (ap (λ n. default_timestamp_dir ++ b'/' ∷ n) names
            ∙ sym (timestamp_path-below other b w))))
