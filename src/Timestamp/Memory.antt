-- ===== src/Timestamp/Memory.antt =====
-- A file system in memory, for the calls that rust-old/src/timestamp.rs makes.
use shakti.Prelude.{
  ℕ, ◌+◌, ◌≡◌, ◌≢◌, refl, sym, ap, subst, ◌∷◌, ◌++◌, length, length-append, Bool-cases, inl, inr,
  true, false, Option, none, some, arith, if◌then◌else◌,
}
use shakti.Text.{Text, text_eq}
use shakti.Text.Laws.{text_eq_iff, text_eq_refl}
use shakti.FilePath.{components}
use shakti.Os.{Metadata}
use shakti.Timestamp.{TimestampFs}

pub record Disk : Type 0 where
  pub time : ℕ
  pub node : Text → Option Metadata

abbrev pub set_node : Disk → Text → Option Metadata → Disk
set_node d p m = record d { node = λ q. if text_eq q p then m else d.node q }

abbrev pub owner_of : Option Metadata → ℕ
owner_of none = 0
owner_of (some m) = m.uid

abbrev pub regular : ℕ → ℕ → ℕ → Metadata
regular owner mode time = record {
  is_file = true;
  is_dir = false;
  is_symlink = false;
  uid = owner;
  mode = mode;
  modified = time;
}

abbrev pub directory : ℕ → Metadata
directory time = record {
  is_file = false;
  is_dir = true;
  is_symlink = false;
  uid = 0;
  mode = 0o755;
  modified = time;
}

-- What `open` leaves, where it does not find a symbolic link.
abbrev pub opened : Disk → Text → ℕ → Disk
opened d p mode = set_node d p (some (regular (owner_of (d.node p)) mode d.time))

abbrev pub try_open : Disk → Text → ℕ → Option Metadata → Option Disk
try_open d p mode none = some (opened d p mode)
try_open d p mode (some m) = if m.is_symlink then none else some (opened d p mode)

abbrev pub try_remove : Disk → Text → Option Metadata → Option Disk
try_remove d p none = none
try_remove d p (some m) = some (set_node d p none)

pub set_node-same : (d : Disk) (p : Text) (m : Option Metadata) → (set_node d p m).node p ≡ m
set_node-same d p m = rw (text_eq_refl p)

pub try_open-opened :
    (d e : Disk) (p : Text) (mode : ℕ) (o : Option Metadata)
    → try_open d p mode o ≡ some e
    → opened d p mode ≡ e
try_open-opened d e p mode none h = cc
try_open-opened d e p mode (some m) h = ground arith

pub try_remove-gone :
    (d e : Disk) (p : Text) (o : Option Metadata)
    → try_remove d p o ≡ some e
    → set_node d p none ≡ e
try_remove-gone d e p none h = absurd (cc h)
try_remove-gone d e p (some m) h = cc

pub text_eq-ne : (s t : Text) → s ≢ t → text_eq s t ≡ false
text_eq-ne s t n = elim (Bool-cases (text_eq s t)) [
  | inl e ↦ absurd (n ((text_eq_iff s t).0 e))
  | inr e ↦ e
]

-- A path below another is not that other.
pub below-ne : (s t : Text) (a : ℕ) → s ++ a ∷ t ≢ s
below-ne s t a e = omega (arith, ap (length {A = ℕ}) e, length-append {0} s (a ∷ t))

pub set_node-ne :
    (d : Disk) (p q : Text) (m : Option Metadata) → q ≢ p → (set_node d p m).node q ≡ d.node q
set_node-ne d p q m n = rw (text_eq-ne q p n)

pub set_node-rest :
    (d e : Disk) (p q : Text) (m : Option Metadata)
    → set_node d p m ≡ e
    → q ≢ p
    → e.node q ≡ d.node q
set_node-rest d e p q m h n = subst (λ x. x.node q ≡ d.node q) h (set_node-ne d p q m n)

pub some-eq : (d e : Disk) → some d ≡ some e → d ≡ e
some-eq d e h = cc

-- Texts with other components are other texts.
pub spelled : (q p : Text) → components q ≢ components p → q ≢ p
spelled q p n e = n (ap components e)

abbrev pub memory : TimestampFs
memory = record {
  State = Disk;
  now = λ d. d.time;
  symlink_metadata = λ d p. d.node p;
  metadata = λ d p. d.node p;
  create_dir_all = λ d p. some (set_node d p (some (directory d.time)));
  set_permissions = λ d p mode. some d;
  open_trunc = λ d p mode. try_open d p mode (d.node p);
  remove_file = λ d p. try_remove d p (d.node p);
  wait = λ d n. record d { time = d.time + n };
  open-stat = λ d e p mode h.
      let r = try_open-opened d e p mode (d.node p) h in
      (
        regular (owner_of (d.node p)) mode d.time,
        subst (λ x. x.node p ≡ some (regular (owner_of (d.node p)) mode d.time)) r
            (set_node-same d p (some (regular (owner_of (d.node p)) mode d.time))),
        refl,
        ap (λ x. x.time) r,
        (λ a. ap owner_of a, λ old a. ap owner_of a),
      );
  remove-stat = λ d e p h.
      subst (λ x. x.node p ≡ none) (try_remove-gone d e p (d.node p) h) (set_node-same d p none);
  create-stat = λ d e dir name h.
      set_node-rest d e dir (dir ++ b'/' ∷ name) (some (directory d.time)) (some-eq _ e h)
        (below-ne dir name b'/');
  chmod-stat = λ d e dir name mode h. ap (λ x. x.node (dir ++ b'/' ∷ name)) (sym (some-eq d e h));
  open-rest = λ d e p q mode h n.
      set_node-rest d e p q (some (regular (owner_of (d.node p)) mode d.time))
        (try_open-opened d e p mode (d.node p) h) (spelled q p n);
  remove-rest = λ d e p q h n.
      set_node-rest d e p q none (try_remove-gone d e p (d.node p) h) (spelled q p n);
  wait-stat = λ d n p. refl;
  wait-now = λ d n. refl;
}
