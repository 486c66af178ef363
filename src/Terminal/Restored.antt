-- ===== src/Terminal/Restored.antt =====
-- The settings of the terminal around `read_password` of rust-old/src/main.rs, and while it reads.
use shakti.Prelude.{
  ◌≡◌, ◌⊎◌, refl, sym, ap, ◌∙◌, inl, inr, Option, none, some, List, [], ◌∷◌, ◌++◌, arith,
  Option-cases,
}
use shakti.Text.{Text}
use shakti.Error.{Result}
use shakti.Terminal.{password_of, Terminal, guard_of, silence, drop_guard, read_password}

-- The three ways through `read_password`.
module _ (term : Terminal) where
  open term use {State, Termios, remove_echo, tcgetattr, tcsetattr, next_line}

  read_plain :
      (s : State)
      → tcgetattr s ≡ none
      → read_password term s ≡ (password_of (next_line s).0, (next_line s).1)
  unfolding read_password silence guard_of drop_guard
  read_plain s e = rw (e, read_password, silence) refl

  read_loud :
      (s : State) (a : Termios)
      → tcgetattr s ≡ some a
      → tcsetattr s (remove_echo a) ≡ none
      → read_password term s ≡ (password_of (next_line s).0, (next_line s).1)
  unfolding read_password silence guard_of drop_guard
  read_loud s a e f = rw (e, f, read_password, silence, guard_of) refl

  read_quiet :
      (s t : State) (a : Termios)
      → tcgetattr s ≡ some a
      → tcsetattr s (remove_echo a) ≡ some t
      → read_password term s
        ≡ (password_of (next_line t).0, drop_guard term (some a) (next_line t).1)
  unfolding read_password silence guard_of
  read_quiet s t a e f = rw (e, f, read_password, silence, guard_of) refl

module _ (term : Terminal) where
  open term use {
    State, Termios, remove_echo, tcgetattr, tcsetattr, next_line, set-get, next_line-get,
  }

  -- A terminal with a list of the settings that it had each time a line was read.
  abbrev pub Watched : Type 0
  Watched = State × List (Option Termios)

  abbrev pub with_list : List (Option Termios) → Option State → Option Watched
  with_list seen none = none
  with_list seen (some t) = some (t, seen)

  pub with_list-some :
      (o : Option State) (seen : List (Option Termios)) (q : Watched)
      → with_list seen o ≡ some q
      → o ≡ some q.0
  with_list-some none seen q h = absurd (cc h)
  with_list-some (some t) seen q h = cc h

  -- The same terminal, watched.
  abbrev pub watched : Terminal
  watched = record {
    State = Watched;
    Termios = Termios;
    remove_echo = remove_echo;
    tcgetattr = λ p. tcgetattr p.0;
    tcsetattr = λ p a. with_list p.1 (tcsetattr p.0 a);
    next_line = λ p. ((next_line p.0).0, ((next_line p.0).1, p.1 ++ tcgetattr p.0 ∷ []));
    set-get = λ p q a h. set-get p.0 q.0 a (with_list-some (tcsetattr p.0 a) p.1 q h);
    next_line-get = λ p. next_line-get p.0;
  }

  -- One line was read, with the echo off, or with the settings as they were where it could not be
  -- turned off.
  abbrev pub ReadQuietly : State → Termios → List (Option Termios) → Type 0
  ReadQuietly s a seen =
      (seen ≡ some (remove_echo a) ∷ [])
      ⊎ ((tcsetattr s (remove_echo a) ≡ none) × (seen ≡ some a ∷ []))

  -- The guard does not read.
  drop-list : (guard : Option Termios) (p : Watched) → (drop_guard watched guard p).1 ≡ p.1
  unfolding drop_guard
  drop-list none p = refl
  drop-list (some a) p = elim (Option-cases (tcsetattr p.0 a)) [
    | inl f ↦ rw (f, drop_guard) refl
    | inr (u, f) ↦ rw (f, drop_guard) refl
  ]

  drop-state :
      (guard : Option Termios) (p : Watched)
      → (drop_guard watched guard p).0 ≡ drop_guard term guard p.0
  unfolding drop_guard
  drop-state none p = refl
  drop-state (some a) p = elim (Option-cases (tcsetattr p.0 a)) [
    | inl f ↦ rw (f, drop_guard) refl
    | inr (u, f) ↦ rw (f, drop_guard) refl
  ]

  seen_quietly :
      (s : State) (a : Termios)
      → tcgetattr s ≡ some a
      → ReadQuietly s a (read_password watched (s, [])).1.1
  seen_quietly s a e = elim (Option-cases (tcsetattr s (remove_echo a))) [
    | inl f ↦ inr (
      f,
      ap (λ (r : Result Text × Watched). r.1.1)
            (read_loud watched (s, []) a e (ap (with_list []) f))
          ∙ ap (λ o. o ∷ []) e,
    )
    | inr (t, f) ↦ inl (
        ap (λ (r : Result Text × Watched). r.1.1)
          (read_quiet watched (s, []) (t, []) a e (ap (with_list []) f))
        ∙ (drop-list (some a) ((next_line t).1, tcgetattr t ∷ [])
            ∙ ap (λ o. o ∷ []) (set-get s t (remove_echo a) f)))
  ]

  -- What is read from the terminal, and the terminal after it.
  abbrev pub unwatched : Result Text × Watched → Result Text × State
  unwatched r = (r.0, r.1.0)

  -- Watching changes nothing.
  same_read : (s : State) → unwatched (read_password watched (s, [])) ≡ read_password term s
  same_read s = elim (Option-cases (tcgetattr s)) [
    | inl e ↦ ap unwatched (read_plain watched (s, []) e) ∙ sym (read_plain term s e)
    | inr (a, e) ↦ elim (Option-cases (tcsetattr s (remove_echo a))) [
      | inl f ↦
          ap unwatched (read_loud watched (s, []) a e (ap (with_list []) f))
          ∙ sym (read_loud term s a e f)
      | inr (t, f) ↦
          ap unwatched (read_quiet watched (s, []) (t, []) a e (ap (with_list []) f))
          ∙ (ap (λ w. (password_of (next_line t).0, w))
                (drop-state (some a) ((next_line t).1, tcgetattr t ∷ []))
              ∙ sym (read_quiet term s t a e f))
    ]
  ]

  restored :
      (s : State) (a : Termios)
      → tcgetattr s ≡ some a
      → ((t : State) → (u : State) × (tcsetattr t a ≡ some u))
      → tcgetattr (read_password term s).1 ≡ some a
  unfolding read_password silence guard_of drop_guard
  restored s a e can = elim (Option-cases (tcsetattr s (remove_echo a))) [
    | inl f ↦ ground (arith, next_line-get s)
    | inr (t, f) ↦ let (u, g) = can (next_line t).1 in ground (arith, set-get (next_line t).1 u a g)
  ]

  -- On a terminal whose settings can be read and can always be set back, they are after a password
  -- what they were before, whether the line was read or not. Watched on the way, one line is read,
  -- while the echo is off, unless turning it off fails; and being watched changes neither what is
  -- read nor the terminal after it.
  pub read_password-restores :
      (s : State) (a : Termios)
      → tcgetattr s ≡ some a
      → ((t : State) → (u : State) × (tcsetattr t a ≡ some u))
      → (tcgetattr (read_password term s).1 ≡ some a)
        × ReadQuietly s a (read_password watched (s, [])).1.1
        × (unwatched (read_password watched (s, [])) ≡ read_password term s)
  read_password-restores s a e can = (restored s a e can, seen_quietly s a e, same_read s)
