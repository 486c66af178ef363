-- ===== src/Terminal.antt =====
-- rust-old/src/main.rs: `read_password` and `EchoGuard`. The terminal is an interface: the calls, and
-- what is documented of them.
pub mod Restored
use shakti.Prelude.{◌≡◌, Option, none, some, []}
use shakti.Text.{Text}
use shakti.Error.{Result, ok, err, read_failed}

-- What `lines().next()` gives: nothing at the end of the input, an error, or a line.
pub data Line : Type 0 where
  end_of_input : Line
  failed_line : Line
  line : Text → Line

pub record Terminal : Type 1 where
  pub State : Type 0
  pub Termios : Type 0
  -- `local_flags.remove(LocalFlags::ECHO)`
  pub remove_echo : Termios → Termios
  -- `none`: the call fails, as on an input that is no terminal.
  pub tcgetattr : State → Option Termios
  pub tcsetattr : State → Termios → Option State
  pub next_line : State → Line × State
  pub set-get : (s t : State) (a : Termios) → tcsetattr s a ≡ some t → tcgetattr t ≡ some a
  -- Reading a line leaves the settings as they are.
  pub next_line-get : (s : State) → tcgetattr (next_line s).1 ≡ tcgetattr s

-- `lines().next().unwrap_or(Ok(String::new()))?`
unfoldable pub password_of : Line → Result Text
password_of end_of_input = ok []
password_of failed_line = err read_failed
password_of (line s) = ok s

module _ (term : Terminal) where
  open term use {State, Termios, remove_echo, tcgetattr, tcsetattr, next_line}

  -- `if tcsetattr(..).is_ok() { Some(EchoGuard { original }) } else { None }`
  unfoldable pub guard_of : State → Termios → Option Termios × State
  guard_of s original = elim (tcsetattr s (remove_echo original)) [
    | none ↦ (none, s)
    | some t ↦ (some original, t)
  ]

  -- The guard that `read_password` makes, and the terminal after it.
  unfoldable pub silence : State → Option Termios × State
  silence s = elim (tcgetattr s) [ none ↦ (none, s) | some original ↦ guard_of s original ]

  -- `EchoGuard::drop`: an error is ignored.
  unfoldable pub drop_guard : Option Termios → State → State
  drop_guard guard s = elim guard [
    | none ↦ s
    | some original ↦ elim (tcsetattr s original) [ none ↦ s | some t ↦ t ]
  ]

  -- The guard is dropped on both ways out: where the line cannot be read, and after it was.
  unfoldable pub read_password : State → Result Text × State
  read_password s =
      let (guard, quiet) = silence s in
      let (read, after) = next_line quiet in (password_of read, drop_guard guard after)
