-- ===== src/Cli/RoundTrip.antt =====
-- `parse_args` of rust-old/src/main.rs, and command lines that say given settings.
use shakti.Prelude.{◌≡◌, ◌∙◌, refl, Bool, true, false, List, [], ◌∷◌, ◌++◌, arith, if◌then◌else◌}
use shakti.Text.{Text, codes, text_eq, starts_with}
use shakti.Cli.{CliArgs, arguments, plain, word_of, nothing, parse_words, initial_args, parse_args}

abbrev flag_if : Bool → Text → List Text → List Text
flag_if b w ws = if b then w ∷ ws else ws

-- A command line that says the settings.
unfoldable pub render : CliArgs → List Text
render c =
    codes "-u"
    ∷ c.target_user
    ∷ codes "--policy"
    ∷ c.policy_path
    ∷ flag_if c.invalidate (codes "-k")
        (flag_if c.list (codes "--list") (flag_if c.check (codes "-c") (codes "--" ∷ c.command)))

abbrev set_flags : Bool → Bool → Bool → List Text → List Text
set_flags k l h ws = flag_if k (codes "-k") (flag_if l (codes "--list") (flag_if h (codes "-c") ws))

abbrev said : Text → Text → Bool → Bool → Bool → CliArgs
said user policy k l h = record {
  target_user = user;
  policy_path = policy;
  invalidate = k;
  list = l;
  check = h;
  command = [];
}

no_option : (w t : Text) → starts_with w (codes "-") ≡ false → text_eq w (b'-' ∷ t) ≡ false
unfolding text_eq starts_with
no_option [] t h = refl
no_option (a ∷ w) t h = ground arith

-- The flags are read one by one, whatever follows them.
settings :
    (user policy : Text) (k l h : Bool) (ws : List Text)
    → parse_words nothing (said user policy false false false) (set_flags k l h ws)
      ≡ parse_words nothing (said user policy k l h) ws
unfolding parse_words word_of text_eq starts_with
settings user policy true true true ws = refl
settings user policy true true false ws = refl
settings user policy true false true ws = refl
settings user policy true false false ws = refl
settings user policy false true true ws = refl
settings user policy false true false ws = refl
settings user policy false false true ws = refl
settings user policy false false false ws = refl

after_options :
    (user policy : Text) (ws : List Text)
    → parse_args (codes "-u" ∷ user ∷ codes "--policy" ∷ policy ∷ ws)
      ≡ parse_words nothing (said user policy false false false) ws
unfolding parse_args initial_args parse_words word_of text_eq starts_with
after_options user policy ws = refl

after_separator :
    (user policy : Text) (k l h : Bool) (command : List Text)
    → parse_words nothing (said user policy k l h) (codes "--" ∷ command)
      ≡ arguments (record (said user policy k l h) { command = command })
unfolding parse_words word_of text_eq starts_with
after_separator user policy k l h command = refl

-- Every combination of settings, and every command, also one that looks like options, can be said
-- on the command line and is read back as it was meant.
pub parse_args-render : (c : CliArgs) → parse_args (render c) ≡ arguments c
unfolding render
parse_args-render c =
    after_options c.target_user c.policy_path _
    ∙ (settings c.target_user c.policy_path c.invalidate c.list c.check (codes "--" ∷ c.command)
        ∙ after_separator c.target_user c.policy_path c.invalidate c.list c.check c.command)

not-dash : (w : Text) → starts_with w (codes "-") ≡ false → word_of w ≡ plain
unfolding word_of
not-dash w h = ground (
  arith,
  no_option w (codes "u") h,
  no_option w (codes "-user") h,
  no_option w (codes "p") h,
  no_option w (codes "-policy") h,
  no_option w (codes "k") h,
  no_option w (codes "-invalidate") h,
  no_option w (codes "l") h,
  no_option w (codes "-list") h,
  no_option w (codes "c") h,
  no_option w (codes "-check") h,
  no_option w (codes "h") h,
  no_option w (codes "-help") h,
  no_option w (codes "V") h,
  no_option w (codes "-version") h,
  no_option w (codes "-") h,
)

-- From the first word that begins with no dash on, everything is the command: no word after it is
-- read as an option.
pub parse_words-command :
    (c : CliArgs) (w : Text) (ws : List Text)
    → starts_with w (codes "-") ≡ false
    → parse_words nothing c (w ∷ ws) ≡ arguments (record c { command = c.command ++ (w ∷ ws) })
unfolding parse_words
parse_words-command c w ws h = rw (not-dash w h, parse_words)
