-- ===== src/Cli/Logged.antt =====
-- The audit log around a run of rust-old/src/main.rs.
use shakti.Prelude.{◌≡◌, refl, sym, ap, ◌∙◌, true, List, [], ◌∷◌, ◌++◌, append_assoc, append-nil}
use shakti.Text.{Text, codes}
use shakti.Audit.{Surroundings, audit_line, command}
use shakti.Audit.File.{LogFs, surroundings, write_audit_file}
use shakti.Audit.File.Append.{
  Call, line_at, write_calls, lines_of, AllWritten, contents-write_calls,
}
use shakti.Invocation.{full_command}
use shakti.Cli.Guard.{run-IsGuarded}
use shakti.Error.{ok}
use shakti.Policy.{SudoPolicy}
use shakti.Api.{UserEntry}
use shakti.Account.{get_caller_username}
use shakti.Cli.Run.{
  launch_of, Launch, Event, printed, usage, version_line, cleared, masked, unmasked, asked, stamped,
  logged, tried, replaced, Machine, run,
}

-- The calls of `audit_log` among what a run does.
abbrev pub calls_of : List Event → List Call
calls_of [] = []
calls_of (logged action caller target cmd success reason ∷ es) =
    record { caller = caller; target = target; command = cmd } ∷ calls_of es
calls_of (printed lines ∷ es) = calls_of es
calls_of (usage ∷ es) = calls_of es
calls_of (version_line ∷ es) = calls_of es
calls_of (cleared ∷ es) = calls_of es
calls_of (masked ∷ es) = calls_of es
calls_of (unmasked ∷ es) = calls_of es
calls_of (asked events ∷ es) = calls_of es
calls_of (stamped ∷ es) = calls_of es
calls_of (tried l ∷ es) = calls_of es

calls_of-append : (xs ys : List Event) → calls_of (xs ++ ys) ≡ calls_of xs ++ calls_of ys
calls_of-append [] ys = refl
calls_of-append (logged action caller target cmd success reason ∷ xs) ys =
    ap (λ cs. record { caller = caller; target = target; command = cmd } ∷ cs)
      (calls_of-append xs ys)
calls_of-append (printed lines ∷ xs) ys = calls_of-append xs ys
calls_of-append (usage ∷ xs) ys = calls_of-append xs ys
calls_of-append (version_line ∷ xs) ys = calls_of-append xs ys
calls_of-append (cleared ∷ xs) ys = calls_of-append xs ys
calls_of-append (masked ∷ xs) ys = calls_of-append xs ys
calls_of-append (unmasked ∷ xs) ys = calls_of-append xs ys
calls_of-append (asked events ∷ xs) ys = calls_of-append xs ys
calls_of-append (stamped ∷ xs) ys = calls_of-append xs ys
calls_of-append (tried l ∷ xs) ys = calls_of-append xs ys

module _ (fs : LogFs) where
  open fs use {State, contents}

  -- The lines end with that of the last call, in the surroundings of some moment.
  lines_of-last :
      (s : State) (cs : List Call) (c : Call)
      → (earlier : Text) × (at : Surroundings) × (lines_of fs s (cs ++ c ∷ [])
          ≡ earlier ++ audit_line at c.caller c.target c.command)
  unfolding lines_of
  lines_of-last s [] c = ([], surroundings (fs.ambient s), append-nil (line_at fs s c))
  lines_of-last s (d ∷ cs) c =
      let t = (write_audit_file fs s d.caller d.target d.command).1 in
      let (earlier, at, e) = lines_of-last t cs c in
      (
        line_at fs s d ++ earlier,
        at,
        ap (λ x. line_at fs s d ++ x) e ∙ sym (append_assoc (line_at fs s d) earlier _),
      )

  -- The events of a run that ends with the record and the program.
  last_call :
      (events earlier : List Event) (caller target cmd : Text) (l : Launch)
      → events
        ≡ earlier ++ logged command caller target cmd true (codes "authorized") ∷ tried l ∷ []
      → calls_of events
        ≡ calls_of earlier ++ record { caller = caller; target = target; command = cmd } ∷ []
  last_call events earlier caller target cmd l e = ap calls_of e ∙ calls_of-append earlier _

  ends_with :
      (s : State) (cs before : List Call) (c : Call)
      → AllWritten fs s cs
      → cs ≡ before ++ c ∷ []
      → (earlier : Text) × (at : Surroundings) × (contents (write_calls fs s cs)
          ≡ contents s ++ (earlier ++ audit_line at c.caller c.target c.command))
  ends_with s cs before c w e =
      let (earlier, at, k) = lines_of-last s before c in
      (
        earlier,
        at,
        contents-write_calls fs s cs w ∙ ap (λ x. contents s ++ x) (ap (lines_of fs s) e ∙ k),
      )

  launched :
      (m : Machine) (policy : SudoPolicy) (caller target resolved : Text) (args : List Text)
      (entry : UserEntry) (l : Launch)
      → l ≡ launch_of m policy caller target resolved args entry
      → (l.user ≡ target) × (full_command l.path l.args ≡ full_command resolved args)
  unfolding launch_of
  launched m policy caller target resolved args entry l e =
      (ap (λ (k : Launch). k.user) e, ap (λ (k : Launch). full_command k.path k.args) e)

  -- A run that becomes a program has left, where the log could be written, the line of that
  -- program's command, with the caller and the target, as the last of the log, after what the log
  -- held before.
  pub run-last_line :
      (m : Machine) (words : List Text) (l : Launch) (s : State)
      → (run m words).answer ≡ replaced l
      → AllWritten fs s (calls_of (run m words).events)
      → (caller : Text) × (get_caller_username m.accounts ≡ ok caller)
        × (earlier : Text) × (at : Surroundings) × (contents
              (write_calls fs s (calls_of (run m words).events))
            ≡ contents s ++ (earlier ++ audit_line at caller l.user (full_command l.path l.args)))
  run-last_line m words l s h w =
      let g = run-IsGuarded m words l h in
      let o = g.commanded.obeyed in
      let (same_user, same_cmd) =
        launched m g.policy g.caller g.cli.target_user g.commanded.resolved g.commanded.args
          o.started.entry l o.started.is_launch in
      let (earlier, at, e) = ends_with s (calls_of (run m words).events) (calls_of o.earlier) _ w (
        last_call (run m words).events o.earlier g.caller g.cli.target_user
          (full_command g.commanded.resolved g.commanded.args) l o.audited) in
      (
        g.caller,
        g.is_caller,
        earlier,
        at,
        e
            ∙ ap (λ (p : Text × Text). contents s ++ (earlier ++ audit_line at g.caller p.0 p.1))
                (sym (λ i. (same_user i, same_cmd i))),
      )
