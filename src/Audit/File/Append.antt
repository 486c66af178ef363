-- ===== src/Audit/File/Append.antt =====
-- What the log of rust-old/src/audit.rs holds after some calls of `audit_log`.
use shakti.Prelude.{
  ◌≡◌, false, sym, ap, ◌∙◌, inl, inr, true, List, [], ◌∷◌, ◌++◌, append-nil, append_assoc, arith,
  Option-cases,
}
use shakti.Text.{Text}
use shakti.Audit.{audit_line}
use shakti.Audit.File.{LogFs, surroundings, write_audit_file}

-- The arguments of a call that reach the file.
pub record Call : Type 0 where
  pub caller : Text
  pub target : Text
  pub command : Text

module _ (fs : LogFs) where
  open fs use {
    State, ambient, contents, open_append, write_all, open-contents, write_ok-contents,
    write_err-contents,
  }

  abbrev pub line_at : State → Call → Text
  line_at s c = audit_line (surroundings (ambient s)) c.caller c.target c.command

  -- The calls, one after the other; whether each wrote its line.
  unfoldable pub write_calls : State → List Call → State
  write_calls s [] = s
  write_calls s (c ∷ cs) = write_calls (write_audit_file fs s c.caller c.target c.command).1 cs

  -- The lines of the calls, each with the surroundings of its moment.
  unfoldable pub lines_of : State → List Call → Text
  lines_of s [] = []
  lines_of s (c ∷ cs) =
      line_at s c ++ lines_of (write_audit_file fs s c.caller c.target c.command).1 cs

  -- Every call gets its line written.
  abbrev pub AllWritten : State → List Call → Type 0
  AllWritten s [] = Unit
  AllWritten s (c ∷ cs) =
      ((write_audit_file fs s c.caller c.target c.command).0 ≡ true)
      × AllWritten (write_audit_file fs s c.caller c.target c.command).1 cs

  write-line :
      (s : State) (c : Call)
      → (write_audit_file fs s c.caller c.target c.command).0 ≡ true
      → contents (write_audit_file fs s c.caller c.target c.command).1 ≡ contents s ++ line_at s c
  unfolding write_audit_file
  write-line s c h = elim (Option-cases (open_append s)) [
    | inl e ↦ absurd (ground arith)
    | inr (t, e) ↦
        rw (e, write_audit_file)
          (write_ok-contents t (write_all t (line_at s c)).1 (line_at s c)
              (ap (λ b. (b, (write_all t (line_at s c)).1)) (rw (e, write_audit_file) at h))
            ∙ ap (λ x. x ++ line_at s c) (open-contents s t e))
  ]

  -- What the calls add: for each its line, whole where it was written, and a beginning of it, which may
  -- be nothing, where it was not.
  pub data Added : State → List Call → Text → Type 0 where
    nothing : {s : State} → Added s [] []
    whole :
        {s : State} {c : Call} {cs : List Call} {more : Text}
        → (write_audit_file fs s c.caller c.target c.command).0 ≡ true
        → Added (write_audit_file fs s c.caller c.target c.command).1 cs more
        → Added s (c ∷ cs) (line_at s c ++ more)
    part :
        {s : State} {c : Call} {cs : List Call} {more : Text} (begun rest : Text)
        → (write_audit_file fs s c.caller c.target c.command).0 ≡ false
        → line_at s c ≡ begun ++ rest
        → Added (write_audit_file fs s c.caller c.target c.command).1 cs more
        → Added s (c ∷ cs) (begun ++ more)

  -- Where every line is written, the log grows by the lines of the calls, in order.
  pub contents-write_calls :
      (s : State) (cs : List Call)
      → AllWritten s cs
      → contents (write_calls s cs) ≡ contents s ++ lines_of s cs
  unfolding write_calls lines_of
  contents-write_calls s [] h = sym (append-nil (contents s))
  contents-write_calls s (c ∷ cs) h =
      let t = (write_audit_file fs s c.caller c.target c.command).1 in
      contents-write_calls t cs h.1
      ∙ (ap (λ x. x ++ lines_of t cs) (write-line s c h.0)
          ∙ append_assoc (contents s) (line_at s c) (lines_of t cs))
