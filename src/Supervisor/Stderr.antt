-- ===== src/Supervisor/Stderr.antt =====
-- The error output of a worker, line by line, in rk3588-media-gateway/src/channel/supervisor.c: the
-- line buffer, and the redaction of the source URL in what is logged. The log is the list of the
-- lines printed on standard error.
pub mod Redaction
pub mod Lines
use learn_apue.Base.{
  ℕ, zero, suc, ◌+◌, Bool, true, false, not, List, [], ◌∷◌, ◌++◌, Option, none, some, ◌==◌, leb,
  if◌then◌else◌, length, drop,
}
use learn_apue.Base.Text.{Bytes, strstr, c_string}
use learn_apue.Config.{url_cap}
use learn_apue.Config.Redact.{redact_url}
use learn_apue.Progress.{chomp}
use learn_apue.Status.{Status, ok}

-- STDERR_LINE_CAP
abbrev pub stderr_line_cap : ℕ
stderr_line_cap = 4096

-- `stderr_line_buffer`; the part of `data` in use, `held`, is a text, and `length` its length.
pub record LineBuffer : Type 0 where
  pub held : Bytes  -- data
  pub dropping : Bool

-- What is printed behind `channel=... worker_stderr=`: a text, or that a line is left out.
pub data LogLine : Type 0 where
  shown : Bytes → LogLine
  line_omitted overlong_omitted : LogLine
  endless : LogLine  -- the loop over the occurrences does not end

unfoldable pub append_text : ℕ → Bytes → Bytes → Option Bytes
append_text capacity output s =
    if leb capacity (length output + length s) then none else some (output ++ s)

-- The two `append_text` for an occurrence: the text before it, and the redacted URL.
abbrev pub append_both : ℕ → Bytes → Bytes → Bytes → Option Bytes
append_both capacity output before redacted_url = elim (append_text capacity output before) [
  | none ↦ none
  | some output' ↦ append_text capacity output' redacted_url
]

abbrev pub show_result : Option Bytes → LogLine
show_result none = line_omitted
show_result (some output) = shown output

-- The loop over the occurrences of the URL in what is left of the line.
unfoldable pub redact_occurrences : ℕ → Bytes → Bytes → Bytes → Bytes → LogLine
redact_occurrences zero url redacted_url cursor output = endless
redact_occurrences (suc fuel) url redacted_url cursor output = elim (strstr url cursor) [
  | none ↦ show_result (append_text stderr_line_cap output cursor)
  | some (before, found) ↦ elim (append_both stderr_line_cap output before redacted_url) [
    | none ↦ line_omitted
    | some output' ↦ redact_occurrences fuel url redacted_url (drop (length url) found) output'
  ]
]

abbrev pub with_redacted : Bytes → Bytes → Status × Bytes → LogLine
with_redacted line url (ok, redacted_url) =
    redact_occurrences (suc (length line)) url redacted_url line []
with_redacted line url (_, redacted_url) = line_omitted

-- `emit_stderr_line`, with `redact_source_url`
unfoldable pub emit_line : Bytes → Bytes → LogLine
emit_line url line = with_redacted line url (redact_url url [] url_cap)

abbrev pub empty_buffer : LineBuffer
empty_buffer = record { held = []; dropping = false }

module _ (url : Bytes) where
  -- One byte: the buffer it leaves, and what it prints.
  unfoldable pub stderr_byte : ℕ → LineBuffer → LineBuffer × List LogLine
  stderr_byte c b =
      if b.dropping
      then (if c == b'\n' then (record b { dropping = false }, overlong_omitted ∷ []) else (b, []))
      else if c == b'\n'
      then (record b { held = [] }, emit_line url (c_string (chomp b.held)) ∷ [])
      else if leb stderr_line_cap (length b.held + 1)
      then (record { held = []; dropping = true }, [])
      else (record b { held = b.held ++ c ∷ [] }, [])

  unfoldable pub consume_stderr : Bytes → LineBuffer → LineBuffer × List LogLine
  consume_stderr [] b = (b, [])
  consume_stderr (c ∷ cs) b =
      let (b', printed) = stderr_byte c b in
      let (b'', more) = consume_stderr cs b' in (b'', printed ++ more)

  unfoldable pub flush_stderr : LineBuffer → LineBuffer × List LogLine
  flush_stderr b = (
    empty_buffer,
    if b.dropping
        then overlong_omitted ∷ []
        else if not (length b.held == 0)
        then emit_line url (c_string b.held) ∷ []
        else [],
  )

  -- A stream read in pieces, and flushed at its end.
  abbrev pub drain : List Bytes → LineBuffer → List LogLine
  drain [] b = (flush_stderr b).1
  drain (piece ∷ pieces) b =
      let (b', printed) = consume_stderr piece b in printed ++ drain pieces b'
