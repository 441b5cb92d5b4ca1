-- ===== src/Tests/Stderr.antt =====
-- A worker's error output at concrete inputs: supervisor.c.
use learn_apue.Base.{◌≡◌, ◌≢◌, refl, List, [], ◌∷◌, ◌++◌, arith, map}
use learn_apue.Base.Text.{Bytes, text, strstr, break_at}
use learn_apue.Config.{url_cap}
use learn_apue.Config.Redact.{redact_url}
use learn_apue.Status.{ok}
use learn_apue.Supervisor.Stderr.{
  empty_buffer, emit_line, drain, redact_occurrences, append_text, shown,
}
use learn_apue.Supervisor.Stderr.Lines.{AreLines, logged, logged_last, drain_lines}
use learn_apue.Supervisor.Stderr.Redaction.{IsCut, joined, fitted, emit_line_redacts}

abbrev source : Bytes
source = text "rtsp://u:p@h/x"

abbrev source_shown : Bytes
source_shown = text "rtsp://u:***@h/x"

source-redact_url : redact_url source [] url_cap ≡ (ok, source_shown)
unfolding redact_url text strstr break_at
source-redact_url = refl

source_given : source ≢ []
unfolding text
source_given e = ground arith

emit_line_redacts_example :
    (parts : List Bytes) × (rest : Bytes) × IsCut source
      (text "open rtsp://u:p@h/x failed")
      parts
      rest
    × (emit_line source (text "open rtsp://u:p@h/x failed")
        ≡ fitted (joined source_shown parts rest))
emit_line_redacts_example =
    emit_line_redacts source source_shown (text "open rtsp://u:p@h/x failed") source_given
      source-redact_url

emitted :
    emit_line source (text "open rtsp://u:p@h/x failed")
    ≡ shown (text "open rtsp://u:***@h/x failed")
unfolding emit_line redact_url text strstr break_at redact_occurrences append_text
emitted = refl

-- one line, and an unfinished one, in three pieces
abbrev first_line : Bytes
first_line = b'a' ∷ b'b' ∷ []

abbrev pieces : List Bytes
pieces = (b'a' ∷ []) ∷ (b'b' ∷ b'\n' ∷ b'c' ∷ []) ∷ (b'd' ∷ []) ∷ []

first-AreLines : AreLines (first_line ∷ [])
first-AreLines = ground arith

drain_lines_example :
    drain source pieces empty_buffer
    ≡ map (logged source) (first_line ∷ []) ++ logged_last source (b'c' ∷ b'd' ∷ [])
drain_lines_example =
    drain_lines source (first_line ∷ []) (b'c' ∷ b'd' ∷ []) pieces first-AreLines (ground arith)
      refl
