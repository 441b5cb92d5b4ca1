-- ===== src/Supervisor/Stderr/Lines.antt =====
-- The lines that the buffer of supervisor.c makes of a worker's error output, however it is read.
use mathlib.Core.List.{append_assoc, append-nil}
use learn_apue.Base.{
  ℕ, suc, ◌+◌, ◌<◌, Bool, true, false, List, [], ◌∷◌, ◌++◌, ◌==◌, leb, if◌then◌else◌, length,
  length-append, map, ◌≡◌, refl, sym, ap, ◌∙◌, arith, Bool-cases, inl, inr,
}
use learn_apue.Base.Text.{Bytes, NoneOf, c_string}
use learn_apue.Progress.{chomp}
use learn_apue.Supervisor.Stderr.{
  LineBuffer, LogLine, overlong_omitted, stderr_line_cap, emit_line, empty_buffer, stderr_byte,
  consume_stderr, flush_stderr, drain,
}

abbrev pub is_newline : ℕ → Bool
is_newline c = c == b'\n'

abbrev pub concat : List Bytes → Bytes
concat [] = []
concat (piece ∷ pieces) = piece ++ concat pieces

-- Lines, each with its newline.
abbrev pub unlines : List Bytes → Bytes
unlines [] = []
unlines (line ∷ lines) = (line ++ b'\n' ∷ []) ++ unlines lines

abbrev pub AreLines : List Bytes → Type 0
AreLines [] = Unit
AreLines (line ∷ lines) = NoneOf is_newline line × AreLines lines

module _ (url : Bytes) where
  -- What is logged of a whole line, and of an unfinished one at the end.
  abbrev pub logged : Bytes → LogLine
  logged line =
      if leb stderr_line_cap (length line)
      then overlong_omitted
      else emit_line url (c_string (chomp line))

  abbrev pub logged_last : Bytes → List LogLine
  logged_last [] = []
  logged_last (c ∷ cs) =
      (if leb stderr_line_cap (length (c ∷ cs))
        then overlong_omitted
        else emit_line url (c_string (c ∷ cs)))
      ∷ []

  abbrev after : LineBuffer × List LogLine → Bytes → LineBuffer × List LogLine
  after (b, printed) more =
      let (b', printed') = consume_stderr url more b in (b', printed ++ printed')

  consume_stderr-append :
      (s t : Bytes) (b : LineBuffer)
      → consume_stderr url (s ++ t) b ≡ after (consume_stderr url s b) t
  unfolding consume_stderr
  consume_stderr-append [] t b = refl
  consume_stderr-append (c ∷ s) t b =
      let (b', printed) = stderr_byte url c b in
      rw (consume_stderr-append s t b') (
        ap {B = LineBuffer × List LogLine} (λ l. ((after (consume_stderr url s b') t).0, l))
          (sym (
            append_assoc printed (consume_stderr url s b').1
              (consume_stderr url t (consume_stderr url s b').0).1)))

  drain-concat :
      (pieces : List Bytes) (b : LineBuffer)
      → drain url pieces b
        ≡ (consume_stderr url (concat pieces) b).1
          ++ (flush_stderr url (consume_stderr url (concat pieces) b).0).1
  unfolding consume_stderr
  drain-concat [] b = refl
  drain-concat (piece ∷ pieces) b =
      let (b', printed) = consume_stderr url piece b in
      let rest = consume_stderr url (concat pieces) b' in
      rw consume_stderr-append (
        ap (λ l. printed ++ l) (drain-concat pieces b')
        ∙ sym (append_assoc printed rest.1 (flush_stderr url rest.0).1))

  consume_dropping :
      (s : Bytes)
      → NoneOf is_newline s
      → consume_stderr url s (record { held = []; dropping = true })
        ≡ (record { held = []; dropping = true }, [])
  unfolding consume_stderr stderr_byte
  consume_dropping [] h = refl
  consume_dropping (c ∷ s) h = rw (h.0, consume_dropping s h.1)

  consume_plain :
      (s held : Bytes)
      → NoneOf is_newline s
      → length held < stderr_line_cap
      → consume_stderr url s (record { held = held; dropping = false }) ≡ (
          if leb stderr_line_cap (length held + length s)
          then (record { held = []; dropping = true }, [])
          else (record { held = held ++ s; dropping = false }, []))
  unfolding consume_stderr stderr_byte
  consume_plain [] held h k = ground (arith, append-nil held)
  consume_plain (c ∷ s) held h k = elim (Bool-cases (leb stderr_line_cap (length held + 1))) [
    | inl full ↦
        let over : leb stderr_line_cap (length held + suc (length s)) ≡ true = ground arith in
        rw (h.0, full, over, consume_dropping s h.1)
    | inr fits ↦
        let rest =
          consume_plain s (held ++ c ∷ []) h.1 (ground (arith, length-append held (c ∷ []))) in
        rw (h.0, fits)
          (rest ∙ ground (arith, length-append held (c ∷ []), append_assoc held (c ∷ []) s))
  ]

  -- From an empty buffer.
  consume_over :
      (s : Bytes)
      → NoneOf is_newline s
      → leb stderr_line_cap (length s) ≡ true
      → consume_stderr url s empty_buffer ≡ (record { held = []; dropping = true }, [])
  consume_over s h over = ground (arith, consume_plain s [] h (omega arith))

  consume_fits :
      (s : Bytes)
      → NoneOf is_newline s
      → leb stderr_line_cap (length s) ≡ false
      → consume_stderr url s empty_buffer ≡ (record { held = s; dropping = false }, [])
  consume_fits s h fits = ground (arith, consume_plain s [] h (omega arith))

  consume_line :
      (line : Bytes)
      → NoneOf is_newline line
      → consume_stderr url (line ++ b'\n' ∷ []) empty_buffer ≡ (empty_buffer, logged line ∷ [])
  unfolding consume_stderr stderr_byte
  consume_line line h =
      consume_stderr-append line (b'\n' ∷ []) empty_buffer
      ∙ (elim (Bool-cases (leb stderr_line_cap (length line))) [
        | inl over ↦ rw (consume_over line h over, over) refl
        | inr fits ↦ rw (consume_fits line h fits, fits) refl
      ])

  abbrev flushed : LineBuffer × List LogLine → List LogLine
  flushed (b, printed) = printed ++ (flush_stderr url b).1

  last_line :
      (last : Bytes)
      → NoneOf is_newline last
      → flushed (consume_stderr url last empty_buffer) ≡ logged_last last
  unfolding flush_stderr
  last_line [] h = rw (consume_fits [] h refl) refl
  last_line (c ∷ cs) h = elim (Bool-cases (leb stderr_line_cap (length (c ∷ cs)))) [
    | inl over ↦ rw (consume_over (c ∷ cs) h over, over) refl
    | inr fits ↦ rw (consume_fits (c ∷ cs) h fits, fits) (ground arith)
  ]

  all_lines :
      (lines : List Bytes) (last : Bytes)
      → AreLines lines
      → NoneOf is_newline last
      → flushed (consume_stderr url (unlines lines ++ last) empty_buffer)
        ≡ map logged lines ++ logged_last last
  all_lines [] last h k = last_line last k
  all_lines (line ∷ lines) last h k =
      let more = unlines lines ++ last in
      ap (λ s. flushed (consume_stderr url s empty_buffer))
        (append_assoc (line ++ b'\n' ∷ []) (unlines lines) last)
      ∙ ap flushed (consume_stderr-append (line ++ b'\n' ∷ []) more empty_buffer)
      ∙ ap (λ r. flushed (after r more)) (consume_line line h.0)
      ∙ ap (λ l. logged line ∷ l) (all_lines lines last h.1 k)

  -- However the error output of a worker is read in pieces, each of its lines is logged by itself
  -- and in order: as its redacted text without a carriage return at its end, or as overlong from
  -- 4096 bytes on. The end of the output flushes what is left.
  pub drain_lines :
      (lines : List Bytes) (last : Bytes) (pieces : List Bytes)
      → AreLines lines
      → NoneOf is_newline last
      → concat pieces ≡ unlines lines ++ last
      → drain url pieces empty_buffer ≡ map logged lines ++ logged_last last
  drain_lines lines last pieces h k q =
      drain-concat pieces empty_buffer
      ∙ ap (λ s. flushed (consume_stderr url s empty_buffer)) q
      ∙ all_lines lines last h k
