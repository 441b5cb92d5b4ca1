-- ===== src/Progress/Record.antt =====
-- A whole FFmpeg record goes through progress_parser.c: `key=value` lines, the last with the key
-- `progress`.
use mathlib.Core.List.{append_assoc, append-nil}
use learn_apue.Base.{
  Option, ℕ, ◌+◌, ◌<◌, Bool, true, false, ◌||◌, List, [], ◌∷◌, ◌++◌, ◌≡◌, ◌≢◌, refl, ap, ◌∙◌, ◌==◌,
  arith, length, length-append,
}
use learn_apue.Base.Text.{
  NoneOf-append, Bytes, text, str_eq_iff, str_eq_refl, NoneOf, break_at-append, break_at_all,
  c_string,
}
use learn_apue.Progress.Stream.{consume_all-append, continue}
use learn_apue.Progress.{
  WorkerProgress, no_progress, Parser, State, Double, diagnose, next, set_field, parse_pair,
  parse_line, chomp, consume_byte, consume_all, set_line, copy_truncated, line_cap, consume,
}
use learn_apue.Status.{Status, ok, GwError, error_clear}

-- a byte that ends a line or a C string
abbrev pub ends_line : ℕ → Bool
ends_line c = c == b'\n' || c == 0

abbrev pub ends_key : ℕ → Bool
ends_key c = c == b'='

-- A line `key=value` that fits the buffer. It does not end in a carriage return.
pub record IsPair (key value : Bytes) : Type 0 where
  pub key_plain : NoneOf ends_line key
  pub value_plain : NoneOf ends_line value
  pub key_whole : NoneOf ends_key key
  pub no_return : chomp (key ++ b'=' ∷ value) ≡ key ++ b'=' ∷ value
  pub short : length (key ++ b'=' ∷ value) < line_cap

abbrev pub print_pair : Bytes → Bytes → Bytes
print_pair key value = (key ++ b'=' ∷ value) ++ b'\n' ∷ []

abbrev pub print_pairs : List (Bytes × Bytes) → Bytes
print_pairs [] = []
print_pairs ((key, value) ∷ pairs) = print_pair key value ++ print_pairs pairs

-- pairs that set fields, and do not end the record
abbrev pub AreFields : List (Bytes × Bytes) → Type 0
AreFields [] = Unit
AreFields ((key, value) ∷ pairs) = IsPair key value × (key ≢ text "progress") × AreFields pairs

NoneOf-zero : (s : Bytes) → NoneOf ends_line s → NoneOf (λ c. c == 0) s
NoneOf-zero [] h = tt
NoneOf-zero (c ∷ s) h = (ground arith, NoneOf-zero s h.1)

c_string_plain : (s : Bytes) → NoneOf ends_line s → c_string s ≡ s
unfolding c_string
c_string_plain s h = ap (λ p. p.0) (break_at_all (λ c. c == 0) s (NoneOf-zero s h))

pair-NoneOf : (key value : Bytes) → IsPair key value → NoneOf ends_line (key ++ b'=' ∷ value)
pair-NoneOf key value h =
    NoneOf-append ends_line key (b'=' ∷ value) h.key_plain (refl, h.value_plain)

module _ (strtod : Bytes → Double) where
  -- The bytes of a line collect in the buffer.
  consume_plain :
      (bytes : Bytes) (s : State)
      → NoneOf ends_line bytes
      → length s.parser.line + length bytes < line_cap
      → consume_all strtod bytes s ≡ (ok, set_line (s.parser.line ++ bytes) s)
  unfolding consume_all
  consume_plain [] s h k = rw append-nil
  consume_plain (c ∷ cs) s h k =
      let taken : consume_byte strtod c s ≡ next (set_line (s.parser.line ++ c ∷ []) s) =
        unfold consume_byte in ground arith in
      rw (taken, consume_all)
        (consume_plain cs (set_line (s.parser.line ++ c ∷ []) s) h.1
            (omega (arith, length-append s.parser.line (c ∷ [])))
          ∙ ap {B = Status × State} (λ l. (ok, set_line l s))
              (append_assoc s.parser.line (c ∷ []) cs))

  parse_line-pair :
      (key value : Bytes) (s : State)
      → IsPair key value
      → parse_line strtod (c_string (chomp (key ++ b'=' ∷ value))) s
        ≡ parse_pair strtod key (b'=' ∷ value) s
  unfolding parse_line
  parse_line-pair key value s h = rw h.no_return (
      rw (c_string_plain (key ++ b'=' ∷ value) (pair-NoneOf key value h))
        (rw (break_at-append ends_key key b'=' value h.key_whole refl)))

  consume_newline :
      (s : State)
      → consume_all strtod (b'\n' ∷ []) s
        ≡ (ok, set_line [] (parse_line strtod (c_string (chomp s.parser.line)) s))
  unfolding consume_all consume_byte
  consume_newline s = refl

  parse_pair-set_line :
      (key value line : Bytes) (s : State)
      → set_line [] (parse_pair strtod key value (set_line line s))
        ≡ set_line [] (parse_pair strtod key value s)
  unfolding parse_pair
  parse_pair-set_line key [] line s = refl
  parse_pair-set_line key (c ∷ value) line s = ground arith

  -- A line that is a pair is decoded at its end, and leaves the buffer empty.
  consume_pair :
      (key value : Bytes) (s : State)
      → s.parser.line ≡ []
      → IsPair key value
      → consume_all strtod (print_pair key value) s
        ≡ (ok, set_line [] (parse_pair strtod key (b'=' ∷ value) s))
  consume_pair key value s e h =
      let line = key ++ b'=' ∷ value in
      let fits : length s.parser.line + length line < line_cap =
        omega (arith, ap length e, h.short) in
      let whole : set_line (s.parser.line ++ line) s ≡ set_line line s =
        ap (λ l. set_line (l ++ line) s) e in
      consume_all-append strtod line (b'\n' ∷ []) s
      ∙ ap (λ r. continue strtod r (b'\n' ∷ []))
          (consume_plain line s (pair-NoneOf key value h) fits
            ∙ ap {B = Status × State} (λ t. (ok, t)) whole)
      ∙ consume_newline (set_line line s)
      ∙ ap {B = Status × State} (λ t. (ok, set_line [] t))
          (parse_line-pair key value (set_line line s) h)
      ∙ ap {B = Status × State} (λ t. (ok, t)) (parse_pair-set_line key (b'=' ∷ value) line s)

  -- the fields in order, each set by its pair
  abbrev pub set_fields : List (Bytes × Bytes) → WorkerProgress → WorkerProgress
  set_fields [] p = p
  set_fields ((key, value) ∷ pairs) p = set_fields pairs (set_field strtod key value p)

  abbrev with_current : WorkerProgress → State → State
  with_current p s = record s { parser = record { line = []; current = p } }

  field_pair :
      (key value : Bytes) (s : State)
      → key ≢ text "progress"
      → set_line [] (parse_pair strtod key (b'=' ∷ value) s)
        ≡ with_current (set_field strtod key value s.parser.current) s
  unfolding parse_pair
  field_pair key value s h = ground (arith, str_eq_iff key (text "progress"))

  progress_pair :
      (status : Bytes) (s : State)
      → set_line [] (parse_pair strtod (text "progress") (b'=' ∷ status) s) ≡ record {
        parser = record { line = []; current = no_progress };
        progress = record (s.parser.current) { status = copy_truncated 16 status };
        completed = true;
      }
  unfolding parse_pair
  progress_pair status s = rw (str_eq_refl (text "progress"))

  consume_fields :
      (pairs : List (Bytes × Bytes)) (s : State)
      → s.parser.line ≡ []
      → AreFields pairs
      → consume_all strtod (print_pairs pairs) s
        ≡ (ok, with_current (set_fields pairs s.parser.current) s)
  consume_fields [] s e h = unfold consume_all in ground arith
  consume_fields ((key, value) ∷ pairs) s e h =
      let p = set_field strtod key value s.parser.current in
      consume_all-append strtod (print_pair key value) (print_pairs pairs) s
      ∙ ap (λ r. continue strtod r (print_pairs pairs))
          (consume_pair key value s e h.0
            ∙ ap {B = Status × State} (λ t. (ok, t)) (field_pair key value s h.1))
      ∙ consume_fields pairs (with_current p s) refl h.2

  -- A record of `key=value` lines closed by a `progress` line, read by a parser between two lines,
  -- is published whole: the snapshot holds the fields as the lines set them in order, and the
  -- status; the parser starts the next record from zero, with an empty line.
  pub consume_record :
      (pairs : List (Bytes × Bytes)) (status : Bytes) (parser : Parser) (progress : WorkerProgress)
      (error : Option GwError)
      → parser.line ≡ []
      → AreFields pairs
      → IsPair (text "progress") status
      → consume strtod parser
          (print_pairs pairs ++ print_pair (text "progress") status)
          progress
          error
        ≡ (
          ok,
          record {
            parser = record { line = []; current = no_progress };
            progress = record (set_fields pairs parser.current) {
              status = copy_truncated 16 status;
            };
            completed = true;
          },
          error_clear error,
        )
  unfolding consume
  consume_record pairs status parser progress error e h k =
      let s : State = record { parser = parser; progress = progress; completed = false } in
      let mid : State = with_current (set_fields pairs parser.current) s in
      ap {B = Status × State × Option GwError} (λ r. (r.0, r.1, diagnose strtod r.0 error))
        (consume_all-append strtod (print_pairs pairs) (print_pair (text "progress") status) s
          ∙ ap (λ r. continue strtod r (print_pair (text "progress") status))
              (consume_fields pairs s e h)
          ∙ consume_pair (text "progress") status mid refl k
          ∙ ap {B = Status × State} (λ t. (ok, t)) (progress_pair status mid))
