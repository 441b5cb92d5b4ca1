-- ===== src/Progress.antt =====
-- The incremental parser of FFmpeg's progress output:
-- rk3588-media-gateway/src/monitor/progress_parser.c and include/gateway/progress_parser.h. The
-- part of `line` in use is a text, so `line_length` is its length. A `double` is its 64 bits; they
-- are read by `strtod`, a parameter, and only stored. The integers are read by `strtoull` and
-- `strtoll` of the C library, modelled in `Numbers`.
pub mod Numbers
pub mod Stream
pub mod Bounds
pub mod Record
use learn_apue.Base.{
  ℕ, zero, suc, ◌+◌, ◌-◌, ◌/◌, ◌%◌, ◌^◌, Bool, true, false, not, ◌||◌, ◌&&◌, List, [], ◌∷◌, ◌++◌,
  Option, none, some, ◌==◌, leb, if◌then◌else◌, length, take,
}
use learn_apue.Base.Int.{ℤ, pos}
use learn_apue.Base.Text.{Bytes, text, str_eq, break_at, c_string}
use learn_apue.Progress.Numbers.{parse_u64, parse_i64}
use learn_apue.Status.{Status, ok, overflow, GwError, error_set, error_clear}

pub record WorkerProgress : Type 0 where
  pub frame : ℕ  -- uint64_t
  pub fps : ℕ  -- the bits of a double
  pub bitrate : Bytes  -- char[32]
  pub out_time_us : ℤ  -- int64_t
  pub drop_frames : ℕ  -- uint64_t
  pub speed : ℕ  -- the bits of a double
  pub status : Bytes  -- char[16]

-- `memset` to zero
abbrev pub no_progress : WorkerProgress
no_progress = record {
  frame = 0;
  fps = 0;
  bitrate = [];
  out_time_us = pos 0;
  drop_frames = 0;
  speed = 0;
  status = [];
}

pub record Parser : Type 0 where
  pub line : Bytes
  pub current : WorkerProgress

unfoldable pub parser_init : Parser
parser_init = record { line = []; current = no_progress }

-- GW_PROGRESS_LINE_CAP
abbrev pub line_cap : ℕ
line_cap = 1024

-- What `strtod` returns: the value's bits, whether `errno` was set, and the text at `end`, or
-- `nothing` if it read no number (`end == value`).
pub data Double : Type 0 where
  nothing : Double
  number : ℕ → Bool → Bytes → Double

-- `isfinite` on the bits: the exponent is not all ones
abbrev pub is_finite : ℕ → Bool
is_finite bits = not (bits / 2 ^ 52 % 2048 == 2047)

abbrev pub accept_double : Double → Option ℕ
accept_double nothing = none
accept_double (number bits failed end) =
    if failed || not (is_finite bits) || (not (str_eq end []) && not (str_eq end (b'x' ∷ [])))
    then none
    else some bits

-- `output` keeps its value where the text is not accepted.
abbrev pub stored {ℓ} : {A : Type ℓ} → Option A → A → A
stored none old = old
stored (some new) old = new

unfoldable pub copy_truncated : ℕ → Bytes → Bytes
copy_truncated capacity source =
    if leb capacity (length source) then take (capacity - 1) source else source

-- The parser, the snapshot that the caller passed in, and whether a record was completed.
pub record State : Type 0 where
  pub parser : Parser
  pub progress : WorkerProgress
  pub completed : Bool

module _ (strtod : Bytes → Double) where
  parse_double_value : Bytes → Option ℕ
  parse_double_value value = accept_double (strtod value)

  -- The chain of `strcmp` on the key. Every key but `progress` sets a field of the record.
  unfoldable pub set_field : Bytes → Bytes → WorkerProgress → WorkerProgress
  unfolding parse_double_value
  set_field key value p =
      if str_eq key (text "frame")
      then record p { frame = stored (parse_u64 value) p.frame }
      else if str_eq key (text "fps")
      then record p { fps = stored (parse_double_value value) p.fps }
      else if str_eq key (text "bitrate")
      then record p { bitrate = copy_truncated 32 value }
      else if str_eq key (text "out_time_us")
      then record p { out_time_us = stored (parse_i64 value) p.out_time_us }
      else if str_eq key (text "drop_frames")
      then record p { drop_frames = stored (parse_u64 value) p.drop_frames }
      else if str_eq key (text "speed")
      then record p { speed = stored (parse_double_value value) p.speed }
      else p

  is_separator : ℕ → Bool
  is_separator c = c == b'='

  -- behind `strchr(line, '=')`
  unfoldable pub parse_pair : Bytes → Bytes → State → State
  parse_pair key [] s = s
  parse_pair key (_ ∷ value) s =
      let current = s.parser.current in
      if str_eq key (text "progress")
      then record {
        parser = record { line = s.parser.line; current = no_progress };
        progress = record current { status = copy_truncated 16 value };
        completed = true;
      }
      else record s {
        parser = record { line = s.parser.line; current = set_field key value current };
      }

  unfoldable pub parse_line : Bytes → State → State
  unfolding parse_pair is_separator
  parse_line line s = let (key, value) = break_at is_separator line in parse_pair key value s

-- The line without a carriage return at its end.
unfoldable pub chomp : Bytes → Bytes
chomp [] = []
chomp (c ∷ []) = if c == b'\r' then [] else c ∷ []
chomp (c ∷ d ∷ cs) = c ∷ chomp (d ∷ cs)

abbrev pub set_line : Bytes → State → State
set_line line s = record s { parser = record { line = line; current = s.parser.current } }

-- What the loop does with one byte: `none` is the return with an overflow.
pub data Step : Type 0 where
  next : State → Step
  too_long : State → Step

module _ (strtod : Bytes → Double) where
  unfoldable pub consume_byte : ℕ → State → Step
  unfolding chomp
  consume_byte c s =
      if c == b'\n'
      then next (set_line [] (parse_line strtod (c_string (chomp s.parser.line)) s))
      else if leb line_cap (length s.parser.line + 1)
      then too_long (set_line [] s)
      else next (set_line (s.parser.line ++ c ∷ []) s)

  -- The loop; the bytes behind an overlong line are not read.
  unfoldable pub consume_all : Bytes → State → Status × State
  consume_all [] s = (ok, s)
  consume_all (c ∷ cs) s = elim (consume_byte c s) [
    | next s' ↦ consume_all cs s'
    | too_long s' ↦ (overflow, s')
  ]

  abbrev pub diagnose : Status → Option GwError → Option GwError
  diagnose ok error = error_clear error
  diagnose other error = error_set error other (text "FFmpeg progress line exceeds 1023 bytes")

  unfoldable pub consume :
      Parser → Bytes → WorkerProgress → Option GwError → Status × State × Option GwError
  unfolding consume_all
  consume parser bytes progress error =
      let (status, s) =
        consume_all bytes (record { parser = parser; progress = progress; completed = false }) in
      (status, s, diagnose status error)
