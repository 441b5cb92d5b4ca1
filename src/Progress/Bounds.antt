-- ===== src/Progress/Bounds.antt =====
-- The fixed buffers of progress_parser.c are never overrun, and its counters stay 64-bit numbers.
use learn_apue.Base.{
  ℕ, ◌^◌, ◌<◌, ◌-◌, length-append, false, [], ◌∷◌, Option, inl, inr, arith, length, length-take,
}
use learn_apue.Base.Text.{Bytes, c_string}
use learn_apue.Progress.Numbers.{parse_u64}
use learn_apue.Progress.Stream.{Step-cases}
use learn_apue.Progress.{
  WorkerProgress, no_progress, Parser, State, line_cap, Double, Step, next, too_long, stored,
  copy_truncated, set_field, parse_pair, parse_line, chomp, consume_byte, consume_all, consume,
  parser_init,
}
use learn_apue.Status.{GwError}

-- `char bitrate[32]`, `char status[16]` and the two `uint64_t`
pub record FitsProgress (p : WorkerProgress) : Type 0 where
  pub frame_fits : p.frame < 2 ^ 64
  pub bitrate_fits : length p.bitrate < 32
  pub drop_frames_fits : p.drop_frames < 2 ^ 64
  pub status_fits : length p.status < 16

-- `char line[1024]`, with room for the terminating zero
pub record FitsState (s : State) : Type 0 where
  pub line_fits : length s.parser.line < line_cap
  pub current_fits : FitsProgress s.parser.current
  pub progress_fits : FitsProgress s.progress

length-copy_truncated :
    (capacity : ℕ) (source : Bytes)
    → 0 < capacity
    → length (copy_truncated capacity source) < capacity
unfolding copy_truncated
length-copy_truncated capacity source h = ground (arith, length-take (capacity - 1) source)

stored-parse_u64 : (value : Bytes) (old : ℕ) → old < 2 ^ 64 → stored (parse_u64 value) old < 2 ^ 64
unfolding parse_u64
stored-parse_u64 value old h = ground arith

module _ (strtod : Bytes → Double) where
  set_field-FitsProgress :
      (key value : Bytes) (p : WorkerProgress)
      → FitsProgress p
      → FitsProgress (set_field strtod key value p)
  unfolding set_field
  set_field-FitsProgress key value p h = ground (
    arith,
    stored-parse_u64 value p.frame,
    stored-parse_u64 value p.drop_frames,
    length-copy_truncated 32 value,
  )

  parse_pair-FitsState :
      (key value : Bytes) (s : State) → FitsState s → FitsState (parse_pair strtod key value s)
  unfolding parse_pair
  parse_pair-FitsState key [] s h = h
  parse_pair-FitsState key (c ∷ value) s h = ground (
    arith,
    set_field-FitsProgress key value s.parser.current h.current_fits,
    length-copy_truncated 16 value,
  )

  parse_line-FitsState :
      (line : Bytes) (s : State) → FitsState s → FitsState (parse_line strtod line s)
  unfolding parse_line
  parse_line-FitsState line s h = parse_pair-FitsState _ _ s h

  abbrev FitsStep : Step → Type 0
  FitsStep (next s) = FitsState s
  FitsStep (too_long s) = FitsState s

  consume_byte-FitsState : (c : ℕ) (s : State) → FitsState s → FitsStep (consume_byte strtod c s)
  unfolding consume_byte
  consume_byte-FitsState c s h = ground (
    arith,
    parse_line-FitsState (c_string (chomp s.parser.line)) s h,
    length-append s.parser.line (c ∷ []),
  )

  consume_all-FitsState :
      (bytes : Bytes) (s : State) → FitsState s → FitsState (consume_all strtod bytes s).1
  unfolding consume_all
  consume_all-FitsState [] s h = h
  consume_all-FitsState (c ∷ cs) s h = elim (Step-cases (consume_byte strtod c s)) [
    | inl (s', q) ↦
        rw (q, consume_all) (consume_all-FitsState cs s' (rw q at (consume_byte-FitsState c s h)))
    | inr (s', q) ↦ rw (q, consume_all) (rw q at (consume_byte-FitsState c s h))
  ]

  -- From a state that fits its arrays, whatever bytes a read delivers, the partial line, the bit rate and the status stay within their
  -- arrays with a terminating zero, and the counters stay below 2^64.
  pub consume-FitsState :
      (parser : Parser) (bytes : Bytes) (progress : WorkerProgress) (error : Option GwError)
      → FitsState (record { parser = parser; progress = progress; completed = false })
      → FitsState (consume strtod parser bytes progress error).1
  unfolding consume
  consume-FitsState parser bytes progress error h = consume_all-FitsState bytes _ h

-- A parser that has been set up fits its buffers.
pub parser_init-FitsState :
    FitsState (record { parser = parser_init; progress = no_progress; completed = false })
unfolding parser_init
parser_init-FitsState = ground arith
