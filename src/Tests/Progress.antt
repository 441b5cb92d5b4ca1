-- ===== src/Tests/Progress.antt =====
-- A worker's progress output at concrete inputs: progress_parser.c.
use learn_apue.Base.{◌↔◌, none, ◌^◌, ◌≡◌, some, refl, true, [], ◌∷◌, ◌++◌, arith}
use learn_apue.Base.Decimal.{decimal}
use learn_apue.Base.Text.{Bytes, text}
use learn_apue.Progress.{no_progress, parser_init, Double, nothing, copy_truncated, chomp, consume}
use learn_apue.Progress.Bounds.{FitsState, consume-FitsState, parser_init-FitsState}
use learn_apue.Progress.Numbers.{parse_u64, read_number, skip_spaces, read_digits}
use learn_apue.Progress.Numbers.Accepts.{IsU64, parse_u64_iff}
use learn_apue.Base.Decimal.{decimal_digits}
use learn_apue.Progress.Record.{
  IsPair, AreFields, print_pairs, print_pair, set_fields, consume_record,
}
use learn_apue.Progress.Stream.{chained, consume-append}
use learn_apue.Status.{ok, error_clear}

abbrev pub no_double : Bytes → Double
no_double s = nothing

abbrev pub line : Bytes
line = text "frame=12\nprogress=continue\n"

-- a blank and a minus sign
abbrev below_zero : Bytes
below_zero = 32 ∷ b'-' ∷ b'2' ∷ []

parse_u64_iff_example :
    (parse_u64 below_zero ≡ some 18446744073709551614) ↔ IsU64 below_zero 18446744073709551614
parse_u64_iff_example = parse_u64_iff below_zero 18446744073709551614

below_zero_runs : parse_u64 below_zero ≡ some 18446744073709551614
unfolding parse_u64 read_number skip_spaces read_digits
below_zero_runs = refl

past_the_range : parse_u64 (decimal (2 ^ 64)) ≡ none
unfolding parse_u64 read_number skip_spaces read_digits decimal decimal_digits
past_the_range = refl

consume-append_example :
    consume no_double parser_init (text "frame=1" ++ text "2\nprogress=continue\n") no_progress none
    ≡ chained no_double
        (consume no_double parser_init (text "frame=1") no_progress none)
        (text "2\nprogress=continue\n")
consume-append_example =
    consume-append no_double parser_init (text "frame=1") (text "2\nprogress=continue\n")
      no_progress none

consume-FitsState_example : FitsState (consume no_double parser_init line no_progress none).1
consume-FitsState_example =
    consume-FitsState no_double parser_init line no_progress none parser_init-FitsState

abbrev key : Bytes
key = text "bitrate"

abbrev value : Bytes
value = text "2000kbits/s"

abbrev end_status : Bytes
end_status = text "end"

field-IsPair : IsPair key value
unfolding chomp text
field-IsPair = ground arith

status-IsPair : IsPair (text "progress") end_status
unfolding chomp text
status-IsPair = ground arith

fields-AreFields : AreFields ((key, value) ∷ [])
unfolding text
fields-AreFields = (field-IsPair, (λ e. ground arith), tt)

fresh_line : parser_init.line ≡ []
unfolding parser_init
fresh_line = refl

consume_record_example :
    consume no_double parser_init
      (print_pairs ((key, value) ∷ []) ++ print_pair (text "progress") end_status)
      no_progress
      none
    ≡ (
      ok,
      record {
        parser = record { line = []; current = no_progress };
        progress = record (set_fields no_double ((key, value) ∷ []) parser_init.current) {
          status = copy_truncated 16 end_status;
        };
        completed = true;
      },
      error_clear none,
    )
consume_record_example =
    consume_record no_double ((key, value) ∷ []) end_status parser_init no_progress none fresh_line
      fields-AreFields status-IsPair
