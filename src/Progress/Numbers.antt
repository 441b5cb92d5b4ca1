-- ===== src/Progress/Numbers.antt =====
-- `strtoull` and `strtoll` with base 10, and the tests that progress_parser.c makes of their
-- results: `parse_u64` and `parse_i64`.
pub mod Accepts
pub mod RoundTrip
use learn_apue.Base.{
  ℕ, zero, suc, ◌+◌, ◌-◌, ◌*◌, ◌%◌, ◌^◌, Bool, true, false, ◌||◌, ◌&&◌, [], ◌∷◌, Option, none, some,
  ◌==◌, leb, ltb, if◌then◌else◌,
}
use learn_apue.Base.Int.{ℤ, pos, negsuc}
use learn_apue.Base.Text.{Bytes}

-- `isspace` in the C locale
abbrev pub is_space : ℕ → Bool
is_space c = c == 32 || (leb 9 c && leb c 13)

abbrev pub is_digit : ℕ → Bool
is_digit c = leb b'0' c && leb c b'9'

unfoldable pub skip_spaces : Bytes → Bytes
skip_spaces [] = []
skip_spaces (c ∷ cs) = let rest = skip_spaces cs in if is_space c then rest else c ∷ cs

-- The digits from here on as a number that is not bounded yet, and the text behind them.
unfoldable pub read_digits : ℕ → Bytes → ℕ × Bytes
read_digits n [] = (n, [])
read_digits n (c ∷ cs) =
    let rest = read_digits (n * 10 + (c - 48)) cs in if is_digit c then rest else (n, c ∷ cs)

-- A sign, if any, and what follows it.
abbrev pub read_sign : Bytes → Bool × Bytes
read_sign [] = (false, [])
read_sign (c ∷ cs) =
    if c == b'-' then (true, cs) else if c == b'+' then (false, cs) else (false, c ∷ cs)

abbrev pub whole_number : Bool → Bytes → Option (Bool × ℕ)
whole_number negative [] = none
whole_number negative (c ∷ cs) =
    let (n, end) = read_digits 0 (c ∷ cs) in
    if is_digit c then (elim end [ [] ↦ some (negative, n) | _ ∷ _ ↦ none ]) else none

-- The sign and the magnitude of a text that is a number and nothing else: `end == value` and
-- `*end != '\0'` are refused.
unfoldable pub read_number : Bytes → Option (Bool × ℕ)
unfolding skip_spaces read_digits
read_number value =
    let (negative, rest) = read_sign (skip_spaces value) in whole_number negative rest

-- `strtoull` negates modulo 2^64; a magnitude out of range sets `errno`.
abbrev pub u64_of : Bool → ℕ → ℕ
u64_of true n = (2 ^ 64 - n) % 2 ^ 64
u64_of false n = n

abbrev pub i64_of : Bool → ℕ → ℤ
i64_of true zero = pos 0
i64_of true (suc n) = negsuc n
i64_of false n = pos n

abbrev pub in_u64 : Option (Bool × ℕ) → Option ℕ
in_u64 none = none
in_u64 (some (negative, n)) = if ltb n (2 ^ 64) then some (u64_of negative n) else none

abbrev pub in_i64 : Option (Bool × ℕ) → Option ℤ
in_i64 none = none
in_i64 (some (negative, n)) =
    if (if negative then leb n (2 ^ 63) else ltb n (2 ^ 63)) then some (i64_of negative n) else none

unfoldable pub parse_u64 : Bytes → Option ℕ
parse_u64 value = in_u64 (read_number value)

unfoldable pub parse_i64 : Bytes → Option ℤ
parse_i64 value = in_i64 (read_number value)
