-- ===== src/Metrics/Proc.antt =====
-- The texts of /proc that rk3588-media-gateway/src/monitor/process_metrics.c reads: the processor time in
-- `stat` and the resident size in `status`. The texts are those before the terminating zero, and
-- the results are not null.
pub mod Stat
use learn_apue.Base.{
  ℕ, zero, suc, ◌+◌, ◌-◌, ◌^◌, Bool, true, false, not, ◌&&◌, ◌||◌, [], ◌∷◌, Option, none, some,
  ◌==◌, leb, ltb, if◌then◌else◌, length,
}
use learn_apue.Base.Int.{ℤ, pos, negsuc}
use learn_apue.Base.Text.{Bytes, text, starts_with, break_at}
use learn_apue.Progress.Numbers.{is_digit, skip_spaces, read_digits, read_sign, u64_of}

infixl 5 ◌>>=◌
abbrev pub ◌>>=◌ {ℓ κ} : {A : Type ℓ} {B : Type κ} → Option A → (A → Option B) → Option B
none >>= f = none
some a >>= f = f a

-- `strrchr`: what follows the last such byte.
unfoldable pub after_last : ℕ → Bytes → Option Bytes
after_last c [] = none
after_last c (x ∷ xs) =
    let later = after_last c xs in
    elim later [ some rest ↦ some rest | none ↦ if x == c then some xs else none ]

-- The sign, the magnitude and the rest of a number as `strtoll` and `strtoull` read it, or `none`
-- where `end == cursor`.
abbrev pub digits_of : Bool → Bytes → Option (Bool × ℕ × Bytes)
digits_of negative [] = none
digits_of negative (c ∷ cs) =
    let (n, rest) = read_digits 0 (c ∷ cs) in if is_digit c then some (negative, n, rest) else none

unfoldable pub strto : Bytes → Option (Bool × ℕ × Bytes)
strto s = let (negative, rest) = read_sign (skip_spaces s) in digits_of negative rest

-- `while (*cursor == ' ')`
unfoldable pub skip_blanks : Bytes → Bytes
skip_blanks [] = []
skip_blanks (c ∷ cs) = let rest = skip_blanks cs in if c == 32 then rest else c ∷ cs

-- `*cursor == '\0' || *cursor == '\n'`
abbrev pub at_end : Bytes → Bool
at_end [] = true
at_end (c ∷ cs) = c == 10

-- `*end == ' ' || *end == '\n' || *end == '\0'`
abbrev pub ends_field : Bytes → Bool
ends_field [] = true
ends_field (c ∷ cs) = c == 32 || c == 10

-- Whether `strtoll` leaves `errno` alone.
abbrev pub fits_i64 : Bool → ℕ → Bool
fits_i64 negative n = if negative then leb n (2 ^ 63) else ltb n (2 ^ 63)

abbrev pub end_signed : Option (Bool × ℕ × Bytes) → Option Bytes
end_signed none = none
end_signed (some (negative, n, rest)) =
    if fits_i64 negative n && ends_field rest then some rest else none

abbrev pub end_unsigned : Option (Bool × ℕ × Bytes) → Option (ℕ × Bytes)
end_unsigned none = none
end_unsigned (some (negative, n, rest)) =
    if ltb n (2 ^ 64) && ends_field rest then some (u64_of negative n, rest) else none

-- A field below the fourteenth: what follows it.
unfoldable pub signed_field : Bytes → Option Bytes
signed_field s =
    let cursor = skip_blanks s in if at_end cursor then none else end_signed (strto cursor)

abbrev pub starts_negative : Bytes → Bool
starts_negative [] = false
starts_negative (c ∷ cs) = c == b'-'

-- The fourteenth and the fifteenth.
unfoldable pub unsigned_field : Bytes → Option (ℕ × Bytes)
unsigned_field s =
    let cursor = skip_blanks s in
    if at_end cursor || starts_negative cursor then none else end_unsigned (strto cursor)

unfoldable pub skip_fields : ℕ → Bytes → Option Bytes
skip_fields zero s = some s
skip_fields (suc n) s = signed_field s >>= skip_fields n

-- `close_paren[1] != ' ' || close_paren[2] == '\0' || close_paren[3] != ' '` refuses.
abbrev pub behind_state : Bytes → Option Bytes
behind_state (a ∷ state ∷ b ∷ rest) = if a == 32 && b == 32 then some rest else none
behind_state _ = none

abbrev pub add_ticks : ℕ → ℕ → Option ℕ
add_ticks user system = if ltb (2 ^ 64 - 1 - user) system then none else some (user + system)

unfoldable pub parse_stat : Bytes → Option ℕ
parse_stat s = after_last b')' s >>= λ behind. behind_state behind >>= λ cursor.
    skip_fields 10 cursor >>= λ times. unsigned_field times >>= λ (user, rest).
    unsigned_field rest >>= λ (system, _). add_ticks user system

-- `while (*cursor == ' ' || *cursor == '\t')`
unfoldable pub skip_tabs : Bytes → Bytes
skip_tabs [] = []
skip_tabs (c ∷ cs) = let rest = skip_tabs cs in if c == 32 || c == 9 then rest else c ∷ cs

-- `strncmp(end, "kB", 2)` and the byte behind it
abbrev pub is_kib : Bytes → Bool
is_kib (a ∷ b ∷ []) = a == b'k' && b == b'B'
is_kib (a ∷ b ∷ c ∷ rest) = a == b'k' && b == b'B' && (c == 10 || c == 13)
is_kib _ = false

-- `value < 0L` refuses; a minus sign before zero does not.
abbrev pub read_rss : Option (Bool × ℕ × Bytes) → Option ℕ
read_rss none = none
read_rss (some (negative, n, rest)) =
    if fits_i64 negative n && not (negative && not (n == 0)) && is_kib (skip_tabs rest)
    then some n
    else none

abbrev pub drop_label : Bytes → Bytes
drop_label (_ ∷ _ ∷ _ ∷ _ ∷ _ ∷ _ ∷ rest) = rest
drop_label _ = []

-- The loop over the lines, byte by byte: `start` says that a line starts here.
unfoldable pub find_rss : Bool → Bytes → Option ℕ
find_rss start [] = none
find_rss start (c ∷ cs) =
    let later = find_rss (c == 10) cs in
    if start && starts_with (text "VmRSS:") (c ∷ cs)
    then read_rss (strto (skip_tabs (drop_label (c ∷ cs))))
    else later

unfoldable pub parse_status : Bytes → Option ℕ
parse_status s = find_rss true s
