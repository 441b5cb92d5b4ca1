-- ===== src/Metrics/Proc/Stat.antt =====
-- What `gw_process_metrics_parse_stat` of rk3588-media-gateway/src/monitor/process_metrics.c reads from
-- the line that the kernel writes.
use mathlib.Core.Path.{subst}
use learn_apue.Base.{
  ℕ, suc, ◌+◌, ◌-◌, ◌*◌, ◌^◌, ◌<◌, Bool, true, false, List, [], ◌∷◌, ◌++◌, none, some, ◌==◌, ◌≡◌,
  ◌≢◌, refl, ◌∙◌, arith, length,
}
use learn_apue.Base.Decimal.{decimal, decimal_ℤ}
use learn_apue.Base.Int.{ℤ, pos, negsuc}
use learn_apue.Base.Text.{NoneOf-append, Bytes, NoneOf}
use learn_apue.Metrics.Proc.{
  after_last, strto, skip_blanks, signed_field, unsigned_field, skip_fields, parse_stat,
}
use learn_apue.Progress.Numbers.RoundTrip.{
  Digits, value_from, decimal_digits-Digits, decimal_digits-ne-nil, value_from-decimal_digits,
}
use learn_apue.Progress.Numbers.{read_digits, skip_spaces}

-- A number that ends at a blank.
read_digits-blank :
    (n : ℕ) (s r : Bytes) → Digits s → read_digits n (s ++ 32 ∷ r) ≡ (value_from n s, 32 ∷ r)
unfolding read_digits
read_digits-blank n [] r h = refl
read_digits-blank n (c ∷ s) r h = ground (arith, read_digits-blank (n * 10 + (c - 48)) s r h.1)

strto-Digits :
    (s r : Bytes) → Digits s → s ≢ [] → strto (s ++ 32 ∷ r) ≡ some (false, value_from 0 s, 32 ∷ r)
unfolding strto skip_spaces
strto-Digits [] r h k = absurd (k refl)
strto-Digits (c ∷ s) r h k = ground (arith, read_digits-blank 0 (c ∷ s) r h)

strto-minus :
    (s r : Bytes)
    → Digits s
    → s ≢ []
    → strto (b'-' ∷ (s ++ 32 ∷ r)) ≡ some (true, value_from 0 s, 32 ∷ r)
unfolding strto skip_spaces
strto-minus [] r h k = absurd (k refl)
strto-minus (c ∷ s) r h k = ground (arith, read_digits-blank 0 (c ∷ s) r h)

-- Digits hold no parenthesis.
Digits-no_paren : (s : Bytes) → Digits s → NoneOf (λ c. c == b')') s
Digits-no_paren [] h = tt
Digits-no_paren (c ∷ s) h = ground (arith, Digits-no_paren s h.1)

decimal-Digits : (n : ℕ) → Digits (decimal n) × (decimal n ≢ [])
unfolding decimal
decimal-Digits n = (decimal_digits-Digits 20 n, decimal_digits-ne-nil 19 n)

value_from-decimal : (n : ℕ) → n < 2 ^ 64 → value_from 0 (decimal n) ≡ n
unfolding decimal
value_from-decimal n h = value_from-decimal_digits 19 n (omega arith)

unsigned_field-Digits :
    (s r : Bytes)
    → Digits s
    → s ≢ []
    → value_from 0 s < 2 ^ 64
    → unsigned_field (s ++ 32 ∷ r) ≡ some (value_from 0 s, 32 ∷ r)
unfolding unsigned_field skip_blanks
unsigned_field-Digits [] r h k small = absurd (k refl)
unsigned_field-Digits (c ∷ s) r h k small = ground (arith, strto-Digits (c ∷ s) r h)

unsigned_field-decimal :
    (n : ℕ) (r : Bytes) → n < 2 ^ 64 → unsigned_field (decimal n ++ 32 ∷ r) ≡ some (n, 32 ∷ r)
unsigned_field-decimal n r small =
    let v = value_from-decimal n small in
    let (h, k) = decimal-Digits n in ground (arith, v, unsigned_field-Digits (decimal n) r h k)

-- A number of 64 bits with a sign, as the kernel writes it.
abbrev pub IsI64 : ℤ → Type 0
IsI64 (pos n) = n < 2 ^ 63
IsI64 (negsuc n) = n < 2 ^ 63

signed_field-Digits :
    (s r : Bytes)
    → Digits s
    → s ≢ []
    → value_from 0 s < 2 ^ 63
    → signed_field (s ++ 32 ∷ r) ≡ some (32 ∷ r)
unfolding signed_field skip_blanks
signed_field-Digits [] r h k small = absurd (k refl)
signed_field-Digits (c ∷ s) r h k small = ground (arith, strto-Digits (c ∷ s) r h)

signed_field-decimal_ℤ :
    (v : ℤ) (r : Bytes) → IsI64 v → signed_field (decimal_ℤ v ++ 32 ∷ r) ≡ some (32 ∷ r)
unfolding decimal_ℤ signed_field skip_blanks
signed_field-decimal_ℤ (pos n) r small =
    let v = value_from-decimal n (omega (arith, small)) in
    let (h, k) = decimal-Digits n in
    signed_field-Digits (decimal n) r h k (ground (arith, v, small))
signed_field-decimal_ℤ (negsuc n) r small =
    let v = value_from-decimal (suc n) (omega (arith, small)) in
    let (h, k) = decimal-Digits (suc n) in
    ground (arith, v, small, strto-minus (decimal (suc n)) r h k)

-- The fields, each before a blank.
abbrev pub signed_fields : List ℤ → Bytes → Bytes
signed_fields [] rest = rest
signed_fields (v ∷ vs) rest = decimal_ℤ v ++ 32 ∷ signed_fields vs rest

abbrev pub AreI64 : List ℤ → Type 0
AreI64 [] = Unit
AreI64 (v ∷ vs) = IsI64 v × AreI64 vs

skip_fields-blank : (n : ℕ) (s : Bytes) → skip_fields (suc n) (32 ∷ s) ≡ skip_fields (suc n) s
unfolding skip_fields signed_field skip_blanks
skip_fields-blank n s = refl

-- Behind the fields stands the blank of the last.
skip_fields-signed_fields :
    (v : ℤ) (vs : List ℤ) (rest : Bytes)
    → AreI64 (v ∷ vs)
    → skip_fields (suc (length vs)) (signed_fields (v ∷ vs) rest) ≡ some (32 ∷ rest)
unfolding skip_fields
skip_fields-signed_fields v [] rest h = ground (arith, signed_field-decimal_ℤ v rest h.0)
skip_fields-signed_fields v (w ∷ vs) rest h =
    rw (signed_field-decimal_ℤ v (signed_fields (w ∷ vs) rest) h.0) (
      skip_fields-blank (length vs) (signed_fields (w ∷ vs) rest)
      ∙ skip_fields-signed_fields w vs rest h.1)

unsigned_field-blank : (s : Bytes) → unsigned_field (32 ∷ s) ≡ unsigned_field s
unfolding unsigned_field skip_blanks
unsigned_field-blank s = refl

abbrev pub is_paren : ℕ → Bool
is_paren c = c == b')'

after_last_none : (s : Bytes) → NoneOf is_paren s → after_last b')' s ≡ none
unfolding after_last
after_last_none [] h = refl
after_last_none (c ∷ s) h = ground (arith, after_last_none s h.1)

after_last-append :
    (front tail : Bytes) → NoneOf is_paren tail → after_last b')' (front ++ b')' ∷ tail) ≡ some tail
unfolding after_last
after_last-append [] tail h = ground (arith, after_last_none tail h)
after_last-append (c ∷ front) tail h = ground (arith, after_last-append front tail h)

decimal_ℤ-no_paren : (v : ℤ) → NoneOf is_paren (decimal_ℤ v)
unfolding decimal_ℤ
decimal_ℤ-no_paren (pos n) = Digits-no_paren (decimal n) (decimal-Digits n).0
decimal_ℤ-no_paren (negsuc n) = (refl, Digits-no_paren (decimal (suc n)) (decimal-Digits (suc n)).0)

signed_fields-no_paren :
    (vs : List ℤ) (rest : Bytes) → NoneOf is_paren rest → NoneOf is_paren (signed_fields vs rest)
signed_fields-no_paren [] rest h = h
signed_fields-no_paren (v ∷ vs) rest h =
    NoneOf-append is_paren (decimal_ℤ v) (32 ∷ signed_fields vs rest) (decimal_ℤ-no_paren v)
      (refl, signed_fields-no_paren vs rest h)

-- What stands behind the name of the command: the state, ten fields, the two times, and the rest.
abbrev pub times : ℕ → ℕ → Bytes → Bytes
times user system more = decimal user ++ 32 ∷ (decimal system ++ 32 ∷ more)

abbrev pub stat_line : Bytes → Bytes → ℕ → List ℤ → ℕ → ℕ → Bytes → Bytes
stat_line pid command state fields user system more =
    (pid ++ 32 ∷ b'(' ∷ command)
    ++ b')' ∷ 32 ∷ state ∷ 32 ∷ signed_fields fields (times user system more)

times-no_paren :
    (user system : ℕ) (more : Bytes)
    → NoneOf is_paren more
    → NoneOf is_paren (times user system more)
times-no_paren user system more h =
    NoneOf-append is_paren (decimal user) _ (Digits-no_paren (decimal user) (decimal-Digits user).0)
      (
        refl,
        NoneOf-append is_paren (decimal system) _
            (Digits-no_paren (decimal system) (decimal-Digits system).0) (refl, h),
      )

-- The processor time is read back from the line that the kernel writes, whatever the command is
-- called: its name may hold blanks and parentheses. The line has the process identifier, the name in
-- parentheses, a state of one letter, ten signed fields, the user and the system time, and more; the
-- state and what follows the times hold no closing parenthesis, the fields fit 64 bits with a sign,
-- and the sum of the times fits 64 bits.
pub parse_stat-stat_line :
    (pid command : Bytes) (state : ℕ) (v : ℤ) (vs : List ℤ) (user system : ℕ) (more : Bytes)
    → length vs ≡ 9
    → AreI64 (v ∷ vs)
    → (state == b')') ≡ false
    → NoneOf is_paren more
    → user + system < 2 ^ 64
    → parse_stat (stat_line pid command state (v ∷ vs) user system more) ≡ some (user + system)
unfolding parse_stat
parse_stat-stat_line pid command state v vs user system more count fields plain rest small =
    let tail = signed_fields (v ∷ vs) (times user system more) in
    let last = after_last-append (pid ++ 32 ∷ b'(' ∷ command) (32 ∷ state ∷ 32 ∷ tail) (
      refl,
      (
        plain,
        (
          refl,
          signed_fields-no_paren (v ∷ vs) (times user system more)
              (times-no_paren user system more rest),
        ),
      ),
    ) in
    let skipped =
      subst (λ n. skip_fields (suc n) tail ≡ some (32 ∷ times user system more)) count
        (skip_fields-signed_fields v vs (times user system more) fields) in
    let first =
      unsigned_field-blank (times user system more)
      ∙ unsigned_field-decimal user (decimal system ++ 32 ∷ more) (omega (arith, small)) in
    let second =
      unsigned_field-blank (decimal system ++ 32 ∷ more)
      ∙ unsigned_field-decimal system more (omega (arith, small)) in
    rw (last, skipped, first, second) (ground arith)
