-- ===== src/Progress/Numbers/RoundTrip.antt =====
-- The integers that progress_parser.c reads are those that `printf` writes.
use mathlib.Core.List.{concat-ne-nil}
use native.Mathlib.Nat.{pow-succ'}
use learn_apue.Base.{
  ℕ, zero, suc, ◌+◌, ◌-◌, ◌*◌, ◌/◌, ◌%◌, ◌^◌, ◌<◌, true, false, [], ◌∷◌, ◌++◌, some, ◌≡◌, ◌≢◌, refl,
  ap, ◌∙◌, arith,
}
use learn_apue.Base.Decimal.{decimal, decimal_digits}
use learn_apue.Base.Text.{Bytes}
use learn_apue.Progress.Numbers.{is_digit, read_digits, read_number, parse_u64}

-- every byte is a digit
abbrev pub Digits : Bytes → Type 0
Digits [] = Unit
Digits (c ∷ cs) = (is_digit c ≡ true) × Digits cs

abbrev pub value_from : ℕ → Bytes → ℕ
value_from n [] = n
value_from n (c ∷ cs) = value_from (n * 10 + (c - 48)) cs

pub read_digits-Digits : (n : ℕ) (s : Bytes) → Digits s → read_digits n s ≡ (value_from n s, [])
unfolding read_digits
read_digits-Digits n [] h = refl
read_digits-Digits n (c ∷ s) h = rw h.0 (read_digits-Digits (n * 10 + (c - 48)) s h.1)

Digits-append : (a b : Bytes) → Digits a → Digits b → Digits (a ++ b)
Digits-append [] b h k = k
Digits-append (c ∷ a) b h k = (h.0, Digits-append a b h.1 k)

value_from-append : (n : ℕ) (a b : Bytes) → value_from n (a ++ b) ≡ value_from (value_from n a) b
value_from-append n [] b = refl
value_from-append n (c ∷ a) b = value_from-append (n * 10 + (c - 48)) a b

pub decimal_digits-Digits : (fuel n : ℕ) → Digits (decimal_digits fuel n)
unfolding decimal_digits
decimal_digits-Digits zero n = tt
decimal_digits-Digits (suc fuel) n = ground (
  arith,
  decimal_digits-Digits fuel (n / 10),
  Digits-append (decimal_digits fuel (n / 10)) ((48 + n % 10) ∷ []),
)

pub decimal_digits-ne-nil : (fuel n : ℕ) → decimal_digits (suc fuel) n ≢ []
unfolding decimal_digits
decimal_digits-ne-nil fuel n =
    ground (arith, concat-ne-nil (48 + n % 10) (decimal_digits fuel (n / 10)))

pub value_from-decimal_digits :
    (fuel n : ℕ) → n < 10 ^ suc fuel → value_from 0 (decimal_digits (suc fuel) n) ≡ n
unfolding decimal_digits
value_from-decimal_digits zero n h = ground arith
value_from-decimal_digits (suc fuel) n h =
    let smaller : n / 10 < 10 ^ suc fuel = omega (arith, pow-succ' 10 (suc fuel)) in
    let front = decimal_digits (suc fuel) (n / 10) in
    ground (
      arith,
      value_from-decimal_digits fuel (n / 10) smaller,
      value_from-append 0 front ((48 + n % 10) ∷ []),
    )

read_number-Digits : (s : Bytes) → Digits s → s ≢ [] → read_number s ≡ some (false, value_from 0 s)
unfolding read_number
read_number-Digits [] h k = absurd (k refl)
read_number-Digits (c ∷ s) h k = ground (arith, read_digits-Digits 0 (c ∷ s) h)

read_number-decimal : (n : ℕ) → n < 10 ^ 20 → read_number (decimal n) ≡ some (false, n)
unfolding decimal
read_number-decimal n h =
    read_number-Digits (decimal_digits 20 n) (decimal_digits-Digits 20 n)
      (decimal_digits-ne-nil 19 n)
    ∙ ap (λ v. some (false, v)) (value_from-decimal_digits 19 n h)

-- Every 64-bit number is read back from its decimal form.
pub parse_u64-decimal : (n : ℕ) → n < 2 ^ 64 → parse_u64 (decimal n) ≡ some n
unfolding parse_u64
parse_u64-decimal n h = ground (arith, read_number-decimal n)
