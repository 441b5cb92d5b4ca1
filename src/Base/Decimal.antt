-- ===== src/Base/Decimal.antt =====
-- Decimal output: `%d`, `%u`, `%zu` and `%llu` of the C library's `printf` family.
use learn_apue.Base.{ℕ, zero, suc, ◌+◌, ◌/◌, ◌%◌, [], ◌∷◌, ◌++◌, ltb, if◌then◌else◌}
use learn_apue.Base.Int.{ℤ, pos, negsuc}
use learn_apue.Base.Text.{Bytes}

-- A number below 10 ^ fuel has at most `fuel` digits.
unfoldable pub decimal_digits : ℕ → ℕ → Bytes
decimal_digits zero n = []
decimal_digits (suc fuel) n =
    let front = decimal_digits fuel (n / 10) in
    if ltb n 10 then (48 + n) ∷ [] else front ++ (48 + n % 10) ∷ []

-- Twenty digits hold every 64-bit number.
unfoldable pub decimal : ℕ → Bytes
decimal n = decimal_digits 20 n

unfoldable pub decimal_ℤ : ℤ → Bytes
decimal_ℤ (pos n) = decimal n
decimal_ℤ (negsuc n) = b'-' ∷ decimal (suc n)
