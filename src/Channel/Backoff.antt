-- ===== src/Channel/Backoff.antt =====
-- The delay before a retry: `calculate_backoff` of channel_state.c against its closed form.
use native.Mathlib.Nat.{pow-succ', mul_assoc}
use learn_apue.Base.{ℕ, zero, suc, ◌-◌, ◌*◌, ◌^◌, ◌≤◌, ◌<◌, min, ◌≡◌, arith}
use learn_apue.Base.Int.{pos}
use learn_apue.Channel.{backoff_loop, calculate_backoff}

two_pow_pos : (n : ℕ) → 0 < 2 ^ n
two_pow_pos zero = omega arith
two_pow_pos (suc n) = rw pow-succ' (omega (arith, two_pow_pos n))

-- A delay that has reached the cap stays capped, whatever it is multiplied by.
capped : (m d p : ℕ) → m ≤ d → 0 < p → min m (d * p) ≡ m
capped m d p h k = grind arith

double_pow : (d n : ℕ) → d * 2 ^ suc n ≡ d * 2 * 2 ^ n
double_pow d n = rw pow-succ' (rw (← mul_assoc))

pub backoff_loop-min :
    (rounds maximum delay : ℕ)
    → 0 < delay
    → delay ≤ maximum
    → backoff_loop rounds maximum delay ≡ min maximum (delay * 2 ^ rounds)
unfolding backoff_loop
backoff_loop-min zero maximum delay h k = omega arith
backoff_loop-min (suc rounds) maximum delay h k = ground (
  arith,
  two_pow_pos rounds,
  double_pow delay rounds,
  capped maximum (delay * 2) (2 ^ rounds),
  capped maximum maximum (2 ^ rounds),
  backoff_loop-min rounds maximum maximum,
  backoff_loop-min rounds maximum (delay * 2),
)

-- The delay chosen after `failures` failures is the smaller of the configured cap and
-- 2 ^ (failures - 1) seconds, for every positive cap.
pub calculate_backoff_closed :
    (failures maximum : ℕ)
    → 0 < maximum
    → calculate_backoff failures (pos maximum) ≡ pos (min maximum (2 ^ (failures - 1)))
unfolding calculate_backoff
calculate_backoff_closed failures maximum h =
    ground (arith, backoff_loop-min (failures - 1) maximum 1)
