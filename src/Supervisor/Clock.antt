-- ===== src/Supervisor/Clock.antt =====
-- The clock arithmetic of rk3588-media-gateway/src/channel/supervisor.c. A reading of the monotonic
-- clock is not negative; `none` is a call of clock_gettime that failed.
use learn_apue.Base.{
  ℕ, zero, suc, ◌+◌, ◌-◌, ◌*◌, ◌/◌, ◌≤◌, ◌<◌, min, Bool, true, false, not, ◌&&◌, ◌||◌, Option, none,
  some, ltb, if◌then◌else◌, ◌≡◌, ◌↔◌, arith,
}
use learn_apue.Base.Int.{ℤ, pos, negsuc, ltb_ℤ, eq_ℤ}

pub record Timespec : Type 0 where
  pub tv_sec : ℕ
  pub tv_nsec : ℕ

abbrev pub billion : ℕ
billion = 1000000000

abbrev pub int_max : ℕ
int_max = 2147483647

-- `a - b` on signed numbers
abbrev pub difference : ℕ → ℕ → ℤ
difference a b = if ltb a b then negsuc (b - a - 1) else pos (a - b)

-- `--seconds`
abbrev pub decrement : ℤ → ℤ
decrement (pos zero) = negsuc 0
decrement (pos (suc n)) = pos n
decrement (negsuc n) = negsuc (n + 1)

-- With fewer nanoseconds than at the start, a second is borrowed: then `nanoseconds` is not negative.
unfoldable pub timeout_elapsed : Option Timespec → Timespec → ℤ → Bool
timeout_elapsed none start timeout_sec = false
timeout_elapsed (some now) start timeout_sec =
    let whole = difference now.tv_sec start.tv_sec in
    let borrow = ltb now.tv_nsec start.tv_nsec in
    let seconds = if borrow then decrement whole else whole in
    let nanoseconds =
      if borrow
      then difference (now.tv_nsec + billion) start.tv_nsec
      else difference now.tv_nsec start.tv_nsec in
    ltb_ℤ timeout_sec seconds || (eq_ℤ seconds timeout_sec && not (ltb_ℤ nanoseconds (pos 0)))

-- `value * 1000`, without overflow
abbrev pub times_thousand : ℤ → ℤ
times_thousand (pos n) = pos (n * 1000)
times_thousand (negsuc n) = negsuc (n * 1000 + 999)

unfoldable pub stop_timeout_ms : ℤ → ℤ
stop_timeout_ms stop_timeout_sec =
    if ltb_ℤ (pos (int_max / 1000)) stop_timeout_sec
    then pos int_max
    else times_thousand stop_timeout_sec

abbrev pub nanoseconds_of : Timespec → ℕ
nanoseconds_of t = t.tv_sec * billion + t.tv_nsec

-- A timeout has elapsed exactly when that many seconds lie between the two readings, to the
-- nanosecond, for readings whose nanoseconds are below one second.
pub timeout_elapsed_iff :
    (now start : Timespec) (timeout_sec : ℕ)
    → now.tv_nsec < billion
    → start.tv_nsec < billion
    → (timeout_elapsed (some now) start (pos timeout_sec) ≡ true)
      ↔ (nanoseconds_of start + timeout_sec * billion ≤ nanoseconds_of now)
unfolding timeout_elapsed
timeout_elapsed_iff now start timeout_sec h k = ground arith

-- A stop timeout that is not negative is turned into milliseconds, capped at the largest `int`.
pub stop_timeout_ms_capped :
    (stop_timeout_sec : ℕ)
    → stop_timeout_ms (pos stop_timeout_sec) ≡ pos (min (stop_timeout_sec * 1000) int_max)
unfolding stop_timeout_ms
stop_timeout_ms_capped stop_timeout_sec = ground arith
