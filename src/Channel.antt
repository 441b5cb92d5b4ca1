-- ===== src/Channel.antt =====
-- The channel lifecycle state machine: rk3588-media-gateway/src/channel/channel_state.c and
-- include/gateway/channel_state.h. `Runtime` is `gw_channel_runtime`; a call returns the runtime it
-- leaves, its status and the diagnostic. `transition` is `gw_channel_transition` past its check for
-- null pointers, as the supervisor calls it, and `channel_transition` the whole function.
pub mod Backoff
pub mod Invariant
pub mod Accepted
pub mod Trace
use learn_apue.Base.{
  ℕ, zero, suc, ◌+◌, ◌-◌, ◌*◌, ◌/◌, ◌%◌, ◌^◌, Bool, true, false, not, ◌&&◌, ◌||◌, Option, none,
  some, ◌++◌, ltb, ◌==◌, if◌then◌else◌,
}
use learn_apue.Base.Int.{ℤ, pos, negsuc, pos_part, neg_part, ltb_ℤ}
use learn_apue.Base.Text.{Bytes, text}
use learn_apue.Config.{RetryPolicy}
use learn_apue.Status.{Status, ok, argument, validation, GwError, error_set, error_clear}

pub data State : Type 0 where
  disabled stopped starting running backoff failed : State

pub data Event : Type 0 where
  enable disable start progress failure backoff_elapsed stable stop : Event

pub record Runtime : Type 0 where
  pub state : State
  pub consecutive_failures : ℕ  -- unsigned int
  pub total_restarts : ℕ  -- uint64_t
  pub backoff_sec : ℤ  -- int

pub record Outcome : Type 0 where
  pub runtime : Runtime
  pub status : Status
  pub error : Option GwError

-- the values of the enumeration, by which states are compared
abbrev pub state_code : State → ℕ
state_code disabled = 0
state_code stopped = 1
state_code starting = 2
state_code running = 3
state_code backoff = 4
state_code failed = 5

abbrev pub is : State → State → Bool
is a b = state_code a == state_code b

abbrev pub uint_max : ℕ
uint_max = 4294967295

unfoldable pub state_string : State → Bytes
state_string disabled = text "DISABLED"
state_string stopped = text "STOPPED"
state_string starting = text "STARTING"
state_string running = text "RUNNING"
state_string backoff = text "BACKOFF"
state_string failed = text "FAILED"

unfoldable pub event_string : Event → Bytes
event_string enable = text "ENABLE"
event_string disable = text "DISABLE"
event_string start = text "START"
event_string progress = text "PROGRESS"
event_string failure = text "FAILURE"
event_string backoff_elapsed = text "BACKOFF_ELAPSED"
event_string stable = text "STABLE"
event_string stop = text "STOP"

unfoldable pub runtime_init : Bool → Runtime
runtime_init enabled = record {
  state = if enabled then stopped else disabled;
  consecutive_failures = 0;
  total_restarts = 0;
  backoff_sec = pos 0;
}

-- The loop over `step`, which runs at most `failures - 1` rounds; `rounds` counts those left.
-- `delay` is positive, so C's division is the one on ℕ.
unfoldable pub backoff_loop : ℕ → ℕ → ℕ → ℕ
backoff_loop zero maximum delay = delay
backoff_loop (suc rounds) maximum delay =
    let rest =
      backoff_loop rounds maximum (if ltb (maximum / 2) delay then maximum else delay * 2) in
    if ltb delay maximum then rest else delay

-- With a negative maximum the loop's test fails at once, and the delay 1 is capped.
unfoldable pub calculate_backoff : ℕ → ℤ → ℤ
unfolding backoff_loop
calculate_backoff failures (negsuc n) = negsuc n
calculate_backoff failures (pos maximum) =
    let delay = backoff_loop (failures - 1) maximum 1 in
    pos (if ltb maximum delay then maximum else delay)

unfoldable pub reject_transition : Runtime → Event → Option GwError → Outcome
reject_transition r event error = record {
  runtime = r;
  status = validation;
  error = error_set error validation (
      text "event "
      ++ (event_string event ++ (text " is invalid while channel is " ++ state_string r.state)));
}

abbrev pub accept : Runtime → Option GwError → Outcome
accept r error = record { runtime = r; status = ok; error = error_clear error }

-- `++consecutive_failures`, which stays at UINT_MAX
abbrev pub count_failure : ℕ → ℕ
count_failure n = if ltb n uint_max then n + 1 else n

unfoldable pub handle_failure : Runtime → RetryPolicy → Option GwError → Outcome
unfolding reject_transition
handle_failure r policy error =
    let failures = count_failure r.consecutive_failures in
    let counted = record r { consecutive_failures = failures } in
    if not (is r.state starting) && not (is r.state running)
    then reject_transition r failure error
    else if ltb (pos_part policy.max_retries) failures
    then accept (record counted { state = failed; backoff_sec = policy.max_backoff_sec }) error
    else accept
        (record counted {
          state = backoff;
          backoff_sec = calculate_backoff failures policy.max_backoff_sec;
        })
        error

-- `switch (event)`
unfoldable pub dispatch : Event → Runtime → RetryPolicy → Option GwError → Outcome
unfolding reject_transition handle_failure
dispatch enable r policy error =
    if not (is r.state disabled)
    then reject_transition r enable error
    else accept (record r { state = stopped }) error
dispatch disable r policy error =
    accept (record r { state = disabled; consecutive_failures = 0; backoff_sec = pos 0 }) error
dispatch start r policy error =
    if not (is r.state stopped) && not (is r.state failed)
    then reject_transition r start error
    else accept (record r { state = starting; consecutive_failures = 0; backoff_sec = pos 0 }) error
dispatch progress r policy error =
    if not (is r.state starting) && not (is r.state running)
    then reject_transition r progress error
    else accept (record r { state = running }) error
dispatch failure r policy error = handle_failure r policy error
dispatch backoff_elapsed r policy error =
    if not (is r.state backoff) && not (is r.state failed)
    then reject_transition r backoff_elapsed error
    else accept
        (record r {
          state = starting;
          backoff_sec = pos 0;
          total_restarts = (r.total_restarts + 1) % 2 ^ 64;
        })
        error
dispatch stable r policy error =
    if not (is r.state running)
    then reject_transition r stable error
    else accept (record r { consecutive_failures = 0; backoff_sec = pos 0 }) error
dispatch stop r policy error =
    if is r.state disabled
    then reject_transition r stop error
    else accept (record r { state = stopped; consecutive_failures = 0; backoff_sec = pos 0 }) error

-- `policy->max_retries < 0 || policy->max_backoff_sec <= 0`
abbrev pub bad_policy : RetryPolicy → Bool
bad_policy policy = ltb_ℤ policy.max_retries (pos 0) || not (ltb_ℤ (pos 0) policy.max_backoff_sec)

unfoldable pub transition : Runtime → Event → RetryPolicy → Option GwError → Outcome
unfolding dispatch
transition r event policy error =
    if bad_policy policy
    then record {
      runtime = r;
      status = argument;
      error = error_set error argument (text "retry policy is invalid");
    }
    else dispatch event r policy error

-- `none` is a null pointer; the runtime is left in place in every case.
unfoldable pub channel_transition :
    Option Runtime
    → Event
    → Option RetryPolicy
    → Option GwError
    → Option Runtime × Status × Option GwError
unfolding transition
channel_transition (some r) event (some policy) error =
    let out = transition r event policy error in (some out.runtime, out.status, out.error)
channel_transition r event policy error =
    (r, argument, error_set error argument (text "channel runtime and retry policy are required"))
