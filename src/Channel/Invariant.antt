-- ===== src/Channel/Invariant.antt =====
-- What every transition of channel_state.c keeps, and which transitions are taken.
use learn_apue.Base.{
  ℕ, ◌-◌, ◌^◌, ◌≤◌, ◌<◌, min, ◌≡◌, refl, ◌≢◌, ◌↔◌, ◌⊎◌, Bool, true, false, Option, arith,
}
use learn_apue.Base.Int.{ℤ, pos, negsuc, pos_part, ◌≤ℤ◌, ◌<ℤ◌}
use learn_apue.Config.{RetryPolicy}
use learn_apue.Status.{ok, argument, validation, GwError}
use learn_apue.Channel.{
  State, disabled, stopped, starting, running, backoff, failed, Event, enable, disable, start,
  progress, failure, backoff_elapsed, stable, stop, Runtime, runtime_init, transition,
  calculate_backoff, uint_max, count_failure,
}
use learn_apue.Channel.Backoff.{calculate_backoff_closed}

-- The policies that configuration validation lets through, as far as retries go.
pub record IsRetryPolicy (policy : RetryPolicy) : Type 0 where
  pub retries_nonneg : pos 0 ≤ℤ policy.max_retries
  pub backoff_pos : pos 0 <ℤ policy.max_backoff_sec

-- The transition diagram: `Follows e s t` says that event `e` takes state `s` to state `t`.
pub data Follows : Event → State → State → Type 0 where
  enabled : Follows enable disabled stopped
  switched_off : {s : State} → Follows disable s disabled
  first_start : Follows start stopped starting
  manual_retry : Follows start failed starting
  came_up : Follows progress starting running
  goes_on : Follows progress running running
  start_failed : Follows failure starting backoff
  run_failed : Follows failure running backoff
  start_exhausted : Follows failure starting failed
  run_exhausted : Follows failure running failed
  retried : Follows backoff_elapsed backoff starting
  retried_failed : Follows backoff_elapsed failed starting
  settled : Follows stable running running
  halted : {s : State} → s ≢ disabled → Follows stop s stopped

ruleset diagram = (
  enabled, switched_off, first_start, manual_retry, came_up, goes_on, start_failed, run_failed,
  start_exhausted, run_exhausted, retried, retried_failed, settled, halted,
)

module _ (policy : RetryPolicy) (error : Option GwError) where
  -- An accepted event follows an edge of the diagram.
  pub transition-Follows :
      (r : Runtime) (e : Event)
      → (transition r e policy error).status ≡ ok
      → Follows e r.state (transition r e policy error).runtime.state
  unfolding transition
  transition-Follows r e h = grind (arith, diagram)

  accepts_along :
      {e : Event} {s t : State} (r : Runtime)
      → IsRetryPolicy policy
      → r.state ≡ s
      → Follows e s t
      → (transition r e policy error).status ≡ ok
  unfolding transition
  accepts_along r v q (halted h) = ground (arith, h)
  accepts_along r v q enabled = ground arith
  accepts_along r v q _ = ground arith

  -- Under a retry policy in range, an event is accepted exactly when the diagram has an edge for it.
  pub transition_accepts_iff :
      (r : Runtime) (e : Event)
      → IsRetryPolicy policy
      → ((transition r e policy error).status ≡ ok) ↔ ((t : State) × Follows e r.state t)
  transition_accepts_iff r e v = (
    (λ h. ((transition r e policy error).runtime.state, transition-Follows r e h)),
    (λ f. accepts_along r v refl f.1),
  )

  -- An event that is not accepted leaves the runtime as it was, and is reported as a validation
  -- error, or as a bad argument if the retry policy is out of range.
  pub transition_error_unchanged :
      (r : Runtime) (e : Event)
      → (transition r e policy error).status ≢ ok
      → ((transition r e policy error).runtime ≡ r)
        × ((IsRetryPolicy policy × ((transition r e policy error).status ≡ validation))
            ⊎ (¬ IsRetryPolicy policy × ((transition r e policy error).status ≡ argument)))
  unfolding transition
  transition_error_unchanged r enable h = ground arith
  transition_error_unchanged r _ h = ground arith

pub capped_delay :
    (failures : ℕ) (maximum : ℤ)
    → pos 0 <ℤ maximum
    → calculate_backoff failures maximum ≡ pos (min (pos_part maximum) (2 ^ (failures - 1)))
capped_delay failures (pos m) h = calculate_backoff_closed failures m (omega arith)
capped_delay failures (negsuc n) h = absurd (omega arith)

-- What holds of a runtime between two events, under one policy.
pub record IsRuntime (policy : RetryPolicy) (r : Runtime) : Type 0 where
  pub failures_fit : r.consecutive_failures ≤ uint_max
  pub restarts_fit : r.total_restarts < 2 ^ 64
  pub at_rest : (r.state ≡ disabled) ⊎ (r.state ≡ stopped) → r.consecutive_failures ≡ 0
  pub no_delay : r.state ≢ backoff → r.state ≢ failed → r.backoff_sec ≡ pos 0
  pub delayed :
      r.state ≡ backoff
      → (0 < r.consecutive_failures)
        × (r.consecutive_failures ≤ pos_part policy.max_retries)
        × (r.backoff_sec
            ≡ pos (min (pos_part policy.max_backoff_sec) (2 ^ (r.consecutive_failures - 1))))
  pub exhausted :
      r.state ≡ failed
      → (pos_part policy.max_retries < r.consecutive_failures)
        × (r.backoff_sec ≡ policy.max_backoff_sec)

-- A fresh runtime satisfies the invariant, enabled or not.
pub runtime_init-IsRuntime :
    (policy : RetryPolicy) (enabled : Bool) → IsRuntime policy (runtime_init enabled)
unfolding runtime_init
runtime_init-IsRuntime policy true = ground arith
runtime_init-IsRuntime policy false = ground arith

-- Under a retry policy in range, every event, accepted or not, keeps the runtime's invariant: the
-- counters fit their types, the delay is the one that the state calls for, and FAILED means that the
-- retries are used up.
pub transition-IsRuntime :
    (policy : RetryPolicy) (r : Runtime) (e : Event) (error : Option GwError)
    → IsRetryPolicy policy
    → IsRuntime policy r
    → IsRuntime policy (transition r e policy error).runtime
unfolding transition
transition-IsRuntime policy r failure error v h =
    ground (arith, capped_delay (count_failure r.consecutive_failures) policy.max_backoff_sec)
transition-IsRuntime policy r _ error v h = ground arith
