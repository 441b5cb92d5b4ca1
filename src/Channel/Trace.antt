-- ===== src/Channel/Trace.antt =====
-- What holds of a channel after any sequence of events: the retry budget and the retry schedule of
-- channel_state.c.
use learn_apue.Base.{
  ℕ, zero, suc, ◌+◌, ◌%◌, ◌^◌, ◌≤◌, ◌<◌, min, ◌≡◌, ◌⊎◌, inl, Bool, none, List, [], ◌∷◌, arith,
}
use learn_apue.Base.Int.{pos, pos_part}
use learn_apue.Config.{RetryPolicy}
use learn_apue.Channel.{
  starting, running, backoff, failed, Event, enable, failure, backoff_elapsed, Runtime,
  runtime_init, transition, uint_max, count_failure,
}
use learn_apue.Channel.Invariant.{
  IsRetryPolicy, IsRuntime, runtime_init-IsRuntime, transition-IsRuntime, capped_delay,
}

module _ (policy : RetryPolicy) where
  -- One call of `gw_channel_transition` for each event, whatever their statuses.
  unfoldable pub run : Runtime → List Event → Runtime
  run r [] = r
  run r (e ∷ es) = run (transition r e policy none).runtime es

  run-IsRuntime :
      (r : Runtime) (es : List Event)
      → IsRetryPolicy policy
      → IsRuntime policy r
      → IsRuntime policy (run r es)
  unfolding run
  run-IsRuntime r [] v h = h
  run-IsRuntime r (e ∷ es) v h =
      run-IsRuntime (transition r e policy none).runtime es v
        (transition-IsRuntime policy r e none v h)

  -- Under a retry policy in range, a channel satisfies the invariant after any sequence of events.
  pub run_init-IsRuntime :
      (enabled : Bool) (es : List Event)
      → IsRetryPolicy policy
      → IsRuntime policy (run (runtime_init enabled) es)
  run_init-IsRuntime enabled es v =
      run-IsRuntime (runtime_init enabled) es v (runtime_init-IsRuntime policy enabled)

-- the failures among some events
abbrev pub is_failure : Event → ℕ
is_failure failure = 1
is_failure _ = 0

abbrev pub failures : List Event → ℕ
failures [] = 0
failures (e ∷ es) = is_failure e + failures es

-- `k` failures, each followed by the end of its backoff
abbrev pub retries : ℕ → List Event
retries zero = []
retries (suc k) = failure ∷ backoff_elapsed ∷ retries k

module _ (policy : RetryPolicy) where
  failures-transition :
      (r : Runtime) (e : Event)
      → (transition r e policy none).runtime.consecutive_failures
        ≤ r.consecutive_failures + is_failure e
  unfolding transition
  failures-transition r enable = ground arith
  failures-transition r _ = ground arith

  failures-run :
      (r : Runtime) (es : List Event)
      → (run policy r es).consecutive_failures ≤ r.consecutive_failures + failures es
  unfolding run
  failures-run r [] = omega arith
  failures-run r (e ∷ es) =
      omega (arith, failures-transition r e, failures-run (transition r e policy none).runtime es)

  -- Under a retry policy in range, a channel set up afresh that ends in FAILED has seen more
  -- failures than the policy has retries.
  pub failed_needs_failures :
      (enabled : Bool) (es : List Event)
      → IsRetryPolicy policy
      → (run policy (runtime_init enabled) es).state ≡ failed
      → pos_part policy.max_retries < failures es
  unfolding runtime_init
  failed_needs_failures enabled es v h = omega (
    arith,
    failures-run (runtime_init enabled) es,
    (run_init-IsRuntime policy enabled es v).exhausted h,
  )

  -- A worker that has failed and whose backoff has elapsed is starting again, one retry later.
  retry_once :
      (r : Runtime)
      → IsRetryPolicy policy
      → (r.state ≡ starting) ⊎ (r.state ≡ running)
      → r.consecutive_failures < uint_max
      → let s = run policy r (failure ∷ backoff_elapsed ∷ []) in
        (s.state ≡ starting)
        × (s.consecutive_failures ≡ r.consecutive_failures + 1)
        × (s.total_restarts ≡ (r.total_restarts + 1) % 2 ^ 64)
  unfolding run transition
  retry_once r v s h = ground arith

  retries-run :
      (k : ℕ) (r : Runtime)
      → IsRetryPolicy policy
      → r.state ≡ starting
      → r.consecutive_failures + k ≤ uint_max
      → ((run policy r (retries k)).state ≡ starting)
        × ((run policy r (retries k)).consecutive_failures ≡ r.consecutive_failures + k)
  unfolding run
  retries-run zero r v s h = (s, omega arith)
  retries-run (suc k) r v s h =
      let (again, more, _) = retry_once r v (inl s) (omega arith) in
      let (there, all) =
        retries-run k (run policy r (failure ∷ backoff_elapsed ∷ [])) v again (omega arith) in
      (there, omega arith)

  -- Under a retry policy in range with fewer than UINT_MAX retries, the failure that follows `k`
  -- retries of a worker started afresh, `k` at most `max_retries`, schedules the next retry after
  -- min(max_backoff_sec, 2 ^ k) seconds while `k` is below `max_retries`, and then declares the
  -- channel FAILED with the longest delay.
  pub retry_schedule :
      (k : ℕ) (r : Runtime)
      → IsRetryPolicy policy
      → pos_part policy.max_retries < uint_max
      → k ≤ pos_part policy.max_retries
      → r.state ≡ starting
      → r.consecutive_failures ≡ 0
      → let s = (transition (run policy r (retries k)) failure policy none).runtime in
        ((k < pos_part policy.max_retries)
          × (s.state ≡ backoff)
          × (s.backoff_sec ≡ pos (min (pos_part policy.max_backoff_sec) (2 ^ k))))
        ⊎ ((k ≡ pos_part policy.max_retries)
            × (s.state ≡ failed)
            × (s.backoff_sec ≡ policy.max_backoff_sec))
  unfolding transition
  retry_schedule k r v u b s z = ground (
    arith,
    retries-run k r,
    capped_delay (count_failure (run policy r (retries k)).consecutive_failures)
        policy.max_backoff_sec,
  )
