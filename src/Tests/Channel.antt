-- ===== src/Tests/Channel.antt =====
-- Lives of a channel: channel_state.c at concrete inputs.
use learn_apue.Base.{ℕ, ◌^◌, ◌<◌, min, true, ◌≡◌, refl, ◌↔◌, ◌⊎◌, List, [], ◌∷◌, none, some, arith}
use learn_apue.Base.Int.{pos, negsuc}
use learn_apue.Config.{RetryPolicy}
use learn_apue.Status.{ok, argument}
use learn_apue.Channel.{
  Event, start, progress, failure, backoff_elapsed, starting, backoff, failed, Runtime,
  runtime_init, calculate_backoff, transition, channel_transition,
}
use learn_apue.Channel.Invariant.{IsRetryPolicy, IsRuntime, Follows, transition_accepts_iff}
use learn_apue.Channel.Trace.{
  run, run_init-IsRuntime, failures, retries, failed_needs_failures, retry_schedule,
}

abbrev pub policy : RetryPolicy
policy = record {
  startup_timeout_sec = pos 15;
  progress_timeout_sec = pos 10;
  stable_run_sec = pos 60;
  stop_timeout_sec = pos 5;
  max_retries = pos 2;
  max_backoff_sec = pos 30;
}

pub policy-IsRetryPolicy : IsRetryPolicy policy
policy-IsRetryPolicy = omega arith

abbrev pub at_start : Runtime
at_start = record {
  state = starting;
  consecutive_failures = 0;
  total_restarts = 0;
  backoff_sec = pos 0;
}

delays :
    (calculate_backoff 4 (pos 30) ≡ pos 8)
    × (calculate_backoff 6 (pos 30) ≡ pos 30)
    × (calculate_backoff 40 (pos 1) ≡ pos 1)
    × (calculate_backoff 3 (negsuc 4) ≡ negsuc 4)
unfolding calculate_backoff
delays = (refl, refl, refl, refl)

transition_accepts_iff_example :
    ((transition at_start progress policy none).status ≡ ok)
    ↔ ((t : _) × Follows progress starting t)
transition_accepts_iff_example =
    transition_accepts_iff policy none at_start progress policy-IsRetryPolicy

abbrev doomed : List Event
doomed = start ∷ failure ∷ backoff_elapsed ∷ failure ∷ backoff_elapsed ∷ failure ∷ []

doomed_fails : (run policy (runtime_init true) doomed).state ≡ failed
unfolding run transition runtime_init
doomed_fails = refl

failed_needs_failures_example : 2 < failures doomed
failed_needs_failures_example =
    failed_needs_failures policy true doomed policy-IsRetryPolicy doomed_fails

run_init-IsRuntime_example : IsRuntime policy (run policy (runtime_init true) doomed)
run_init-IsRuntime_example = run_init-IsRuntime policy true doomed policy-IsRetryPolicy

retry_schedule_example :
    let s = (transition (run policy at_start (retries 1)) failure policy none).runtime in
    ((1 < 2) × (s.state ≡ backoff) × (s.backoff_sec ≡ pos (min 30 (2 ^ 1))))
    ⊎ ((◌≡◌ {A = ℕ} 1 2) × (s.state ≡ failed) × (s.backoff_sec ≡ pos 30))
retry_schedule_example =
    retry_schedule policy 1 at_start policy-IsRetryPolicy (omega arith) (omega arith) refl refl

-- A null runtime or policy is refused.
null_runtime : (channel_transition none start (some policy) none).1 ≡ argument
unfolding channel_transition
null_runtime = refl
