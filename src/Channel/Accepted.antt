-- ===== src/Channel/Accepted.antt =====
-- Where the supervisor's events take a channel, under a retry policy in range: channel_state.c.
use learn_apue.Base.{none, ◌≡◌, ◌≢◌, ◌⊎◌, arith}
use learn_apue.Channel.{
  disabled, stopped, starting, running, backoff, failed, Runtime, start, progress, failure,
  backoff_elapsed, stable, stop, transition,
}
use learn_apue.Channel.Invariant.{IsRetryPolicy}
use learn_apue.Config.{RetryPolicy}
use learn_apue.Status.{ok}

module _ (policy : RetryPolicy) where
  pub progress_accepted :
      (r : Runtime)
      → IsRetryPolicy policy
      → (r.state ≡ starting) ⊎ (r.state ≡ running)
      → ((transition r progress policy none).status ≡ ok)
        × ((transition r progress policy none).runtime.state ≡ running)
  unfolding transition
  progress_accepted r v h = ground arith

  pub stable_accepted :
      (r : Runtime)
      → IsRetryPolicy policy
      → r.state ≡ running
      → ((transition r stable policy none).status ≡ ok)
        × ((transition r stable policy none).runtime.state ≡ running)
  unfolding transition
  stable_accepted r v h = ground arith

  pub stop_accepted :
      (r : Runtime)
      → IsRetryPolicy policy
      → r.state ≢ disabled
      → ((transition r stop policy none).status ≡ ok)
        × ((transition r stop policy none).runtime.state ≡ stopped)
  unfolding transition
  stop_accepted r v h = ground arith

  pub failure_accepted :
      (r : Runtime)
      → IsRetryPolicy policy
      → (r.state ≡ starting) ⊎ (r.state ≡ running)
      → ((transition r failure policy none).status ≡ ok)
        × (((transition r failure policy none).runtime.state ≡ backoff)
            ⊎ ((transition r failure policy none).runtime.state ≡ failed))
  unfolding transition
  failure_accepted r v h = ground arith

  pub retry_accepted :
      (r : Runtime)
      → IsRetryPolicy policy
      → (r.state ≡ backoff) ⊎ (r.state ≡ failed)
      → ((transition r backoff_elapsed policy none).status ≡ ok)
        × ((transition r backoff_elapsed policy none).runtime.state ≡ starting)
  unfolding transition
  retry_accepted r v h = ground arith

  pub start_accepted :
      (r : Runtime)
      → IsRetryPolicy policy
      → r.state ≡ stopped
      → ((transition r start policy none).status ≡ ok)
        × ((transition r start policy none).runtime.state ≡ starting)
  unfolding transition
  start_accepted r v h = ground arith
