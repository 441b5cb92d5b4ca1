-- ===== src/Supervisor/Attempt/Ends.antt =====
-- How an attempt of supervisor.c ends: with one definite outcome, with its worker reaped, and with
-- the channel in a state that the next transition accepts.
use mathlib.Core.Option
use mathlib.Core.Path.{subst}
use learn_apue.Base.{
  Bool, true, List, Option, none, some, ◌≡◌, ◌≢◌, ◌⊎◌, refl, arith, inl, inr, Bool-cases,
  Option-cases,
}
use learn_apue.Base.Int.{pos, eq_ℤ_iff}
use learn_apue.Base.Text.{Bytes}
use learn_apue.Channel.{starting, running, Runtime}
use learn_apue.Channel.Invariant.{IsRetryPolicy, IsRuntime}
use learn_apue.Config.{RetryPolicy}
use learn_apue.Progress.{Double}
use learn_apue.Snapshot.{Snapshot}
use learn_apue.Supervisor.Attempt.{
  AttemptOutcome, pending, internal_error, clean_exit, worker_failure, Turn, Attempt,
}
use learn_apue.Supervisor.Attempt.Loop.{Launch, Result, turns, begin, finish, run_attempt, no_loop}
use learn_apue.Supervisor.Attempt.Invariant.{IsAttempt, turns-IsAttempt, begin-IsAttempt}
use learn_apue.Supervisor.Worker.Reaped.{stop-IsStopped}
use learn_apue.Supervisor.Worker.{Stopping, exit_code, stop, close, exit_code}

-- What an attempt hands to the retries around it.
pub record IsResult (policy : RetryPolicy) (stop_on_clean_exit : Bool) (r : Result) : Type 0 where
  pub definite : r.outcome ≢ pending
  pub clean : r.outcome ≡ clean_exit → (r.exit_code ≡ pos 0) × (stop_on_clean_exit ≡ true)
  pub active : (r.runtime.state ≡ starting) ⊎ (r.runtime.state ≡ running)
  pub runtime_ok : IsRuntime policy r.runtime

module _ (policy : RetryPolicy) (stop_on_clean_exit : Bool) where
  finish-IsResult :
      (answer : Stopping) (a : Attempt)
      → IsAttempt policy a
      → IsResult policy stop_on_clean_exit (finish stop_on_clean_exit answer a)
  unfolding finish close
  finish-IsResult answer a h =
      let child = (stop a.child answer).1 in
      ground (
        arith,
        eq_ℤ_iff (exit_code a.child) (pos 0),
        eq_ℤ_iff (exit_code child) (pos 0),
        stop-IsStopped a.child answer h.alive_or_reaped,
      )

  no_loop-IsResult :
      (outcome : AttemptOutcome) (r : Runtime) (s : Snapshot)
      → (outcome ≡ internal_error) ⊎ (outcome ≡ worker_failure)
      → IsRuntime policy r
      → r.state ≡ starting
      → IsResult policy stop_on_clean_exit (no_loop outcome r s)
  no_loop-IsResult outcome r s o h e = ground arith

  looped :
      (answer : Stopping) (o : Option Attempt) {result : Result}
      → ((a : Attempt) → o ≡ some a → IsAttempt policy a)
      → Option.map (finish stop_on_clean_exit answer) o ≡ some result
      → IsResult policy stop_on_clean_exit result
  looped answer none k q = absurd (ground arith)
  looped answer (some a) k q =
      subst (IsResult policy stop_on_clean_exit) (cc q) (finish-IsResult answer a (k a refl))

  -- An attempt that starts in STARTING ends as `IsResult` says, if it ends.
  pub run_attempt-IsResult :
      (strtod : Bytes → Double) (launch : Launch) (ts : List Turn) (r : Runtime) (s : Snapshot)
      {result : Result}
      → IsRetryPolicy policy
      → IsRuntime policy r
      → r.state ≡ starting
      → run_attempt strtod policy stop_on_clean_exit launch ts r s ≡ some result
      → IsResult policy stop_on_clean_exit result
  unfolding run_attempt
  run_attempt-IsResult strtod launch ts r s {result} v h e q = elim (Bool-cases launch.built) [
    | inr b ↦
        subst (IsResult policy stop_on_clean_exit) (cc (rw b at q))
          (no_loop-IsResult internal_error r s (inl refl) h e)
    | inl b ↦ elim (Option-cases launch.start) [
      | inl n ↦
          subst (IsResult policy stop_on_clean_exit) (cc (rw (b, n) at q))
            (no_loop-IsResult worker_failure r s (inr refl) h e)
      | inr (pid, n) ↦ elim (Bool-cases launch.clock_ok) [
        | inr c ↦
            subst (IsResult policy stop_on_clean_exit) (cc (rw (b, n, c) at q))
              (no_loop-IsResult internal_error r s (inl refl) h e)
        | inl c ↦
            looped launch.final_answer (turns strtod policy ts (begin pid r s))
              (λ a q'.
                turns-IsAttempt policy strtod ts (begin pid r s) v
                  (begin-IsAttempt policy pid r s h e) q')
              (rw (b, n, c) at q)
      ]
    ]
  ]
