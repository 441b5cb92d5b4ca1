-- ===== src/Supervisor/Attempt/Invariant.antt =====
-- What holds throughout the poll loop of `run_worker_attempt` in supervisor.c.
use mathlib.Core.Path.{subst}
use learn_apue.Base.{
  Bool-cases, Bool, true, false, not, List, [], ◌∷◌, none, some, ◌≡◌, ◌⊎◌, refl, arith, inl, inr,
}
use learn_apue.Base.Int.{ℤ}
use learn_apue.Base.Text.{Bytes}
use learn_apue.Channel.{starting, running, Runtime, progress, stable}
use learn_apue.Channel.Accepted.{progress_accepted, stable_accepted}
use learn_apue.Channel.Invariant.{IsRetryPolicy, IsRuntime, transition-IsRuntime}
use learn_apue.Config.{RetryPolicy}
use learn_apue.Progress.{Double, consume}
use learn_apue.Snapshot.{Snapshot}
use learn_apue.Supervisor.Attempt.{
  AttemptOutcome, clean_exit, worker_failure, pending, internal_error, Turn, Attempt, Flow, going,
  broken, ◌>>=◌, stop_child, stop_phase, poll_phase, record_phase, stdout_bytes, read_stdout,
  stdout_phase, stderr_phase, wait_phase, stable_phase, timeout_phase,
}
use learn_apue.Supervisor.Attempt.Loop.{goes_on, turn, turns, begin}
use learn_apue.Supervisor.Worker.Reaped.{stop-IsStopped}
use learn_apue.Supervisor.Worker.{
  Reading, idle, read_failed, end_of_stream, got, poll_exit, started,
}

pub Flow-cases : (m : Flow) → ((a : Attempt) × (m ≡ going a)) ⊎ ((a : Attempt) × (m ≡ broken a))
Flow-cases (going a) = inl (a, refl)
Flow-cases (broken a) = inr (a, refl)

-- The outcomes that only the end of the attempt decides.
abbrev pub is_settled : AttemptOutcome → Bool
is_settled clean_exit = true
is_settled worker_failure = true
is_settled _ = false

module _ (policy : RetryPolicy) where
  -- The worker is either running or reaped; the channel is RUNNING once a record was received, and
  -- STARTING before.
  pub record IsAttempt (a : Attempt) : Type 0 where
    pub alive_or_reaped : a.child.running ≡ not a.child.reaped
    pub up : a.received ≡ true → a.runtime.state ≡ running
    pub coming_up : a.received ≡ false → a.runtime.state ≡ starting
    pub runtime_ok : IsRuntime policy a.runtime
    pub unsettled : is_settled a.outcome ≡ false
    pub exited_reaped : a.exited ≡ true → a.child.reaped ≡ true
    pub stopped_reaped :
        (a.outcome ≡ pending) ⊎ (a.outcome ≡ internal_error) ⊎ (a.child.reaped ≡ true)

  abbrev pub IsFlow : Flow → Type 0
  IsFlow (going a) = IsAttempt a
  IsFlow (broken a) = IsAttempt a

  bind-IsFlow :
      (m : Flow) (f : Attempt → Flow)
      → IsFlow m
      → ((a : Attempt) → IsAttempt a → IsFlow (f a))
      → IsFlow (m >>= f)
  bind-IsFlow (going a) f h k = k a h
  bind-IsFlow (broken a) f h k = h

  stop_phase-IsFlow : (t : Turn) (a : Attempt) → IsAttempt a → IsFlow (stop_phase t a)
  unfolding stop_phase stop_child
  stop_phase-IsFlow t a h = ground (arith, stop-IsStopped a.child t.stop_answer h.alive_or_reaped)

  timeout_phase-IsFlow : (t : Turn) (a : Attempt) → IsAttempt a → IsFlow (timeout_phase t a)
  unfolding timeout_phase stop_child
  timeout_phase-IsFlow t a h =
      ground (arith, stop-IsStopped a.child t.cleanup_answer h.alive_or_reaped)

  poll_phase-IsFlow : (t : Turn) (a : Attempt) → IsAttempt a → IsFlow (poll_phase t a)
  unfolding poll_phase
  poll_phase-IsFlow t a h = ground arith

  stderr_phase-IsFlow : (t : Turn) (a : Attempt) → IsAttempt a → IsFlow (stderr_phase t a)
  unfolding stderr_phase
  stderr_phase-IsFlow t a h = ground arith

  wait_phase-IsFlow : (t : Turn) (a : Attempt) → IsAttempt a → IsFlow (wait_phase t a)
  unfolding wait_phase poll_exit
  wait_phase-IsFlow t a h = ground arith

  record_phase-IsFlow :
      (a : Attempt) → IsRetryPolicy policy → IsAttempt a → IsFlow (record_phase policy a)
  unfolding record_phase
  record_phase-IsFlow a v h = ground (
    arith,
    progress_accepted policy a.runtime v,
    transition-IsRuntime policy a.runtime progress none v h.runtime_ok,
  )

  stable_phase-IsFlow :
      (t : Turn) (a : Attempt)
      → IsRetryPolicy policy
      → IsAttempt a
      → IsFlow (stable_phase policy t a)
  unfolding stable_phase
  stable_phase-IsFlow t a v h = ground (
    arith,
    stable_accepted policy a.runtime v,
    transition-IsRuntime policy a.runtime stable none v h.runtime_ok,
  )

  module _ (strtod : Bytes → Double) where
    stdout_bytes-IsFlow :
        (clock_ok : Bool) (bytes : Bytes) (a : Attempt)
        → IsRetryPolicy policy
        → IsAttempt a
        → IsFlow (stdout_bytes strtod policy clock_ok bytes a)
    unfolding stdout_bytes
    stdout_bytes-IsFlow clock_ok bytes a v h =
        let (status, s, _) = consume strtod a.parser bytes a.latest none in
        let after : Attempt = record a { parser = s.parser; latest = s.progress } in
        ground (arith, record_phase-IsFlow after v)

    read_stdout-IsFlow :
        (clock_ok : Bool) (r : Reading) (a : Attempt)
        → IsRetryPolicy policy
        → IsAttempt a
        → IsFlow (read_stdout strtod policy clock_ok r a)
    unfolding read_stdout
    read_stdout-IsFlow clock_ok idle a v h = h
    read_stdout-IsFlow clock_ok read_failed a v h = h
    read_stdout-IsFlow clock_ok end_of_stream a v h =
        stdout_bytes-IsFlow clock_ok []
          (record a { child = record (a.child) { stdout_open = false } }) v (ground arith)
    read_stdout-IsFlow clock_ok (got bytes) a v h = stdout_bytes-IsFlow clock_ok bytes a v h

    stdout_phase-IsFlow :
        (t : Turn) (a : Attempt)
        → IsRetryPolicy policy
        → IsAttempt a
        → IsFlow (stdout_phase strtod policy t a)
    unfolding stdout_phase
    stdout_phase-IsFlow t a v h = elim (Bool-cases a.child.stdout_open) [
      | inl o ↦ simp o (read_stdout-IsFlow t.clock_ok t.stdout a v h)
      | inr o ↦ simp o h
    ]

    turn-IsFlow :
        (t : Turn) (a : Attempt)
        → IsRetryPolicy policy
        → IsAttempt a
        → IsFlow (turn strtod policy t a)
    unfolding turn
    turn-IsFlow t a v h =
        bind-IsFlow _ (timeout_phase t)
          (bind-IsFlow _ (stable_phase policy t)
            (bind-IsFlow _ (wait_phase t)
              (bind-IsFlow _ (stderr_phase t)
                (bind-IsFlow _ (stdout_phase strtod policy t)
                  (bind-IsFlow _ (poll_phase t) (stop_phase-IsFlow t a h) (poll_phase-IsFlow t))
                  (λ b k. stdout_phase-IsFlow t b v k))
                (stderr_phase-IsFlow t))
              (wait_phase-IsFlow t))
            (λ b k. stable_phase-IsFlow t b v k))
          (timeout_phase-IsFlow t)

    pub turns-IsAttempt :
        (ts : List Turn) (a : Attempt) {b : Attempt}
        → IsRetryPolicy policy
        → IsAttempt a
        → turns strtod policy ts a ≡ some b
        → IsAttempt b
    unfolding turns
    turns-IsAttempt [] a v h e = elim (Bool-cases (goes_on a)) [
      | inl on ↦ absurd (ground arith)
      | inr off ↦ subst IsAttempt (ground arith) h
    ]
    turns-IsAttempt (t ∷ ts) a {b} v h e = elim (Bool-cases (goes_on a)) [
      | inl on ↦ elim (Flow-cases (turn strtod policy t a)) [
        | inl (a', q) ↦
            turns-IsAttempt ts a' {b = b} v (subst IsFlow q (turn-IsFlow t a v h)) (rw (on, q) at e)
        | inr (a', q) ↦
            let same : some a' ≡ some b = rw (on, q) at e in
            subst IsAttempt (cc) (subst IsFlow q (turn-IsFlow t a v h))
      ]
      | inr off ↦ subst IsAttempt (ground arith) h
    ]

  -- A worker that has just been started, for a channel that is starting.
  pub begin-IsAttempt :
      (pid : ℤ) (r : Runtime) (s : Snapshot)
      → IsRuntime policy r
      → r.state ≡ starting
      → IsAttempt (begin pid r s)
  unfolding begin started
  begin-IsAttempt pid r s h e = ground arith
