-- ===== src/Supervisor/Attempt.antt =====
-- `run_worker_attempt` of rk3588-media-gateway/src/channel/supervisor.c. The environment of an
-- attempt is a `Launch`, one `Turn` for each round of its poll loop, and the answer to the last
-- stop. A turn says what the stop request, the pipes, `waitpid` and the clock showed in that round.
-- The error output of the worker is only logged, as `Supervisor.Stderr` says.
pub mod Loop
pub mod Invariant
pub mod Ends
pub mod Returns
use mathlib.Core.Option
use learn_apue.Base.{
  ℕ, Bool, true, false, not, ◌&&◌, ◌||◌, List, [], ◌∷◌, ◌++◌, Option, none, some, ◌==◌,
  if◌then◌else◌,
}
use learn_apue.Base.Int.{ℤ, pos, negsuc, eq_ℤ}
use learn_apue.Base.Text.{Bytes, text}
use learn_apue.Channel.{Runtime, Event, progress, stable, transition}
use learn_apue.Config.{RetryPolicy}
use learn_apue.Progress.{WorkerProgress, no_progress, Parser, parser_init, Double, consume}
use learn_apue.Snapshot.{Snapshot, worker, update_runtime, set_process, set_progress}
use learn_apue.Status.{Status, ok}
use learn_apue.Supervisor.Worker.{
  Stopping, Worker, Wait, Reading, idle, read_failed, end_of_stream, got, started, stop, poll_exit,
  exit_code, close,
}

pub data AttemptOutcome : Type 0 where
  pending clean_exit worker_failure startup_timeout progress_timeout stop_requested : AttemptOutcome
  internal_error : AttemptOutcome

unfoldable pub attempt_event_string : AttemptOutcome → Bytes
attempt_event_string clean_exit = text "clean_exit"
attempt_event_string worker_failure = text "worker_failure"
attempt_event_string startup_timeout = text "startup_timeout"
attempt_event_string progress_timeout = text "progress_timeout"
attempt_event_string stop_requested = text "stop_requested"
attempt_event_string internal_error = text "internal_error"
attempt_event_string pending = text "unknown"

abbrev pub is_pending : AttemptOutcome → Bool
is_pending pending = true
is_pending _ = false

pub record Turn : Type 0 where
  pub stop_wanted : Bool  -- stop_signal_value(options) != 0
  pub stop_answer : Stopping
  pub poll_ok : Bool
  pub stdout : Reading
  pub clock_ok : Bool
  pub stderr : Reading
  pub wait : Wait
  pub stable_due : Bool  -- timeout_elapsed(&running_since, stable_run_sec)
  pub startup_due : Bool
  pub progress_due : Bool
  pub cleanup_answer : Stopping

-- The variables of the loop, and the snapshots that the observer was given.
pub record Attempt : Type 0 where
  pub child : Worker
  pub parser : Parser
  pub latest : WorkerProgress
  pub received : Bool
  pub stable_reported : Bool
  pub exited : Bool
  pub outcome : AttemptOutcome
  pub runtime : Runtime
  pub snapshot : Snapshot
  pub published : List Snapshot

-- A part of the loop's body ends in the next part or in `break`.
pub data Flow : Type 0 where
  going : Attempt → Flow
  broken : Attempt → Flow

infixl 5 ◌>>=◌
abbrev pub ◌>>=◌ : Flow → (Attempt → Flow) → Flow
going a >>= f = f a
broken a >>= f = broken a

abbrev pub publish : Attempt → Snapshot → Attempt
publish a s = record a { snapshot = s; published = a.published ++ s ∷ [] }

abbrev pub is_ok : Status → Bool
is_ok ok = true
is_ok _ = false

abbrev pub break_with : Attempt → AttemptOutcome → Flow
break_with a outcome = broken (record a { outcome = outcome })

-- `gw_process_stop` with the outcome that is set on success and the one that is kept on failure
unfoldable pub stop_child : Attempt → Stopping → AttemptOutcome → AttemptOutcome → Flow
stop_child a answer success failure =
    let (status, w) = stop a.child answer in
    if is_ok status
    then going (record a { child = w; outcome = success; exited = true })
    else broken (record a { child = w; outcome = failure })

unfoldable pub stop_phase : Turn → Attempt → Flow
stop_phase t a =
    if t.stop_wanted && is_pending a.outcome && not a.exited
    then stop_child a t.stop_answer stop_requested a.outcome
    else going a

unfoldable pub poll_phase : Turn → Attempt → Flow
poll_phase t a = if t.poll_ok then going a else broken a

-- A record was completed: the first moves the channel to RUNNING, each is published.
unfoldable pub record_phase : RetryPolicy → Attempt → Flow
record_phase policy a =
    let out = transition a.runtime progress policy none in
    let after = if a.received then a else record a { received = true; runtime = out.runtime } in
    let s =
      set_progress (update_runtime after.snapshot after.runtime (text "progress")) after.latest
        (text "progress") in
    if not a.received && not (is_ok out.status)
    then break_with after internal_error
    else going (publish after s)

unfoldable pub stdout_bytes : (Bytes → Double) → RetryPolicy → Bool → Bytes → Attempt → Flow
stdout_bytes strtod policy clock_ok bytes a =
    let (status, s, _) = consume strtod a.parser bytes a.latest none in
    let after = record a { parser = s.parser; latest = s.progress } in
    if not (is_ok status)
    then broken after
    else if not s.completed
    then going after
    else if not clock_ok
    then break_with after internal_error
    else record_phase policy after

unfoldable pub read_stdout : (Bytes → Double) → RetryPolicy → Bool → Reading → Attempt → Flow
read_stdout strtod policy clock_ok idle a = going a
read_stdout strtod policy clock_ok read_failed a = broken a
read_stdout strtod policy clock_ok end_of_stream a =
    stdout_bytes strtod policy clock_ok []
      (record a { child = record (a.child) { stdout_open = false } })
read_stdout strtod policy clock_ok (got bytes) a = stdout_bytes strtod policy clock_ok bytes a

-- `poll` reports nothing on a pipe that is closed.
unfoldable pub stdout_phase : (Bytes → Double) → RetryPolicy → Turn → Attempt → Flow
stdout_phase strtod policy t a =
    if not a.child.stdout_open then going a else read_stdout strtod policy t.clock_ok t.stdout a

unfoldable pub stderr_phase : Turn → Attempt → Flow
stderr_phase t a = if not a.child.stderr_open then going a else (elim t.stderr [
  | idle ↦ going a
  | read_failed ↦ broken a
  | end_of_stream ↦ going (record a { child = record (a.child) { stderr_open = false } })
  | got bytes ↦ going a
])

unfoldable pub wait_phase : Turn → Attempt → Flow
wait_phase t a =
    let (status, w, done) = poll_exit a.child t.wait in
    if a.exited
    then going a
    else if is_ok status
    then going (record a { child = w; exited = done })
    else broken (record a { child = w })

unfoldable pub stable_phase : RetryPolicy → Turn → Attempt → Flow
stable_phase policy t a =
    let out = transition a.runtime stable policy none in
    let after = record a { runtime = out.runtime } in
    if not a.exited && a.received && not a.stable_reported && t.stable_due
    then (if is_ok out.status
        then going (
            publish (record after { stable_reported = true })
              (update_runtime after.snapshot after.runtime (text "stable")))
        else break_with after internal_error)
    else going a

-- Startup waits for the first record; later a record is due again and again.
abbrev pub due : Turn → Attempt → AttemptOutcome
due t a =
    if not a.received && t.startup_due
    then startup_timeout
    else if a.received && t.progress_due
    then progress_timeout
    else pending

unfoldable pub timeout_phase : Turn → Attempt → Flow
timeout_phase t a =
    if not a.exited && is_pending a.outcome && not (is_pending (due t a))
    then stop_child a t.cleanup_answer (due t a) internal_error
    else going a
