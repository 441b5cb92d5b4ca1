-- ===== src/Supervisor/Attempt/Loop.antt =====
-- The poll loop of `run_worker_attempt` in supervisor.c, with the start and the end of the worker
-- around it.
use mathlib.Core.Option
use learn_apue.Base.{Bool, false, not, ◌&&◌, ◌||◌, List, [], ◌∷◌, Option, none, some, if◌then◌else◌}
use learn_apue.Base.Int.{ℤ, pos, negsuc, eq_ℤ}
use learn_apue.Base.Text.{Bytes, text}
use learn_apue.Channel.{Runtime}
use learn_apue.Config.{RetryPolicy}
use learn_apue.Progress.{WorkerProgress, no_progress, parser_init, Double}
use learn_apue.Snapshot.{Snapshot, worker, set_process}
use learn_apue.Supervisor.Worker.{Stopping, started, stop, exit_code, close}
use learn_apue.Supervisor.Attempt.{
  AttemptOutcome, pending, clean_exit, worker_failure, internal_error, is_pending, Turn, Attempt,
  Flow, going, broken, ◌>>=◌, is_ok, stop_phase, poll_phase, stdout_phase, stderr_phase, wait_phase,
  stable_phase, timeout_phase,
}

-- The body of the loop.
unfoldable pub turn : (Bytes → Double) → RetryPolicy → Turn → Attempt → Flow
turn strtod policy t a =
    stop_phase t a
    >>= poll_phase t
    >>= stdout_phase strtod policy t
    >>= stderr_phase t
    >>= wait_phase t
    >>= stable_phase policy t
    >>= timeout_phase t

-- `!exited || process.stdout_fd >= 0 || process.stderr_fd >= 0`
abbrev pub goes_on : Attempt → Bool
goes_on a = not a.exited || a.child.stdout_open || a.child.stderr_open

-- The loop over the turns given; `none` if it is still running after the last of them.
unfoldable pub turns : (Bytes → Double) → RetryPolicy → List Turn → Attempt → Option Attempt
turns strtod policy [] a = if goes_on a then none else some a
turns strtod policy (t ∷ ts) a =
    if goes_on a
    then (elim (turn strtod policy t a) [
      | going a' ↦ turns strtod policy ts a'
      | broken a' ↦ some a'
    ])
    else some a

pub record Launch : Type 0 where
  pub built : Bool  -- gw_pipeline_build
  pub start : Option ℤ  -- gw_process_start: the process identifier
  pub clock_ok : Bool
  pub final_answer : Stopping  -- to the gw_process_stop behind the loop

-- `worker_attempt_result`, with what the attempt did to the runtime and the snapshot.
pub record Result : Type 0 where
  pub outcome : AttemptOutcome
  pub exit_code : ℤ
  pub progress : WorkerProgress
  pub runtime : Runtime
  pub snapshot : Snapshot
  pub published : List Snapshot

abbrev pub minus_one : ℤ
minus_one = negsuc 0

-- An attempt that ends before its loop.
abbrev pub no_loop : AttemptOutcome → Runtime → Snapshot → Result
no_loop outcome r s = record {
  outcome = outcome;
  exit_code = minus_one;
  progress = no_progress;
  runtime = r;
  snapshot = s;
  published = [];
}

-- The worker runs, and its start is published.
unfoldable pub begin : ℤ → Runtime → Snapshot → Attempt
begin pid r s =
    let s' = set_process s worker pid (text "worker_started") in
    record {
      child = started pid;
      parser = parser_init;
      latest = no_progress;
      received = false;
      stable_reported = false;
      exited = false;
      outcome = pending;
      runtime = r;
      snapshot = s';
      published = s' ∷ [];
    }

-- The outcome of a worker that has been reaped.
abbrev pub settle : Bool → ℤ → AttemptOutcome → AttemptOutcome
settle stop_on_clean_exit code outcome =
    if is_pending outcome
    then (if eq_ℤ code (pos 0) && stop_on_clean_exit then clean_exit else worker_failure)
    else outcome

-- What follows the loop on every path.
unfoldable pub finish : Bool → Stopping → Attempt → Result
finish stop_on_clean_exit answer a =
    let child = if a.child.running then (stop a.child answer).1 else a.child in
    let settled =
      if child.reaped then settle stop_on_clean_exit (exit_code child) a.outcome else a.outcome in
    record {
      outcome = if is_ok (close child).0 then settled else internal_error;
      exit_code = if child.reaped then exit_code child else minus_one;
      progress = a.latest;
      runtime = a.runtime;
      snapshot = a.snapshot;
      published = a.published;
    }

-- `none` if the worker has not ended within the turns given.
unfoldable pub run_attempt :
    (Bytes → Double) → RetryPolicy → Bool → Launch → List Turn → Runtime → Snapshot → Option Result
run_attempt strtod policy stop_on_clean_exit launch ts r s =
    if not launch.built then some (no_loop internal_error r s) else (elim launch.start [
      | none ↦ some (no_loop worker_failure r s)
      | some pid ↦
          if not launch.clock_ok
          then some (no_loop internal_error r s)
          else Option.map (finish stop_on_clean_exit launch.final_answer)
              (turns strtod policy ts (begin pid r s))
    ])
