-- ===== src/Supervisor/Worker/Reaped.antt =====
-- What a stop of process_manager.c leaves behind.
use learn_apue.Base.{true, false, not, List, [], ◌∷◌, ◌≡◌, ◌⊎◌, ◌≢◌, arith}
use learn_apue.Status.{Status, ok}
use learn_apue.Supervisor.Worker.{
  Worker, Wait, Stopping, poll_exit, after_poll, poll_until, stop_late, wait_after_kill, stop,
}

-- Either the call succeeded and the worker is dead and reaped, or it failed and left the worker.
pub record IsStopped (w : Worker) (out : Status × Worker) : Type 0 where
  pub dead_or_same :
      ((out.0 ≡ ok) × (out.1.running ≡ false) × (out.1.reaped ≡ true))
      ⊎ ((out.0 ≢ ok) × (out.1 ≡ w))
  pub same_pipes : (out.1.stdout_open ≡ w.stdout_open) × (out.1.stderr_open ≡ w.stderr_open)

after_poll-IsStopped :
    (w : Worker) (answer : Wait) (more : Worker → Status × Worker)
    → w.reaped ≡ false
    → IsStopped w (more w)
    → IsStopped w (after_poll (poll_exit w answer) more)
unfolding poll_exit
after_poll-IsStopped w answer more h k = ground arith

poll_until-IsStopped :
    (answers : List Wait) (w : Worker) (late : Worker → Status × Worker)
    → w.reaped ≡ false
    → IsStopped w (late w)
    → IsStopped w (poll_until answers w late)
unfolding poll_until
poll_until-IsStopped [] w late h k = k
poll_until-IsStopped (answer ∷ answers) w late h k =
    after_poll-IsStopped w answer (λ w'. poll_until answers w' late) h
      (poll_until-IsStopped answers w late h k)

stop_late-IsStopped : (s : Stopping) (w : Worker) → w.reaped ≡ false → IsStopped w (stop_late s w)
unfolding stop_late wait_after_kill
stop_late-IsStopped s w h = after_poll-IsStopped w s.last_poll _ h (ground arith)

-- Stopping a worker that is either running or reaped ends, whatever the system answers, with the
-- worker dead and reaped, or with an error that leaves it as it was; its pipes stay as they are.
pub stop-IsStopped : (w : Worker) (s : Stopping) → w.running ≡ not w.reaped → IsStopped w (stop w s)
unfolding stop
stop-IsStopped w s h = ground (
  arith,
  λ (k : w.reaped ≡ false).
      poll_until-IsStopped s.polls w (stop_late s) k (stop_late-IsStopped s w k),
)
