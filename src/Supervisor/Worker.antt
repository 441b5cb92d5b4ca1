-- ===== src/Supervisor/Worker.antt =====
-- The child process of an attempt, as the supervisor sees it:
-- rk3588-media-gateway/src/process/process_manager.c from a successful start to the close, without
-- the diagnostics. What the operating system answers is an argument of each call.
pub mod Reaped
use learn_apue.Base.{
  ℕ, ◌+◌, Bool, true, false, not, List, [], ◌∷◌, Option, none, some, if◌then◌else◌,
}
use learn_apue.Base.Int.{ℤ, pos, negsuc, ltb_ℤ}
use learn_apue.Base.Text.{Bytes}
use learn_apue.Status.{Status, ok, io, validation}

-- What the macros of <sys/wait.h> tell of a `wait_status`.
pub data WaitStatus : Type 0 where
  exited signaled : ℕ → WaitStatus
  unclear : WaitStatus

-- `waitpid` with WNOHANG: an error, an interruption, no change, or the worker's end.
pub data Wait : Type 0 where
  wait_failed interrupted alive : Wait
  ended : WaitStatus → Wait

-- `gw_process_read` on a pipe that `poll` reported: an error, some bytes (none if it would block or
-- was interrupted), or the end, at which the descriptor is closed. `idle` if nothing was reported.
pub data Reading : Type 0 where
  idle read_failed end_of_stream : Reading
  got : Bytes → Reading

-- `gw_process`; of a descriptor, whether it is open.
pub record Worker : Type 0 where
  pub pid : ℤ
  pub running : Bool
  pub reaped : Bool
  pub stdout_open : Bool
  pub stderr_open : Bool
  pub wait_status : WaitStatus

-- `gw_process_start` that succeeded
unfoldable pub started : ℤ → Worker
started pid = record {
  pid = pid;
  running = true;
  reaped = false;
  stdout_open = true;
  stderr_open = true;
  wait_status = exited 0;
}

abbrev pub reap : Worker → WaitStatus → Worker
reap w status = record w { running = false; reaped = true; wait_status = status }

-- `gw_process_poll_exit`, which also says whether the worker has exited; that is not written on an
-- error.
unfoldable pub poll_exit : Worker → Wait → Status × Worker × Bool
poll_exit w answer =
    if w.reaped
    then (ok, w, true)
    else if not (ltb_ℤ (pos 0) w.pid)
    then (validation, w, false)
    else (elim answer [
      | wait_failed ↦ (io, w, false)
      | interrupted ↦ (ok, w, false)
      | alive ↦ (ok, w, false)
      | ended status ↦ (ok, reap w status, true)
    ])

-- What the system answers while a worker is stopped: to SIGTERM, to each poll up to the deadline, to
-- SIGKILL, and to the blocking `waitpid` behind it.
pub record Stopping : Type 0 where
  pub term_sent : Bool
  pub polls : List Wait
  pub last_poll : Wait
  pub kill_sent : Bool
  pub final_wait : Option WaitStatus

unfoldable pub wait_after_kill : Worker → Option WaitStatus → Status × Worker
wait_after_kill w none = (io, w)
wait_after_kill w (some status) = (ok, reap w status)

-- One poll; `more` is what follows if it does not end the call.
abbrev pub after_poll : Status × Worker × Bool → (Worker → Status × Worker) → Status × Worker
after_poll (ok, w, true) more = (ok, w)
after_poll (ok, w, false) more = more w
after_poll (status, w, done) more = (status, w)

-- The loop up to the deadline.
unfoldable pub poll_until : List Wait → Worker → (Worker → Status × Worker) → Status × Worker
poll_until [] w late = late w
poll_until (answer ∷ answers) w late =
    after_poll (poll_exit w answer) (λ w'. poll_until answers w' late)

unfoldable pub stop_late : Stopping → Worker → Status × Worker
stop_late s w =
    after_poll (poll_exit w s.last_poll)
      (λ w'. if not s.kill_sent then (io, w') else wait_after_kill w' s.final_wait)

-- `gw_process_stop`, with a timeout that is not negative
unfoldable pub stop : Worker → Stopping → Status × Worker
stop w s =
    if w.reaped
    then (ok, w)
    else if not (ltb_ℤ (pos 0) w.pid)
    then (validation, w)
    else if not s.term_sent
    then (io, w)
    else poll_until s.polls w (stop_late s)

-- `gw_process_exit_code`
unfoldable pub exit_code : Worker → ℤ
exit_code w = if not w.reaped then negsuc 0 else (elim w.wait_status [
  | exited code ↦ pos code
  | signaled signal ↦ pos (128 + signal)
  | unclear ↦ negsuc 0
])

-- `gw_process_close`
unfoldable pub close : Worker → Status × Worker
close w =
    if w.running
    then (validation, w)
    else (ok, record w { stdout_open = false; stderr_open = false; pid = negsuc 0 })
