-- ===== src/Tests/Supervisor.antt =====
-- A supervised channel at concrete inputs: supervisor.c and channel_snapshot.c.
use learn_apue.Base.{false, true, false, ◌≡◌, refl, [], ◌∷◌, some, arith}
use learn_apue.Base.Int.{pos}
use learn_apue.Channel.Invariant.{IsRuntime}
use learn_apue.Snapshot.{snapshot_init, none as no_process}
use learn_apue.Snapshot.Invariant.{
  IsSnapshot, worker_set, live_data_cleared, apply_all, updates-IsSnapshot,
}
use learn_apue.Supervisor.Attempt.{Turn}
use learn_apue.Supervisor.Attempt.Loop.{Launch, Result, run_attempt}
use learn_apue.Supervisor.Attempt.Ends.{IsResult}
use learn_apue.Supervisor.Attempt.Returns.{IsLastTurn, run_attempt_returns}
use learn_apue.Supervisor.Clock.{Timespec, timeout_elapsed}
use learn_apue.Supervisor.Run.{Round}
use learn_apue.Supervisor.Worker.Reaped.{IsStopped, stop-IsStopped}
use learn_apue.Supervisor.Worker.{
  Worker, stop, exit_code, poll_until, stop_late, poll_exit, wait_after_kill, Stopping, exited,
  signaled, idle, end_of_stream, got, ended, alive,
}
use learn_apue.Tests.Channel.{policy, policy-IsRetryPolicy, at_start}
use learn_apue.Tests.Config.{camera}
use learn_apue.Tests.Progress.{no_double, line}

updates-IsSnapshot_example :
    IsSnapshot (apply_all (snapshot_init camera) (worker_set (pos 7) [] ∷ live_data_cleared ∷ []))
updates-IsSnapshot_example =
    updates-IsSnapshot camera (worker_set (pos 7) [] ∷ live_data_cleared ∷ [])

nothing_runs : (snapshot_init camera).process_kind ≡ no_process
unfolding snapshot_init
nothing_runs = refl

-- a worker that dies of SIGKILL
abbrev silent : Stopping
silent = record {
  term_sent = true;
  polls = alive ∷ alive ∷ [];
  last_poll = alive;
  kill_sent = true;
  final_wait = some (signaled 9);
}

-- a turn that reads a record
abbrev record_turn : Turn
record_turn = record {
  stop_wanted = false;
  stop_answer = silent;
  poll_ok = true;
  stdout = got line;
  clock_ok = true;
  stderr = idle;
  wait = alive;
  stable_due = false;
  startup_due = false;
  progress_due = false;
  cleanup_answer = silent;
}

-- a turn in which the worker is found dead, with the exit code 1
abbrev last_turn : Turn
last_turn = record record_turn {
  stdout = end_of_stream;
  stderr = end_of_stream;
  wait = ended (exited 1);
}

last_turn-IsLastTurn : IsLastTurn last_turn
last_turn-IsLastTurn = record {
  stdout_ended = refl;
  stderr_ended = refl;
  worker_ended = (exited 1, refl);
}

abbrev launch : Launch
launch = record { built = true; start = some (pos 7); clock_ok = true; final_answer = silent }

abbrev round : Round
round = record { launch = launch; turns = record_turn ∷ last_turn ∷ []; waited = true }

abbrev last_round : Round
last_round = record round { waited = false }

at_start-IsRuntime : IsRuntime policy at_start
at_start-IsRuntime = ground arith

run_attempt_returns_example :
    (result : Result) × (run_attempt no_double policy true launch
        (record_turn ∷ last_turn ∷ [])
        at_start
        (snapshot_init camera)
      ≡ some result)
    × IsResult policy true result
run_attempt_returns_example =
    run_attempt_returns policy no_double true launch (record_turn ∷ []) last_turn at_start
      (snapshot_init camera) last_turn-IsLastTurn policy-IsRetryPolicy at_start-IsRuntime refl

-- a worker with the process identifier 7
abbrev child : Worker
child = record {
  pid = pos 7;
  running = true;
  reaped = false;
  stdout_open = true;
  stderr_open = true;
  wait_status = exited 0;
}

stop-IsStopped_example : IsStopped child (stop child silent)
stop-IsStopped_example = stop-IsStopped child silent refl

killed : exit_code (stop child silent).1 ≡ pos 137
unfolding stop exit_code poll_until stop_late poll_exit wait_after_kill
killed = refl

abbrev at_one : Timespec
at_one = record { tv_sec = 1; tv_nsec = 900000000 }

abbrev at_four : Timespec
at_four = record { tv_sec = 4; tv_nsec = 100000000 }

two_but_not_three :
    (timeout_elapsed (some at_four) at_one (pos 2) ≡ true)
    × (timeout_elapsed (some at_four) at_one (pos 3) ≡ false)
unfolding timeout_elapsed
two_but_not_three = (refl, refl)
