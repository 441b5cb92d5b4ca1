-- ===== src/Supervisor/Attempt/Returns.antt =====
-- When the poll loop of `run_worker_attempt` in supervisor.c is left.
use learn_apue.Base.{
  Bool, true, false, not, ◌&&◌, List, [], ◌∷◌, ◌++◌, none, some, ◌≡◌, refl, arith, inl, inr,
  Bool-cases, Option-cases,
}
use learn_apue.Base.Text.{Bytes}
use learn_apue.Channel.{starting, Runtime}
use learn_apue.Channel.Invariant.{IsRetryPolicy, IsRuntime}
use learn_apue.Config.{RetryPolicy}
use learn_apue.Progress.{Double, consume}
use learn_apue.Snapshot.{Snapshot}
use learn_apue.Supervisor.Attempt.{
  Turn, Attempt, Flow, going, broken, ◌>>=◌, internal_error, worker_failure, stop_child,
  stdout_phase, read_stdout, stdout_bytes, record_phase, stderr_phase, wait_phase, stable_phase,
  timeout_phase,
}
use learn_apue.Supervisor.Attempt.Loop.{
  Launch, Result, no_loop, finish, turn, turns, begin, run_attempt, goes_on,
}
use learn_apue.Supervisor.Attempt.Ends.{IsResult, run_attempt-IsResult}
use learn_apue.Supervisor.Attempt.Invariant.{Flow-cases}
use learn_apue.Supervisor.Worker.{WaitStatus, end_of_stream, ended, poll_exit}

-- A turn in which both pipes of the worker are at their end and `waitpid` reports its exit.
pub record IsLastTurn (t : Turn) : Type 0 where
  pub stdout_ended : t.stdout ≡ end_of_stream
  pub stderr_ended : t.stderr ≡ end_of_stream
  pub worker_ended : (status : WaitStatus) × (t.wait ≡ ended status)

abbrev pub out_closed : Flow → Bool
out_closed (going a) = not a.child.stdout_open
out_closed (broken a) = true

abbrev pub closed : Flow → Bool
closed (going a) = not a.child.stdout_open && not a.child.stderr_open
closed (broken a) = true

-- both pipes closed, and the worker's exit noticed
abbrev pub over : Flow → Bool
over (going a) = a.exited && not a.child.stdout_open && not a.child.stderr_open
over (broken a) = true

bind-keeps :
    (p q : Flow → Bool) (m : Flow) (f : Attempt → Flow)
    → ((a : Attempt) → q (broken a) ≡ true)
    → p m ≡ true
    → ((a : Attempt) → p (going a) ≡ true → q (f a) ≡ true)
    → q (m >>= f) ≡ true
bind-keeps p q (going a) f b h k = k a h
bind-keeps p q (broken a) f b h k = b a

module _ (policy : RetryPolicy) where
  record_phase_out :
      (a : Attempt) → a.child.stdout_open ≡ false → out_closed (record_phase policy a) ≡ true
  unfolding record_phase
  record_phase_out a h = ground arith

  module _ (strtod : Bytes → Double) where
    stdout_bytes_out :
        (clock_ok : Bool) (bytes : Bytes) (a : Attempt)
        → a.child.stdout_open ≡ false
        → out_closed (stdout_bytes strtod policy clock_ok bytes a) ≡ true
    unfolding stdout_bytes
    stdout_bytes_out clock_ok bytes a h =
        let (status, s, _) = consume strtod a.parser bytes a.latest none in
        let after : Attempt = record a { parser = s.parser; latest = s.progress } in
        ground (arith, record_phase_out after)

    stdout_phase_out :
        (t : Turn) (a : Attempt)
        → t.stdout ≡ end_of_stream
        → out_closed (stdout_phase strtod policy t a) ≡ true
    unfolding stdout_phase read_stdout
    stdout_phase_out t a e = elim (Bool-cases a.child.stdout_open) [
      | inr o ↦ ground arith
      | inl o ↦
          simp (o, e)
            (stdout_bytes_out t.clock_ok []
              (record a { child = record (a.child) { stdout_open = false } }) refl)
    ]

  stderr_phase_closed :
      (t : Turn) (a : Attempt)
      → t.stderr ≡ end_of_stream
      → a.child.stdout_open ≡ false
      → closed (stderr_phase t a) ≡ true
  unfolding stderr_phase
  stderr_phase_closed t a e h = ground arith

  wait_phase-over :
      (t : Turn) (a : Attempt) {status : WaitStatus}
      → t.wait ≡ ended status
      → closed (going a) ≡ true
      → over (wait_phase t a) ≡ true
  unfolding wait_phase poll_exit
  wait_phase-over t a e h = ground arith

  stable_phase-over :
      (t : Turn) (a : Attempt) → over (going a) ≡ true → over (stable_phase policy t a) ≡ true
  unfolding stable_phase
  stable_phase-over t a h = ground arith

  timeout_phase-over :
      (t : Turn) (a : Attempt) → over (going a) ≡ true → over (timeout_phase t a) ≡ true
  unfolding timeout_phase stop_child
  timeout_phase-over t a h = ground arith

  module _ (strtod : Bytes → Double) where
    last_turn-over : (t : Turn) (a : Attempt) → IsLastTurn t → over (turn strtod policy t a) ≡ true
    unfolding turn
    last_turn-over t a h =
        bind-keeps over over _ (timeout_phase t) (λ b. refl)
          (bind-keeps over over _ (stable_phase policy t) (λ b. refl)
            (bind-keeps closed over _ (wait_phase t) (λ b. refl)
              (bind-keeps out_closed closed _ (stderr_phase t) (λ b. refl)
                (bind-keeps (λ m. true) out_closed _ (stdout_phase strtod policy t) (λ b. refl) refl
                  (λ b _. stdout_phase_out strtod t b h.stdout_ended))
                (λ b k. stderr_phase_closed t b h.stderr_ended (ground arith)))
              (λ b k. wait_phase-over t b h.worker_ended.1 k))
            (stable_phase-over t))
          (timeout_phase-over t)

    turns_over :
        (ts : List Turn) (a : Attempt) → goes_on a ≡ false → turns strtod policy ts a ≡ some a
    unfolding turns
    turns_over [] a h = ground arith
    turns_over (t ∷ ts) a h = ground arith

    -- The loop is left, at the latest behind a last turn.
    turns_return :
        (ts : List Turn) (t : Turn) (a : Attempt)
        → IsLastTurn t
        → (b : Attempt) × (turns strtod policy (ts ++ t ∷ []) a ≡ some b)
    unfolding turns
    turns_return [] t a h = elim (Bool-cases (goes_on a)) [
      | inr off ↦ (a, ground arith)
      | inl on ↦ elim (Flow-cases (turn strtod policy t a)) [
        | inl (a', q) ↦
            let o : over (going a') ≡ true = rw q at (last_turn-over t a h) in
            let off : goes_on a' ≡ false = ground arith in (a', simp (on, q, off) refl)
        | inr (a', q) ↦ (a', simp (on, q) refl)
      ]
    ]
    turns_return (u ∷ ts) t a h = elim (Bool-cases (goes_on a)) [
      | inr off ↦ (a, ground arith)
      | inl on ↦ elim (Flow-cases (turn strtod policy u a)) [
        | inl (a', q) ↦ let (b, e) = turns_return ts t a' h in (b, simp (on, q) e)
        | inr (a', q) ↦ (a', simp (on, q) refl)
      ]
    ]

    -- An attempt that launches its worker ends, whatever its turns are, once one of them finds the
    -- worker dead and its pipes at their end.
    pub run_attempt-some :
        (stop_on_clean_exit : Bool) (launch : Launch) (ts : List Turn) (t : Turn) (r : Runtime)
        (s : Snapshot)
        → IsLastTurn t
        → (result : Result) × (run_attempt strtod policy stop_on_clean_exit launch
              (ts ++ t ∷ [])
              r
              s
            ≡ some result)
    unfolding run_attempt
    run_attempt-some stop_on_clean_exit launch ts t r s h = elim (Bool-cases launch.built) [
      | inr b ↦ (no_loop internal_error r s, simp b refl)
      | inl b ↦ elim (Option-cases launch.start) [
        | inl n ↦ (no_loop worker_failure r s, simp (b, n) refl)
        | inr (pid, n) ↦ elim (Bool-cases launch.clock_ok) [
          | inr c ↦ (no_loop internal_error r s, simp (b, n, c) refl)
          | inl c ↦
              let (a, q) = turns_return ts t (begin pid r s) h in
              (finish stop_on_clean_exit launch.final_answer a, simp (b, n, c, q) refl)
        ]
      ]
    ]

    -- An attempt that starts in STARTING under a retry policy in range, and a turn of which finds
    -- the worker dead and both of its pipes at their end, ends at that turn at the latest. Its
    -- outcome is definite, and a clean exit only for the exit code 0 in the mode that stops then;
    -- the channel is still STARTING or RUNNING, and the runtime's invariant holds.
    pub run_attempt_returns :
        (stop_on_clean_exit : Bool) (launch : Launch) (ts : List Turn) (t : Turn) (r : Runtime)
        (s : Snapshot)
        → IsLastTurn t
        → IsRetryPolicy policy
        → IsRuntime policy r
        → r.state ≡ starting
        → (result : Result) × (run_attempt strtod policy stop_on_clean_exit launch
              (ts ++ t ∷ [])
              r
              s
            ≡ some result)
          × IsResult policy stop_on_clean_exit result
    run_attempt_returns stop_on_clean_exit launch ts t r s l v h e =
        let (result, q) = run_attempt-some stop_on_clean_exit launch ts t r s l in
        (
          result,
          q,
          run_attempt-IsResult policy stop_on_clean_exit strtod launch (ts ++ t ∷ []) r s v h e q,
        )
