-- ===== src/Supervisor/Run/Ends.antt =====
-- How `gw_supervisor_run` of supervisor.c returns.
use mathlib.Core.Path.{subst}
use learn_apue.Base.{
  Option, Bool, true, false, ◌&&◌, ◌++◌, List, [], ◌∷◌, none, some, ◌≡◌, ◌≢◌, ◌⊎◌, refl, arith, inl,
  inr, Bool-cases, Option-cases,
}
use learn_apue.Base.Text.{Bytes, text}
use learn_apue.Channel.{
  is, disabled, stopped, starting, running, backoff, failed, Runtime, start, stop, failure,
  backoff_elapsed, transition, runtime_init,
}
use learn_apue.Channel.Accepted.{stop_accepted, failure_accepted, retry_accepted, start_accepted}
use learn_apue.Channel.Invariant.{
  IsRetryPolicy, IsRuntime, transition-IsRuntime, runtime_init-IsRuntime,
}
use learn_apue.Config.{ChannelConfig, RetryPolicy}
use learn_apue.Progress.{Double}
use learn_apue.Snapshot.{Snapshot, update_runtime, clear_live_data}
use learn_apue.Supervisor.Attempt.{attempt_event_string}
use learn_apue.Supervisor.Attempt.Loop.{run_attempt, Result}
use learn_apue.Supervisor.Attempt.Ends.{IsResult, run_attempt-IsResult}
use learn_apue.Supervisor.Run.{
  is_wanted_end, Round, Run, Returned, Exit, fresh_run, Pass, again, returned, advance, ended_run,
  stop_run, retry, fail_run, after_attempt, rounds, run_checked,
}

update-state :
    (s : Snapshot) (r : Runtime) (label : Bytes) → (update_runtime s r label).state ≡ r.state
unfolding update_runtime
update-state s r label = refl

pub Pass-cases : (m : Pass) → ((run : Run) × (m ≡ again run)) ⊎ ((r : Returned) × (m ≡ returned r))
Pass-cases (again run) = inl (run, refl)
Pass-cases (returned r) = inr (r, refl)

none_some : {A : Type 0} {a : A} → ¬ (none ≡ some a)
none_some e = ground arith

module _ (policy : RetryPolicy) (exit_on_exhaustion : Bool) where
  -- What `gw_supervisor_run` returns: 0 with the channel STOPPED, or 1 with the channel FAILED if
  -- the options ask to leave on exhausted retries.
  pub record IsReturned (r : Returned) : Type 0 where
    pub code_and_state :
        ((r.code ≡ 0) × (r.last.runtime.state ≡ stopped))
        ⊎ ((r.code ≡ 1) × (r.last.runtime.state ≡ failed) × (exit_on_exhaustion ≡ true))
    pub published_state : r.last.snapshot.state ≡ r.last.runtime.state
    pub runtime_ok : IsRuntime policy r.last.runtime

  -- How a call ends that is given that name of the executable: without a name with 2, before it sets
  -- or publishes anything.
  abbrev pub IsExit : Option Bytes → Exit → Type 0
  IsExit none e = (e.code ≡ 2) × (e.last ≡ none)
  IsExit (some []) e = (e.code ≡ 2) × (e.last ≡ none)
  IsExit (some (c ∷ cs)) e =
      (r : Returned) × (e.code ≡ r.code) × (e.last ≡ some r.last) × IsReturned r

  -- Between two attempts the channel is STARTING.
  pub record IsRun (run : Run) : Type 0 where
    pub about_to_start : run.runtime.state ≡ starting
    pub runtime_ok : IsRuntime policy run.runtime

  abbrev IsPass : Pass → Type 0
  IsPass (again run) = IsRun run
  IsPass (returned r) = IsReturned r

  stop_run-IsPass :
      (label : Bytes) (run : Run)
      → IsRetryPolicy policy
      → run.runtime.state ≢ disabled
      → IsRuntime policy run.runtime
      → IsPass (stop_run policy label run)
  unfolding stop_run advance update_runtime
  stop_run-IsPass label run v d h = ground (
    arith,
    stop_accepted policy run.runtime v,
    transition-IsRuntime policy run.runtime stop none v h,
  )

  retry-IsPass :
      (waited : Bool) (run : Run)
      → IsRetryPolicy policy
      → (run.runtime.state ≡ backoff) ⊎ (run.runtime.state ≡ failed)
      → IsRuntime policy run.runtime
      → IsPass (retry policy waited run)
  unfolding retry advance
  retry-IsPass false run v d h = stop_run-IsPass (text "stop_requested") run v (ground arith) h
  retry-IsPass true run v d h = ground (
    arith,
    retry_accepted policy run.runtime v,
    transition-IsRuntime policy run.runtime backoff_elapsed none v h,
  )

  fail_run-IsPass :
      (waited : Bool) (label : Bytes) (run : Run)
      → IsRetryPolicy policy
      → (run.runtime.state ≡ starting) ⊎ (run.runtime.state ≡ running)
      → IsRuntime policy run.runtime
      → IsPass (fail_run policy exit_on_exhaustion waited label run)
  unfolding fail_run
  fail_run-IsPass waited label run v d h =
      let out = transition run.runtime failure policy none in
      let s' = update_runtime (clear_live_data run.snapshot) out.runtime label in
      let after : Run = record {
        runtime = out.runtime;
        snapshot = s';
        published = run.published ++ s' ∷ [];
      } in
      let (q, o) = failure_accepted policy run.runtime v d in
      let k = transition-IsRuntime policy run.runtime failure none v h in
      let rest = retry-IsPass waited after v o k in
      elim (Bool-cases (is out.runtime.state failed && exit_on_exhaustion)) [
        | inl b ↦
            simp (q, b)
              (ground (arith, update-state (clear_live_data run.snapshot) out.runtime label))
        | inr b ↦ simp (q, b) rest
      ]

  starts :
      (result : Result)
      → (result.runtime.state ≡ starting) ⊎ (result.runtime.state ≡ running)
      → result.runtime.state ≢ disabled
  starts result h = ground arith

  after_attempt-IsPass :
      (waited stop_on_clean_exit : Bool) (result : Result) (run : Run)
      → IsRetryPolicy policy
      → IsResult policy stop_on_clean_exit result
      → IsPass (after_attempt policy exit_on_exhaustion waited result run)
  unfolding after_attempt ended_run
  after_attempt-IsPass waited stop_on_clean_exit result run v h =
      let label = attempt_event_string result.outcome in
      elim (Bool-cases (is_wanted_end result.outcome)) [
        | inl b ↦
            simp b
              (stop_run-IsPass label (ended_run run result) v (starts result h.active) h.runtime_ok)
        | inr b ↦
            simp b (fail_run-IsPass waited label (ended_run run result) v h.active h.runtime_ok)
      ]

  module _ (strtod : Bytes → Double) (stop_on_clean_exit : Bool) where
    rounds-IsReturned :
        (ks : List Round) (run : Run) {r : Returned}
        → IsRetryPolicy policy
        → IsRun run
        → rounds strtod policy stop_on_clean_exit exit_on_exhaustion ks run ≡ some r
        → IsReturned r
    unfolding rounds
    rounds-IsReturned [] run v h q = absurd (ground arith)
    rounds-IsReturned (k ∷ ks) run {r} v h q =
        elim (Option-cases (
          run_attempt strtod policy stop_on_clean_exit k.launch k.turns run.runtime run.snapshot)) [
            | inl n ↦ absurd (none_some (rw (n, rounds) at q))
            | inr (result, e) ↦
                let good =
                  run_attempt-IsResult policy stop_on_clean_exit strtod k.launch k.turns run.runtime
                    run.snapshot v h.runtime_ok h.about_to_start e in
                let pass = after_attempt-IsPass k.waited stop_on_clean_exit result run v good in
                elim (Pass-cases (after_attempt policy exit_on_exhaustion k.waited result run)) [
                  | inl (run', p) ↦
                      rounds-IsReturned ks run' {r = r} v (subst IsPass p pass)
                        (rw (e, p, rounds) at q)
                  | inr (r', p) ↦
                      let same : some r' ≡ some r = rw (e, p, rounds) at q in
                      subst IsReturned (cc) (subst IsPass p pass)
                ]
          ]

    first_advance :
        (run : Run)
        → IsRetryPolicy policy
        → run.runtime.state ≡ stopped
        → IsRuntime policy run.runtime
        → ((advance policy start (text "start") run).0 ≡ true)
          × IsRun (advance policy start (text "start") run).1
    unfolding advance
    first_advance run v e h = ground (
      arith,
      start_accepted policy run.runtime v e,
      transition-IsRuntime policy run.runtime start none v h,
    )

    enabled-stopped : (enabled : Bool) → enabled ≡ true → (runtime_init enabled).state ≡ stopped
    unfolding runtime_init
    enabled-stopped enabled e = ground arith

    -- If a run of an enabled channel under a retry policy in range returns, it does so as
    -- `IsReturned` says.
    pub run_checked-IsReturned :
        (channel : ChannelConfig) (ks : List Round) {r : Returned}
        → IsRetryPolicy policy
        → channel.enabled ≡ true
        → run_checked strtod policy stop_on_clean_exit exit_on_exhaustion channel ks ≡ some r
        → IsReturned r
    unfolding run_checked
    run_checked-IsReturned channel ks {r} v e q =
        let (accepted, h) =
          first_advance (fresh_run channel) v (enabled-stopped channel.enabled e)
            (runtime_init-IsRuntime policy channel.enabled) in
        rounds-IsReturned ks (advance policy start (text "start") (fresh_run channel)).1 {r = r} v h
          (rw (accepted, run_checked) at q)
