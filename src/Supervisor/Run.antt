-- ===== src/Supervisor/Run.antt =====
-- `gw_supervisor_run` of rk3588-media-gateway/src/channel/supervisor.c: the attempts of a channel
-- and the retries between them. The environment is one `Round` for each pass of the loop, with what
-- the attempt meets and whether the backoff was waited out. The options' other members are the
-- observer, which the list of published snapshots stands for. The name of the executable is `none` for a
-- null pointer; the other pointers are not null.
pub mod Ends
pub mod Returns
use learn_apue.Base.{
  ℕ, Bool, true, false, not, ◌&&◌, List, [], ◌∷◌, ◌++◌, Option, none, some, if◌then◌else◌,
}
use learn_apue.Base.Int.{ℤ}
use learn_apue.Base.Text.{Bytes, text}
use learn_apue.Channel.{
  Runtime, failed, Event, start, failure, stop, backoff_elapsed, runtime_init, transition, is,
}
use learn_apue.Config.{ChannelConfig, RetryPolicy}
use learn_apue.Progress.{Double}
use learn_apue.Snapshot.{
  Snapshot, snapshot_init, update_runtime, clear_process, clear_live_data, set_progress,
}
use learn_apue.Supervisor.Attempt.{
  AttemptOutcome, clean_exit, stop_requested, attempt_event_string, Turn, is_ok,
}
use learn_apue.Supervisor.Attempt.Loop.{Launch, Result, run_attempt}

pub record Round : Type 0 where
  pub launch : Launch
  pub turns : List Turn
  pub waited : Bool  -- wait_for_backoff

-- The local variables of the run, and the snapshots that the observer was given.
pub record Run : Type 0 where
  pub runtime : Runtime
  pub snapshot : Snapshot
  pub published : List Snapshot

pub record Returned : Type 0 where
  pub code : ℕ
  pub last : Run

-- A pass of the loop ends in the next pass or in `return`.
pub data Pass : Type 0 where
  again : Run → Pass
  returned : Returned → Pass

abbrev pub return_with : ℕ → Run → Pass
return_with code run = returned (record { code = code; last = run })

abbrev pub has_status : List ℕ → Bool
has_status [] = false
has_status (_ ∷ _) = true

abbrev pub is_wanted_end : AttemptOutcome → Bool
is_wanted_end clean_exit = true
is_wanted_end stop_requested = true
is_wanted_end _ = false

-- A transition, and its publication if it is accepted: what the run is then, and whether it was.
unfoldable pub advance : RetryPolicy → Event → Bytes → Run → Bool × Run
advance policy event label run =
    let out = transition run.runtime event policy none in
    let s = update_runtime run.snapshot out.runtime label in
    if is_ok out.status
    then (true, record { runtime = out.runtime; snapshot = s; published = run.published ++ s ∷ [] })
    else (false, record run { runtime = out.runtime })

-- What the end of an attempt publishes.
unfoldable pub ended_run : Run → Result → Run
ended_run run result =
    let label = attempt_event_string result.outcome in
    let cleared = clear_process result.snapshot result.exit_code label in
    let s =
      if has_status result.progress.status
      then set_progress cleared result.progress label
      else cleared in
    record {
      runtime = result.runtime;
      snapshot = s;
      published = run.published ++ (result.published ++ s ∷ []);
    }

-- `return 0` after the transition that `stop` makes, `return 1` if it is refused
unfoldable pub stop_run : RetryPolicy → Bytes → Run → Pass
stop_run policy label run =
    let (accepted, after) = advance policy stop label run in
    return_with (if accepted then 0 else 1) after

-- From the backoff on.
unfoldable pub retry : RetryPolicy → Bool → Run → Pass
retry policy waited run =
    let (accepted, after) = advance policy backoff_elapsed (text "backoff_elapsed") run in
    if not waited
    then stop_run policy (text "stop_requested") run
    else if accepted
    then again after
    else return_with 1 after

-- The failure's transition comes before the snapshot's live data are cleared.
unfoldable pub fail_run : RetryPolicy → Bool → Bool → Bytes → Run → Pass
fail_run policy exit_on_exhaustion waited label run =
    let out = transition run.runtime failure policy none in
    let s = update_runtime (clear_live_data run.snapshot) out.runtime label in
    let after : Run = record {
      runtime = out.runtime;
      snapshot = s;
      published = run.published ++ s ∷ [];
    } in
    if not (is_ok out.status)
    then return_with 1 (record run { runtime = out.runtime })
    else if is out.runtime.state failed && exit_on_exhaustion
    then return_with 1 after
    else retry policy waited after

-- The body of the loop, behind the attempt.
unfoldable pub after_attempt : RetryPolicy → Bool → Bool → Result → Run → Pass
after_attempt policy exit_on_exhaustion waited result run =
    let label = attempt_event_string result.outcome in
    if is_wanted_end result.outcome
    then stop_run policy label (ended_run run result)
    else fail_run policy exit_on_exhaustion waited label (ended_run run result)

abbrev pub fresh_run : ChannelConfig → Run
fresh_run channel = record {
  runtime = runtime_init channel.enabled;
  snapshot = snapshot_init channel;
  published = [];
}

-- What the call returns, and its local variables if it set them.
pub record Exit : Type 0 where
  pub code : ℕ
  pub last : Option Run

abbrev pub bad_arguments : Exit
bad_arguments = record { code = 2; last = none }

abbrev pub exit_of : Returned → Exit
exit_of r = record { code = r.code; last = some r.last }

abbrev pub exit_if : Option Returned → Option Exit
exit_if none = none
exit_if (some r) = some (exit_of r)

module _ (strtod : Bytes → Double) (policy : RetryPolicy)
    (stop_on_clean_exit exit_on_exhaustion : Bool) where
  -- `for (;;)` over the rounds given; `none` if they are used up before the return.
  unfoldable pub rounds : List Round → Run → Option Returned
  rounds [] run = none
  rounds (k ∷ ks) run =
      elim (run_attempt strtod policy stop_on_clean_exit k.launch k.turns run.runtime
        run.snapshot) [
          | none ↦ none
          | some result ↦ elim (after_attempt policy exit_on_exhaustion k.waited result run) [
            | again run' ↦ rounds ks run'
            | returned r ↦ some r
          ]
        ]

  -- Behind the check of the arguments.
  unfoldable pub run_checked : ChannelConfig → List Round → Option Returned
  run_checked channel ks =
      let (accepted, run) = advance policy start (text "start") (fresh_run channel) in
      if accepted then rounds ks run else some (record { code = 1; last = run })

  unfoldable pub supervisor_run : Option Bytes → ChannelConfig → List Round → Option Exit
  supervisor_run none channel ks = some bad_arguments
  supervisor_run (some []) channel ks = some bad_arguments
  supervisor_run (some (c ∷ cs)) channel ks = exit_if (run_checked channel ks)
