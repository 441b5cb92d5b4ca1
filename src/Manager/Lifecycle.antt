-- ===== src/Manager/Lifecycle.antt =====
-- Start, stop, wait and destruction of the manager of
-- rk3588-media-gateway/src/channel/channel_manager.c.
use learn_apue.Base.{
  ℕ, suc, Bool, true, false, not, ◌&&◌, ◌||◌, List, [], ◌∷◌, ◌++◌, Option, ◌==◌, if◌then◌else◌,
}
use learn_apue.Base.Int.{pos, eq_ℤ, ℤ}
use learn_apue.Base.Text.{text}
use learn_apue.Manager.{
  Entry, Manager, Threads, Ending, sigterm, join_entry, stop_entry, start_entry,
}
use learn_apue.Status.{Status, ok, io, validation, GwError, error_set, error_clear}

-- The loop that starts the occupied entries, up to the first failure.
pub record StartedAll : Type 0 where
  pub entries : List Entry
  pub active : ℕ
  pub status : Status
  pub error : Option GwError

abbrev pub put_first : Entry → StartedAll → StartedAll
put_first e s = record s { entries = e ∷ s.entries }

unfoldable pub start_all : Threads → ℕ → List Entry → ℕ → Option GwError → StartedAll
start_all threads slot [] active error = record {
  entries = [];
  active = active;
  status = ok;
  error = error;
}
start_all threads slot (e ∷ es) active error =
    let s = start_entry threads.strerror (threads.create slot) e active error in
    let skipped = start_all threads (suc slot) es active error in
    let rest = start_all threads (suc slot) es s.active s.error in
    if not e.occupied then put_first e skipped else elim s.status [
      | ok ↦ put_first s.entry rest
      | _ ↦ record { entries = s.entry ∷ es; active = s.active; status = s.status; error = s.error }
    ]

-- The loop that stops every entry.
unfoldable pub stop_all : Threads → ℕ → List Entry → ℕ → List Entry × ℕ
stop_all threads slot [] active = ([], active)
stop_all threads slot (e ∷ es) active =
    let (e', active') = stop_entry (threads.ending slot) e active in
    let (es', active'') = stop_all threads (suc slot) es active' in (e' ∷ es', active'')

unfoldable pub request_stop : Manager → ℤ → Manager
request_stop m signal_number = record m {
  stop_signal = if eq_ℤ signal_number (pos 0) then sigterm else signal_number;
  metrics_stop_requested = true;
}

pub record Outcome : Type 0 where
  pub manager : Manager
  pub status : Status
  pub error : Option GwError

-- `gw_channel_manager_request_stop(manager, SIGTERM)` and the loop of `stop_entry`
unfoldable pub stop_everything : Threads → Manager → Manager
stop_everything threads m =
    let stopping = request_stop m sigterm in
    let (es, active) = stop_all threads 0 m.entries m.active_threads in
    record stopping { entries = es; active_threads = active }

-- Behind the first loop.
unfoldable pub finish_start : Threads → Manager → StartedAll → Outcome
finish_start threads m s =
    let launched = record m { entries = s.entries; active_threads = s.active } in
    elim s.status [
      | ok ↦
          if threads.create_metrics == 0
          then record {
            manager = record launched { metrics_thread_started = true };
            status = ok;
            error = error_clear s.error;
          }
          else record {
            manager = record (stop_everything threads launched) { started = false };
            status = io;
            error =
                error_set s.error io (
                  text "cannot start metrics sampler: " ++ threads.strerror threads.create_metrics);
          }
      | status ↦ record {
        manager = stop_everything threads launched;
        status = status;
        error = s.error;
      }
    ]

unfoldable pub start : Threads → Manager → Option GwError → Outcome
start threads m error =
    if m.started
    then record {
      manager = m;
      status = validation;
      error = error_set error validation (text "channel manager is already started");
    }
    else finish_start threads (record m { started = true; metrics_stop_requested = false })
        (start_all threads 0 m.entries m.active_threads error)

unfoldable pub is_finished : Manager → Bool
is_finished m = m.started && m.active_threads == 0

unfoldable pub wait_entry : Ending → Entry → ℕ → Entry × ℕ
wait_entry ending e active =
    if e.occupied && e.thread_started then join_entry ending e active else (e, active)

-- `entry->occupied && entry->result != 0`
abbrev pub has_failed : Entry → Bool
has_failed e = e.occupied && not (eq_ℤ e.result (pos 0))

-- The loop of `gw_channel_manager_wait`: the entries, the count, and whether a result is not zero.
unfoldable pub wait_all : Threads → ℕ → List Entry → ℕ → Bool → List Entry × ℕ × Bool
wait_all threads slot [] active failed = ([], active, failed)
wait_all threads slot (e ∷ es) active failed =
    let (e', active') = wait_entry (threads.ending slot) e active in
    let (es', active'', failed'') =
      wait_all threads (suc slot) es active' (failed || has_failed e') in
    (e' ∷ es', active'', failed'')

-- The manager behind the call, and what the call returns.
unfoldable pub wait : Threads → Manager → Manager × ℤ
wait threads m =
    if not m.started
    then (m, pos 2)
    else let (es, active, failed) = wait_all threads 0 m.entries m.active_threads false in
      let result = if failed then pos 1 else pos 0 in
      (
        record m {
          entries = es;
          active_threads = active;
          result = result;
          metrics_stop_requested = true;
          metrics_thread_started = false;
        },
        result,
      )

-- The manager at the moment of `free`.
unfoldable pub destroy : Threads → Manager → Manager
destroy threads m =
    let stopping = if m.started && not (is_finished m) then request_stop m sigterm else m in
    if m.started then (wait threads stopping).0 else m
