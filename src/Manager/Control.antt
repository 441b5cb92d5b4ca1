-- ===== src/Manager/Control.antt =====
-- The commands for one channel of rk3588-media-gateway/src/channel/channel_manager.c, and the stop
-- test that the thread of an entry polls. The channel identifier is not null.
pub mod Effects
pub mod Local
use learn_apue.Base.{
  ℕ, Bool, true, false, not, ◌&&◌, ◌||◌, List, [], ◌∷◌, ◌++◌, Option, none, some, if◌then◌else◌,
}
use learn_apue.Base.Int.{ℤ, pos, eq_ℤ}
use learn_apue.Base.Text.{Bytes, text}
use learn_apue.Channel.{State, stopped, failed, state_string}
use learn_apue.Manager.{
  Entry, Manager, Threads, find_entry, join_entry, stop_entry, start_entry, StartedEntry, put_entry,
}
use learn_apue.Manager.Lifecycle.{Outcome}
use learn_apue.Manager.Reload.{is_unavailable, clear_if_ok}
use learn_apue.Status.{Status, ok, argument, not_found, conflict, GwError, error_set, error_clear}

-- `entry_stop_requested`: the entry's request, the manager's, the caller's test, the caller's
-- signal, in this order. `none` is a null pointer.
unfoldable pub entry_stop_requested : Option ℤ → Option ℤ → Manager → Entry → ℤ
entry_stop_requested stop_check caller_signal m e =
    let of_signal : ℤ = elim caller_signal [ none ↦ pos 0 | some signal ↦ signal ] in
    let of_caller : ℤ = elim stop_check [
      | none ↦ of_signal
      | some requested ↦ if eq_ℤ requested (pos 0) then of_signal else requested
    ] in
    if not (eq_ℤ e.stop_signal (pos 0))
    then e.stop_signal
    else if not (eq_ℤ m.stop_signal (pos 0))
    then m.stop_signal
    else of_caller

abbrev pub answer : Manager → Option GwError → Status → Bytes → Outcome
answer m error status message = record {
  manager = m;
  status = status;
  error = error_set error status message;
}

abbrev pub about : Bytes → Bytes → Bytes
about id message = text "channel '" ++ (id ++ (text "'" ++ message))

-- The guards of every command: `command_entry`, and what is done with the entry that it finds.
unfoldable pub command : Manager → Bytes → Option GwError → (ℕ → Entry → Outcome) → Outcome
command m [] error act = answer m error argument (text "manager and channel id are required")
command m (b ∷ bs) error act =
    if is_unavailable m
    then answer m error conflict (text "channel manager is not available for control")
    else elim (find_entry m.entries (b ∷ bs)) [
      | none ↦ answer m error not_found (about (b ∷ bs) (text " is not managed"))
      | some (slot, e) ↦ act slot e
    ]

-- The manager with the entry at the slot and the count of threads replaced.
abbrev pub with_entry : Manager → ℕ → Entry × ℕ → Manager
with_entry m slot (e, active) = record m {
  entries = put_entry m.entries slot e;
  active_threads = active;
}

-- `status = start_entry(entry, error)` and the end of the command
unfoldable pub conclude_start : Threads → Manager → ℕ → Entry × ℕ → Option GwError → Outcome
conclude_start threads m slot (e, active) error =
    let s = start_entry threads.strerror (threads.create slot) e active error in
    record {
      manager = with_entry m slot (s.entry, s.active);
      status = s.status;
      error = clear_if_ok s.status s.error;
    }

-- `state != STOPPED && state != FAILED`
abbrev pub is_busy : State → Bool
is_busy stopped = false
is_busy failed = false
is_busy _ = true

-- A thread that has ended is joined first.
abbrev pub reap_ended : Threads → Manager → ℕ → Entry → Entry × ℕ
reap_ended threads m slot e =
    if e.thread_started && not e.thread_running
    then join_entry (threads.ending slot) e m.active_threads
    else (e, m.active_threads)

unfoldable pub start_found : Threads → Manager → Bytes → Option GwError → ℕ → Entry → Outcome
start_found threads m id error slot e =
    let (e', active) = reap_ended threads m slot e in
    let reaped = with_entry m slot (e', active) in
    if e'.thread_started
    then answer reaped error conflict (about id (text " is already active"))
    else if is_busy e'.snapshot.state
    then answer reaped error conflict
        (about id (text " cannot be started from " ++ state_string e'.snapshot.state))
    else conclude_start threads m slot (e', active) error

unfoldable pub start_channel : Threads → Manager → Bytes → Option GwError → Outcome
start_channel threads m id error = command m id error (start_found threads m id error)

unfoldable pub stop_found : Threads → Manager → Bytes → Option GwError → ℕ → Entry → Outcome
stop_found threads m id error slot e =
    if not e.thread_started || not e.thread_running
    then answer (with_entry m slot (reap_ended threads m slot e)) error conflict
        (about id (text " is not active"))
    else record {
      manager = with_entry m slot (stop_entry (threads.ending slot) e m.active_threads);
      status = ok;
      error = error_clear error;
    }

unfoldable pub stop_channel : Threads → Manager → Bytes → Option GwError → Outcome
stop_channel threads m id error = command m id error (stop_found threads m id error)

unfoldable pub restart_found : Threads → Manager → Option GwError → ℕ → Entry → Outcome
restart_found threads m error slot e =
    conclude_start threads m slot (stop_entry (threads.ending slot) e m.active_threads) error

unfoldable pub restart_channel : Threads → Manager → Bytes → Option GwError → Outcome
restart_channel threads m id error = command m id error (restart_found threads m error)
