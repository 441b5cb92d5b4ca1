-- ===== src/Snapshot.antt =====
-- The published status of a channel: rk3588-media-gateway/src/channel/channel_snapshot.c,
-- include/gateway/channel_snapshot.h, and the sample type of include/gateway/process_metrics.h.
-- A call changes the snapshot that it is given, so each is a function from snapshot to snapshot;
-- none of the callers passes a null pointer.
pub mod Invariant
use learn_apue.Base.{ℕ, suc, Bool, true, false, not, ◌&&◌, ◌||◌, [], ◌==◌, if◌then◌else◌, take}
use learn_apue.Base.Int.{ℤ, pos, negsuc, eq_ℤ}
use learn_apue.Base.Text.{Bytes, text}
use learn_apue.Channel.{State, disabled, stopped, Runtime}
use learn_apue.Config.{ChannelConfig}
use learn_apue.Progress.{WorkerProgress, no_progress}

pub data ProcessKind : Type 0 where
  none worker : ProcessKind

pub record MetricsSnapshot : Type 0 where
  pub pid : ℤ
  pub available : Bool
  pub cpu_available : Bool
  pub cpu_percent : ℕ  -- the bits of a double
  pub rss_kib : ℤ
  pub fd_count : ℕ

pub record Snapshot : Type 0 where
  pub channel_id : Bytes
  pub state : State
  pub last_event : Bytes
  pub process_kind : ProcessKind
  pub process_pid : ℤ
  pub has_exit_code : Bool
  pub last_exit_code : ℤ
  pub consecutive_failures : ℕ
  pub total_restarts : ℕ
  pub configuration_generation : ℕ
  pub backoff_sec : ℤ
  pub has_progress : Bool
  pub progress : WorkerProgress
  pub worker_metrics : MetricsSnapshot

abbrev pub minus_one : ℤ
minus_one = negsuc 0

-- `memset` to zero, with the process identifier given
abbrev pub no_metrics : ℤ → MetricsSnapshot
no_metrics pid = record {
  pid = pid;
  available = false;
  cpu_available = false;
  cpu_percent = 0;
  rss_kib = pos 0;
  fd_count = 0;
}

abbrev pub is_worker : ProcessKind → Bool
is_worker none = false
is_worker worker = true

-- `snprintf` into `char last_event[64]`
abbrev pub event_text : Bytes → Bytes
event_text event = take 63 event

unfoldable pub snapshot_init : ChannelConfig → Snapshot
snapshot_init channel = record {
  channel_id = take 64 channel.id;
  state = if channel.enabled then stopped else disabled;
  last_event = event_text (text "initialized");
  process_kind = none;
  process_pid = minus_one;
  has_exit_code = false;
  last_exit_code = minus_one;
  consecutive_failures = 0;
  total_restarts = 0;
  configuration_generation = 0;
  backoff_sec = pos 0;
  has_progress = false;
  progress = no_progress;
  worker_metrics = no_metrics minus_one;
}

unfoldable pub update_runtime : Snapshot → Runtime → Bytes → Snapshot
update_runtime s r event = record s {
  state = r.state;
  consecutive_failures = r.consecutive_failures;
  total_restarts = r.total_restarts;
  backoff_sec = r.backoff_sec;
  last_event = event_text event;
}

-- `kind == WORKER && (process_kind != kind || process_pid != pid)`
abbrev pub another_worker : Snapshot → ProcessKind → ℤ → Bool
another_worker s kind pid =
    is_worker kind && (not (is_worker s.process_kind) || not (eq_ℤ s.process_pid pid))

unfoldable pub set_process : Snapshot → ProcessKind → ℤ → Bytes → Snapshot
set_process s kind pid event =
    let fresh = another_worker s kind pid in
    record s {
      progress = if fresh then no_progress else s.progress;
      has_progress = if fresh then false else s.has_progress;
      process_kind = kind;
      process_pid = pid;
      has_exit_code = false;
      last_exit_code = minus_one;
      last_event = event_text event;
    }

unfoldable pub clear_process : Snapshot → ℤ → Bytes → Snapshot
clear_process s exit_code event = record s {
  process_kind = none;
  process_pid = minus_one;
  has_exit_code = true;
  last_exit_code = exit_code;
  last_event = event_text event;
}

unfoldable pub clear_live_data : Snapshot → Snapshot
clear_live_data s = record s {
  has_progress = false;
  progress = no_progress;
  worker_metrics = no_metrics minus_one;
}

unfoldable pub set_progress : Snapshot → WorkerProgress → Bytes → Snapshot
set_progress s progress event = record s {
  progress = progress;
  has_progress = true;
  last_event = event_text event;
}
