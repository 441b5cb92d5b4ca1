-- ===== src/Manager/Creating.antt =====
-- `gw_channel_manager_create` of rk3588-media-gateway/src/channel/channel_manager.c.
use learn_apue.Base.{
  ℕ, Bool, true, false, not, ◌||◌, List, [], ◌∷◌, ◌++◌, Option, none, some, ◌==◌, if◌then◌else◌,
  replicate,
}
use learn_apue.Base.Int.{pos}
use learn_apue.Base.Text.{Bytes, text}
use learn_apue.Channel.{disabled}
use learn_apue.Config.{ChannelConfig, Config, max_channels}
use learn_apue.Config.Validate.{validate}
use learn_apue.Manager.{Entry, Manager, find_free_entry, configure_entry, put_entry}
use learn_apue.Metrics.{tracker_init}
use learn_apue.Progress.{no_progress}
use learn_apue.Snapshot.{Snapshot, none, no_metrics, minus_one}
use learn_apue.Status.{Status, ok, io, validation, no_memory, GwError, error_set, error_clear}

-- What `calloc` leaves in an entry, and the assignments of the loop behind it.
abbrev pub zeroed_snapshot : Snapshot
zeroed_snapshot = record {
  channel_id = [];
  state = disabled;
  last_event = [];
  process_kind = none;
  process_pid = pos 0;
  has_exit_code = false;
  last_exit_code = pos 0;
  consecutive_failures = 0;
  total_restarts = 0;
  configuration_generation = 0;
  backoff_sec = pos 0;
  has_progress = false;
  progress = no_progress;
  worker_metrics = no_metrics (pos 0);
}

abbrev pub zeroed_config : Config
zeroed_config = record {
  server = record { enabled = false; listen = []; port = 0 };
  mediamtx = record {
    publish_base_url = [];
    recording = record {
      enabled = false;
      directory = [];
      format = [];
      part_duration_sec = pos 0;
      max_part_size_mb = pos 0;
      segment_duration_sec = pos 0;
      delete_after_sec = pos 0;
      min_free_mb = pos 0;
      playback_listen = [];
      playback_port = 0;
    };
  };
  defaults = record {
    startup_timeout_sec = pos 0;
    progress_timeout_sec = pos 0;
    stable_run_sec = pos 0;
    stop_timeout_sec = pos 0;
    max_retries = pos 0;
    max_backoff_sec = pos 0;
  };
  channels = [];
}

abbrev pub empty_entry : Entry
empty_entry = record {
  occupied = false;
  thread_started = false;
  thread_running = false;
  result = pos 0;
  stop_signal = pos 0;
  generation = 0;
  run_config = zeroed_config;
  snapshot = zeroed_snapshot;
  metrics_tracker = tracker_init;
  worker_metrics = no_metrics minus_one;
  metrics_generation = 0;
}

-- `config->channels[i].enabled` for one of them
unfoldable pub has_enabled : List ChannelConfig → Bool
has_enabled [] = false
has_enabled (channel ∷ rest) = channel.enabled || has_enabled rest

-- A null entry is not configured: the code relies on there being enough of them.
abbrev pub put_configured : Config → ChannelConfig → List Entry → Option (ℕ × Entry) → List Entry
put_configured config channel es none = es
put_configured config channel es (some (slot, e)) =
    put_entry es slot (configure_entry e channel config)

-- The loop that gives every enabled channel an entry.
unfoldable pub configure_all : Config → List ChannelConfig → List Entry → List Entry
configure_all config [] es = es
configure_all config (channel ∷ rest) es =
    if channel.enabled
    then configure_all config rest (put_configured config channel es (find_free_entry es))
    else configure_all config rest es

-- What `calloc` and the two initialisations of locks answer.
pub record Memory : Type 0 where
  pub allocated : Bool
  pub rwlock_init : ℕ
  pub mutex_init : ℕ
  pub strerror : ℕ → Bytes

abbrev pub new_manager : Config → Manager
new_manager config = record {
  config = config;
  stop_signal = pos 0;
  active_threads = 0;
  metrics_stop_requested = false;
  metrics_thread_started = false;
  entries = configure_all config config.channels (replicate max_channels empty_entry);
  started = false;
  result = pos 0;
}

-- What a call returns: the manager it hands out, the status and the diagnostic.
pub record Created : Type 0 where
  pub manager : Option Manager
  pub status : Status
  pub error : Option GwError

abbrev pub not_created : Option GwError → Status → Bytes → Created
not_created error status message = record {
  manager = none;
  status = status;
  error = error_set error status message;
}

abbrev pub allocate : Memory → Config → Option GwError → Created
allocate memory config error =
    if not memory.allocated
    then not_created error no_memory (text "cannot allocate channel manager")
    else if not (memory.rwlock_init == 0)
    then not_created error io
        (text "cannot initialize snapshot lock: " ++ memory.strerror memory.rwlock_init)
    else if not (memory.mutex_init == 0)
    then not_created error io
        (text "cannot initialize lifecycle lock: " ++ memory.strerror memory.mutex_init)
    else record { manager = some (new_manager config); status = ok; error = error_clear error }

-- `return error != NULL ? error->code : GW_ERR_VALIDATION;`
abbrev pub code_of : Option GwError → Status
code_of none = validation
code_of (some e) = e.code

abbrev pub create_valid : Memory → Config → Status × Option GwError → Created
create_valid memory config (ok, error) =
    if has_enabled config.channels
    then allocate memory config error
    else not_created error validation (text "at least one enabled channel is required")
create_valid memory config (status, error) = record {
  manager = none;
  status = code_of error;
  error = error;
}

-- `options->ffmpeg_binary`, which may be null
abbrev pub no_binary : Option Bytes → Bool
no_binary (some (_ ∷ _)) = false
no_binary _ = true

unfoldable pub create :
    (Bytes → Bool) → (Bytes → Bool) → Memory → Config → Option Bytes → Option GwError → Created
create is_ipv4 is_ipv6 memory config ffmpeg_binary error =
    if no_binary ffmpeg_binary
    then not_created error validation (text "manager executable names must not be empty")
    else create_valid memory config (validate is_ipv4 is_ipv6 config error)
