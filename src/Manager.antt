-- ===== src/Manager.antt =====
-- The registry of channel threads: rk3588-media-gateway/src/channel/channel_manager.c and
-- include/gateway/channel_manager.h. This file has its types, the tests and searches, and what is
-- done with one entry. Every operation that starts or joins threads holds `lifecycle_lock` while it
-- does, so it is one step; a channel thread acts between the operations (`publish`, `run_channel`),
-- or, where an operation joins it, to its end within the operation. The back pointer `manager`, the
-- thread handles, the locks and the copies of the caller's callbacks have no field.
pub mod Control
pub mod OneEntry
pub mod Creating
pub mod Equal
pub mod Invariant
pub mod Lifecycle
pub mod Query
pub mod Registry
pub mod Reload
pub mod Sampler
pub mod View
use learn_apue.Base.{
  ℕ, suc, ◌+◌, ◌%◌, ◌^◌, Bool, true, false, not, ◌&&◌, List, [], ◌∷◌, ◌++◌, Option, none, some,
  ◌==◌, if◌then◌else◌, set,
}
use learn_apue.Base.Int.{ℤ, pos, eq_ℤ}
use learn_apue.Base.Text.{Bytes, text, str_eq}
use learn_apue.Config.{RetryPolicy, ChannelConfig, Config}
use learn_apue.Metrics.{Tracker, tracker_init}
use learn_apue.Snapshot.{Snapshot, MetricsSnapshot, minus_one, no_metrics, snapshot_init}
use learn_apue.Status.{Status, ok, io, GwError, error_set}

pub record Entry : Type 0 where
  pub occupied : Bool
  pub thread_started : Bool
  pub thread_running : Bool
  pub result : ℤ
  pub stop_signal : ℤ
  pub generation : ℕ  -- uint64_t
  pub run_config : Config
  pub snapshot : Snapshot
  pub metrics_tracker : Tracker
  pub worker_metrics : MetricsSnapshot
  pub metrics_generation : ℕ  -- uint64_t

pub record Manager : Type 0 where
  pub config : Config
  pub stop_signal : ℤ
  pub active_threads : ℕ  -- size_t
  pub metrics_stop_requested : Bool
  pub metrics_thread_started : Bool
  pub entries : List Entry
  pub started : Bool
  pub result : ℤ

-- What a channel thread still does before it ends: the snapshots it publishes, and what
-- `gw_supervisor_run` returns.
pub record Ending : Type 0 where
  pub published : List Snapshot
  pub returned : ℤ

-- What the system does within one operation. No operation creates or joins the thread of a slot
-- twice, so its answers are functions of the slot: the result of `pthread_create`, zero for
-- success, and the end of the thread that is joined.
pub record Threads : Type 0 where
  pub create : ℕ → ℕ
  pub ending : ℕ → Ending
  pub create_metrics : ℕ
  pub strerror : ℕ → Bytes

abbrev pub sigterm : ℤ
sigterm = pos 15

-- `atomic_fetch_add` and `atomic_fetch_sub` by one, on `size_t`
abbrev pub one_more : ℕ → ℕ
one_more n = (n + 1) % 2 ^ 64

abbrev pub one_less : ℕ → ℕ
one_less n = (n + 18446744073709551615) % 2 ^ 64

-- `channels[0]` of a zeroed configuration
abbrev pub zeroed_channel : ChannelConfig
zeroed_channel = record {
  id = [];
  enabled = false;
  input = record { type = []; url = []; transport = [] };
  video = record {
    decoder = [];
    width = pos 0;
    height = pos 0;
    encoder = [];
    bitrate_kbps = pos 0;
    fps = pos 0;
  };
  output = record { path = [] };
}

abbrev pub first_of : List ChannelConfig → ChannelConfig
first_of [] = zeroed_channel
first_of (channel ∷ more) = channel

-- `entry->run_config.channels[0]`
abbrev pub channel_of : Entry → ChannelConfig
channel_of e = first_of e.run_config.channels

unfoldable pub retry_policy_equal : RetryPolicy → RetryPolicy → Bool
retry_policy_equal a b =
    eq_ℤ a.startup_timeout_sec b.startup_timeout_sec
    && eq_ℤ a.progress_timeout_sec b.progress_timeout_sec
    && eq_ℤ a.stable_run_sec b.stable_run_sec
    && eq_ℤ a.stop_timeout_sec b.stop_timeout_sec
    && eq_ℤ a.max_retries b.max_retries
    && eq_ℤ a.max_backoff_sec b.max_backoff_sec

abbrev pub eq_bool : Bool → Bool → Bool
eq_bool true b = b
eq_bool false b = not b

unfoldable pub channel_config_equal : ChannelConfig → ChannelConfig → Bool
channel_config_equal a b =
    eq_bool a.enabled b.enabled
    && str_eq a.id b.id
    && str_eq a.input.type b.input.type
    && str_eq a.input.url b.input.url
    && str_eq a.input.transport b.input.transport
    && str_eq a.video.decoder b.video.decoder
    && eq_ℤ a.video.width b.video.width
    && eq_ℤ a.video.height b.video.height
    && str_eq a.video.encoder b.video.encoder
    && eq_ℤ a.video.bitrate_kbps b.video.bitrate_kbps
    && eq_ℤ a.video.fps b.video.fps
    && str_eq a.output.path b.output.path

unfoldable pub worker_globals_equal : Config → Config → Bool
worker_globals_equal a b =
    str_eq a.mediamtx.publish_base_url b.mediamtx.publish_base_url
    && retry_policy_equal a.defaults b.defaults

unfoldable pub find_enabled_channel : List ChannelConfig → Bytes → Option ChannelConfig
find_enabled_channel [] id = none
find_enabled_channel (channel ∷ rest) id =
    let later = find_enabled_channel rest id in
    if channel.enabled && str_eq channel.id id then some channel else later

-- The index and the entry where a loop over the slots stops.
unfoldable pub find_from : (Entry → Bool) → ℕ → List Entry → Option (ℕ × Entry)
find_from test slot [] = none
find_from test slot (e ∷ es) =
    let later = find_from test (suc slot) es in if test e then some (slot, e) else later

abbrev pub serves : Bytes → Entry → Bool
serves id e = e.occupied && str_eq (channel_of e).id id

abbrev pub is_free : Entry → Bool
is_free e = not e.occupied

unfoldable pub find_entry : List Entry → Bytes → Option (ℕ × Entry)
find_entry es id = find_from (serves id) 0 es

unfoldable pub find_free_entry : List Entry → Option (ℕ × Entry)
find_free_entry es = find_from is_free 0 es

unfoldable pub configure_entry : Entry → ChannelConfig → Config → Entry
configure_entry e channel config =
    let generation = ((if e.occupied then e.generation else 0) + 1) % 2 ^ 64 in
    record e {
      generation = generation;
      run_config = record {
        server = config.server;
        mediamtx = config.mediamtx;
        defaults = config.defaults;
        channels = channel ∷ [];
      };
      result = pos 0;
      stop_signal = pos 0;
      snapshot = record (snapshot_init channel) { configuration_generation = generation };
      worker_metrics = no_metrics minus_one;
      occupied = true;
    }

-- `manager_observe`: the thread of the entry publishes a snapshot.
unfoldable pub publish : Entry → Snapshot → Entry
publish e s = record e { snapshot = record s { configuration_generation = e.generation } }

unfoldable pub publish_all : Entry → List Snapshot → Entry
publish_all e [] = e
publish_all e (s ∷ more) = publish_all (publish e s) more

-- The rest of `run_channel`: the thread publishes, returns and counts itself off.
unfoldable pub run_channel : Ending → Entry → ℕ → Entry × ℕ
run_channel ending e active = (
  record (publish_all e ending.published) { result = ending.returned; thread_running = false },
  one_less active,
)

-- `pthread_join`, and `thread_started = false` behind it: a thread that still runs ends first.
unfoldable pub join_entry : Ending → Entry → ℕ → Entry × ℕ
join_entry ending e active =
    let (e', active') = if e.thread_running then run_channel ending e active else (e, active) in
    (record e' { thread_started = false }, active')

unfoldable pub stop_entry : Ending → Entry → ℕ → Entry × ℕ
stop_entry ending e active =
    if e.thread_started
    then join_entry ending (record e { stop_signal = sigterm }) active
    else (e, active)

pub record StartedEntry : Type 0 where
  pub entry : Entry
  pub active : ℕ
  pub status : Status
  pub error : Option GwError

abbrev pub start_message : Bytes → Bytes → Bytes
start_message id reason = text "cannot start channel '" ++ (id ++ (text "': " ++ reason))

-- `created` is the result of `pthread_create`.
unfoldable pub start_entry : (ℕ → Bytes) → ℕ → Entry → ℕ → Option GwError → StartedEntry
start_entry strerror created e active error =
    let fresh = record e { result = pos 0; stop_signal = pos 0 } in
    if created == 0
    then record {
      entry = record fresh { thread_running = true; thread_started = true };
      active = one_more active;
      status = ok;
      error = error;
    }
    else record {
      entry = record fresh { thread_running = false };
      active = one_less (one_more active);
      status = io;
      error = error_set error io (start_message (channel_of e).id (strerror created));
    }

-- The slot of `manager->entries` that a pointer to an entry denotes.
abbrev pub put_entry : List Entry → ℕ → Entry → List Entry
put_entry es slot e = set es slot e
