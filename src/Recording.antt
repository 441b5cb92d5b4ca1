-- ===== src/Recording.antt =====
-- The capacity of the recording directory: rk3588-media-gateway/src/monitor/recording_status.c and
-- include/gateway/recording_status.h. What `statvfs` answers is a parameter; the two pointers that the
-- call needs are not null.
pub mod Capacity
use learn_apue.Base.{
  ℕ, suc, ◌*◌, ◌-◌, ◌/◌, ◌%◌, ◌^◌, Bool, true, false, not, ◌&&◌, [], ◌∷◌, ◌++◌, Option, none, some,
  ◌==◌, ltb, if◌then◌else◌,
}
use learn_apue.Base.Int.{ℤ, pos, negsuc}
use learn_apue.Base.Text.{Bytes, text}
use learn_apue.Config.{RecordingConfig}
use learn_apue.Status.{Status, overflow, GwError, error_set, error_clear}

pub data State : Type 0 where
  disabled ok low_space unavailable : State

-- The fields of `struct statvfs` that are read.
pub record Filesystem : Type 0 where
  pub f_frsize : ℕ
  pub f_bsize : ℕ
  pub f_blocks : ℕ
  pub f_bavail : ℕ

pub record RecordingSnapshot : Type 0 where
  pub state : State
  pub enabled : Bool
  pub filesystem_available : Bool
  pub total_bytes : ℕ  -- uint64_t
  pub available_bytes : ℕ  -- uint64_t
  pub min_free_bytes : ℕ  -- uint64_t

-- `false` is `none`.
unfoldable pub multiply_u64 : ℕ → ℕ → Option ℕ
multiply_u64 first second =
    if not (first == 0) && ltb ((2 ^ 64 - 1) / first) second
    then none
    else some ((first * second) % 2 ^ 64)

unfoldable pub recording_state_string : State → Bytes
recording_state_string disabled = text "disabled"
recording_state_string ok = text "ok"
recording_state_string low_space = text "low_space"
recording_state_string unavailable = text "unavailable"

-- `(uint64_t)value` of an `int`
abbrev pub as_u64 : ℤ → ℕ
as_u64 (pos n) = n
as_u64 (negsuc n) = 2 ^ 64 - suc n

abbrev pub fragment_size : Filesystem → ℕ
fragment_size f = if f.f_frsize == 0 then f.f_bsize else f.f_frsize

pub record Read : Type 0 where
  pub snapshot : RecordingSnapshot
  pub status : Status
  pub error : Option GwError

abbrev pub succeeded : RecordingSnapshot → Option GwError → Read
succeeded s error = record { snapshot = s; status = Status.ok; error = error_clear error }

abbrev pub overflowed : RecordingSnapshot → Option GwError → Bytes → Read
overflowed s error message = record {
  snapshot = s;
  status = overflow;
  error = error_set error overflow message;
}

-- Behind both products.
abbrev pub conclude : RecordingSnapshot → Option GwError → Read
conclude s error =
    succeeded
      (record s {
        filesystem_available = true;
        state = if ltb s.available_bytes s.min_free_bytes then low_space else ok;
      })
      error

abbrev pub capacity_message : Bytes
capacity_message = text "recording filesystem capacity overflows"

abbrev pub with_available : RecordingSnapshot → Option GwError → Option ℕ → Read
with_available s error none = overflowed s error capacity_message
with_available s error (some available) = conclude (record s { available_bytes = available }) error

abbrev pub with_total : Filesystem → RecordingSnapshot → Option GwError → Option ℕ → Read
with_total f s error none = overflowed s error capacity_message
with_total f s error (some total) =
    with_available (record s { total_bytes = total }) error
      (multiply_u64 (fragment_size f) f.f_bavail)

-- Behind the test of `enabled`; `none` is a `statvfs` that fails.
abbrev pub with_filesystem : Option Filesystem → RecordingSnapshot → Option GwError → Read
with_filesystem none s error = succeeded s error
with_filesystem (some f) s error = with_total f s error (multiply_u64 (fragment_size f) f.f_blocks)

abbrev pub with_threshold : Option Filesystem → RecordingSnapshot → Option GwError → Option ℕ → Read
with_threshold statvfs s error none =
    overflowed s error (text "recording free-space threshold overflows")
with_threshold statvfs s error (some threshold) =
    let s' : RecordingSnapshot = record s { min_free_bytes = threshold } in
    if s.enabled then with_filesystem statvfs s' error else succeeded s' error

unfoldable pub recording_snapshot_read : Option Filesystem → RecordingConfig → Option GwError → Read
recording_snapshot_read statvfs config error =
    with_threshold statvfs
      (record {
        state = if config.enabled then unavailable else disabled;
        enabled = config.enabled;
        filesystem_available = false;
        total_bytes = 0;
        available_bytes = 0;
        min_free_bytes = 0;
      })
      error (multiply_u64 (as_u64 config.min_free_mb) 1048576)
