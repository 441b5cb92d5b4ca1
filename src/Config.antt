-- ===== src/Config.antt =====
-- The configuration model shared by all gateway modules:
-- rk3588-media-gateway/include/gateway/config.h. A `char` array is the text before its terminating
-- zero, and an `int` is an integer: the ranges are checked by the code, not by the representation.
pub mod Read
pub mod Redact
pub mod Expand
pub mod Validate
pub mod Mediamtx
use learn_apue.Base.{ℕ, Bool, List}
use learn_apue.Base.Int.{ℤ}
use learn_apue.Base.Text.{Bytes}

-- GW_MAX_CHANNELS, GW_ID_CAP, GW_URL_CAP, GW_PATH_CAP, GW_FILE_PATH_CAP, GW_NAME_CAP
abbrev pub max_channels : ℕ
max_channels = 64

abbrev pub id_cap : ℕ
id_cap = 65

abbrev pub url_cap : ℕ
url_cap = 2048

abbrev pub path_cap : ℕ
path_cap = 129

abbrev pub file_path_cap : ℕ
file_path_cap = 512

abbrev pub name_cap : ℕ
name_cap = 33

-- `char listen[64]`
abbrev pub listen_cap : ℕ
listen_cap = 64

pub record ServerConfig : Type 0 where
  pub enabled : Bool
  pub listen : Bytes
  pub port : ℕ  -- uint16_t

pub record RecordingConfig : Type 0 where
  pub enabled : Bool
  pub directory : Bytes
  pub format : Bytes
  pub part_duration_sec : ℤ
  pub max_part_size_mb : ℤ
  pub segment_duration_sec : ℤ
  pub delete_after_sec : ℤ
  pub min_free_mb : ℤ
  pub playback_listen : Bytes
  pub playback_port : ℕ  -- uint16_t

pub record MediamtxConfig : Type 0 where
  pub publish_base_url : Bytes
  pub recording : RecordingConfig

pub record RetryPolicy : Type 0 where
  pub startup_timeout_sec : ℤ
  pub progress_timeout_sec : ℤ
  pub stable_run_sec : ℤ
  pub stop_timeout_sec : ℤ
  pub max_retries : ℤ
  pub max_backoff_sec : ℤ

pub record InputConfig : Type 0 where
  pub type : Bytes
  pub url : Bytes
  pub transport : Bytes

pub record VideoConfig : Type 0 where
  pub decoder : Bytes
  pub width : ℤ
  pub height : ℤ
  pub encoder : Bytes
  pub bitrate_kbps : ℤ
  pub fps : ℤ

pub record OutputConfig : Type 0 where
  pub path : Bytes

pub record ChannelConfig : Type 0 where
  pub id : Bytes
  pub enabled : Bool
  pub input : InputConfig
  pub video : VideoConfig
  pub output : OutputConfig

-- `channels` holds the first `channel_count` entries of the array.
pub record Config : Type 0 where
  pub server : ServerConfig
  pub mediamtx : MediamtxConfig
  pub defaults : RetryPolicy
  pub channels : List ChannelConfig
