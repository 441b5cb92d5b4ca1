-- ===== src/Config/Validate/Policy.antt =====
-- The policy that `gw_config_validate` of config.c enforces, stated without its code.
use learn_apue.Base.{ℕ, Bool, true, List, [], ◌∷◌, ◌++◌, ◌⊎◌, ◌≡◌, ◌≢◌}
use learn_apue.Base.Int.{ℤ, pos, ◌≤ℤ◌, ◌<ℤ◌}
use learn_apue.Base.Text.{Bytes, text}
use learn_apue.Config.{RecordingConfig, RetryPolicy, VideoConfig, ChannelConfig, Config}
use learn_apue.Config.Validate.{is_identifier_byte, is_directory_byte}

-- every byte is allowed
abbrev pub EachByte : (ℕ → Bool) → Bytes → Type 0
EachByte allowed [] = Unit
EachByte allowed (c ∷ cs) = (allowed c ≡ true) × EachByte allowed cs

-- letters, digits, `_` and `-`, at least one
abbrev pub IsIdentifier : Bytes → Type 0
IsIdentifier s = (s ≢ []) × EachByte is_identifier_byte s

-- an absolute path of letters, digits and `/_-.`
abbrev pub IsDirectory : Bytes → Type 0
IsDirectory s = ((rest : Bytes) × (s ≡ b'/' ∷ rest)) × EachByte is_directory_byte s

abbrev pub IsRtspUrl : Bytes → Type 0
IsRtspUrl url = (rest : Bytes) × (url ≡ text "rtsp://" ++ rest)

abbrev pub IsCodec : Bytes → Type 0
IsCodec codec = (codec ≡ text "h264_rkmpp") ⊎ (codec ≡ text "hevc_rkmpp")

abbrev pub Between : ℕ → ℤ → ℕ → Type 0
Between low value high = (pos low ≤ℤ value) × (value ≤ℤ pos high)

pub record IsRecording (r : RecordingConfig) : Type 0 where
  pub part_duration_fits : Between 1 r.part_duration_sec 60
  pub part_size_fits : Between 1 r.max_part_size_mb 4096
  pub segment_duration_fits : Between 1 r.segment_duration_sec 86400
  pub delete_after_nonneg : pos 0 ≤ℤ r.delete_after_sec
  pub min_free_nonneg : pos 0 ≤ℤ r.min_free_mb

pub record IsPolicy (p : RetryPolicy) : Type 0 where
  pub startup_timeout_pos : pos 0 <ℤ p.startup_timeout_sec
  pub progress_timeout_pos : pos 0 <ℤ p.progress_timeout_sec
  pub stable_run_pos : pos 0 <ℤ p.stable_run_sec
  pub stop_timeout_pos : pos 0 <ℤ p.stop_timeout_sec
  pub retries_nonneg : pos 0 ≤ℤ p.max_retries
  pub backoff_pos : pos 0 <ℤ p.max_backoff_sec

pub record IsVideo (v : VideoConfig) : Type 0 where
  pub width_fits : Between 64 v.width 7680
  pub height_fits : Between 64 v.height 4320
  pub bitrate_fits : Between 64 v.bitrate_kbps 100000
  pub fps_fits : Between 1 v.fps 240

pub record IsChannel (c : ChannelConfig) : Type 0 where
  pub id_plain : IsIdentifier c.id
  pub type_rtsp : c.input.type ≡ text "rtsp"
  pub url_rtsp : IsRtspUrl c.input.url
  pub transport_known : (c.input.transport ≡ text "tcp") ⊎ (c.input.transport ≡ text "udp")
  pub decoder_known : IsCodec c.video.decoder
  pub encoder_known : IsCodec c.video.encoder
  pub video_fits : IsVideo c.video
  pub path_plain : IsIdentifier c.output.path

-- neither the identifier nor the output path is shared
abbrev pub Apart : ChannelConfig → ChannelConfig → Type 0
Apart a b = (a.id ≢ b.id) × (a.output.path ≢ b.output.path)

abbrev pub ApartFromAll : ChannelConfig → List ChannelConfig → Type 0
ApartFromAll a [] = Unit
ApartFromAll a (b ∷ bs) = Apart a b × ApartFromAll a bs

abbrev pub AreChannels : List ChannelConfig → Type 0
AreChannels [] = Unit
AreChannels (c ∷ cs) = IsChannel c × ApartFromAll c cs × AreChannels cs

module _ (is_ipv4 is_ipv6 : Bytes → Bool) where
  abbrev pub IsAddress : Bytes → Type 0
  IsAddress s = (is_ipv4 s ≡ true) ⊎ (is_ipv6 s ≡ true)

  pub record IsConfig (c : Config) : Type 0 where
    pub listen_numeric : IsAddress c.server.listen
    pub publish_rtsp : IsRtspUrl c.mediamtx.publish_base_url
    pub directory_safe : IsDirectory c.mediamtx.recording.directory
    pub format_known :
        (c.mediamtx.recording.format ≡ text "fmp4") ⊎ (c.mediamtx.recording.format ≡ text "mpegts")
    pub recording_fits : IsRecording c.mediamtx.recording
    pub playback_numeric : IsAddress c.mediamtx.recording.playback_listen
    pub policy_fits : IsPolicy c.defaults
    pub channels_fit : AreChannels c.channels
