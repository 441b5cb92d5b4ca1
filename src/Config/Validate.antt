-- ===== src/Config/Validate.antt =====
-- `gw_config_validate` of rk3588-media-gateway/src/config/config.c and the tests it makes. A check
-- is `none` when it passes and the diagnostic when it fails; the first failure decides. Whether a
-- text is a numeric address is asked of `inet_pton`, a parameter here.
pub mod Policy
pub mod Decides
use learn_apue.Base.{
  ℕ, zero, suc, ◌+◌, Bool, true, false, not, ◌&&◌, ◌||◌, List, [], ◌∷◌, ◌++◌, Option, none, some,
  ◌==◌, leb, if◌then◌else◌,
}
use learn_apue.Base.Decimal.{decimal}
use learn_apue.Base.Int.{ℤ, pos, ltb_ℤ}
use learn_apue.Base.Text.{Bytes, text, str_eq, starts_with}
use learn_apue.Config.{RecordingConfig, RetryPolicy, VideoConfig, ChannelConfig, Config}
use learn_apue.Status.{Status, ok, argument, validation, GwError, error_set, error_clear}

infixl 5 ◌>>◌
abbrev pub ◌>>◌ : Option Bytes → Option Bytes → Option Bytes
none >> next = next
some message >> next = some message

abbrev pub refuse_if : Bool → Bytes → Option Bytes
refuse_if true message = some message
refuse_if false message = none

-- `isalnum` in the C locale
abbrev pub is_alnum : ℕ → Bool
is_alnum c = (leb b'0' c && leb c b'9') || (leb b'A' c && leb c b'Z') || (leb b'a' c && leb c b'z')

abbrev pub is_identifier_byte : ℕ → Bool
is_identifier_byte c = is_alnum c || c == b'_' || c == b'-'

abbrev pub is_directory_byte : ℕ → Bool
is_directory_byte c = is_alnum c || c == b'/' || c == b'_' || c == b'-' || c == b'.'

-- The loop that returns false at the first byte that is not allowed.
unfoldable pub all_bytes : (ℕ → Bool) → Bytes → Bool
all_bytes allowed [] = true
all_bytes allowed (c ∷ cs) =
    let rest = all_bytes allowed cs in if not (allowed c) then false else rest

unfoldable pub valid_identifier : Bytes → Bool
valid_identifier [] = false
valid_identifier (c ∷ cs) = all_bytes is_identifier_byte (c ∷ cs)

unfoldable pub valid_absolute_directory : Bytes → Bool
valid_absolute_directory [] = false
valid_absolute_directory (c ∷ cs) =
    if not (c == b'/') then false else all_bytes is_directory_byte (c ∷ cs)

unfoldable pub supported_codec : Bytes → Bool
supported_codec codec = str_eq codec (text "h264_rkmpp") || str_eq codec (text "hevc_rkmpp")

-- `value < low || value > high`
abbrev pub outside : ℤ → ℕ → ℕ → Bool
outside value low high = ltb_ℤ value (pos low) || ltb_ℤ (pos high) value

unfoldable pub recording_out_of_range : RecordingConfig → Bool
recording_out_of_range r =
    outside r.part_duration_sec 1 60
    || outside r.max_part_size_mb 1 4096
    || outside r.segment_duration_sec 1 86400
    || ltb_ℤ r.delete_after_sec (pos 0)
    || ltb_ℤ r.min_free_mb (pos 0)

-- `value <= 0`
abbrev pub not_positive : ℤ → Bool
not_positive value = not (ltb_ℤ (pos 0) value)

unfoldable pub policy_out_of_range : RetryPolicy → Bool
policy_out_of_range p =
    not_positive p.startup_timeout_sec
    || not_positive p.progress_timeout_sec
    || not_positive p.stable_run_sec
    || not_positive p.stop_timeout_sec
    || ltb_ℤ p.max_retries (pos 0)
    || not_positive p.max_backoff_sec

unfoldable pub video_out_of_range : VideoConfig → Bool
video_out_of_range v =
    outside v.width 64 7680
    || outside v.height 64 4320
    || outside v.bitrate_kbps 64 100000
    || outside v.fps 1 240

-- The inner loop over the channels before this one.
unfoldable pub check_previous : ChannelConfig → List ChannelConfig → Option Bytes
check_previous channel [] = none
check_previous channel (previous ∷ more) =
    refuse_if (str_eq previous.id channel.id)
      (text "duplicate channel id '" ++ (channel.id ++ text "'"))
    >> refuse_if (str_eq previous.output.path channel.output.path)
        (text "duplicate MediaMTX output path '" ++ (channel.output.path ++ text "'"))
    >> check_previous channel more

abbrev pub about : ChannelConfig → Bytes → Bytes
about channel message = text "channel '" ++ (channel.id ++ (text "'" ++ message))

-- The body of the loop, for the channel at `index`.
unfoldable pub check_channel : ℕ → List ChannelConfig → ChannelConfig → Option Bytes
check_channel index before channel =
    refuse_if (not (valid_identifier channel.id)) (
      text "channels["
      ++ (decimal index ++ text "].id may contain only letters, digits, '_' and '-'"))
    >> check_previous channel before
    >> refuse_if
        (not (str_eq channel.input.type (text "rtsp"))
          || not (starts_with (text "rtsp://") channel.input.url))
        (about channel (text " phase-1 input must be an rtsp:// URL"))
    >> refuse_if
        (not (str_eq channel.input.transport (text "tcp"))
          && not (str_eq channel.input.transport (text "udp")))
        (about channel (text " transport must be tcp or udp"))
    >> refuse_if
        (not (supported_codec channel.video.decoder) || not (supported_codec channel.video.encoder))
        (about channel (text " requires h264_rkmpp or hevc_rkmpp codecs"))
    >> refuse_if (video_out_of_range channel.video)
        (about channel (text " video dimensions, bitrate, or fps are out of range"))
    >> refuse_if (not (valid_identifier channel.output.path))
        (about channel (text " output.path must be a safe path segment"))

unfoldable pub check_channels : ℕ → List ChannelConfig → List ChannelConfig → Option Bytes
check_channels index before [] = none
check_channels index before (channel ∷ rest) =
    check_channel index before channel >> check_channels (index + 1) (before ++ channel ∷ []) rest

module _ (is_ipv4 is_ipv6 : Bytes → Bool) where
  -- `inet_pton` refuses the text for both families.
  abbrev pub not_numeric : Bytes → Bool
  not_numeric listen = not (is_ipv4 listen) && not (is_ipv6 listen)

  unfoldable pub check_config : Config → Option Bytes
  check_config c =
      let recording = c.mediamtx.recording in
      refuse_if (not_numeric c.server.listen)
        (text "server.listen must be a numeric IPv4 or IPv6 address")
      >> refuse_if (not (starts_with (text "rtsp://") c.mediamtx.publish_base_url))
          (text "mediamtx.publish_base_url must use rtsp://")
      >> refuse_if (not (valid_absolute_directory recording.directory))
          (text "mediamtx.recording.directory must be a safe absolute path")
      >> refuse_if
          (not (str_eq recording.format (text "fmp4"))
            && not (str_eq recording.format (text "mpegts")))
          (text "mediamtx.recording.format must be fmp4 or mpegts")
      >> refuse_if (recording_out_of_range recording)
          (text "MediaMTX recording limits are out of range")
      >> refuse_if (not_numeric recording.playback_listen)
          (text "mediamtx.recording.playback_listen must be a numeric address")
      >> refuse_if (policy_out_of_range c.defaults)
          (text "timeouts/backoff must be positive and max_retries non-negative")
      >> check_channels 0 [] c.channels

  abbrev pub report : Option Bytes → Option GwError → Status × Option GwError
  report none error = (ok, error_clear error)
  report (some message) error = (validation, error_set error validation message)

  unfoldable pub validate : Config → Option GwError → Status × Option GwError
  validate c error = report (check_config c) error

  -- `none` is a null pointer.
  unfoldable pub config_validate : Option Config → Option GwError → Status × Option GwError
  config_validate none error =
      (argument, error_set error argument (text "configuration is required"))
  config_validate (some c) error = validate c error
