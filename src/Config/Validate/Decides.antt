-- ===== src/Config/Validate/Decides.antt =====
-- What `gw_config_validate` of config.c accepts: it decides `IsConfig`.
use mathlib.Core.Path.{ap₂}
use learn_apue.Base.{
  ◌+◌, ℕ, Bool, true, false, List, [], ◌∷◌, ◌++◌, Option, none, ◌↔◌, ◌≡◌, refl, arith,
}
use learn_apue.Base.Text.{Bytes, text, str_eq_iff, starts_with}
use learn_apue.Config.{RecordingConfig, RetryPolicy, VideoConfig, ChannelConfig, Config}
use learn_apue.Config.Validate.{
  ◌>>◌, refuse_if, is_identifier_byte, is_directory_byte, all_bytes, valid_identifier,
  valid_absolute_directory, supported_codec, recording_out_of_range, policy_out_of_range,
  video_out_of_range, check_previous, check_channel, check_channels, check_config, validate,
}
use learn_apue.Status.{ok, GwError}
use learn_apue.Config.Validate.Policy.{
  EachByte, IsIdentifier, IsDirectory, IsCodec, IsRecording, IsPolicy, IsVideo, IsChannel, Apart,
  ApartFromAll, AreChannels, IsConfig,
}

starts_with_iff : (p s : Bytes) → (starts_with p s ≡ true) ↔ ((rest : Bytes) × (s ≡ p ++ rest))
unfolding starts_with
starts_with_iff [] s = ((λ _. (s, refl)), (λ _. refl))
starts_with_iff (x ∷ p) [] = ((λ h. cc), (λ h. cc (h.1)))
starts_with_iff (x ∷ p) (c ∷ s) = (
  (λ h.
      let (rest, e) = (starts_with_iff p s).0 (ground arith) in
      let same : c ≡ x = ground arith in (rest, ap₂ ◌∷◌ same e)),
  (λ (rest, e).
      let tails : s ≡ p ++ rest = ground arith in
      ground (arith, (starts_with_iff p s).1 (rest, tails))),
)

all_bytes_iff : (allowed : ℕ → Bool) (s : Bytes) → (all_bytes allowed s ≡ true) ↔ EachByte allowed s
unfolding all_bytes
all_bytes_iff allowed [] = ground arith
all_bytes_iff allowed (c ∷ s) = ground (arith, all_bytes_iff allowed s)

IsIdentifier-iff : (s : Bytes) → (valid_identifier s ≡ true) ↔ IsIdentifier s
unfolding valid_identifier
IsIdentifier-iff [] = ground arith
IsIdentifier-iff (c ∷ s) = ground (arith, all_bytes_iff is_identifier_byte (c ∷ s))

IsDirectory-iff : (s : Bytes) → (valid_absolute_directory s ≡ true) ↔ IsDirectory s
unfolding valid_absolute_directory
IsDirectory-iff [] = ground arith
IsDirectory-iff (c ∷ s) = ground (arith, all_bytes_iff is_directory_byte (c ∷ s))

IsCodec-iff : (s : Bytes) → (supported_codec s ≡ true) ↔ IsCodec s
unfolding supported_codec
IsCodec-iff s = ground (arith, str_eq_iff s (text "h264_rkmpp"), str_eq_iff s (text "hevc_rkmpp"))

IsRecording-iff : (r : RecordingConfig) → (recording_out_of_range r ≡ false) ↔ IsRecording r
unfolding recording_out_of_range
IsRecording-iff r = ground arith

IsPolicy-iff : (p : RetryPolicy) → (policy_out_of_range p ≡ false) ↔ IsPolicy p
unfolding policy_out_of_range
IsPolicy-iff p = ground arith

IsVideo-iff : (v : VideoConfig) → (video_out_of_range v ≡ false) ↔ IsVideo v
unfolding video_out_of_range
IsVideo-iff v = ground arith

refuse_iff : (b : Bool) (message : Bytes) → (refuse_if b message ≡ none) ↔ (b ≡ false)
refuse_iff b message = ground arith

then_iff : (a b : Option Bytes) → ((a >> b) ≡ none) ↔ ((a ≡ none) × (b ≡ none))
then_iff a b = ground arith

previous_iff :
    (c : ChannelConfig) (before : List ChannelConfig)
    → (check_previous c before ≡ none) ↔ ApartFromAll c before
unfolding check_previous
previous_iff c [] = ground arith
previous_iff c (b ∷ before) =
    ground
      (arith, previous_iff c before, str_eq_iff b.id c.id, str_eq_iff b.output.path c.output.path)

IsChannel-iff :
    (index : ℕ) (before : List ChannelConfig) (c : ChannelConfig)
    → (check_channel index before c ≡ none) ↔ (IsChannel c × ApartFromAll c before)
unfolding check_channel
IsChannel-iff index before c = ground (
  arith,
  IsIdentifier-iff c.id,
  IsIdentifier-iff c.output.path,
  previous_iff c before,
  str_eq_iff c.input.type (text "rtsp"),
  starts_with_iff (text "rtsp://") c.input.url,
  str_eq_iff c.input.transport (text "tcp"),
  str_eq_iff c.input.transport (text "udp"),
  IsCodec-iff c.video.decoder,
  IsCodec-iff c.video.encoder,
  IsVideo-iff c.video,
)

-- Every channel of the second list is apart from every one of the first.
abbrev Across : List ChannelConfig → List ChannelConfig → Type 0
Across before [] = Unit
Across before (c ∷ rest) = ApartFromAll c before × Across before rest

Apart-last :
    (x c : ChannelConfig) (before : List ChannelConfig)
    → ApartFromAll x (before ++ c ∷ []) ↔ (ApartFromAll x before × Apart c x)
Apart-last x c [] = ground arith
Apart-last x c (b ∷ before) = ground (arith, Apart-last x c before)

Across-last :
    (c : ChannelConfig) (before rest : List ChannelConfig)
    → Across (before ++ c ∷ []) rest ↔ (Across before rest × ApartFromAll c rest)
Across-last c before [] = ground arith
Across-last c before (x ∷ rest) = ground (arith, Apart-last x c before, Across-last c before rest)

channels_iff :
    (index : ℕ) (before rest : List ChannelConfig)
    → (check_channels index before rest ≡ none) ↔ (AreChannels rest × Across before rest)
unfolding check_channels
channels_iff index before [] = ground arith
channels_iff index before (c ∷ rest) = ground (
  arith,
  IsChannel-iff index before c,
  Across-last c before rest,
  channels_iff (index + 1) (before ++ c ∷ []) rest,
)

Across-nil : (rest : List ChannelConfig) → Across [] rest
Across-nil [] = tt
Across-nil (c ∷ rest) = (tt, Across-nil rest)

module _ (is_ipv4 is_ipv6 : Bytes → Bool) where
  config_iff : (c : Config) → (check_config is_ipv4 is_ipv6 c ≡ none) ↔ IsConfig is_ipv4 is_ipv6 c
  unfolding check_config
  config_iff c =
      let r = c.mediamtx.recording in
      ground (
        arith,
        starts_with_iff (text "rtsp://") c.mediamtx.publish_base_url,
        IsDirectory-iff r.directory,
        str_eq_iff r.format (text "fmp4"),
        str_eq_iff r.format (text "mpegts"),
        IsRecording-iff r,
        IsPolicy-iff c.defaults,
        channels_iff 0 [] c.channels,
        Across-nil c.channels,
      )

  -- Validation accepts exactly the configurations of the stated policy: numeric addresses, rtsp
  -- URLs, a safe directory, known formats and codecs, numbers in range, plain identifiers, and no
  -- two channels with the same identifier or the same output path.
  pub validate_iff :
      (c : Config) (error : Option GwError)
      → ((validate is_ipv4 is_ipv6 c error).0 ≡ ok) ↔ IsConfig is_ipv4 is_ipv6 c
  unfolding validate
  validate_iff c error = ground (arith, config_iff c)
