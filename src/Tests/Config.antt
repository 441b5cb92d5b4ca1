-- ===== src/Tests/Config.antt =====
-- Configuration texts at concrete inputs: config.c.
use learn_apue.Base.{
  ℕ, ◌<◌, Bool, true, false, ◌≡◌, refl, ◌↔◌, List, [], ◌∷◌, ◌++◌, Option, none, some, arith, length,
  if◌then◌else◌, get_elem?, map,
}
use learn_apue.Base.Int.{pos}
use learn_apue.Base.Text.{Bytes, text, str_eq, starts_with, strstr, break_at}
use learn_apue.Config.{ChannelConfig, Config}
use learn_apue.Config.Expand.{expanded, scan, expand_environment}
use learn_apue.Config.Expand.Meaning.{expand_environment_iff}
use learn_apue.Config.Expand.Pieces.{Piece, ArePieces, source, value}
use learn_apue.Config.Read.Document.{
  Loaded, document, config_load_file, parse_document, parse_channels, parse_channel, parse_sections,
  parse_recording, port_field, server_fields, mediamtx_fields, recording_fields, default_field,
  default_fields, expand_url,
}
use learn_apue.Config.Read.Keeps.{Holds}
use learn_apue.Config.Read.Sound.{IsLoaded, config_load_file-IsLoaded}
use learn_apue.Config.Read.{
  Node, scalar, sequence, mapping, Parsed, done, read_fields, mapping_value, find_pair, read_string,
  read_int, read_bool, string_field, int_field, bool_field, channel_fields, input_fields,
  codec_fields, video_fields, channel_init, config_init,
}
use learn_apue.Config.Redact.{redact_url, copy_text}
use learn_apue.Config.Redact.Hides.{
  IsSplit, with_credentials, mask, redact_url_hides, redact_url_discloses,
}
use learn_apue.Config.Validate.Decides.{validate_iff}
use learn_apue.Config.Validate.Policy.{IsConfig}
use learn_apue.Config.Validate.{
  validate, check_config, check_channels, check_channel, check_previous, supported_codec,
  valid_identifier, valid_absolute_directory, all_bytes, recording_out_of_range,
  policy_out_of_range, video_out_of_range,
}
use learn_apue.Status.{ok}
use learn_apue.Tests.Channel.{policy}

abbrev scheme : Bytes
scheme = b'r' ∷ b't' ∷ b's' ∷ b'p' ∷ []

abbrev user : Bytes
user = b'm' ∷ b'e' ∷ []

abbrev rest : Bytes
rest = b'h' ∷ b'/' ∷ b'x' ∷ []

abbrev secret : Bytes
secret = b'p' ∷ b'w' ∷ []

abbrev other : Bytes
other = b'q' ∷ []

secret-IsSplit : IsSplit scheme user secret
secret-IsSplit = ground arith

other-IsSplit : IsSplit scheme user other
other-IsSplit = ground arith

redact_url_hides_example :
    redact_url (with_credentials scheme user secret rest) [] 64
    ≡ redact_url (with_credentials scheme user other rest) [] 64
redact_url_hides_example =
    redact_url_hides scheme user secret other rest [] 64 secret-IsSplit other-IsSplit

colon-IsSplit : IsSplit scheme (user ++ b':' ∷ secret) other
colon-IsSplit = ground arith

redact_url_discloses_example :
    redact_url (with_credentials scheme user (secret ++ b':' ∷ other) rest) [] 64
    ≡ (ok, with_credentials scheme user (secret ++ b':' ∷ mask) rest)
redact_url_discloses_example =
    redact_url_discloses scheme user secret other rest [] 64 colon-IsSplit (omega arith)

redact_runs : redact_url (text "rtsp://u:p@h/x") [] 64 ≡ (ok, text "rtsp://u:***@h/x")
unfolding redact_url text strstr break_at
redact_runs = refl

-- an environment with the one variable `A`
abbrev one_variable : Bytes → Option Bytes
one_variable name = if str_eq name (b'A' ∷ []) then some (b'1' ∷ b'2' ∷ []) else none

abbrev reference : Bytes
reference = b'x' ∷ b'$' ∷ b'{' ∷ b'A' ∷ b'}' ∷ []

expand_runs :
    expand_environment one_variable reference 8 none ≡ some (expanded (b'x' ∷ b'1' ∷ b'2' ∷ []))
unfolding expand_environment scan break_at str_eq
expand_runs = refl

expand_environment_iff_example :
    (expand_environment one_variable reference 8 none ≡ some (expanded (b'x' ∷ b'1' ∷ b'2' ∷ [])))
    ↔ ((ps : List Piece) × ArePieces ps
        × (source ps ≡ reference)
        × (value one_variable ps ≡ some (b'x' ∷ b'1' ∷ b'2' ∷ []))
        × (length {A = ℕ} (b'x' ∷ b'1' ∷ b'2' ∷ []) < 8))
expand_environment_iff_example =
    expand_environment_iff one_variable reference 8 none (b'x' ∷ b'1' ∷ b'2' ∷ []) (omega arith)

abbrev pub camera : ChannelConfig
camera = record {
  id = b'c' ∷ b'1' ∷ [];
  enabled = true;
  input = record { type = text "rtsp"; url = text "rtsp://" ++ rest; transport = text "tcp" };
  video = record {
    decoder = text "h264_rkmpp";
    width = pos 1280;
    height = pos 720;
    encoder = text "hevc_rkmpp";
    bitrate_kbps = pos 4000;
    fps = pos 25;
  };
  output = record { path = b'c' ∷ b'a' ∷ b'm' ∷ [] };
}

abbrev pub gateway : Config
gateway = record {
  server = record { enabled = true; listen = text "127.0.0.1"; port = 9080 };
  mediamtx = record {
    publish_base_url = text "rtsp://" ++ rest;
    recording = record {
      enabled = false;
      directory = b'/' ∷ b'v' ∷ [];
      format = text "fmp4";
      part_duration_sec = pos 1;
      max_part_size_mb = pos 50;
      segment_duration_sec = pos 3600;
      delete_after_sec = pos 86400;
      min_free_mb = pos 1024;
      playback_listen = text "127.0.0.1";
      playback_port = 9996;
    };
  };
  defaults = policy;
  channels = camera ∷ [];
}

abbrev pub any_address : Bytes → Bool
any_address listen = true

validate_iff_example :
    ((validate any_address any_address gateway none).0 ≡ ok)
    ↔ IsConfig any_address any_address gateway
validate_iff_example = validate_iff any_address any_address gateway none

pub gateway_valid : (validate any_address any_address gateway none).0 ≡ ok
unfolding validate check_config check_channels check_channel check_previous supported_codec
    valid_identifier valid_absolute_directory all_bytes recording_out_of_range policy_out_of_range
    video_out_of_range str_eq starts_with text
gateway_valid = refl

-- a document with one channel whose URL refers to a variable
abbrev nodes : List Node
nodes =
    mapping ((1, 2) ∷ [])
    ∷ scalar (text "channels")
    ∷ sequence (3 ∷ [])
    ∷ mapping ((4, 5) ∷ (6, 7) ∷ (8, 9) ∷ (10, 11) ∷ [])
    ∷ scalar (text "id")
    ∷ scalar (b'c' ∷ b'1' ∷ [])
    ∷ scalar (text "input")
    ∷ mapping ((12, 13) ∷ [])
    ∷ scalar (text "video")
    ∷ mapping []
    ∷ scalar (text "output")
    ∷ mapping ((14, 15) ∷ [])
    ∷ scalar (text "url")
    ∷ scalar (text "rtsp://${A}/x")
    ∷ scalar (text "path")
    ∷ scalar (b'p' ∷ [])
    ∷ []

abbrev loaded : Loaded
loaded = document (get_elem? nodes 0) (get_elem? nodes)

config_load_file-IsLoaded_example :
    Holds
      (IsLoaded any_address any_address one_variable)
      (config_load_file any_address any_address one_variable [] loaded none)
config_load_file-IsLoaded_example =
    config_load_file-IsLoaded any_address any_address one_variable [] loaded none

abbrev urls : Parsed Config → List Bytes
urls (done config error) = map (λ c. c.input.url) config.channels
urls _ = []

urls_run :
    urls (config_load_file any_address any_address one_variable [] loaded none)
    ≡ text "rtsp://12/x" ∷ []
unfolding config_load_file parse_document read_fields parse_channels parse_channel parse_sections
    parse_recording mapping_value find_pair read_string read_int read_bool string_field int_field
    bool_field channel_fields input_fields codec_fields video_fields port_field server_fields
    mediamtx_fields recording_fields default_field default_fields expand_url channel_init
    config_init expand_environment scan copy_text break_at validate check_config check_channels
    check_channel check_previous supported_codec valid_identifier valid_absolute_directory all_bytes
    recording_out_of_range policy_out_of_range video_out_of_range str_eq starts_with text
urls_run = refl
