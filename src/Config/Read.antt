-- ===== src/Config/Read.antt =====
-- Reading the configuration: `gw_config_init`, `channel_init`, the readers of one field and
-- `parse_channel` of rk3588-media-gateway/src/config/config.c. The document is libyaml's: its nodes
-- refer to each other by number, and `get_node` is `yaml_document_get_node`. What a call that fails
-- has written so far is not kept: no caller reads it.
pub mod Document
pub mod Fits
pub mod Keeps
pub mod Sections
pub mod Sound
use learn_apue.Base.{
  ℕ, ◌-◌, ◌^◌, Bool, true, false, not, ◌||◌, List, [], ◌∷◌, ◌++◌, Option, none, some, leb, ltb,
  if◌then◌else◌,
}
use learn_apue.Base.Decimal.{decimal}
use learn_apue.Base.Int.{ℤ, pos, negsuc}
use learn_apue.Base.Text.{Bytes, text, str_eq}
use learn_apue.Config.{
  ChannelConfig, Config, id_cap, url_cap, path_cap, file_path_cap, name_cap, listen_cap,
}
use learn_apue.Config.Expand.{Expansion, expanded, refused, expand_environment}
use learn_apue.Config.Redact.{copy_text}
use learn_apue.Progress.Numbers.{parse_i64}
use learn_apue.Status.{Status, ok, argument, parse, overflow, GwError, error_set}

-- `yaml_node_t`: the members of a sequence or a mapping are numbers of nodes.
pub data Node : Type 0 where
  scalar : Bytes → Node
  sequence : List ℕ → Node
  mapping : List (ℕ × ℕ) → Node

-- `GW_OK` with what was read, or an error. `endless` would be an expansion that does not end.
pub data Parsed {ℓ} (A : Type ℓ) : Type ℓ where
  done : A → Option GwError → Parsed A
  failed : Status → Option GwError → Parsed A
  endless : Parsed A

infixl 5 ◌>>=◌
abbrev pub ◌>>=◌ {ℓ κ} :
    {A : Type ℓ} {B : Type κ} → Parsed A → (A → Option GwError → Parsed B) → Parsed B
done a error >>= f = f a error
failed status error >>= f = failed status error
endless >>= f = endless

abbrev pub fail {ℓ} : {A : Type ℓ} → Status → Option GwError → Bytes → Parsed A
fail status error message = failed status (error_set error status message)

-- A statement that changes one member and returns on an error, and a sequence of them.
abbrev pub Field {ℓ} : Type ℓ → Type ℓ
Field A = A → Option GwError → Parsed A

unfoldable pub read_fields {ℓ} : {A : Type ℓ} → List (Field A) → Field A
read_fields [] a error = done a error
read_fields (field ∷ fields) a error = field a error >>= read_fields fields

abbrev pub small_int : ℤ → Bool
small_int (pos n) = ltb n (2 ^ 31)
small_int (negsuc n) = ltb n (2 ^ 31)

-- `strtol` with its tests: the whole text is a number, and an `int` holds it.
abbrev pub in_int : Option ℤ → Option ℤ
in_int none = none
in_int (some n) = if small_int n then some n else none

abbrev pub bool_of : Bytes → Option Bool
bool_of value =
    if str_eq value (text "true") || str_eq value (text "True") || str_eq value (text "TRUE")
    then some true
    else if str_eq value (text "false")
        || str_eq value (text "False")
        || str_eq value (text "FALSE")
    then some false
    else none

abbrev pub copied : Bytes → ℕ → Option GwError → Status × Bytes → Parsed (Option Bytes)
copied key capacity error (ok, value) = done (some value) error
copied key capacity error (argument, value) =
    fail argument error (text "invalid destination for " ++ key)
copied key capacity error (status, value) =
    fail status error (key ++ (text " exceeds " ++ (decimal (capacity - 1) ++ text " bytes")))

-- A member that is missing, where it is required and where it is not.
abbrev pub missing {ℓ} : {A : Type ℓ} → Bytes → Bool → Option GwError → Parsed (Option A)
missing key true error = fail parse error (text "missing required field " ++ key)
missing key false error = done none error

-- What was read, if anything, goes to its member.
abbrev pub store {ℓ κ} : {A : Type ℓ} {B : Type κ} → (B → A → A) → A → Option B → A
store put a none = a
store put a (some b) = put b a

-- What is read at the node of a key.
abbrev pub string_at : Bytes → ℕ → Bool → Option GwError → Option Node → Parsed (Option Bytes)
string_at key capacity required error none = missing key required error
string_at key capacity required error (some (scalar value)) =
    copied key capacity error (copy_text capacity [] value)
string_at key capacity required error (some _) =
    fail parse error (key ++ text " must be a scalar string")

abbrev pub int_read : Bytes → Option GwError → Option ℤ → Parsed (Option ℤ)
int_read key error (some n) = done (some n) error
int_read key error none = fail parse error (key ++ text " is not a valid integer")

abbrev pub int_at : Bytes → Option GwError → Option Node → Parsed (Option ℤ)
int_at key error none = missing key false error
int_at key error (some (scalar value)) = int_read key error (in_int (parse_i64 value))
int_at key error (some _) = fail parse error (key ++ text " must be an integer")

abbrev pub bool_read : Bytes → Option GwError → Option Bool → Parsed (Option Bool)
bool_read key error (some b) = done (some b) error
bool_read key error none = fail parse error (key ++ text " must be true or false")

abbrev pub bool_at : Bytes → Option GwError → Option Node → Parsed (Option Bool)
bool_at key error none = missing key false error
bool_at key error (some (scalar value)) = bool_read key error (bool_of value)
bool_at key error (some _) = fail parse error (key ++ text " must be true or false")

module _ (get_node : ℕ → Option Node) where
  abbrev pub is_key : Bytes → Option Node → Bool
  is_key key (some (scalar name)) = str_eq name key
  is_key key _ = false

  unfoldable pub find_pair : Bytes → List (ℕ × ℕ) → Option Node
  find_pair key [] = none
  find_pair key ((name, value) ∷ pairs) =
      let later = find_pair key pairs in
      if is_key key (get_node name) then get_node value else later

  unfoldable pub mapping_value : Option Node → Bytes → Option Node
  mapping_value (some (mapping pairs)) key = find_pair key pairs
  mapping_value _ key = none

  -- `none`: the destination stays as it is.
  unfoldable pub read_string :
      Option Node → Bytes → ℕ → Bool → Option GwError → Parsed (Option Bytes)
  read_string m key capacity required error =
      string_at key capacity required error (mapping_value m key)

  unfoldable pub read_int : Option Node → Bytes → Option GwError → Parsed (Option ℤ)
  read_int m key error = int_at key error (mapping_value m key)

  unfoldable pub read_bool : Option Node → Bytes → Option GwError → Parsed (Option Bool)
  read_bool m key error = bool_at key error (mapping_value m key)

  module _ {A : Type 0} where
    unfoldable pub string_field : Option Node → Bytes → ℕ → Bool → (Bytes → A → A) → Field A
    string_field m key capacity required put a error =
        read_string m key capacity required error >>= λ value. done (store put a value)

    unfoldable pub int_field : Option Node → Bytes → (ℤ → A → A) → Field A
    int_field m key put a error = read_int m key error >>= λ value. done (store put a value)

    unfoldable pub bool_field : Option Node → Bytes → (Bool → A → A) → Field A
    bool_field m key put a error = read_bool m key error >>= λ value. done (store put a value)

  abbrev pub is_mapping : Option Node → Bool
  is_mapping (some (mapping pairs)) = true
  is_mapping _ = false

  unfoldable pub channel_fields : Option Node → List (Field ChannelConfig)
  channel_fields node =
      string_field node (text "id") id_cap true (λ v c. record c { id = v })
      ∷ bool_field node (text "enabled") (λ v c. record c { enabled = v })
      ∷ []

  unfoldable pub input_fields : Option Node → List (Field ChannelConfig)
  input_fields input =
      string_field input (text "type") name_cap false
        (λ v c. record c { input = record c.input { type = v } })
      ∷ string_field input (text "url") url_cap true
          (λ v c. record c { input = record c.input { url = v } })
      ∷ string_field input (text "transport") name_cap false
          (λ v c. record c { input = record c.input { transport = v } })
      ∷ []

  unfoldable pub codec_fields : Option Node → Option Node → List (Field ChannelConfig)
  codec_fields video output =
      string_field video (text "decoder") name_cap false
        (λ v c. record c { video = record c.video { decoder = v } })
      ∷ string_field video (text "encoder") name_cap false
          (λ v c. record c { video = record c.video { encoder = v } })
      ∷ string_field output (text "path") path_cap true
          (λ v c. record c { output = record { path = v } })
      ∷ []

  unfoldable pub video_fields : Option Node → List (Field ChannelConfig)
  video_fields video =
      int_field video (text "width") (λ v c. record c { video = record c.video { width = v } })
      ∷ int_field video (text "height") (λ v c. record c { video = record c.video { height = v } })
      ∷ int_field video (text "bitrate_kbps")
          (λ v c. record c { video = record c.video { bitrate_kbps = v } })
      ∷ int_field video (text "fps") (λ v c. record c { video = record c.video { fps = v } })
      ∷ []

unfoldable pub channel_init : ChannelConfig
channel_init = record {
  id = [];
  enabled = true;
  input = record { type = text "rtsp"; url = []; transport = text "tcp" };
  video = record {
    decoder = text "h264_rkmpp";
    width = pos 1280;
    height = pos 720;
    encoder = text "h264_rkmpp";
    bitrate_kbps = pos 4000;
    fps = pos 25;
  };
  output = record { path = [] };
}

unfoldable pub config_init : Config
config_init = record {
  server = record { enabled = true; listen = text "127.0.0.1"; port = 9080 };
  mediamtx = record {
    publish_base_url = text "rtsp://127.0.0.1:8554";
    recording = record {
      enabled = false;
      directory = text "/var/lib/rk-media-gateway/recordings";
      format = text "fmp4";
      part_duration_sec = pos 1;
      max_part_size_mb = pos 50;
      segment_duration_sec = pos 3600;
      delete_after_sec = pos 86400;
      min_free_mb = pos 1024;
      playback_listen = text "127.0.0.1";
      playback_port = 9996;
    };
  };
  defaults = record {
    startup_timeout_sec = pos 15;
    progress_timeout_sec = pos 10;
    stable_run_sec = pos 60;
    stop_timeout_sec = pos 5;
    max_retries = pos 10;
    max_backoff_sec = pos 30;
  };
  channels = [];
}
