-- ===== src/Config/Read/Document.antt =====
-- The rest of reading a configuration: `parse_channel`, `parse_document` and `gw_config_load_file` of
-- rk3588-media-gateway/src/config/config.c.
use learn_apue.Base.{
  ℕ, ◌+◌, Bool, false, ◌&&◌, ◌||◌, List, [], ◌∷◌, ◌++◌, Option, none, some, leb, length,
  if◌then◌else◌,
}
use learn_apue.Base.Decimal.{decimal}
use learn_apue.Base.Int.{ℤ, pos, ltb_ℤ, pos_part}
use learn_apue.Base.Text.{Bytes, text}
use learn_apue.Config.{
  ChannelConfig, Config, RecordingConfig, RetryPolicy, max_channels, url_cap, file_path_cap,
  name_cap, listen_cap,
}
use learn_apue.Config.Expand.{Expansion, expanded, refused, expand_environment}
use learn_apue.Config.Redact.{copy_text}
use learn_apue.Config.Read.{
  Node, sequence, Parsed, done, failed, endless, ◌>>=◌, fail, Field, read_fields, mapping_value,
  string_field, int_field, bool_field, is_mapping, read_int, channel_fields, input_fields,
  codec_fields, video_fields, channel_init, config_init,
}
use learn_apue.Config.Validate.{validate}
use learn_apue.Status.{Status, ok, io, parse, validation, no_memory, GwError, error_clear}

abbrev pub set_url : ChannelConfig → Bytes → ChannelConfig
set_url c url = record c { input = record c.input { url = url } }

abbrev pub stored : ChannelConfig → Option GwError → Status × Bytes → Parsed ChannelConfig
stored c error (ok, url) = done (set_url c url) error
stored c error (status, url) = fail status error (text "cannot store expanded input URL")

abbrev pub put_expanded : ChannelConfig → Option GwError → Option Expansion → Parsed ChannelConfig
put_expanded c error none = endless
put_expanded c error (some (refused status error')) = failed status error'
put_expanded c error (some (expanded url)) = stored c error (copy_text url_cap c.input.url url)

module _ (getenv : Bytes → Option Bytes) where
  -- The block at the end of `parse_channel`.
  unfoldable pub expand_url : Field ChannelConfig
  expand_url c error = put_expanded c error (expand_environment getenv c.input.url url_cap error)

module _ (getenv : Bytes → Option Bytes) (get_node : ℕ → Option Node) where
  unfoldable pub parse_sections : ℕ → Option Node → Option Node → Option Node → Field ChannelConfig
  unfolding input_fields codec_fields video_fields
  parse_sections index input video output c error =
      if is_mapping get_node input && is_mapping get_node video && is_mapping get_node output
      then read_fields
          (input_fields get_node input
            ++ codec_fields get_node video output
            ++ video_fields get_node video
            ++ expand_url getenv ∷ [])
          c error
      else fail parse error (
          text "channels["
          ++ (decimal index ++ text "] requires input, video, and output mappings"))

  unfoldable pub parse_channel : ℕ → Option Node → Option GwError → Parsed ChannelConfig
  unfolding channel_fields
  parse_channel index node error =
      if is_mapping get_node node
      then read_fields
          (channel_fields get_node node
            ++ parse_sections index (mapping_value get_node node (text "input"))
                (mapping_value get_node node (text "video"))
                (mapping_value get_node node (text "output"))
              ∷ [])
          channel_init error
      else fail parse error (text "channels[" ++ (decimal index ++ text "] must be a mapping"))

  -- The loop over the items of the sequence.
  unfoldable pub parse_channels : List ℕ → Field Config
  parse_channels [] config error = done config error
  parse_channels (item ∷ items) config error =
      if leb max_channels (length config.channels)
      then fail validation error (text "channels exceeds limit of " ++ decimal max_channels)
      else parse_channel (length config.channels) (get_node item) error >>= λ channel.
          parse_channels items (record config { channels = config.channels ++ channel ∷ [] })

module _ (get_node : ℕ → Option Node) where
  -- `low` to 65535
  abbrev pub port_read :
      ℕ → Bytes → (ℕ → Config → Config) → Config → Option GwError → ℤ → Parsed Config
  port_read low message put config error port =
      if ltb_ℤ port (pos low) || ltb_ℤ (pos 65535) port
      then fail validation error message
      else done (put (pos_part port) config) error

  -- The port is read into an `int` that holds the old value.
  unfoldable pub port_field :
      Option Node → Bytes → ℕ → Bytes → (Config → ℕ) → (ℕ → Config → Config) → Field Config
  port_field m key low message old put config error =
      read_int get_node m key error >>= λ found error'.
      port_read low message put config error' (elim found [ none ↦ pos (old config) | some n ↦ n ])

  abbrev pub set_recording : (RecordingConfig → RecordingConfig) → Config → Config
  set_recording f c = record c {
    mediamtx = record c.mediamtx { recording = f c.mediamtx.recording };
  }

  unfoldable pub server_fields : Option Node → List (Field Config)
  server_fields server =
      bool_field get_node server (text "enabled")
        (λ v c. record c { server = record c.server { enabled = v } })
      ∷ string_field get_node server (text "listen") listen_cap false
          (λ v c. record c { server = record c.server { listen = v } })
      ∷ port_field server (text "port") 0 (text "server.port must be 0..65535") (λ c. c.server.port)
          (λ v c. record c { server = record c.server { port = v } })
      ∷ []

  unfoldable pub recording_fields : Option Node → List (Field Config)
  recording_fields m =
      bool_field get_node m (text "enabled") (λ v. set_recording λ r. record r { enabled = v })
      ∷ string_field get_node m (text "directory") file_path_cap false
          (λ v. set_recording λ r. record r { directory = v })
      ∷ string_field get_node m (text "format") name_cap false
          (λ v. set_recording λ r. record r { format = v })
      ∷ int_field get_node m (text "part_duration_sec")
          (λ v. set_recording λ r. record r { part_duration_sec = v })
      ∷ int_field get_node m (text "max_part_size_mb")
          (λ v. set_recording λ r. record r { max_part_size_mb = v })
      ∷ int_field get_node m (text "segment_duration_sec")
          (λ v. set_recording λ r. record r { segment_duration_sec = v })
      ∷ int_field get_node m (text "delete_after_sec")
          (λ v. set_recording λ r. record r { delete_after_sec = v })
      ∷ int_field get_node m (text "min_free_mb")
          (λ v. set_recording λ r. record r { min_free_mb = v })
      ∷ string_field get_node m (text "playback_listen") listen_cap false
          (λ v. set_recording λ r. record r { playback_listen = v })
      ∷ port_field m (text "playback_port") 1
          (text "mediamtx.recording.playback_port must be 1..65535")
          (λ c. c.mediamtx.recording.playback_port)
          (λ v. set_recording λ r. record r { playback_port = v })
      ∷ []

  unfoldable pub default_field :
      Option Node → Bytes → (ℤ → RetryPolicy → RetryPolicy) → Field Config
  default_field m key put =
      int_field get_node m key (λ v c. record c { defaults = put v c.defaults })

  unfoldable pub default_fields : Option Node → List (Field Config)
  unfolding default_field
  default_fields m =
      default_field m (text "startup_timeout_sec") (λ v p. record p { startup_timeout_sec = v })
      ∷ default_field m (text "progress_timeout_sec") (λ v p. record p { progress_timeout_sec = v })
      ∷ default_field m (text "stable_run_sec") (λ v p. record p { stable_run_sec = v })
      ∷ default_field m (text "stop_timeout_sec") (λ v p. record p { stop_timeout_sec = v })
      ∷ default_field m (text "max_retries") (λ v p. record p { max_retries = v })
      ∷ default_field m (text "max_backoff_sec") (λ v p. record p { max_backoff_sec = v })
      ∷ []

  -- A section that is there is read.
  abbrev pub if_there : Option Node → List (Field Config) → Field Config
  if_there none fields config error = done config error
  if_there (some node) fields config error = read_fields fields config error

  unfoldable pub parse_recording : Option Node → Field Config
  unfolding recording_fields
  parse_recording none config error = done config error
  parse_recording (some node) config error =
      if is_mapping get_node (some node)
      then read_fields (recording_fields (some node)) config error
      else fail parse error (text "mediamtx.recording must be a mapping")

  unfoldable pub mediamtx_fields : Option Node → List (Field Config)
  mediamtx_fields m =
      string_field get_node m (text "publish_base_url") url_cap false
        (λ v c. record c { mediamtx = record c.mediamtx { publish_base_url = v } })
      ∷ parse_recording (mapping_value get_node m (text "recording"))
      ∷ []

module _ (getenv : Bytes → Option Bytes) (get_node : ℕ → Option Node) where
  abbrev pub channels_of : Option Node → Field Config
  channels_of (some (sequence items)) config error =
      parse_channels getenv get_node items config error
  channels_of _ config error = fail parse error (text "channels must be a sequence")

  unfoldable pub parse_document : Option Node → Field Config
  unfolding server_fields mediamtx_fields default_fields
  parse_document root config error =
      let section = mapping_value get_node root in
      if is_mapping get_node root
      then read_fields
          (if_there get_node (section (text "server"))
              (server_fields get_node (section (text "server")))
            ∷ if_there get_node (section (text "mediamtx"))
                (mediamtx_fields get_node (section (text "mediamtx")))
            ∷ if_there get_node (section (text "defaults"))
                (default_fields get_node (section (text "defaults")))
            ∷ channels_of (section (text "channels"))
            ∷ [])
          config error
      else fail parse error (text "configuration root must be a mapping")

-- What opening the file and loading it with libyaml answer.
pub data Loaded : Type 0 where
  not_opened : Bytes → Loaded
  no_parser : Loaded
  malformed : ℕ → Bytes → Loaded
  document : Option Node → (ℕ → Option Node) → Loaded

abbrev pub checked : Config → Status × Option GwError → Parsed Config
checked config (ok, error) = done config error
checked config (status, error) = failed status error

module _ (is_ipv4 is_ipv6 : Bytes → Bool) (getenv : Bytes → Option Bytes) where
  abbrev pub load : Bytes → Loaded → Option GwError → Parsed Config
  load path (not_opened reason) error =
      fail io error (text "cannot open configuration '" ++ (path ++ (text "': " ++ reason)))
  load path no_parser error = fail no_memory error (text "cannot initialize YAML parser")
  load path (malformed line problem) error =
      fail parse error
        (text "YAML parse error at line " ++ (decimal (line + 1) ++ (text ": " ++ problem)))
  load path (document root get_node) error =
      parse_document getenv get_node root config_init error >>= λ config error'.
      checked config (validate is_ipv4 is_ipv6 config error')

  -- The pointers are not null.
  unfoldable pub config_load_file : Bytes → Loaded → Option GwError → Parsed Config
  config_load_file path loaded error = load path loaded (error_clear error)
