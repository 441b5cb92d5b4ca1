-- ===== src/Config/Read/Sound.antt =====
-- What `gw_config_load_file` of rk3588-media-gateway/src/config/config.c hands out: a configuration that
-- is valid and whose texts, numbers and channels fit the structure.
use learn_apue.Config.Read.Sections.{
  AllFit-append, FitsConfig, config_init-Fits, server_fields-Keep, default_fields-Keep,
  mediamtx_fields-Keep, if_there-Keeps,
}
use learn_apue.Base.{
  ℕ, Bool, List, [], ◌∷◌, ◌++◌, Option, none, some, arith, length, length-append, inl, inr,
  Bool-cases, leb,
}
use learn_apue.Base.Text.{Bytes, text}
use learn_apue.Config.{Config, max_channels}
use learn_apue.Config.Read.Fits.{FitsChannel, parse_channel-Holds}
use learn_apue.Config.Read.Keeps.{Holds, Keeps, AllKeep, bind-Holds, read_fields-Keeps}
use learn_apue.Config.Read.Document.{
  Loaded, document, not_opened, no_parser, malformed, parse_channel, parse_channels, server_fields,
  default_fields, if_there, mediamtx_fields, parse_document, channels_of, config_load_file, checked,
}
use learn_apue.Config.Read.{Node, scalar, sequence, mapping, mapping_value, config_init, is_mapping}
use learn_apue.Config.Validate.Decides.{validate_iff}
use learn_apue.Config.Validate.Policy.{IsConfig}
use learn_apue.Config.Validate.{validate}
use learn_apue.Status.{GwError, error_clear}

module _ (getenv : Bytes → Option Bytes) (get_node : ℕ → Option Node) where
  parse_channels-Keeps : (items : List ℕ) → Keeps FitsConfig (parse_channels getenv get_node items)
  unfolding parse_channels
  parse_channels-Keeps [] config error h = h
  parse_channels-Keeps (item ∷ items) config error h =
      elim (Bool-cases (leb max_channels (length config.channels))) [
        | inl full ↦ rw full tt
        | inr room ↦ rw room (
            bind-Holds FitsChannel FitsConfig
              (parse_channel getenv get_node (length config.channels) (get_node item) error) _
              (parse_channel-Holds getenv get_node (length config.channels) (get_node item) error)
              λ channel error' fits.
                parse_channels-Keeps items
                  (record config { channels = config.channels ++ channel ∷ [] }) error'
                  (ground (
                    arith,
                    AllFit-append config.channels channel,
                    length-append config.channels (channel ∷ []),
                  )))
      ]

  channels_of-Keeps : (node : Option Node) → Keeps FitsConfig (channels_of getenv get_node node)
  channels_of-Keeps none config error h = tt
  channels_of-Keeps (some (scalar value)) config error h = tt
  channels_of-Keeps (some (mapping pairs)) config error h = tt
  channels_of-Keeps (some (sequence items)) config error h =
      parse_channels-Keeps items config error h

  parse_document-Keeps :
      (root : Option Node) → Keeps FitsConfig (parse_document getenv get_node root)
  unfolding parse_document
  parse_document-Keeps root config error h =
      let section = mapping_value get_node root in
      let all : AllKeep FitsConfig (
          if_there get_node (section (text "server"))
            (server_fields get_node (section (text "server")))
          ∷ if_there get_node (section (text "mediamtx"))
              (mediamtx_fields get_node (section (text "mediamtx")))
          ∷ if_there get_node (section (text "defaults"))
              (default_fields get_node (section (text "defaults")))
          ∷ channels_of getenv get_node (section (text "channels"))
          ∷ []) =
        (
          if_there-Keeps get_node _ _ (server_fields-Keep get_node (section (text "server"))),
          (
            if_there-Keeps get_node _ _ (mediamtx_fields-Keep get_node (section (text "mediamtx"))),
            (
              if_there-Keeps get_node _ _
                  (default_fields-Keep get_node (section (text "defaults"))),
              (channels_of-Keeps (section (text "channels")), tt),
            ),
          ),
        ) in
      elim (Bool-cases (is_mapping get_node root)) [
        | inr bad ↦ rw bad tt
        | inl good ↦ rw good (read_fields-Keeps FitsConfig _ all config error h)
      ]

module _ (is_ipv4 is_ipv6 : Bytes → Bool) (getenv : Bytes → Option Bytes) where
  abbrev pub IsLoaded : Config → Type 0
  IsLoaded c = IsConfig is_ipv4 is_ipv6 c × FitsConfig c

  checked-Holds :
      (c : Config) (error : Option GwError)
      → FitsConfig c
      → Holds IsLoaded (checked c (validate is_ipv4 is_ipv6 c error))
  checked-Holds c error h = ground (arith, validate_iff is_ipv4 is_ipv6 c error)

  -- Loading a configuration always ends, whatever the file, the document and the environment are;
  -- and a configuration that it hands out satisfies the validated policy, and all of it fits the
  -- structure: each text its array with the terminating zero, each port 16 bits, and at most 64
  -- channels, each of which fits.
  pub config_load_file-IsLoaded :
      (path : Bytes) (loaded : Loaded) (error : Option GwError)
      → Holds IsLoaded (config_load_file is_ipv4 is_ipv6 getenv path loaded error)
  unfolding config_load_file
  config_load_file-IsLoaded path (not_opened reason) error = tt
  config_load_file-IsLoaded path no_parser error = tt
  config_load_file-IsLoaded path (malformed line problem) error = tt
  config_load_file-IsLoaded path (document root get_node) error =
      bind-Holds FitsConfig IsLoaded
        (parse_document getenv get_node root config_init (error_clear error)) _
        (parse_document-Keeps getenv get_node root config_init (error_clear error) config_init-Fits)
        λ config error' fits. checked-Holds config error' fits
