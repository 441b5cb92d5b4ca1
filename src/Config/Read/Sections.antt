-- ===== src/Config/Read/Sections.antt =====
-- The sections of the document that rk3588-media-gateway/src/config/config.c reads keep the sizes of the
-- configuration's members.
use learn_apue.Base.{
  ℕ, ◌<◌, ◌≤◌, List, [], ◌∷◌, ◌++◌, Option, none, some, ◌≡◌, arith, length, inl, inr, Bool-cases,
  ◌||◌,
}
use learn_apue.Base.Int.{ℤ, pos, ltb_ℤ, pos_part}
use learn_apue.Base.Text.{Bytes, text}
use learn_apue.Config.{
  RetryPolicy, ChannelConfig, Config, RecordingConfig, max_channels, url_cap, file_path_cap,
  name_cap, listen_cap,
}
use learn_apue.Config.Read.Fits.{FitsChannel}
use learn_apue.Config.Read.Keeps.{
  Holds, Keeps, AllKeep, bind-Holds, IfSome, IsSmall, int_at-Holds, read_fields-Keeps,
  string_field-Keeps, int_field-Keeps, bool_field-Keeps,
}
use learn_apue.Config.Read.Document.{
  port_field, port_read, server_fields, recording_fields, default_field, default_fields, if_there,
  parse_recording, mediamtx_fields, set_recording,
}
use learn_apue.Config.Read.{
  Node, Field, mapping_value, read_int, int_field, config_init, int_at, is_mapping,
}
use learn_apue.Status.{GwError}

-- Every channel fits.
abbrev pub AllFit : List ChannelConfig → Type 0
AllFit [] = Unit
AllFit (c ∷ cs) = FitsChannel c × AllFit cs

pub AllFit-append :
    (cs : List ChannelConfig) (c : ChannelConfig)
    → AllFit cs
    → FitsChannel c
    → AllFit (cs ++ c ∷ [])
AllFit-append [] c h k = (k, tt)
AllFit-append (d ∷ cs) c h k = (h.0, AllFit-append cs c h.1 k)

-- The sizes of the configuration's members.
pub record FitsConfig (c : Config) : Type 0 where
  pub listen_fits : length c.server.listen < listen_cap
  pub port_fits : c.server.port < 65536
  pub url_fits : length c.mediamtx.publish_base_url < url_cap
  pub directory_fits : length c.mediamtx.recording.directory < file_path_cap
  pub format_fits : length c.mediamtx.recording.format < name_cap
  pub playback_fits : length c.mediamtx.recording.playback_listen < listen_cap
  pub playback_port_fits : c.mediamtx.recording.playback_port < 65536
  pub channels_fit : AllFit c.channels
  pub few_channels : length c.channels ≤ max_channels

pub config_init-Fits : FitsConfig config_init
unfolding config_init text
config_init-Fits = ground arith

-- The texts and the port of the recordings are the same.
record SameSizes (r r' : RecordingConfig) : Type 0 where
  directory_eq : r'.directory ≡ r.directory
  format_eq : r'.format ≡ r.format
  playback_eq : r'.playback_listen ≡ r.playback_listen
  port_eq : r'.playback_port ≡ r.playback_port

module _ (get_node : ℕ → Option Node) where
  port_read-Holds :
      (low : ℕ) (message : Bytes) (put : ℕ → Config → Config) (config : Config)
      (error : Option GwError) (port : ℤ)
      → ((p : ℕ) → p < 65536 → FitsConfig (put p config))
      → Holds FitsConfig (port_read get_node low message put config error port)
  port_read-Holds low message put config error port h =
      elim (Bool-cases (ltb_ℤ port (pos low) || ltb_ℤ (pos 65535) port)) [
        | inl outside ↦ rw outside tt
        | inr inside ↦ rw inside (h (pos_part port) (ground arith))
      ]

  port_field-Keeps :
      (m : Option Node) (key : Bytes) (low : ℕ) (message : Bytes) (old : Config → ℕ)
      (put : ℕ → Config → Config)
      → ((p : ℕ) (c : Config) → p < 65536 → FitsConfig c → FitsConfig (put p c))
      → Keeps FitsConfig (port_field get_node m key low message old put)
  unfolding port_field read_int
  port_field-Keeps m key low message old put h config error k =
      bind-Holds (IfSome IsSmall) FitsConfig (int_at key error (mapping_value get_node m key)) _
        (int_at-Holds key error (mapping_value get_node m key))
        λ found error' small.
          port_read-Holds low message put config error'
            (elim found [ none ↦ pos (old config) | some n ↦ n ]) λ p fits. h p config fits k

  pub server_fields-Keep : (m : Option Node) → AllKeep FitsConfig (server_fields get_node m)
  unfolding server_fields
  server_fields-Keep m = (
    bool_field-Keeps FitsConfig get_node m _ _ (λ v c k. ground arith),
    (
      string_field-Keeps FitsConfig get_node m _ _ _ _ (λ v c h k. ground arith),
      (port_field-Keeps m _ _ _ _ _ (λ p c h k. ground arith), tt),
    ),
  )

  recording_fields-Keep : (m : Option Node) → AllKeep FitsConfig (recording_fields get_node m)
  unfolding recording_fields
  recording_fields-Keep m =
      let kept : (key : Bytes) (put : ℤ → RecordingConfig → RecordingConfig)
          → ((v : ℤ) (r : RecordingConfig) → SameSizes r (put v r))
          → Keeps FitsConfig (int_field get_node m key (λ v. set_recording get_node (put v))) =
        λ key put same.
          int_field-Keeps FitsConfig get_node m key _
            (λ v c h k. ground (arith, same v c.mediamtx.recording)) in
      (
        bool_field-Keeps FitsConfig get_node m _ _ (λ v c k. ground arith),
        (
          string_field-Keeps FitsConfig get_node m _ _ _ _ (λ v c h k. ground arith),
          (
            string_field-Keeps FitsConfig get_node m _ _ _ _ (λ v c h k. ground arith),
            (
              kept _ (λ v r. record r { part_duration_sec = v }) (λ v r. ground arith),
              (
                kept _ (λ v r. record r { max_part_size_mb = v }) (λ v r. ground arith),
                (
                  kept _ (λ v r. record r { segment_duration_sec = v }) (λ v r. ground arith),
                  (
                    kept _ (λ v r. record r { delete_after_sec = v }) (λ v r. ground arith),
                    (
                      kept _ (λ v r. record r { min_free_mb = v }) (λ v r. ground arith),
                      (
                        string_field-Keeps FitsConfig get_node m _ _ _ _ (λ v c h k. ground arith),
                        (port_field-Keeps m _ _ _ _ _ (λ p c h k. ground arith), tt),
                      ),
                    ),
                  ),
                ),
              ),
            ),
          ),
        ),
      )

  pub default_fields-Keep : (m : Option Node) → AllKeep FitsConfig (default_fields get_node m)
  unfolding default_fields default_field
  default_fields-Keep m =
      let kept : (key : Bytes) (put : ℤ → RetryPolicy → RetryPolicy)
          → Keeps FitsConfig (default_field get_node m key put) =
        λ key put. int_field-Keeps FitsConfig get_node m key _ (λ v c h k. ground arith) in
      (kept _ _, (kept _ _, (kept _ _, (kept _ _, (kept _ _, (kept _ _, tt))))))

  parse_recording-Keeps : (node : Option Node) → Keeps FitsConfig (parse_recording get_node node)
  unfolding parse_recording
  parse_recording-Keeps none config error h = h
  parse_recording-Keeps (some node) config error h =
      elim (Bool-cases (is_mapping get_node (some node))) [
        | inr bad ↦ rw bad tt
        | inl good ↦ rw good (
            read_fields-Keeps FitsConfig (recording_fields get_node (some node))
              (recording_fields-Keep (some node)) config error h)
      ]

  pub mediamtx_fields-Keep : (m : Option Node) → AllKeep FitsConfig (mediamtx_fields get_node m)
  unfolding mediamtx_fields
  mediamtx_fields-Keep m = (
    string_field-Keeps FitsConfig get_node m _ _ _ _ (λ v c h k. ground arith),
    (parse_recording-Keeps (mapping_value get_node m (text "recording")), tt),
  )

  pub if_there-Keeps :
      (m : Option Node) (fields : List (Field Config))
      → AllKeep FitsConfig fields
      → Keeps FitsConfig (if_there get_node m fields)
  if_there-Keeps none fields all config error h = h
  if_there-Keeps (some node) fields all config error h =
      read_fields-Keeps FitsConfig fields all config error h
