-- ===== src/Config/Read/Fits.antt =====
-- What `gw_config_load_file` of rk3588-media-gateway/src/config/config.c hands out: a configuration that
-- is valid and whose texts, numbers and channels fit the structure.
use learn_apue.Base.{
  ℕ, ◌<◌, true, [], ◌∷◌, ◌++◌, Option, some, ◌≡◌, arith, length, inl, inr, Bool-cases, ◌&&◌,
}
use learn_apue.Base.Text.{Bytes, text}
use learn_apue.Config.{ChannelConfig, id_cap, url_cap, path_cap, name_cap}
use learn_apue.Config.Expand.Meaning.{expand_environment_total}
use learn_apue.Config.Expand.{Expansion, expanded, refused}
use learn_apue.Config.Read.Keeps.{
  Holds, Keeps, AllKeep, read_fields-Keeps, AllKeep-append, string_field-Keeps, int_field-Keeps,
  bool_field-Keeps,
}
use learn_apue.Config.Read.Document.{
  expand_url, put_expanded, stored, parse_sections, parse_channel,
}
use learn_apue.Config.Read.{
  Node, mapping_value, channel_fields, input_fields, codec_fields, video_fields, channel_init,
  small_int, is_mapping,
}
use learn_apue.Config.Redact.{copy_text}
use learn_apue.Status.{GwError}

-- The sizes of a channel's members.
pub record FitsChannel (c : ChannelConfig) : Type 0 where
  pub id_fits : length c.id < id_cap
  pub type_fits : length c.input.type < name_cap
  pub url_fits : length c.input.url < url_cap
  pub transport_fits : length c.input.transport < name_cap
  pub decoder_fits : length c.video.decoder < name_cap
  pub encoder_fits : length c.video.encoder < name_cap
  pub path_fits : length c.output.path < path_cap
  pub width_fits : small_int c.video.width ≡ true
  pub height_fits : small_int c.video.height ≡ true
  pub bitrate_fits : small_int c.video.bitrate_kbps ≡ true
  pub fps_fits : small_int c.video.fps ≡ true

channel_init-Fits : FitsChannel channel_init
unfolding channel_init text
channel_init-Fits = ground arith

module _ (get_node : ℕ → Option Node) where
  channel_fields-Keep : (node : Option Node) → AllKeep FitsChannel (channel_fields get_node node)
  unfolding channel_fields
  channel_fields-Keep node = (
    string_field-Keeps FitsChannel get_node node _ _ _ _ (λ v c h k. ground arith),
    (bool_field-Keeps FitsChannel get_node node _ _ (λ v c k. ground arith), tt),
  )

  input_fields-Keep : (input : Option Node) → AllKeep FitsChannel (input_fields get_node input)
  unfolding input_fields
  input_fields-Keep input = (
    string_field-Keeps FitsChannel get_node input _ _ _ _ (λ v c h k. ground arith),
    (
      string_field-Keeps FitsChannel get_node input _ _ _ _ (λ v c h k. ground arith),
      (string_field-Keeps FitsChannel get_node input _ _ _ _ (λ v c h k. ground arith), tt),
    ),
  )

  codec_fields-Keep :
      (video output : Option Node) → AllKeep FitsChannel (codec_fields get_node video output)
  unfolding codec_fields
  codec_fields-Keep video output = (
    string_field-Keeps FitsChannel get_node video _ _ _ _ (λ v c h k. ground arith),
    (
      string_field-Keeps FitsChannel get_node video _ _ _ _ (λ v c h k. ground arith),
      (string_field-Keeps FitsChannel get_node output _ _ _ _ (λ v c h k. ground arith), tt),
    ),
  )

  video_fields-Keep : (video : Option Node) → AllKeep FitsChannel (video_fields get_node video)
  unfolding video_fields
  video_fields-Keep video = (
    int_field-Keeps FitsChannel get_node video _ _ (λ v c h k. ground arith),
    (
      int_field-Keeps FitsChannel get_node video _ _ (λ v c h k. ground arith),
      (
        int_field-Keeps FitsChannel get_node video _ _ (λ v c h k. ground arith),
        (int_field-Keeps FitsChannel get_node video _ _ (λ v c h k. ground arith), tt),
      ),
    ),
  )

module _ (getenv : Bytes → Option Bytes) where
  stored-Holds :
      (c : ChannelConfig) (error : Option GwError) (url : Bytes)
      → FitsChannel c
      → Holds FitsChannel (stored c error (copy_text url_cap c.input.url url))
  unfolding copy_text
  stored-Holds c error url h = ground arith

  put_expanded-Holds :
      (c : ChannelConfig) (error : Option GwError) (e : Expansion)
      → FitsChannel c
      → Holds FitsChannel (put_expanded c error (some e))
  put_expanded-Holds c error (expanded url) h = stored-Holds c error url h
  put_expanded-Holds c error (refused status error') h = tt

  -- The expansion always ends.
  expand_url-Keeps : Keeps FitsChannel (expand_url getenv)
  unfolding expand_url
  expand_url-Keeps c error h =
      let (e, q) = expand_environment_total getenv c.input.url url_cap error in
      rw q (put_expanded-Holds c error e h)

module _ (getenv : Bytes → Option Bytes) (get_node : ℕ → Option Node) where
  parse_sections-Keeps :
      (index : ℕ) (input video output : Option Node)
      → Keeps FitsChannel (parse_sections getenv get_node index input video output)
  unfolding parse_sections
  parse_sections-Keeps index input video output c error h =
      elim (Bool-cases
        (is_mapping get_node input && is_mapping get_node video && is_mapping get_node output)) [
          | inr bad ↦ rw bad tt
          | inl good ↦ rw good (
              read_fields-Keeps FitsChannel _
                (AllKeep-append FitsChannel (input_fields get_node input)
                  (codec_fields get_node video output
                    ++ video_fields get_node video
                    ++ expand_url getenv ∷ [])
                  (input_fields-Keep get_node input)
                  (AllKeep-append FitsChannel (codec_fields get_node video output)
                    (video_fields get_node video ++ expand_url getenv ∷ [])
                    (codec_fields-Keep get_node video output)
                    (AllKeep-append FitsChannel (video_fields get_node video)
                      (expand_url getenv ∷ []) (video_fields-Keep get_node video)
                      (expand_url-Keeps getenv, tt))))
                c error h)
        ]

  pub parse_channel-Holds :
      (index : ℕ) (node : Option Node) (error : Option GwError)
      → Holds FitsChannel (parse_channel getenv get_node index node error)
  unfolding parse_channel
  parse_channel-Holds index node error = elim (Bool-cases (is_mapping get_node node)) [
    | inr bad ↦ rw bad tt
    | inl good ↦ rw good (
        read_fields-Keeps FitsChannel _
          (AllKeep-append FitsChannel (channel_fields get_node node)
            (parse_sections getenv get_node index (mapping_value get_node node (text "input"))
                (mapping_value get_node node (text "video"))
                (mapping_value get_node node (text "output"))
              ∷ [])
            (channel_fields-Keep get_node node) (parse_sections-Keeps index _ _ _, tt))
          channel_init error channel_init-Fits)
  ]
