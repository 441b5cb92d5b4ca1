-- ===== src/Config/Mediamtx.antt =====
-- The MediaMTX configuration that the gateway writes:
-- rk3588-media-gateway/src/config/mediamtx_config.c. What `vsnprintf` leaves in the buffer when it
-- fails is not kept, since the output is then emptied at the end.
pub mod Fits
use learn_apue.Base.{
  ℕ, zero, suc, ◌+◌, ◌-◌, Bool, true, false, ◌&&◌, List, [], ◌∷◌, ◌++◌, Option, none, some, ◌==◌,
  leb, if◌then◌else◌, length,
}
use learn_apue.Base.Decimal.{decimal, decimal_ℤ}
use learn_apue.Base.Text.{Bytes, text}
use learn_apue.Config.{RecordingConfig, ChannelConfig, Config}
use learn_apue.Config.Validate.{validate}
use learn_apue.Status.{Status, ok, argument, overflow, GwError, error_set, error_clear}

-- `config_writer`; `length` is that of the text written.
pub record Writer : Type 0 where
  pub written : Bytes
  pub capacity : ℕ
  pub failed : Bool

unfoldable pub append : Writer → Bytes → Writer
append w formatted =
    if w.failed
    then w
    else if leb (w.capacity - length w.written) (length formatted)
    then record w { failed = true }
    else record w { written = w.written ++ formatted }

abbrev pub bool_text : Bool → Bytes
bool_text true = text "true"
bool_text false = text "false"

-- the first format, with its arguments
unfoldable pub preamble : RecordingConfig → Bytes
preamble r =
    text "# Generated by gatewayd; reload MediaMTX after replacing its config.\nrtsp: true\n"
    ++ (text "rtspTransports: [tcp]\nrtspAddress: '127.0.0.1:8554'\nrtmp: false\nhls: false\n"
        ++ (text "webrtc: true\nwebrtcAddress: ':8889'\nwebrtcLocalUDPAddress: ':8189'\n"
            ++ (text "webrtcIPsFromInterfaces: true\nsrt: false\nmoq: false\nplayback: "
                ++ (bool_text r.enabled
                    ++ (text "\nplaybackAddress: '"
                        ++ (r.playback_listen
                            ++ (text ":"
                                ++ (decimal r.playback_port
                                    ++ text
                                        "'\npathDefaults:\n  source: publisher\n  record: false\npaths:\n"))))))))

-- the second format, with its arguments
unfoldable pub path_entry : RecordingConfig → ChannelConfig → Bytes
path_entry r channel =
    text "  "
    ++ (channel.output.path
        ++ (text ":\n    record: "
            ++ (bool_text (r.enabled && channel.enabled)
                ++ (text "\n    recordPath: '"
                    ++ (r.directory
                        ++ (text "/%path/%Y-%m-%d_%H-%M-%S-%f'\n    recordFormat: "
                            ++ (r.format
                                ++ (text "\n    recordPartDuration: "
                                    ++ (decimal_ℤ r.part_duration_sec
                                        ++ (text "s\n    recordMaxPartSize: "
                                            ++ (decimal_ℤ r.max_part_size_mb
                                                ++ (text "M\n    recordSegmentDuration: "
                                                    ++ (decimal_ℤ r.segment_duration_sec
                                                        ++ (text "s\n    recordDeleteAfter: "
                                                            ++ (decimal_ℤ r.delete_after_sec
                                                            ++ text "s\n")))))))))))))))

-- The loop over the channels.
unfoldable pub append_paths : RecordingConfig → List ChannelConfig → Writer → Writer
append_paths r [] w = w
append_paths r (channel ∷ channels) w = append_paths r channels (append w (path_entry r channel))

-- what the end makes of the writer
abbrev pub finished : Writer → Option GwError → Status × Bytes × Option GwError
finished w error =
    if w.failed
    then (
      overflow,
      [],
      error_set error overflow (text "MediaMTX configuration exceeds output capacity"),
    )
    else (ok, w.written, error_clear error)

module _ (is_ipv4 is_ipv6 : Bytes → Bool) where
  abbrev pub if_valid :
      Status × Option GwError
      → (Option GwError → Status × Bytes × Option GwError)
      → Status × Bytes × Option GwError
  if_valid (ok, error) next = next error
  if_valid (status, error) next = (status, [], error)

  -- `output` is what the buffer holds before the call; the pointers are not null.
  unfoldable pub render_config :
      Config → Bytes → ℕ → Option GwError → Status × Bytes × Option GwError
  render_config c output capacity error =
      let r = c.mediamtx.recording in
      let fresh : Writer = record { written = []; capacity = capacity; failed = false } in
      if capacity == 0
      then (
        argument,
        output,
        error_set error argument (text "configuration and output buffer are required"),
      )
      else if_valid (validate is_ipv4 is_ipv6 c error)
          (λ error'. finished (append_paths r c.channels (append fresh (preamble r))) error')
