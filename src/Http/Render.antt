-- ===== src/Http/Render.antt =====
-- The JSON of a channel: `json_snapshot` and `gw_http_render_channel_metrics` of
-- rk3588-media-gateway/src/api/http_server.c. A call is a list of pieces, each of which is written by
-- `json_append` or by `json_string`. `%.3f` and `isfinite` of a double are parameters on its bits.
pub mod Whole
use learn_apue.Base.{ℕ, Bool, true, false, ◌&&◌, List, [], ◌∷◌, ◌++◌, Option, if◌then◌else◌}
use learn_apue.Base.Decimal.{decimal, decimal_ℤ}
use learn_apue.Base.Int.{ℤ, pos, ltb_ℤ}
use learn_apue.Base.Text.{Bytes, text}
use learn_apue.Channel.{state_string}
use learn_apue.Http.{
  JsonWriter, json_append, json_string, empty_writer, no_response, Rendered, finish_response,
}
use learn_apue.Progress.{WorkerProgress}
use learn_apue.Snapshot.{Snapshot, MetricsSnapshot, ProcessKind, is_worker}
use learn_apue.Status.{GwError}

pub data Piece : Type 0 where
  raw quote : Bytes → Piece

unfoldable pub write_piece : JsonWriter → Piece → JsonWriter
write_piece w (raw s) = json_append w s
write_piece w (quote s) = json_string w s

unfoldable pub write_pieces : JsonWriter → List Piece → JsonWriter
write_pieces w [] = w
write_pieces w (p ∷ ps) = write_pieces (write_piece w p) ps

abbrev pub process_kind_string : ProcessKind → Bytes
process_kind_string ProcessKind.none = text "NONE"
process_kind_string ProcessKind.worker = text "WORKER"

abbrev pub null : Piece
null = raw (text "null")

module _ (fixed3 : ℕ → Bytes) (isfinite : ℕ → Bool) where
  abbrev pub number : ℕ → Piece
  number value = if isfinite value then raw (fixed3 value) else null

  progress_pieces : WorkerProgress → List Piece
  progress_pieces p =
      raw (text "{\"frame\":" ++ (decimal p.frame ++ text ",\"fps\":"))
      ∷ number p.fps
      ∷ raw (text ",\"bitrate\":")
      ∷ quote p.bitrate
      ∷ raw (
          text ",\"out_time_us\":"
          ++ (decimal_ℤ p.out_time_us
              ++ (text ",\"drop_frames\":" ++ (decimal p.drop_frames ++ text ",\"speed\":"))))
      ∷ number p.speed
      ∷ raw (text ",\"status\":")
      ∷ quote p.status
      ∷ raw (text "}")
      ∷ []

  unfoldable pub snapshot_pieces : Snapshot → List Piece
  unfolding progress_pieces
  snapshot_pieces s =
      raw (text "{\"id\":")
      ∷ quote s.channel_id
      ∷ raw (text ",\"state\":")
      ∷ quote (state_string s.state)
      ∷ raw (text ",\"last_event\":")
      ∷ quote s.last_event
      ∷ raw (text ",\"process\":{\"kind\":")
      ∷ quote (process_kind_string s.process_kind)
      ∷ raw (
          text ",\"pid\":"
          ++ (decimal_ℤ s.process_pid
              ++ (text "},\"consecutive_failures\":"
                  ++ (decimal s.consecutive_failures
                      ++ (text ",\"total_restarts\":"
                          ++ (decimal s.total_restarts
                              ++ (text ",\"configuration_generation\":"
                                  ++ (decimal s.configuration_generation
                                      ++ (text ",\"backoff_sec\":"
                                          ++ (decimal_ℤ s.backoff_sec
                                              ++ text ",\"last_exit_code\":"))))))))))
      ∷ (if s.has_exit_code then raw (decimal_ℤ s.last_exit_code) else null)
      ∷ raw (text ",\"progress\":")
      ∷ ((if s.has_progress then progress_pieces s.progress else null ∷ []) ++ raw (text "}") ∷ [])

  unfoldable pub json_snapshot : JsonWriter → Snapshot → JsonWriter
  json_snapshot w s = write_pieces w (snapshot_pieces s)

  abbrev pub worker_active : Snapshot → Bool
  worker_active s = is_worker s.process_kind && ltb_ℤ (pos 0) s.process_pid

  abbrev pub available_text : Bool → Piece
  available_text b = quote (if b then text "available" else text "unavailable")

  abbrev pub shown_progress : WorkerProgress → List Piece
  shown_progress p =
      raw (text ",\"fps\":")
      ∷ number p.fps
      ∷ raw (text ",\"bitrate\":")
      ∷ quote p.bitrate
      ∷ raw (
          text ",\"frames\":"
          ++ (decimal p.frame ++ (text ",\"drop_frames\":" ++ decimal p.drop_frames)))
      ∷ []

  abbrev pub no_progress_piece : Piece
  no_progress_piece =
      raw (text ",\"fps\":null,\"bitrate\":null,\"frames\":null,\"drop_frames\":null")

  abbrev pub shown_cpu : MetricsSnapshot → Bool → Piece
  shown_cpu m shown =
      if shown && m.cpu_available && isfinite m.cpu_percent
      then raw (fixed3 m.cpu_percent)
      else null

  abbrev pub shown_rss : MetricsSnapshot → Bool → Piece
  shown_rss m shown =
      raw (if shown then text ",\"rss_kib\":" ++ decimal_ℤ m.rss_kib else text ",\"rss_kib\":null")

  unfoldable pub metrics_pieces : Snapshot → List Piece
  metrics_pieces s =
      let active = worker_active s in
      let progressing = active && s.has_progress in
      let measured = active && s.worker_metrics.available in
      raw (text "{\"id\":")
      ∷ quote s.channel_id
      ∷ raw (text ",\"state\":")
      ∷ quote (state_string s.state)
      ∷ raw (text ",\"ffmpeg_pid\":")
      ∷ (if active then raw (decimal_ℤ s.process_pid) else null)
      ∷ raw (
          text ",\"consecutive_failures\":"
          ++ (decimal s.consecutive_failures
              ++ (text ",\"total_restarts\":"
                  ++ (decimal s.total_restarts ++ text ",\"progress\":{\"status\":"))))
      ∷ available_text progressing
      ∷ ((if progressing then shown_progress s.progress else no_progress_piece ∷ [])
          ++ raw (text "},\"process_metrics\":{\"status\":")
            ∷ available_text measured
            ∷ raw (text ",\"cpu_percent\":")
            ∷ shown_cpu s.worker_metrics measured
            ∷ shown_rss s.worker_metrics measured
            ∷ raw (text "}}\n")
            ∷ [])

  -- The pointers are not null.
  unfoldable pub render_channel_metrics : Snapshot → Option GwError → Rendered
  render_channel_metrics s error =
      finish_response (record no_response { status_code = 200 })
        (write_pieces empty_writer (metrics_pieces s)) error
