-- ===== src/Http/Route.antt =====
-- The routes of rk3588-media-gateway/src/api/http_server.c: `gw_http_route`, with its manager, the recording
-- directory and the page as they answer at the time of the request. The pointers are not null.
pub mod Answers
pub mod Commands
pub mod Safe
pub mod Targets
use learn_apue.Base.{
  ℕ, suc, ◌+◌, Bool, true, false, not, ◌&&◌, ◌||◌, List, [], ◌∷◌, ◌++◌, Option, none, some, ◌==◌,
  leb, length, drop, if◌then◌else◌,
}
use learn_apue.Base.Decimal.{decimal}
use learn_apue.Base.Text.{Bytes, text, str_eq, starts_with, break_at}
use learn_apue.Channel.{State}
use learn_apue.Config.{RecordingConfig, id_cap, max_channels}
use learn_apue.Http.Page.{PageSystem, render_view_page}
use learn_apue.Http.Render.{
  Piece, raw, quote, write_pieces, snapshot_pieces, render_channel_metrics,
}
use learn_apue.Http.{
  JsonWriter, empty_writer, HttpResponse, no_response, Rendered, finish_response, error_response,
  has_slash, parse_action_target, parse_channel_leaf,
}
use learn_apue.Http.Shown.{
  System, fine, returned, rendered_json, method_not_allowed, channel_not_found, health,
  shown_recording, all_channels, with_channel, one_channel,
}
use learn_apue.Manager.Control.{start_channel, stop_channel, restart_channel}
use learn_apue.Manager.Lifecycle.{Outcome}
use learn_apue.Manager.Query.{Found, get_snapshot, list_snapshots}
use learn_apue.Manager.{Manager, Threads}
use learn_apue.Recording
use learn_apue.Recording.{
  Filesystem, RecordingSnapshot, recording_snapshot_read, recording_state_string,
}
use learn_apue.Snapshot.{Snapshot}
use learn_apue.Status.{Status, ok, not_found, conflict, GwError}

pub record Routed : Type 0 where
  pub manager : Manager
  pub rendered : Rendered

-- The command of an action: `restart` is what is left.
abbrev pub act : Threads → Manager → Bytes → Bytes → Option GwError → Outcome
act threads m id action error =
    if str_eq action (text "start")
    then start_channel threads m id error
    else if str_eq action (text "stop")
    then stop_channel threads m id error
    else restart_channel threads m id error

abbrev pub accepted_pieces : Bytes → Bytes → List Piece
accepted_pieces id action =
    raw (text "{\"status\":\"accepted\",\"channel_id\":")
    ∷ quote id
    ∷ raw (text ",\"action\":")
    ∷ quote action
    ∷ raw (text "}\n")
    ∷ []

abbrev pub after_command : Bytes → Bytes → Status → Option GwError → Rendered
after_command id action ok error =
    finish_response (record fine { status_code = 202 })
      (write_pieces empty_writer (accepted_pieces id action)) error
after_command id action not_found error = channel_not_found error
after_command id action conflict error =
    error_response fine 409 (text "state_conflict")
      (text "channel command conflicts with current state") error
after_command id action status error = returned status error

abbrev pub acted : Bytes → Bytes → Outcome → Routed
acted id action o = record {
  manager = o.manager;
  rendered = after_command id action o.status o.error;
}

-- A prefix with one segment behind it that is not empty.
abbrev pub single_segment : Bytes → Bytes → Option Bytes
single_segment prefix target =
    if starts_with prefix target
    then elim (drop (length prefix) target) [
      | [] ↦ none
      | c ∷ cs ↦ if has_slash (c ∷ cs) then none else some (c ∷ cs)
    ]
    else none

abbrev pub unchanged : Manager → Rendered → Routed
unchanged m rendered = record { manager = m; rendered = rendered }

abbrev pub for_get : Bytes → Option GwError → Rendered → Rendered
for_get method error rendered =
    if str_eq method (text "GET") then rendered else method_not_allowed true false error

-- The routes that command a channel, and what no route serves.
unfoldable pub route_action : System → Manager → Bytes → Bytes → Option GwError → Routed
route_action system m method target error = elim (parse_action_target id_cap target) [
  | none ↦
      unchanged m (error_response fine 404 (text "not_found") (text "route was not found") error)
  | some (id, action) ↦
      if str_eq method (text "POST")
      then acted id action (act system.threads m id action error)
      else unchanged m (method_not_allowed false true error)
]

-- The routes that show one channel: `/view/ID`, `/v1/channels/ID/metrics` and `/v1/channels/ID`.
abbrev pub route_channel : System → Manager → Bytes → Option GwError → Option Rendered
route_channel system m target error = elim (single_segment (text "/view/") target) [
  | some id ↦ some (with_channel m id error (λ s e. render_view_page system.page e))
  | none ↦ elim (parse_channel_leaf id_cap target (text "metrics")) [
    | some id ↦
        some (with_channel m id error (render_channel_metrics system.fixed3 system.isfinite))
    | none ↦ elim (single_segment (text "/v1/channels/") target) [
      | some id ↦ some (with_channel m id error (one_channel system))
      | none ↦ none
    ]
  ]
]

-- All the routes that only show something.
unfoldable pub route_shown :
    System → Manager → RecordingConfig → Bytes → Option GwError → Option Rendered
route_shown system m recording target error =
    if str_eq target (text "/v1/health")
    then some (health system m recording error)
    else if str_eq target (text "/v1/recording")
    then some (shown_recording (recording_snapshot_read system.statvfs recording error))
    else if str_eq target (text "/v1/channels")
    then some (all_channels system m error)
    else route_channel system m target error

unfoldable pub route_path :
    System → Manager → RecordingConfig → Bytes → Bytes → Option GwError → Routed
route_path system m recording method target error =
    elim (route_shown system m recording target error) [
      | some rendered ↦ unchanged m (for_get method error rendered)
      | none ↦ route_action system m method target error
    ]

-- HTTP_TARGET_CAP
abbrev pub target_cap : ℕ
target_cap = 2048

abbrev pub is_question : ℕ → Bool
is_question c = c == b'?'

-- The path before a query, where the target has a path that fits.
abbrev pub path_of : Bytes × Bytes → Option Bytes
path_of (path, []) = some path
path_of (path, query) = if length path == 0 || leb target_cap (length path) then none else some path

unfoldable pub http_route :
    System → Manager → RecordingConfig → Bytes → Bytes → Option GwError → Routed
http_route system m recording method target error = elim (path_of (break_at is_question target)) [
  | none ↦
      unchanged m
        (error_response fine 400 (text "bad_request") (text "request target is invalid") error)
  | some path ↦ route_path system m recording method path error
]
