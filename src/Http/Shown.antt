-- ===== src/Http/Shown.antt =====
-- The documents that the routes of rk3588-media-gateway/src/api/http_server.c show, and the refusals that they
-- share.
use learn_apue.Base.{
  ℕ, ◌+◌, Bool, true, false, not, ◌&&◌, List, [], ◌∷◌, ◌++◌, Option, none, some, ◌==◌, length,
  if◌then◌else◌,
}
use learn_apue.Base.Decimal.{decimal}
use learn_apue.Base.Text.{Bytes, text}
use learn_apue.Channel.{State}
use learn_apue.Config.{RecordingConfig, max_channels}
use learn_apue.Http.Page.{PageSystem}
use learn_apue.Http.Render.{Piece, raw, quote, write_pieces, snapshot_pieces}
use learn_apue.Http.Sending.{Sent}
use learn_apue.Http.{
  empty_writer, HttpResponse, no_response, Rendered, finish_response, error_response,
}
use learn_apue.Manager.Query.{Found, get_snapshot, list_snapshots}
use learn_apue.Manager.{Manager, Threads}
use learn_apue.Recording
use learn_apue.Recording.{
  Filesystem, RecordingSnapshot, recording_snapshot_read, recording_state_string,
}
use learn_apue.Snapshot.{Snapshot}
use learn_apue.Status.{Status, ok, GwError}

-- What stands outside: the printing of doubles, the filesystem, the page's file, the threads, and
-- what `send` answers on the connection.
pub record System : Type 0 where
  pub fixed3 : ℕ → Bytes
  pub isfinite : ℕ → Bool
  pub statvfs : Option Filesystem
  pub page : PageSystem
  pub threads : Threads
  pub sends : List Sent

-- `response->status_code = 200` of a response that is zero.
abbrev pub fine : HttpResponse
fine = record no_response { status_code = 200 }

abbrev pub returned : Status → Option GwError → Rendered
returned status error = record { response = fine; status = status; error = error }

abbrev pub rendered_json : List Piece → Option GwError → Rendered
rendered_json pieces error = finish_response fine (write_pieces empty_writer pieces) error

unfoldable pub method_not_allowed : Bool → Bool → Option GwError → Rendered
method_not_allowed allow_get allow_post error =
    error_response (record fine { allow_get = allow_get; allow_post = allow_post }) 405
      (text "method_not_allowed") (text "method is not allowed for this route") error

abbrev pub channel_not_found : Option GwError → Rendered
channel_not_found error =
    error_response fine 404 (text "not_found") (text "channel was not found") error

abbrev pub is_running : State → Bool
is_running State.running = true
is_running _ = false

abbrev pub is_failed : State → Bool
is_failed State.failed = true
is_failed _ = false

-- The loop that counts the channels in a state.
unfoldable pub count_in : (State → Bool) → List Snapshot → ℕ
count_in test [] = 0
count_in test (s ∷ more) = (if test s.state then 1 else 0) + count_in test more

abbrev pub is_short : Recording.State → Bool
is_short Recording.State.low_space = true
is_short Recording.State.unavailable = true
is_short _ = false

unfoldable pub health_pieces : List Snapshot → RecordingSnapshot → List Piece
health_pieces snapshots r =
    let failed = count_in is_failed snapshots in
    raw (
      text "{\"status\":\""
      ++ ((if failed == 0 && not (is_short r.state) then text "ok" else text "degraded")
          ++ (text "\",\"channel_count\":"
              ++ (decimal (length snapshots)
                  ++ (text ",\"running\":"
                      ++ (decimal (count_in is_running snapshots)
                          ++ (text ",\"failed\":"
                              ++ (decimal failed ++ text ",\"recording\":"))))))))
    ∷ quote (recording_state_string r.state)
    ∷ raw (text "}\n")
    ∷ []

abbrev pub boolean : Bool → Bytes
boolean b = if b then text "true" else text "false"

unfoldable pub recording_pieces : RecordingSnapshot → List Piece
recording_pieces r =
    raw (text "{\"enabled\":" ++ (boolean r.enabled ++ text ",\"status\":"))
    ∷ quote (recording_state_string r.state)
    ∷ raw (
        text ",\"filesystem_available\":"
        ++ (boolean r.filesystem_available
            ++ (text ",\"total_bytes\":"
                ++ (decimal r.total_bytes
                    ++ (text ",\"available_bytes\":"
                        ++ (decimal r.available_bytes
                            ++ (text ",\"min_free_bytes\":"
                                ++ (decimal r.min_free_bytes ++ text "}\n"))))))))
    ∷ []

-- A comma stands before every channel but the first.
unfoldable pub channel_pieces : System → Bool → List Snapshot → List Piece
channel_pieces system first [] = raw (text "]}\n") ∷ []
channel_pieces system first (s ∷ more) =
    (if first then [] else raw (text ",") ∷ [])
    ++ (snapshot_pieces system.fixed3 system.isfinite s ++ channel_pieces system false more)

abbrev pub with_recording : List Snapshot → Recording.Read → Rendered
with_recording snapshots r = elim r.status [
  | ok ↦ rendered_json (health_pieces snapshots r.snapshot) r.error
  | status ↦ returned status r.error
]

abbrev pub with_snapshots :
    Found (List Snapshot) → (List Snapshot → Option GwError → Rendered) → Rendered
with_snapshots found render = elim found.held [
  | none ↦ returned found.status found.error
  | some snapshots ↦ render snapshots found.error
]

unfoldable pub health : System → Manager → RecordingConfig → Option GwError → Rendered
health system m recording error =
    with_snapshots (list_snapshots m max_channels error)
      (λ snapshots e. with_recording snapshots (recording_snapshot_read system.statvfs recording e))

abbrev pub shown_recording : Recording.Read → Rendered
shown_recording r = elim r.status [
  | ok ↦ rendered_json (recording_pieces r.snapshot) r.error
  | status ↦ returned status r.error
]

unfoldable pub all_channels : System → Manager → Option GwError → Rendered
all_channels system m error = with_snapshots (list_snapshots m max_channels error) (λ snapshots e.
    rendered_json (raw (text "{\"channels\":[") ∷ channel_pieces system true snapshots) e)

unfoldable pub with_channel :
    Manager → Bytes → Option GwError → (Snapshot → Option GwError → Rendered) → Rendered
with_channel m id error render =
    let found = get_snapshot m id error in
    elim found.held [ none ↦ channel_not_found found.error | some s ↦ render s found.error ]

abbrev pub one_channel : System → Snapshot → Option GwError → Rendered
one_channel system s e =
    rendered_json (snapshot_pieces system.fixed3 system.isfinite s ++ raw (text "\n") ∷ []) e
