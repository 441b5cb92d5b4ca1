-- ===== src/Http/Serve/Keeps.antt =====
-- The requests that the server of rk3588-media-gateway/src/api/http_server.c answers keep the registry of
-- channel threads well formed.
use learn_apue.Base.{
  Bool, true, false, List, [], ◌∷◌, Option, none, some, Bool-cases, Option-cases, inl, inr,
  if◌then◌else◌,
}
use learn_apue.Base.Text.{Bytes, text, str_eq, break_at, strstr, c_string}
use learn_apue.Config.{RecordingConfig, id_cap}
use learn_apue.Http.Connection.{
  Received, Handled, Gathered, gathered, incomplete, handle_connection, handle_gathered,
  handle_line, handle_text, gather, parse_request_line,
}
use learn_apue.Http.Response.{line_end}
use learn_apue.Http.Route.{
  http_route, route_path, route_action, route_shown, path_of, is_question, act,
}
use learn_apue.Http.Shown.{System}
use learn_apue.Http.{parse_action_target}
use learn_apue.Http.Serve.{Turn, Poll, quiet, broken, ready, Served, poll_turn, run_server}
use learn_apue.Manager.Invariant.Commands.{
  start_channel-IsManager, stop_channel-IsManager, restart_channel-IsManager,
}
use learn_apue.Manager.Invariant.{IsManager}
use learn_apue.Manager.{Manager, Threads}
use learn_apue.Status.{GwError}

act-IsManager :
    (threads : Threads) (m : Manager) (id action : Bytes) (error : Option GwError)
    → IsManager m
    → IsManager (act threads m id action error).manager
act-IsManager threads m id action error inv = elim (Bool-cases (str_eq action (text "start"))) [
  | inl on ↦ rw on (start_channel-IsManager threads m id error inv)
  | inr off ↦ elim (Bool-cases (str_eq action (text "stop"))) [
    | inl on ↦ rw (off, on) (stop_channel-IsManager threads m id error inv)
    | inr off' ↦ rw (off, off') (restart_channel-IsManager threads m id error inv)
  ]
]

route_action-IsManager :
    (system : System) (m : Manager) (method target : Bytes) (error : Option GwError)
    → IsManager m
    → IsManager (route_action system m method target error).manager
unfolding route_action
route_action-IsManager system m method target error inv =
    elim (Option-cases (parse_action_target id_cap target)) [
      | inl nothing ↦ rw (route_action, nothing) inv
      | inr ((id, action), e) ↦ elim (Bool-cases (str_eq method (text "POST"))) [
        | inl posts ↦
            rw (route_action, e, posts) (act-IsManager system.threads m id action error inv)
        | inr other ↦ rw (route_action, e, other) inv
      ]
    ]

http_route-IsManager :
    (system : System) (m : Manager) (recording : RecordingConfig) (method target : Bytes)
    (error : Option GwError)
    → IsManager m
    → IsManager (http_route system m recording method target error).manager
unfolding http_route route_path
http_route-IsManager system m recording method target error inv =
    elim (Option-cases (path_of (break_at is_question target))) [
      | inl bad ↦ rw (http_route, bad) inv
      | inr (path, e) ↦ elim (Option-cases (route_shown system m recording path error)) [
        | inr (r, shown) ↦ rw (http_route, e, route_path, shown) inv
        | inl hidden ↦
            rw (http_route, e, route_path, hidden)
              (route_action-IsManager system m method path error inv)
      ]
    ]

handle_line-IsManager :
    (system : System) (m : Manager) (recording : RecordingConfig) (line : Bytes)
    → IsManager m
    → IsManager (handle_line system m recording line).manager
unfolding handle_line
handle_line-IsManager system m recording line inv = elim (Option-cases (parse_request_line line)) [
  | inl bad ↦ rw (handle_line, bad) inv
  | inr (r, e) ↦
      rw (handle_line, e) (http_route-IsManager system m recording r.method r.target _ inv)
]

handle_text-IsManager :
    (system : System) (m : Manager) (recording : RecordingConfig) (request : Bytes)
    → IsManager m
    → IsManager (handle_text system m recording request).manager
handle_text-IsManager system m recording request inv =
    elim (Option-cases (strstr line_end (c_string request))) [
      | inl bad ↦ rw (handle_text, bad) inv
      | inr ((line, rest), e) ↦
          rw (handle_text, e) (handle_line-IsManager system m recording line inv)
    ]

either-IsManager :
    (b : Bool) (x y : Handled)
    → IsManager x.manager
    → IsManager y.manager
    → IsManager (if b then x else y).manager
either-IsManager true x y p q = p
either-IsManager false x y p q = q

handle_gathered-IsManager :
    (system : System) (m : Manager) (recording : RecordingConfig) (g : Gathered)
    → IsManager m
    → IsManager (handle_gathered system m recording g).manager
unfolding handle_gathered
handle_gathered-IsManager system m recording incomplete inv = inv
handle_gathered-IsManager system m recording (gathered request) inv =
    either-IsManager _ _ _ inv (handle_text-IsManager system m recording request inv)

handle_connection-IsManager :
    (system : System) (m : Manager) (recording : RecordingConfig) (answers : List Received)
    → IsManager m
    → IsManager (handle_connection system m recording answers).manager
unfolding handle_connection
handle_connection-IsManager system m recording answers inv =
    handle_gathered-IsManager system m recording (gather [] answers) inv

poll_turn-IsManager :
    (system : System) (m : Manager) (recording : RecordingConfig) (next : Manager → Served)
    (p : Poll)
    → ((after : Manager) → IsManager after → IsManager (next after).manager)
    → IsManager m
    → IsManager (poll_turn system m recording next p).manager
poll_turn-IsManager system m recording next broken later inv = inv
poll_turn-IsManager system m recording next quiet later inv = later m inv
poll_turn-IsManager system m recording next (ready none) later inv = later m inv
poll_turn-IsManager system m recording next (ready (some answers)) later inv =
    later (handle_connection system m recording answers).manager
      (handle_connection-IsManager system m recording answers inv)

-- What the other threads do between the connections keeps the manager well formed.
abbrev pub AreOrderly : List Turn → Type 0
AreOrderly [] = Unit
AreOrderly (t ∷ more) = ((m : Manager) → IsManager m → IsManager (t.meanwhile m)) × AreOrderly more

-- Whatever connections the server accepts, whatever bytes arrive on them and whatever the system answers, the
-- manager stays well formed through all the requests, as long as what the other threads do between the
-- connections keeps it so: identifiers are distinct, the threads are counted, and no thread runs before the
-- start.
pub run_server-IsManager :
    (m : Manager) (recording : RecordingConfig) (turns : List Turn)
    → AreOrderly turns
    → IsManager m
    → IsManager (run_server m recording turns).manager
unfolding run_server
run_server-IsManager m recording [] orderly inv = inv
run_server-IsManager m recording (t ∷ more) orderly inv =
    let m' = t.meanwhile m in
    let inv' : IsManager m' = orderly.0 m inv in
    elim (Bool-cases t.stop_requested) [
      | inl stopped ↦ rw stopped inv'
      | inr going ↦ rw going (
          poll_turn-IsManager t.system m' recording (λ after. run_server after recording more)
            t.poll (λ after held. run_server-IsManager after recording more orderly.1 held) inv')
    ]
