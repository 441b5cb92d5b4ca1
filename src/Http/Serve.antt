-- ===== src/Http/Serve.antt =====
-- The thread of the server of rk3588-media-gateway/src/api/http_server.c: it polls the listener and answers one
-- connection after another. Each turn says what the system answers and what the other threads do to the
-- manager before it.
pub mod Keeps
use learn_apue.Base.{Bool, List, [], ◌∷◌, Option, none, some, if◌then◌else◌}
use learn_apue.Base.Text.{Bytes}
use learn_apue.Config.{RecordingConfig}
use learn_apue.Http.Connection.{Received, Handled, handle_connection}
use learn_apue.Http.Shown.{System}
use learn_apue.Manager.{Manager}

-- The result of `poll`: nothing to accept, an error other than EINTR, or a connection, which `accept4` may
-- fail to return.
pub data Poll : Type 0 where
  quiet broken : Poll
  ready : Option (List Received) → Poll

pub record Turn : Type 0 where
  pub meanwhile : Manager → Manager
  pub stop_requested : Bool
  pub poll : Poll
  pub system : System

-- The manager, and what was sent on the connections, in their order.
pub record Served : Type 0 where
  pub manager : Manager
  pub sent : List Bytes

abbrev pub send_first : Bytes → Served → Served
send_first b s = record s { sent = b ∷ s.sent }

-- What is done with the result of `poll`; `next` is the rest of the loop.
abbrev pub poll_turn : System → Manager → RecordingConfig → (Manager → Served) → Poll → Served
poll_turn system m recording next broken = record { manager = m; sent = [] }
poll_turn system m recording next quiet = next m
poll_turn system m recording next (ready none) = next m
poll_turn system m recording next (ready (some answers)) =
    let h = handle_connection system m recording answers in send_first h.sent (next h.manager)

-- The loop, for as many turns as are given.
unfoldable pub run_server : Manager → RecordingConfig → List Turn → Served
run_server m recording [] = record { manager = m; sent = [] }
run_server m recording (t ∷ more) =
    let m' = t.meanwhile m in
    let polled =
      poll_turn t.system m' recording (λ after. run_server after recording more) t.poll in
    if t.stop_requested then record { manager = m'; sent = [] } else polled
