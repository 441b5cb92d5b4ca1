-- ===== src/Tests/Server.antt =====
-- Requests to a server with one channel: http_server.c.
use learn_apue.Base.{
  ℕ, Bool, ap, ◌==◌, if◌then◌else◌, true, false, List, [], ◌∷◌, ◌++◌, none, some, ◌≡◌, refl, arith,
}
use learn_apue.Base.Text.{Bytes, text, str_eq, starts_with, strstr, break_at, c_string, NoneOf}
use learn_apue.Http.Connection.Chunks.{handle_connection_chunks}
use learn_apue.Http.Connection.{
  Received, bytes, interrupted, has_end, handle_connection, handle_line, parse_request_line,
  scan_word,
}
use learn_apue.Http.Response.{line_end}
use learn_apue.Http.Route.Commands.{IsCommanded, http_route-commands}
use learn_apue.Http.Route.Safe.{Commands, http_route_safe}
use learn_apue.Http.Route.Targets.{stop, action_target}
use learn_apue.Http.Route.{http_route, route_path, route_shown, route_action}
use learn_apue.Http.Shown.{System}
use learn_apue.Http.{parse_channel_leaf, split_target, parse_action_target}
use learn_apue.Manager.Control.{start_channel, command, start_found, conclude_start}
use learn_apue.Manager.{
  Manager, find_entry, find_from, start_entry, join_entry, find_free_entry, configure_entry,
}
use learn_apue.Manager.Creating.{configure_all}
use learn_apue.Snapshot.{snapshot_init}
use learn_apue.Http.Sending.{Sent, took}
use learn_apue.Http.Serve.Keeps.{run_server-IsManager}
use learn_apue.Http.Serve.{Turn, quiet, ready, run_server}
use learn_apue.Http.Server.Sockets.{
  Call, starts, stops, IsServer, after_calls, after_calls-server_stop,
}
use learn_apue.Http.Server.{HttpServer, Network, inet, server_create, server_stop, is_listening}
use learn_apue.Manager.Control.{restart_channel}
use learn_apue.Manager.Invariant.Commands.{restart_channel-IsManager}
use learn_apue.Manager.Invariant.{IsManager}
use learn_apue.Tests.Config.{gateway, camera}
use learn_apue.Tests.Manager.{willing, running, running-IsManager}

abbrev system : System
system = record {
  fixed3 = λ bits. [];
  isfinite = λ bits. true;
  statvfs = none;
  page = record { readlink = none; open_file = λ path. none };
  threads = willing;
  sends = took 100 ∷ Sent.interrupted ∷ took 4096 ∷ [];
}

http_route-commands_example :
    IsCommanded willing running (b'c' ∷ b'1' ∷ []) stop (text "POST") none (
      http_route system running running.config.mediamtx.recording
        (text "POST")
        (action_target (b'c' ∷ b'1' ∷ []) stop ++ (b'?' ∷ b'x' ∷ []))
        none)
http_route-commands_example =
    http_route-commands system running running.config.mediamtx.recording (text "POST") b'c'
      (b'1' ∷ []) stop (b'?' ∷ b'x' ∷ []) none (refl, (refl, tt)) (omega arith) refl

none_of : (ℕ → Bool) → Bytes → Bool
none_of test [] = true
none_of test (c ∷ cs) = if test c then false else none_of test cs

none_of-NoneOf : (test : ℕ → Bool) (s : Bytes) → none_of test s ≡ true → NoneOf test s
unfolding none_of
none_of-NoneOf test [] h = tt
none_of-NoneOf test (c ∷ s) h = (ground arith, none_of-NoneOf test s (ground arith))

abbrev get_line : Bytes
get_line = text "GET /v1/health HTTP/1.1"

abbrev host : Bytes
host = b'H' ∷ b':' ∷ 13 ∷ 10 ∷ 13 ∷ 10 ∷ []

request_line_runs :
    (parse_request_line get_line
      ≡ some (record { method = text "GET"; target = text "/v1/health" }))
    × (parse_request_line (text "GET /v1/health HTTP/2") ≡ none)
    × (parse_request_line (text "GET /v1/health HTTP/1.1 x") ≡ none)
unfolding parse_request_line scan_word text break_at str_eq
request_line_runs = (refl, refl, refl)

abbrev start_line : Bytes
start_line = text "/v1/channels/c1/start"

started_one :
    (http_route system running running.config.mediamtx.recording
      (text "POST")
      start_line
      none).manager.active_threads
    ≡ 1
unfolding http_route break_at text route_path route_shown str_eq starts_with parse_channel_leaf
    split_target route_action parse_action_target start_channel command find_entry find_from
    start_found conclude_start start_entry join_entry configure_all find_free_entry configure_entry
    snapshot_init
started_one = refl

http_route_safe_example :
    Commands system running
      (http_route system running running.config.mediamtx.recording
        (text "POST")
        start_line
        none).manager
      (text "POST")
      start_line
      none
http_route_safe_example =
    http_route_safe system running running.config.mediamtx.recording (text "POST") start_line none
      (λ same. absurd (omega (arith, started_one, ap (λ (m : Manager). m.active_threads) same)))

host_ends : has_end (get_line ++ (line_end ++ host)) ≡ true
unfolding text strstr starts_with c_string
host_ends = refl

get_line_plain : NoneOf (λ c. c == 13) get_line
unfolding text none_of
get_line_plain = none_of-NoneOf (λ c. c == 13) get_line refl

request_clean : NoneOf (λ c. c == 0) (get_line ++ (line_end ++ host))
unfolding text none_of
request_clean = none_of-NoneOf (λ c. c == 0) (get_line ++ (line_end ++ host)) refl

-- The request in three parts, with a signal between them.
abbrev parts : List Received
parts =
    bytes get_line
    ∷ bytes (13 ∷ [])
    ∷ interrupted
    ∷ bytes (10 ∷ b'H' ∷ b':' ∷ 13 ∷ 10 ∷ 13 ∷ 10 ∷ [])
    ∷ []

handle_connection_chunks_example :
    handle_connection system running running.config.mediamtx.recording parts
    ≡ handle_line system running running.config.mediamtx.recording get_line
unfolding text
handle_connection_chunks_example =
    handle_connection_chunks system running running.config.mediamtx.recording parts get_line host
      refl (cc, (cc, (cc, tt))) get_line_plain request_clean host_ends (omega arith)

abbrev network : Network
network = record {
  addresses = some (
      record { socket = none; bind = false; listen = false }
      ∷ record { socket = some 4; bind = false; listen = true }
      ∷ record { socket = some 4; bind = true; listen = true }
      ∷ []);
  gai_strerror = [];
  strerror = [];
  name = inet 8080;
  thread_create = 0;
  thread_strerror = λ n. [];
}

abbrev calls : List Call
calls =
    starts network none
    ∷ stops
    ∷ starts (record network { thread_create = 11 }) none
    ∷ starts network none
    ∷ []

abbrev server : HttpServer
server = record {
  config = gateway.server;
  recording = gateway.mediamtx.recording;
  listen_fd = none;
  bound_port = 0;
  thread_started = false;
  stop_requested = false;
}

after_calls-server_stop_example :
    (let (s', opened) = after_calls server 3 calls in
      IsServer 3 s' opened
      × (let (s'', left) = server_stop s' opened in
          (left ≡ 3) × (s''.thread_started ≡ false) × (is_listening s'' ≡ false)))
unfolding server_create
after_calls-server_stop_example =
    after_calls-server_stop gateway.server gateway.mediamtx.recording none 3 server calls refl

abbrev turns : List Turn
turns =
    record {
      meanwhile = λ m. m;
      stop_requested = false;
      poll = ready (some parts);
      system = system;
    }
    ∷ record {
      meanwhile = λ m. (restart_channel willing m camera.id none).manager;
      stop_requested = false;
      poll = quiet;
      system = system;
    }
    ∷ []

run_server-IsManager_example :
    IsManager (run_server running running.config.mediamtx.recording turns).manager
run_server-IsManager_example =
    run_server-IsManager running running.config.mediamtx.recording turns
      ((λ m inv. inv), ((λ m inv. restart_channel-IsManager willing m camera.id none inv), tt))
      running-IsManager
