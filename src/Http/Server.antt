-- ===== src/Http/Server.antt =====
-- The listener and the thread of the server of rk3588-media-gateway/src/api/http_server.c: create, start, stop
-- and destroy. What the system answers is a parameter of `start`; a count of the open listening sockets
-- stands for the table of descriptors.
pub mod Sockets
use learn_apue.Base.{
  ℕ, ◌+◌, ◌-◌, Bool, true, false, not, ◌||◌, ◌&&◌, List, [], ◌∷◌, ◌++◌, Option, none, some, ◌==◌,
  if◌then◌else◌,
}
use learn_apue.Base.Decimal.{decimal}
use learn_apue.Base.Text.{Bytes, text}
use learn_apue.Config.{ServerConfig, RecordingConfig}
use learn_apue.Status.{Status, ok, io, validation, no_memory, GwError, error_set, error_clear}

-- `struct gw_http_server` without its manager and the handle of its thread. `listen_fd` is `none` for -1.
pub record HttpServer : Type 0 where
  pub config : ServerConfig
  pub recording : RecordingConfig
  pub listen_fd : Option ℕ
  pub bound_port : ℕ
  pub thread_started : Bool
  pub stop_requested : Bool

-- What `socket`, `bind` and `listen` answer for one address.
pub record Address : Type 0 where
  pub socket : Option ℕ
  pub bind : Bool
  pub listen : Bool

-- The family that `getsockname` answers, with the port.
pub data SocketName : Type 0 where
  inet inet6 : ℕ → SocketName
  other_family no_name : SocketName

pub record Network : Type 0 where
  pub addresses : Option (List Address)  -- `none` if `getaddrinfo` fails
  pub gai_strerror : Bytes
  pub strerror : Bytes
  pub name : SocketName
  pub thread_create : ℕ
  pub thread_strerror : ℕ → Bytes

-- The server, the status, the error, and the listening sockets that are open.
pub record Started : Type 0 where
  pub server : HttpServer
  pub status : Status
  pub error : Option GwError
  pub open_sockets : ℕ

-- What a creation answers; `calloc` gave memory if `allocated` says so, and the pointers are not null.
pub record Created : Type 0 where
  pub server : Option HttpServer
  pub status : Status
  pub error : Option GwError

unfoldable pub server_create : Bool → ServerConfig → RecordingConfig → Option GwError → Created
server_create allocated config recording error =
    if allocated
    then record {
      server = some (record {
        config = config;
        recording = recording;
        listen_fd = none;
        bound_port = 0;
        thread_started = false;
        stop_requested = false;
      });
      status = ok;
      error = error_clear error;
    }
    else record {
      server = none;
      status = no_memory;
      error = error_set error no_memory (text "cannot allocate HTTP server");
    }

-- The loop over the addresses: the descriptor that listens, and the sockets that are open.
unfoldable pub bind_addresses : List Address → ℕ → Option ℕ × ℕ
bind_addresses [] opened = (none, opened)
bind_addresses (a ∷ more) opened = elim a.socket [
  | none ↦ bind_addresses more opened
  | some fd ↦
      if a.bind && a.listen then (some fd, opened + 1) else bind_addresses more (opened + 1 - 1)
]

abbrev pub failed_start : HttpServer → Status → Option GwError → Bytes → ℕ → Started
failed_start s status error message opened = record {
  server = s;
  status = status;
  error = error_set error status message;
  open_sockets = opened;
}

abbrev pub bound : Network → HttpServer → Option GwError → Option ℕ × ℕ → Started
bound network s error (none, opened) =
    failed_start (record s { listen_fd = none }) io error
      (text "cannot bind HTTP server on "
        ++ (s.config.listen
            ++ (text ":" ++ (decimal s.config.port ++ (text ": " ++ network.strerror)))))
      opened
bound network s error (some fd, opened) = record {
  server = record s { listen_fd = some fd };
  status = ok;
  error = error;
  open_sockets = opened;
}

unfoldable pub bind_listener : Network → HttpServer → Option GwError → ℕ → Started
bind_listener network s error opened = elim network.addresses [
  | none ↦
      failed_start s validation error
        (text "cannot resolve server.listen '"
          ++ (s.config.listen ++ (text "': " ++ network.gai_strerror)))
        opened
  | some addresses ↦ bound network s error (bind_addresses addresses opened)
]

-- The port, or why there is none.
unfoldable pub discover_bound_port : Network → Option ℕ × Bytes
discover_bound_port network = elim network.name [
  | inet port ↦ (some port, [])
  | inet6 port ↦ (some port, [])
  | other_family ↦ (none, text "HTTP listener has an unsupported address family")
  | no_name ↦ (none, text "cannot read HTTP listener address: " ++ network.strerror)
]

-- `close(server->listen_fd)` and what follows it.
abbrev pub abandon : HttpServer → Option GwError → Bytes → ℕ → Started
abandon s error message opened =
    failed_start (record s { listen_fd = none }) io error message (opened - 1)

abbrev pub create_thread : Network → Started → ℕ → Started
create_thread network r port =
    let s : HttpServer = record r.server { bound_port = port; stop_requested = false } in
    if network.thread_create == 0
    then record {
      server = record s { thread_started = true };
      status = ok;
      error = error_clear r.error;
      open_sockets = r.open_sockets;
    }
    else abandon s r.error
        (text "cannot start HTTP server thread: " ++ network.thread_strerror network.thread_create)
        r.open_sockets

abbrev pub with_port : Network → Started → Option ℕ × Bytes → Started
with_port network r (none, message) = abandon r.server r.error message r.open_sockets
with_port network r (some port, message) = create_thread network r port

abbrev pub is_listening : HttpServer → Bool
is_listening s = elim s.listen_fd [ none ↦ false | some fd ↦ true ]

unfoldable pub server_start : Network → HttpServer → Option GwError → ℕ → Started
server_start network s error opened =
    let r = bind_listener network s error opened in
    if s.thread_started || is_listening s
    then failed_start s validation error (text "HTTP server is already started") opened
    else elim r.status [ ok ↦ with_port network r (discover_bound_port network) | _ ↦ r ]

-- `pthread_join` returns when the thread has seen the request to stop.
unfoldable pub server_stop : HttpServer → ℕ → HttpServer × ℕ
server_stop s opened =
    let joined : HttpServer =
      (if s.thread_started
        then record s { stop_requested = true; thread_started = false }
        else s) in
    if is_listening joined
    then (record joined { listen_fd = none }, opened - 1)
    else (joined, opened)
