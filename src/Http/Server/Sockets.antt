-- ===== src/Http/Server/Sockets.antt =====
-- The server of rk3588-media-gateway/src/api/http_server.c leaks no listening socket.
use learn_apue.Base.{
  ℕ, ◌+◌, true, false, List, [], ◌∷◌, Option, none, some, ◌≡◌, ◌≢◌, ◌∙◌, sym, refl, arith,
  if◌then◌else◌, Option-cases, inl, inr,
}
use learn_apue.Http.Server.{
  HttpServer, Network, Address, Started, bind_addresses, bind_listener, bound, with_port,
  discover_bound_port, server_start, server_stop, server_create, is_listening,
}
use learn_apue.Base.Text.{Bytes}
use learn_apue.Config.{ServerConfig, RecordingConfig}
use learn_apue.Status.{ok, GwError}

-- The sockets that are open beside those of others: one exactly while the server has it. A thread runs
-- exactly then.
pub record IsServer (others : ℕ) (s : HttpServer) (opened : ℕ) : Type 0 where
  pub own : opened ≡ others + (if is_listening s then 1 else 0)
  pub serving : s.thread_started ≡ is_listening s

abbrev pub holds : Option ℕ → ℕ
holds none = 0
holds (some fd) = 1

bind_addresses-holds :
    (addresses : List Address) (opened : ℕ)
    → (bind_addresses addresses opened).1 ≡ opened + holds (bind_addresses addresses opened).0
unfolding bind_addresses
bind_addresses-holds [] opened = omega arith
bind_addresses-holds (a ∷ more) opened = ground (arith, bind_addresses-holds more opened)

record IsBound (s : HttpServer) (opened : ℕ) (r : Started) : Type 0 where
  counted : r.open_sockets ≡ opened + holds r.server.listen_fd
  succeeded : r.status ≡ ok → is_listening r.server ≡ true
  refused : r.status ≢ ok → is_listening r.server ≡ false
  same_thread : r.server.thread_started ≡ s.thread_started

bound-IsBound :
    (network : Network) (s : HttpServer) (error : Option GwError) (opened : ℕ) (b : Option ℕ × ℕ)
    → b.1 ≡ opened + holds b.0
    → IsBound s opened (bound network s error b)
bound-IsBound network s error opened (none, count) h = record {
  counted = h;
  succeeded = λ q. ground (arith, q);
  refused = λ q. refl;
  same_thread = refl;
}
bound-IsBound network s error opened (some fd, count) h = record {
  counted = h;
  succeeded = λ q. refl;
  refused = λ q. absurd (q refl);
  same_thread = refl;
}

bind_listener-IsBound :
    (network : Network) (s : HttpServer) (error : Option GwError) (opened : ℕ)
    → s.listen_fd ≡ none
    → IsBound s opened (bind_listener network s error opened)
unfolding bind_listener
bind_listener-IsBound network s error opened closed = elim (Option-cases network.addresses) [
  | inl unresolved ↦ rw unresolved (record {
    counted = ground (arith, closed);
    succeeded = λ q. ground (arith, q);
    refused = λ q. ground (arith, closed);
    same_thread = refl;
  })
  | inr (addresses, e) ↦
      rw e (bound-IsBound network s error opened _ (bind_addresses-holds addresses opened))
]

-- What a start leaves: the sockets are counted, a start that succeeds serves, and one that fails
-- leaves the thread as it was.
abbrev pub HasStarted : ℕ → HttpServer → Started → Type 0
HasStarted others s r =
    IsServer others r.server r.open_sockets
    × (r.status ≡ ok → r.server.thread_started ≡ true)
    × (r.status ≢ ok → r.server.thread_started ≡ s.thread_started)

is_listening_holds : (s : HttpServer) → holds s.listen_fd ≡ (if is_listening s then 1 else 0)
is_listening_holds s = ground arith

with_port-HasStarted :
    (network : Network) (others : ℕ) (s : HttpServer) (r : Started) (port : Option ℕ × Bytes)
    → s.thread_started ≡ false
    → IsBound s others r
    → is_listening r.server ≡ true
    → HasStarted others s (with_port network r port)
with_port-HasStarted network others s r (none, message) idle b listening =
    ground (arith, b.counted, b.same_thread, listening, idle, is_listening_holds r.server)
with_port-HasStarted network others s r (some port, message) idle b listening =
    ground (arith, b.counted, b.same_thread, listening, idle, is_listening_holds r.server)

server_start-HasStarted :
    (network : Network) (others : ℕ) (s : HttpServer) (error : Option GwError) (opened : ℕ)
    → IsServer others s opened
    → HasStarted others s (server_start network s error opened)
unfolding server_start
server_start-HasStarted network others s error opened inv = elim (Option-cases s.listen_fd) [
  | inr (fd, e) ↦ ground (arith, inv.own, inv.serving, e)
  | inl closed ↦
      let b = bind_listener-IsBound network s error opened closed in
      ground (
        arith,
        inv.own,
        inv.serving,
        closed,
        b.counted,
        b.same_thread,
        b.succeeded,
        b.refused,
        is_listening_holds (bind_listener network s error opened).server,
        with_port-HasStarted network others s (bind_listener network s error opened)
            (discover_bound_port network),
      )
]

server_stop-IsServer :
    (others : ℕ) (s : HttpServer) (opened : ℕ)
    → IsServer others s opened
    → (let (s', opened') = server_stop s opened in
        IsServer others s' opened' × (s'.thread_started ≡ false) × (opened' ≡ others))
unfolding server_stop
server_stop-IsServer others s opened inv = ground arith

-- The calls that a program makes on a server.
pub data Call : Type 0 where
  starts : Network → Option GwError → Call
  stops : Call

unfoldable pub after_calls : HttpServer → ℕ → List Call → HttpServer × ℕ
after_calls s opened [] = (s, opened)
after_calls s opened (starts network error ∷ more) =
    let r = server_start network s error opened in after_calls r.server r.open_sockets more
after_calls s opened (stops ∷ more) =
    let (s', opened') = server_stop s opened in after_calls s' opened' more

after_calls-IsServer :
    (others : ℕ) (s : HttpServer) (opened : ℕ) (calls : List Call)
    → IsServer others s opened
    → (let (s', opened') = after_calls s opened calls in IsServer others s' opened')
unfolding after_calls
after_calls-IsServer others s opened [] inv = inv
after_calls-IsServer others s opened (starts network error ∷ more) inv =
    let r = server_start network s error opened in
    after_calls-IsServer others r.server r.open_sockets more
      (server_start-HasStarted network others s error opened inv).0
after_calls-IsServer others s opened (stops ∷ more) inv =
    let (s', opened') = server_stop s opened in
    after_calls-IsServer others s' opened' more (server_stop-IsServer others s opened inv).0

-- Whatever starts and stops follow the creation of a server, and whatever the system answers to them, the
-- server has one listening socket open exactly while it listens, its thread runs exactly then, and a stop
-- behind them, as the destruction makes it, leaves neither.
pub after_calls-server_stop :
    (config : ServerConfig) (recording : RecordingConfig) (error : Option GwError) (others : ℕ)
    (s : HttpServer) (calls : List Call)
    → (server_create true config recording error).server ≡ some s
    → (let (s', opened) = after_calls s others calls in
        IsServer others s' opened
        × (let (s'', left) = server_stop s' opened in
            (left ≡ others) × (s''.thread_started ≡ false) × (is_listening s'' ≡ false)))
unfolding server_create
after_calls-server_stop config recording error others s calls q =
    let (s', opened) = after_calls s others calls in
    let fresh : IsServer others s others = ground arith in
    let inv : IsServer others s' opened = after_calls-IsServer others s others calls fresh in
    let ended = server_stop-IsServer others s' opened inv in
    (inv, (ended.2, ended.1, sym ended.0.serving ∙ ended.1))
