-- ===== src/Http/Connection.antt =====
-- One connection of rk3588-media-gateway/src/api/http_server.c: the request is gathered from what `recv` answers,
-- its first line is scanned, and the response is written. The sockets' options and the client's end of the
-- connection have no state here.
pub mod Chunks
pub mod Sends
use learn_apue.Base.{
  is_some, ℕ, ◌+◌, ◌-◌, ◌<◌, Bool, true, false, not, ◌&&◌, ◌||◌, List, [], ◌∷◌, ◌++◌, Option, none,
  some, ◌==◌, leb, ltb, length, take, drop, if◌then◌else◌,
}
use learn_apue.Base.Decimal.{decimal}
use learn_apue.Base.Text.{Bytes, text, str_eq, strstr, break_at, c_string}
use learn_apue.Config.{RecordingConfig}
use learn_apue.Http.Route.{Routed, http_route, unchanged, target_cap}
use learn_apue.Http.Sending.{Sent, Delivery, send_all}
use learn_apue.Http.Response.{line_end, respond_error, send_response, no_error}
use learn_apue.Http.Shown.{System}
use learn_apue.Http.{HttpResponse, no_response, ContentType, json, html, Rendered, error_response}
use learn_apue.Manager.{Manager}
use learn_apue.Status.{ok, GwError}

-- HTTP_REQUEST_CAP
abbrev pub request_cap : ℕ
request_cap = 8192

-- An answer of `recv`: bytes, as many as fit the room that is offered, or a signal. An empty text, and
-- the end of the answers, stand for an end of the stream, a timeout or an error.
pub data Received : Type 0 where
  bytes : Bytes → Received
  interrupted : Received

abbrev pub header_end : Bytes
header_end = 13 ∷ 10 ∷ 13 ∷ 10 ∷ []

-- `strstr(request, "\r\n\r\n") != NULL`
abbrev pub has_end : Bytes → Bool
has_end request = is_some (strstr header_end (c_string request))

pub data Gathered : Type 0 where
  incomplete : Gathered
  gathered : Bytes → Gathered

-- The loop, with the bytes of `request` in use.
unfoldable pub gather : Bytes → List Received → Gathered
gather request [] = if leb request_cap (length request) then gathered request else incomplete
gather request (interrupted ∷ more) =
    let rest = gather request more in
    if leb request_cap (length request) then gathered request else rest
gather request (bytes [] ∷ more) =
    if leb request_cap (length request) then gathered request else incomplete
gather request (bytes (c ∷ cs) ∷ more) =
    let request' = request ++ take (request_cap - length request) (c ∷ cs) in
    let rest = gather request' more in
    if leb request_cap (length request)
    then gathered request
    else if has_end request'
    then gathered request'
    else rest

-- `isspace`
abbrev pub is_space : ℕ → Bool
is_space c = c == 32 || (leb 9 c && leb c 13)

abbrev pub not_space : ℕ → Bool
not_space c = not (is_space c)

abbrev pub skip_space : Bytes → Bytes
skip_space s = (break_at not_space s).1

-- `%Ns`: blanks, and a word of at most `width` bytes, which is not empty.
abbrev pub word_of : ℕ → Bytes → Option (Bytes × Bytes)
word_of width s = elim (take width (break_at is_space s).0) [
  | [] ↦ none
  | c ∷ cs ↦ some (c ∷ cs, drop (length (c ∷ cs)) s)
]

unfoldable pub scan_word : ℕ → Bytes → Option (Bytes × Bytes)
scan_word width s = word_of width (skip_space s)

pub record RequestLine : Type 0 where
  pub method : Bytes
  pub target : Bytes

-- ` %c` finds nothing, and the version is known.
abbrev pub accepted_line : Bytes → Bytes → Option (Bytes × Bytes) → Option RequestLine
accepted_line method target none = none
accepted_line method target (some (version, extra)) = elim (skip_space extra) [
  | [] ↦
      if str_eq version (text "HTTP/1.1") || str_eq version (text "HTTP/1.0")
      then some (record { method = method; target = target })
      else none
  | _ ∷ _ ↦ none
]

abbrev pub with_target : Bytes → Option (Bytes × Bytes) → Option RequestLine
with_target method none = none
with_target method (some (target, rest)) = accepted_line method target (scan_word 15 rest)

-- `sscanf(request, "%7s %2047s %15s %c", ...)` and the version
unfoldable pub parse_request_line : Bytes → Option RequestLine
parse_request_line line = elim (scan_word 7 line) [
  | none ↦ none
  | some (method, rest) ↦ with_target method (scan_word (target_cap - 1) rest)
]

pub record Handled : Type 0 where
  pub manager : Manager
  pub sent : Bytes

abbrev pub invalid_line : List Sent → Manager → Handled
invalid_line sends m = record {
  manager = m;
  sent = respond_error sends 400 (text "bad_request") (text "invalid request line");
}

abbrev pub send_routed : List Sent → Routed → Handled
send_routed sends r = record {
  manager = r.manager;
  sent = elim r.rendered.status [
    | ok ↦ send_response sends r.rendered.response
    | _ ↦ respond_error sends 500 (text "internal_error") (text "cannot build HTTP response")
  ];
}

-- Behind the first line's end.
unfoldable pub handle_line : System → Manager → RecordingConfig → Bytes → Handled
handle_line system m recording line = elim (parse_request_line line) [
  | none ↦ invalid_line system.sends m
  | some r ↦ send_routed system.sends (http_route system m recording r.method r.target no_error)
]

abbrev pub handle_text : System → Manager → RecordingConfig → Bytes → Handled
handle_text system m recording request = elim (strstr line_end (c_string request)) [
  | none ↦ invalid_line system.sends m
  | some (line, _) ↦ handle_line system m recording line
]

unfoldable pub handle_gathered : System → Manager → RecordingConfig → Gathered → Handled
handle_gathered system m recording incomplete = record {
  manager = m;
  sent = respond_error system.sends 400 (text "bad_request") (text "incomplete HTTP request");
}
handle_gathered system m recording (gathered request) =
    if length request == request_cap && not (has_end request)
    then record {
      manager = m;
      sent =
          respond_error system.sends 431 (text "headers_too_large")
            (text "HTTP headers exceed the limit");
    }
    else handle_text system m recording request

unfoldable pub handle_connection : System → Manager → RecordingConfig → List Received → Handled
handle_connection system m recording answers =
    handle_gathered system m recording (gather [] answers)
