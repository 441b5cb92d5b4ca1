-- ===== src/Http.antt =====
-- The texts of rk3588-media-gateway/src/api/http_server.c: the writer of JSON, its strings, the response
-- to an error, and the targets of requests that name a channel. `vsnprintf` is the text that it is given.
pub mod Connection
pub mod Json
pub mod Page
pub mod Render
pub mod Response
pub mod Route
pub mod Sending
pub mod Serve
pub mod Server
pub mod Shown
use learn_apue.Base.{
  ℕ, ◌+◌, ◌-◌, ◌/◌, ◌%◌, Bool, true, false, not, ◌&&◌, ◌||◌, List, [], ◌∷◌, ◌++◌, Option, none,
  some, ◌==◌, leb, ltb, length, drop, if◌then◌else◌,
}
use learn_apue.Base.Text.{Bytes, text, str_eq, starts_with, break_at}
use learn_apue.Status.{Status, ok, overflow, GwError, error_set, error_clear}

-- `json_writer`: the first `length` bytes of the buffer, and its capacity.
pub record JsonWriter : Type 0 where
  pub written : Bytes
  pub capacity : ℕ
  pub failed : Bool

unfoldable pub json_append : JsonWriter → Bytes → JsonWriter
json_append w s =
    if w.failed
    then w
    else if leb (w.capacity - length w.written) (length s)
    then record w { failed = true }
    else record w { written = w.written ++ s }

-- `%x` of a number below 16
abbrev pub hex_digit : ℕ → ℕ
hex_digit n = if ltb n 10 then b'0' + n else 87 + n

-- `\u%04x` of a byte
abbrev pub unicode_escape : ℕ → Bytes
unicode_escape c = b'\\' ∷ b'u' ∷ b'0' ∷ b'0' ∷ hex_digit (c / 16) ∷ hex_digit (c % 16) ∷ []

abbrev pub after_backslash : ℕ → Bytes
after_backslash c = b'\\' ∷ c ∷ []

-- The `switch` of `json_string`.
unfoldable pub escape_byte : ℕ → Bytes
escape_byte c =
    if c == b'"'
    then after_backslash b'"'
    else if c == b'\\'
    then after_backslash b'\\'
    else if c == 8
    then after_backslash b'b'
    else if c == 12
    then after_backslash b'f'
    else if c == 10
    then after_backslash b'n'
    else if c == 13
    then after_backslash b'r'
    else if c == 9
    then after_backslash b't'
    else if ltb c 32 || leb 128 c
    then unicode_escape c
    else c ∷ []

-- The loop.
unfoldable pub json_bytes : JsonWriter → Bytes → JsonWriter
json_bytes w [] = w
json_bytes w (c ∷ cs) =
    let rest = json_bytes (json_append w (escape_byte c)) cs in if w.failed then w else rest

unfoldable pub json_string : JsonWriter → Bytes → JsonWriter
json_string w value = json_append (json_bytes (json_append w (b'"' ∷ [])) value) (b'"' ∷ [])

-- GW_HTTP_BODY_CAP
abbrev pub body_cap : ℕ
body_cap = 131072

pub data ContentType : Type 0 where
  json html : ContentType

-- A response that was set to zero is `no_response`.
pub record HttpResponse : Type 0 where
  pub status_code : ℕ
  pub allow_get : Bool
  pub allow_post : Bool
  pub content_type : ContentType
  pub body : Bytes

abbrev pub no_response : HttpResponse
no_response = record {
  status_code = 0;
  allow_get = false;
  allow_post = false;
  content_type = json;
  body = [];
}

pub record Rendered : Type 0 where
  pub response : HttpResponse
  pub status : Status
  pub error : Option GwError

unfoldable pub finish_response : HttpResponse → JsonWriter → Option GwError → Rendered
finish_response response w error =
    if w.failed
    then record {
      response = response;
      status = overflow;
      error = error_set error overflow (text "HTTP JSON response exceeds capacity");
    }
    else record {
      response = record response { body = w.written };
      status = ok;
      error = error_clear error;
    }

abbrev pub empty_writer : JsonWriter
empty_writer = record { written = []; capacity = body_cap; failed = false }

unfoldable pub error_response : HttpResponse → ℕ → Bytes → Bytes → Option GwError → Rendered
error_response response status_code code message error =
    let w1 = json_string (json_append empty_writer (text "{\"error\":")) code in
    let w2 = json_string (json_append w1 (text ",\"message\":")) message in
    finish_response (record response { status_code = status_code }) (json_append w2 (text "}\n"))
      error

abbrev pub is_slash : ℕ → Bool
is_slash c = c == b'/'

-- What follows `/v1/channels/` in a target.
abbrev pub channel_prefix : Bytes
channel_prefix = text "/v1/channels/"

abbrev pub drop_prefix : Bytes → Option Bytes
drop_prefix target = if starts_with channel_prefix target then some (drop 13 target) else none

-- `strchr(s, '/') != NULL`
abbrev pub has_slash : Bytes → Bool
has_slash s = elim (break_at is_slash s).1 [ [] ↦ false | _ ∷ _ ↦ true ]

abbrev pub is_action : Bytes → Bool
is_action action =
    str_eq action (text "start") || str_eq action (text "stop") || str_eq action (text "restart")

-- The identifier and the rest of the target, if the identifier is there and fits.
abbrev pub channel_and_leaf : ℕ → Bytes × Bytes → Option (Bytes × Bytes)
channel_and_leaf capacity (id, []) = none
channel_and_leaf capacity ([], _) = none
channel_and_leaf capacity (id, slash ∷ leaf) =
    if leb capacity (length id) then none else some (id, leaf)

unfoldable pub split_target : ℕ → Bytes → Option (Bytes × Bytes)
split_target capacity target = elim (drop_prefix target) [
  | none ↦ none
  | some remainder ↦ channel_and_leaf capacity (break_at is_slash remainder)
]

-- The channel and the action.
unfoldable pub parse_action_target : ℕ → Bytes → Option (Bytes × Bytes)
parse_action_target capacity target = elim (split_target capacity target) [
  | none ↦ none
  | some (id, action) ↦
      if not (has_slash action) && is_action action then some (id, action) else none
]

-- The channel before the leaf.
unfoldable pub parse_channel_leaf : ℕ → Bytes → Bytes → Option Bytes
parse_channel_leaf capacity target leaf = elim (split_target capacity target) [
  | none ↦ none
  | some (id, rest) ↦ if str_eq rest leaf then some id else none
]
