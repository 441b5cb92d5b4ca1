-- ===== src/Http/Route/Answers.antt =====
-- The responses of rk3588-media-gateway/src/api/http_server.c that no request can make too long for the body.
use learn_apue.Base.{
  ℕ, ◌+◌, ◌*◌, ◌<◌, ◌≤◌, Bool, List, [], ◌∷◌, Option, ◌≡◌, refl, arith, length, length-append,
}
use learn_apue.Base.Text.{Bytes, text}
use learn_apue.Http.Json.{escapes, quoted}
use learn_apue.Http.Render.Whole.{whole_text, piece_text, write_pieces-IsWritten}
use learn_apue.Http.Render.{Piece, write_pieces}
use learn_apue.Http.{
  error_response, finish_response, json_string, json_append, json_bytes, escape_byte, Rendered,
  HttpResponse, empty_writer, body_cap,
}
use learn_apue.Http.Route.{accepted_pieces}
use learn_apue.Http.Shown.{fine, method_not_allowed, channel_not_found}
use learn_apue.Status.{ok, GwError}

-- A response with that status code that was rendered.
pub record IsAnswer (code : ℕ) (r : Rendered) : Type 0 where
  pub rendered : r.status ≡ ok
  pub status_code_eq : r.response.status_code ≡ code

pub channel_not_found-IsAnswer : (error : Option GwError) → IsAnswer 404 (channel_not_found error)
unfolding error_response finish_response json_string json_append json_bytes escape_byte text
channel_not_found-IsAnswer error = record { rendered = refl; status_code_eq = refl }

pub conflict-IsAnswer :
    (error : Option GwError)
    → IsAnswer 409 (
        error_response fine 409
          (text "state_conflict")
          (text "channel command conflicts with current state")
          error)
unfolding error_response finish_response json_string json_append json_bytes escape_byte text
conflict-IsAnswer error = record { rendered = refl; status_code_eq = refl }

pub method_not_allowed-IsAnswer :
    (allow_get allow_post : Bool) (error : Option GwError)
    → (let r = method_not_allowed allow_get allow_post error in
        IsAnswer 405 r × (r.response.allow_get ≡ allow_get) × (r.response.allow_post ≡ allow_post))
unfolding method_not_allowed error_response finish_response json_string json_append json_bytes
    escape_byte text
method_not_allowed-IsAnswer allow_get allow_post error =
    (record { rendered = refl; status_code_eq = refl }, refl, refl)

-- Pieces that fit the body are rendered whole.
pub finish_response_whole :
    (response : HttpResponse) (pieces : List Piece) (error : Option GwError)
    → length (whole_text pieces) < body_cap
    → (let r = finish_response response (write_pieces empty_writer pieces) error in
        (r.status ≡ ok) × (r.response ≡ record response { body = whole_text pieces }))
unfolding finish_response
finish_response_whole response pieces error fits =
    ground (arith, write_pieces-IsWritten empty_writer pieces refl (omega arith))

length-escape_byte : (c : ℕ) → length (escape_byte c) ≤ 6
unfolding escape_byte
length-escape_byte c = ground arith

length-escapes : (s : Bytes) → length (escapes s) ≤ 6 * length s
unfolding escapes
length-escapes [] = omega arith
length-escapes (c ∷ s) =
    omega (arith, length-escape_byte c, length-escapes s, length-append (escape_byte c) (escapes s))

length-quoted : (s : Bytes) → length (quoted s) ≤ 6 * length s + 2
unfolding quoted
length-quoted s = omega (arith, length-escapes s, length-append (escapes s) (b'"' ∷ []))

pub length-accepted_pieces :
    (id action : Bytes)
    → length (whole_text (accepted_pieces id action)) ≤ 6 * length id + 6 * length action + 100
unfolding whole_text piece_text text
length-accepted_pieces id action = omega (
  arith,
  length-quoted id,
  length-quoted action,
  length-append (quoted id),
  length-append (quoted action),
)
