-- ===== src/Http/Connection/Sends.antt =====
-- What a client of rk3588-media-gateway/src/api/http_server.c receives.
use learn_apue.Base.{List, ◌++◌, ◌≡◌, refl, sym, ap, ◌∙◌, length, ltb, Bool-cases, inl, inr}
use learn_apue.Base.Text.{Bytes}
use learn_apue.Http.Response.{send_response, send_body, response_head}
use learn_apue.Http.Sending.{Sent, Delivery, IsDelivery, send_all, send_all-IsDelivery}
use learn_apue.Http.{HttpResponse}
use mathlib.Core.List.{append_assoc, append-nil}

-- A text of which another is a beginning.
abbrev pub Begins : Bytes → Bytes → Type 0
Begins whole part = (missing : Bytes) × (part ++ missing ≡ whole)

send_body-Begins :
    (d : Delivery) (head body : Bytes)
    → IsDelivery head d
    → Begins (head ++ body) (send_body d body)
send_body-Begins d head body h = elim (Bool-cases d.complete) [
  | inl complete ↦
      let b = send_all-IsDelivery d.rest body in
      rw complete (
        b.missing,
        append_assoc d.delivered (send_all d.rest body).delivered b.missing
            ∙ ap (λ t. d.delivered ++ t) b.beginning
            ∙ ap (λ t. t ++ body) (h.whole complete),
      )
  | inr stopped ↦ rw stopped (
    h.missing ++ body,
    ap (λ t. t ++ (h.missing ++ body)) (append-nil d.delivered)
        ∙ sym (append_assoc d.delivered h.missing body)
        ∙ ap (λ t. t ++ body) h.beginning,
  )
]

-- The bytes that a client receives are a beginning of the head of the response with its body behind it,
-- however much each `send` takes and whenever one fails.
pub send_response-Begins :
    (sends : List Sent) (r : HttpResponse)
    → Begins (response_head r ++ r.body) (send_response sends r)
unfolding send_response
send_response-Begins sends r = elim (Bool-cases (ltb (length (response_head r)) 1024)) [
  | inl fits ↦
      rw (send_response, fits)
        (send_body-Begins (send_all sends (response_head r)) (response_head r) r.body
          (send_all-IsDelivery sends (response_head r)))
  | inr long ↦ rw (send_response, long) (response_head r ++ r.body, refl)
]
