-- ===== src/Http/Response.antt =====
-- The head of a response of rk3588-media-gateway/src/api/http_server.c, and how a response is sent.
use learn_apue.Base.{ℕ, ◌&&◌, List, [], ◌∷◌, ◌++◌, Option, some, ◌==◌, ltb, length, if◌then◌else◌}
use learn_apue.Base.Decimal.{decimal}
use learn_apue.Base.Text.{Bytes, text}
use learn_apue.Http.Sending.{Sent, Delivery, send_all}
use learn_apue.Http.{HttpResponse, no_response, ContentType, json, html, Rendered, error_response}
use learn_apue.Status.{ok, GwError}

abbrev pub line_end : Bytes
line_end = 13 ∷ 10 ∷ []

unfoldable pub reason_phrase : ℕ → Bytes
reason_phrase status_code =
    if status_code == 200
    then text "OK"
    else if status_code == 202
    then text "Accepted"
    else if status_code == 400
    then text "Bad Request"
    else if status_code == 404
    then text "Not Found"
    else if status_code == 405
    then text "Method Not Allowed"
    else if status_code == 409
    then text "Conflict"
    else if status_code == 431
    then text "Request Header Fields Too Large"
    else text "Internal Server Error"

abbrev pub crlf : Bytes → Bytes
crlf line = line ++ line_end

abbrev pub content_type_of : ContentType → Bytes
content_type_of html = text "text/html; charset=utf-8"
content_type_of json = text "application/json"

abbrev pub content_security_policy : ContentType → Bytes
content_security_policy html = crlf (
    text "Content-Security-Policy: default-src 'none'; style-src 'unsafe-inline'; "
    ++ (text "script-src 'unsafe-inline'; frame-src http:; connect-src 'self'; "
        ++ text "base-uri 'none'; form-action 'none'; object-src 'none'; frame-ancestors 'none'"))
content_security_policy json = []

abbrev pub allowed : HttpResponse → Bytes
allowed r =
    if r.allow_get && r.allow_post
    then crlf (text "Allow: GET, POST")
    else if r.allow_get
    then crlf (text "Allow: GET")
    else if r.allow_post
    then crlf (text "Allow: POST")
    else []

unfoldable pub response_head : HttpResponse → Bytes
response_head r =
    crlf (text "HTTP/1.1 " ++ (decimal r.status_code ++ (32 ∷ reason_phrase r.status_code)))
    ++ (crlf (text "Content-Type: " ++ content_type_of r.content_type)
        ++ (crlf (text "Content-Length: " ++ decimal (length r.body))
            ++ (crlf (text "Connection: close")
                ++ (crlf (text "Cache-Control: no-store")
                    ++ (crlf (text "X-Content-Type-Options: nosniff")
                        ++ (crlf (text "Referrer-Policy: no-referrer")
                            ++ (content_security_policy r.content_type
                                ++ (allowed r ++ line_end))))))))

-- The body follows a head that was sent as a whole.
abbrev pub send_body : Delivery → Bytes → Bytes
send_body d body = d.delivered ++ (if d.complete then (send_all d.rest body).delivered else [])

-- What the connection takes of a response whose head fits its buffer.
unfoldable pub send_response : List Sent → HttpResponse → Bytes
send_response sends r =
    if ltb (length (response_head r)) 1024
    then send_body (send_all sends (response_head r)) r.body
    else []

abbrev pub send_rendered : List Sent → Rendered → Bytes
send_rendered sends r = elim r.status [ ok ↦ send_response sends r.response | _ ↦ [] ]

-- `gw_error error = {0}`
abbrev pub no_error : Option GwError
no_error = some (record { code = ok; message = [] })

unfoldable pub respond_error : List Sent → ℕ → Bytes → Bytes → Bytes
respond_error sends status_code code message =
    send_rendered sends (error_response no_response status_code code message no_error)
