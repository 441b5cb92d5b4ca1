-- ===== src/Tests/Http.antt =====
-- JSON strings and targets at concrete inputs: http_server.c.
use learn_apue.Base.{◌+◌, ◌<◌, false, [], ◌∷◌, ◌++◌, some, none, ◌≡◌, ◌↔◌, refl, arith, length}
use learn_apue.Base.Text.{Bytes, text, str_eq, starts_with, break_at}
use learn_apue.Http.Json.{json_string-read_json, quoted, read_json, plain}
use learn_apue.Http.{JsonWriter, json_string, parse_action_target, parse_channel_leaf, split_target}

abbrev writer : JsonWriter
writer = record { written = b'{' ∷ []; capacity = 64; failed = false }

-- a quote, a letter, a control character and a byte beyond ASCII
abbrev odd : Bytes
odd = b'"' ∷ b'a' ∷ 27 ∷ 233 ∷ []

json_string-read_json_example :
    (let w = json_string writer odd in
      ((w.failed ≡ false) ↔ (length writer.written + length (quoted odd) < writer.capacity))
      × (w.failed ≡ false → w.written ≡ writer.written ++ quoted odd)
      × ((rest : Bytes)
          → (inside : Bytes) × (quoted odd ++ rest ≡ b'"' ∷ inside)
            × (read_json plain inside ≡ some (odd, rest))))
json_string-read_json_example = json_string-read_json writer odd (omega arith) refl (omega arith)

targets_run :
    (parse_action_target 65 (text "/v1/channels/c1/stop") ≡ some (text "c1", text "stop"))
    × (parse_action_target 65 (text "/v1/channels/c1/stop/now") ≡ none)
    × (parse_action_target 65 (text "/v1/channels//stop") ≡ none)
    × (parse_channel_leaf 65 (text "/v1/channels/c1/metrics") (text "metrics") ≡ some (text "c1"))
unfolding parse_action_target parse_channel_leaf split_target text str_eq starts_with break_at
targets_run = (refl, refl, refl, refl)
