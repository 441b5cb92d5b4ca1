-- ===== src/Status.antt =====
-- Status codes and the optional diagnostic of every operation:
-- rk3588-media-gateway/include/gateway/error.h, src/common/error.c, and `gw_status_string`.
use learn_apue.Base.{ℕ, Option, none, some, [], take}
use learn_apue.Base.Text.{Bytes, text}

pub data Status : Type 0 where
  ok argument io parse validation env no_memory overflow not_found conflict : Status

pub record GwError : Type 0 where
  pub code : Status
  pub message : Bytes

-- GW_ERROR_CAP
abbrev pub error_cap : ℕ
error_cap = 256

-- The pointer may be null. `vsnprintf` keeps what fits before the terminating zero.
unfoldable pub error_set : Option GwError → Status → Bytes → Option GwError
error_set none code message = none
error_set (some _) code message = some (record { code = code; message = take 255 message })

unfoldable pub error_clear : Option GwError → Option GwError
error_clear none = none
error_clear (some _) = some (record { code = ok; message = [] })

unfoldable pub status_string : Status → Bytes
status_string ok = text "ok"
status_string argument = text "invalid argument"
status_string io = text "I/O error"
status_string parse = text "parse error"
status_string validation = text "validation error"
status_string env = text "environment error"
status_string no_memory = text "out of memory"
status_string overflow = text "size limit exceeded"
status_string not_found = text "not found"
status_string conflict = text "state conflict"
