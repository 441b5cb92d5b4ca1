-- ===== src/Config/Redact.antt =====
-- `copy_text` and `gw_redact_url` of rk3588-media-gateway/src/config/config.c, which shows a URL in
-- diagnostics without its password.
pub mod Hides
use Prim.Native.String.{String}
use learn_apue.Base.{
  ℕ, ◌+◌, ◌<◌, ◌≤◌, Bool, true, false, ◌||◌, List, [], ◌∷◌, ◌++◌, Option, none, some, ◌≡◌, refl,
  sym, ap, ◌∙◌, arith, ◌==◌, ltb, if◌then◌else◌, length, length-append,
}
use learn_apue.Base.Text.{Bytes, text, strstr, strstr-append, break_at, NoneOf}
use learn_apue.Status.{Status, ok, argument, overflow}

-- `old` is what the destination holds before the call.
unfoldable pub copy_text : ℕ → Bytes → Bytes → Status × Bytes
copy_text capacity old source =
    if capacity == 0
    then (argument, old)
    else if ltb (length source) capacity
    then (ok, source)
    else (overflow, old)

-- `strpbrk(authority, "/?#")`
abbrev pub ends_authority : ℕ → Bool
ends_authority c = c == b'/' || c == b'?' || c == b'#'

abbrev pub is_at : ℕ → Bool
is_at c = c == b'@'

-- The loop that moves `colon` to each `:` of the user information: what stands before the last.
pub last_colon : Bytes → Option Bytes → Bytes → Option Bytes
last_colon before found [] = found
last_colon before found (c ∷ cs) =
    last_colon (before ++ c ∷ []) (if c == b':' then some before else found) cs

abbrev pub masked : Option Bytes → Bytes
masked none = b'*' ∷ b'*' ∷ b'*' ∷ []
masked (some kept) = kept ++ b':' ∷ b'*' ∷ b'*' ∷ b'*' ∷ []

abbrev pub scheme_mark : Bytes
scheme_mark = b':' ∷ b'/' ∷ b'/' ∷ []

-- The text from `@` on, if the authority has one.
abbrev pub with_mask : Bytes → Bytes → Bytes → Bytes → Option Bytes
with_mask scheme userinfo [] path = none
with_mask scheme userinfo at path =
    some (scheme ++ scheme_mark ++ masked (last_colon [] none userinfo) ++ at ++ path)

abbrev pub mask_authority : Bytes → Bytes → Option Bytes
mask_authority scheme rest =
    let (authority, path) = break_at ends_authority rest in
    let (userinfo, at) = break_at is_at authority in with_mask scheme userinfo at path

-- `authority = scheme + 3`
abbrev pub behind_scheme : Option (Bytes × Bytes) → Option Bytes
behind_scheme (some (scheme, _ ∷ _ ∷ _ ∷ rest)) = mask_authority scheme rest
behind_scheme _ = none

-- The URL with its password masked, if there is user information to mask.
pub redacted : Bytes → Option Bytes
unfolding last_colon
redacted url = behind_scheme (strstr scheme_mark url)

abbrev pub print_redacted : Bytes → Bytes → ℕ → Option Bytes → Status × Bytes
print_redacted url old size none = copy_text size old url
print_redacted url old size (some shown) =
    if ltb (length shown) size then (ok, shown) else (overflow, [])

unfoldable pub redact_url : Bytes → Bytes → ℕ → Status × Bytes
unfolding redacted copy_text
redact_url url old size =
    if size == 0 then (argument, old) else print_redacted url old size (redacted url)
