-- ===== src/Http/Page.antt =====
-- The diagnostic page that rk3588-media-gateway/src/api/http_server.c serves: where its file is looked for,
-- and how it is read. What `readlink`, `open`, `read` and `close` answer are parameters.
use learn_apue.Base.{
  ℕ, ◌+◌, Bool, true, false, List, [], ◌∷◌, ◌++◌, Option, none, some, ◌==◌, ltb, leb, length,
  if◌then◌else◌,
}
use learn_apue.Base.Text.{Bytes, text}
use learn_apue.Http.{body_cap, no_response, html, Rendered}
use learn_apue.Status.{ok, io, overflow, GwError, error_set, error_clear}

-- An answer of `read`; an empty text is the end of the file.
pub data PageRead : Type 0 where
  bytes : Bytes → PageRead
  interrupted broken : PageRead

-- An open file: what `read` answers, the end of the file behind that, and whether `close` succeeds.
pub record PageFile : Type 0 where
  pub reads : List PageRead
  pub closes : Bool

-- The results 0, 1 and -1.
pub data Loaded : Type 0 where
  loaded : Bytes → Loaded
  too_large unavailable : Loaded

-- One byte more is asked for when the buffer is full.
abbrev pub has_extra : List PageRead → Bool
has_extra [] = false
has_extra (interrupted ∷ more) = has_extra more
has_extra (broken ∷ more) = false
has_extra (bytes [] ∷ more) = false
has_extra (bytes (c ∷ cs) ∷ more) = true

abbrev pub closed : Bool → Bytes → Loaded
closed closes page = if closes then loaded page else unavailable

-- The loop, with the bytes that it holds. A read longer than the room leaves bytes for the next one.
unfoldable pub load_page : Bool → Bytes → List PageRead → Loaded
load_page closes held [] = closed closes held
load_page closes held (interrupted ∷ more) = load_page closes held more
load_page closes held (broken ∷ more) = unavailable
load_page closes held (bytes [] ∷ more) = closed closes held
load_page closes held (bytes (c ∷ cs) ∷ more) =
    let next = held ++ (c ∷ cs) in
    let rest = load_page closes next more in
    if ltb (length next + 1) body_cap
    then rest
    else if leb body_cap (length next)
    then too_large
    else if has_extra more
    then too_large
    else closed closes next

unfoldable pub load_page_file : Option PageFile → Loaded
load_page_file none = unavailable
load_page_file (some file) = load_page file.closes [] file.reads

abbrev pub before_name : ℕ → Option Bytes → Option Bytes
before_name c none = if c == b'/' then some (c ∷ []) else none
before_name c (some directory) = some (c ∷ directory)

-- The path up to its last slash: `strrchr`.
unfoldable pub directory_of : Bytes → Option Bytes
directory_of [] = none
directory_of (c ∷ cs) = before_name c (directory_of cs)

abbrev pub with_suffix : ℕ → Bytes → Option Bytes → Option Bytes
with_suffix capacity suffix none = none
with_suffix capacity suffix (some directory) =
    if ltb capacity (length directory + length suffix + 1) then none else some (directory ++ suffix)

-- `readlink` answers at most `capacity - 1` bytes, or fails.
unfoldable pub build_executable_relative_path : ℕ → Option Bytes → Bytes → Option Bytes
build_executable_relative_path capacity none suffix = none
build_executable_relative_path capacity (some []) suffix = none
build_executable_relative_path capacity (some (c ∷ cs)) suffix =
    if leb capacity (length (c ∷ cs))
    then none
    else with_suffix capacity suffix (directory_of (c ∷ cs))

-- PATH_MAX
abbrev pub path_max : ℕ
path_max = 4096

pub record PageSystem : Type 0 where
  pub readlink : Option Bytes
  pub open_file : Bytes → Option PageFile

abbrev pub load_at : PageSystem → Bytes → Loaded
load_at system suffix = elim (build_executable_relative_path path_max system.readlink suffix) [
  | none ↦ unavailable
  | some path ↦ load_page_file (system.open_file path)
]

-- The file beside the executable; where that is unavailable, the installed one.
abbrev pub load_either : PageSystem → Loaded → Loaded
load_either system unavailable =
    load_at system (text "../share/rk-media-gateway/web/diagnostic.html")
load_either system l = l

abbrev pub rendered_page : Option GwError → Loaded → Rendered
rendered_page error (loaded page) = record {
  response = record no_response { status_code = 200; content_type = html; body = page };
  status = ok;
  error = error_clear error;
}
rendered_page error too_large = record {
  response = no_response;
  status = overflow;
  error = error_set error overflow (text "diagnostic page exceeds HTTP response capacity");
}
rendered_page error unavailable = record {
  response = no_response;
  status = io;
  error = error_set error io (text "diagnostic page asset is unavailable");
}

unfoldable pub render_view_page : PageSystem → Option GwError → Rendered
render_view_page system error =
    rendered_page error (load_either system (load_at system (text "web/diagnostic.html")))
