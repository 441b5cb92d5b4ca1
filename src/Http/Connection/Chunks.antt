-- ===== src/Http/Connection/Chunks.antt =====
-- How a request of rk3588-media-gateway/src/api/http_server.c arrives does not matter.
use mathlib.Core.List.{append_assoc, append-nil}
use mathlib.Core.Path.{subst}
use learn_apue.Base.{
  Option, is_some, ℕ, ◌-◌, ◌≤◌, ◌<◌, Bool, true, false, ◌&&◌, List, [], ◌∷◌, ◌++◌, some, ◌≡◌, ◌≢◌,
  refl, sym, ap, ◌∙◌, arith, length, length-append, take, take_all, leb, ◌==◌, Bool-cases,
  Option-cases, inl, inr,
}
use learn_apue.Base.Search.{NoneOf-prefix, starts_with_shorter, strstr_extend}
use learn_apue.Base.Text.{Bytes, strstr, strstr-append, starts_with, c_string, break_at_all, NoneOf}
use learn_apue.Config.{RecordingConfig}
use learn_apue.Http.Connection.{
  Received, bytes, interrupted, Gathered, gathered, gather, has_end, header_end, request_cap,
  handle_gathered, handle_connection, handle_line, handle_text,
}
use learn_apue.Http.Response.{line_end}
use learn_apue.Http.Shown.{System}
use learn_apue.Manager.{Manager}

-- The bytes that arrive, whatever signals come between them.
abbrev pub joined : List Received → Bytes
joined [] = []
joined (bytes b ∷ more) = b ++ joined more
joined (interrupted ∷ more) = joined more

-- No answer is the end of the stream.
abbrev pub NoGaps : List Received → Type 0
NoGaps [] = Unit
NoGaps (bytes b ∷ more) = (b ≢ []) × NoGaps more
NoGaps (interrupted ∷ more) = NoGaps more

abbrev pub is_zero : ℕ → Bool
is_zero c = c == 0

c_string_all : (s : Bytes) → NoneOf is_zero s → c_string s ≡ s
unfolding c_string
c_string_all s h = ap (λ p. p.0) (break_at_all is_zero s h)

-- The end of the headers holds an end of a line.
has_line_end :
    (s : Bytes) → is_some (strstr header_end s) ≡ true → is_some (strstr line_end s) ≡ true
unfolding strstr
has_line_end [] h = ground (arith, starts_with_shorter line_end line_end [])
has_line_end (c ∷ s) h =
    ground (arith, starts_with_shorter line_end line_end (c ∷ s), has_line_end s)

-- The text before the first end of a line does not depend on what comes later.
strstr_first :
    (line rest g later : Bytes)
    → NoneOf (λ c. c == 13) line
    → g ++ later ≡ line ++ (line_end ++ rest)
    → is_some (strstr line_end g) ≡ true
    → (f : Bytes) × (strstr line_end g ≡ some (line, f))
strstr_first line rest g later plain whole found = elim (Option-cases (strstr line_end g)) [
  | inl nothing ↦ absurd (ground (arith, found))
  | inr ((b, f), e) ↦
      let longer : strstr line_end (g ++ later) ≡ some (b, f ++ later) =
        strstr_extend 13 (10 ∷ []) g later e in
      let first : strstr line_end (line ++ (line_end ++ rest)) ≡ some (line, line_end ++ rest) =
        strstr-append 13 (10 ∷ []) line rest plain in
      let same : ◌≡◌ {A = Option (Bytes × Bytes)} (some (b, f ++ later))
          (some (line, line_end ++ rest)) =
        sym longer ∙ ap (strstr line_end) whole ∙ first in
      let same_before : b ≡ line = ground arith in (f, e ∙ ap (λ x. some (x, f)) same_before)
]

-- While the end of the headers is not there, there is room for more.
has_room :
    (request later whole : Bytes)
    → request ++ later ≡ whole
    → has_end whole ≡ true
    → has_end request ≡ false
    → length whole ≤ request_cap
    → length request < request_cap
has_room request [] whole same ended pending fits =
    let equal : request ≡ whole = sym (append-nil request) ∙ same in
    absurd (ground (arith, ap (λ s. has_end s) equal))
has_room request (c ∷ later) whole same ended pending fits =
    omega (arith, ap (λ (s : Bytes). length s) same, length-append request (c ∷ later))

has_room_leb :
    (request : Bytes) → length request < request_cap → leb request_cap (length request) ≡ false
has_room_leb request h = ground arith

-- What is gathered: a beginning of the request that holds the end of the headers.
record Found (whole : Bytes) (g : Gathered) : Type 0 where
  request : Bytes
  later : Bytes
  gathered_eq : g ≡ gathered request
  beginning : request ++ later ≡ whole
  ended : has_end request ≡ true

gather-Found :
    (request : Bytes) (answers : List Received) (whole : Bytes)
    → request ++ joined answers ≡ whole
    → has_end whole ≡ true
    → has_end request ≡ false
    → length whole ≤ request_cap
    → NoGaps answers
    → Found whole (gather request answers)
unfolding gather
gather-Found request [] whole same ended pending fits gaps = absurd (
    ground (
      arith,
      has_room request [] whole same ended pending fits,
      ap (λ s. has_end s) (sym (append-nil request) ∙ same),
    ))
gather-Found request (interrupted ∷ more) whole same ended pending fits gaps =
    let room = has_room request (joined more) whole same ended pending fits in
    let rest = gather-Found request more whole same ended pending fits gaps in
    rw (has_room_leb request room) rest
gather-Found request (bytes [] ∷ more) whole same ended pending fits gaps = absurd (gaps.0 refl)
gather-Found request (bytes (c ∷ cs) ∷ more) whole same ended pending fits gaps =
    let room = has_room request ((c ∷ cs) ++ joined more) whole same ended pending fits in
    let next = request ++ (c ∷ cs) in
    let same' : next ++ joined more ≡ whole = append_assoc request (c ∷ cs) (joined more) ∙ same in
    let taken : take (request_cap - length request) (c ∷ cs) ≡ c ∷ cs = take_all _ (c ∷ cs) (
      omega (
        arith,
        ap (λ (s : Bytes). length s) same,
        length-append request ((c ∷ cs) ++ joined more),
        length-append (c ∷ cs) (joined more),
      )) in
    rw (gather, taken, has_room_leb request room)
      (elim (Bool-cases (has_end next)) [
        | inl there ↦ rw there (record {
          request = next;
          later = joined more;
          gathered_eq = refl;
          beginning = same';
          ended = there;
        })
        | inr not_there ↦
            rw not_there (gather-Found next more whole same' ended not_there fits gaps.1)
      ])

and-false : (b : Bool) → (b && false) ≡ false
and-false true = refl
and-false false = refl

nothing_ends : has_end [] ≡ false
unfolding c_string strstr starts_with
nothing_ends = refl

handle_found :
    (system : System) (m : Manager) (recording : RecordingConfig) (line rest request later : Bytes)
    → NoneOf (λ c. c == 13) line
    → NoneOf is_zero (line ++ (line_end ++ rest))
    → request ++ later ≡ line ++ (line_end ++ rest)
    → has_end request ≡ true
    → handle_gathered system m recording (gathered request) ≡ handle_line system m recording line
unfolding handle_gathered
handle_found system m recording line rest request later plain no_zero same ended =
    let clean : NoneOf is_zero request =
      NoneOf-prefix is_zero request later (subst (NoneOf is_zero) (sym same) no_zero) in
    let as_string = c_string_all request clean in
    let (f, e) =
      strstr_first line rest request later plain same
        (has_line_end request (ground (arith, ended, as_string))) in
    rw (ended, and-false (length request == request_cap)) (rw (handle_text, as_string, e) refl)

-- A request that arrives in whatever parts, with signals between them, is answered as its first line
-- asks: the request has no zero byte and no carriage return within its first line, it holds the end of its
-- headers, it is not longer than the buffer, and the stream does not end before it is there.
pub handle_connection_chunks :
    (system : System) (m : Manager) (recording : RecordingConfig) (answers : List Received)
    (line rest : Bytes)
    → joined answers ≡ line ++ (line_end ++ rest)
    → NoGaps answers
    → NoneOf (λ c. c == 13) line
    → NoneOf is_zero (line ++ (line_end ++ rest))
    → has_end (line ++ (line_end ++ rest)) ≡ true
    → length (line ++ (line_end ++ rest)) ≤ request_cap
    → handle_connection system m recording answers ≡ handle_line system m recording line
unfolding handle_connection
handle_connection_chunks system m recording answers line rest arrived gaps plain no_zero ended
      fits =
    let whole = line ++ (line_end ++ rest) in
    let found = gather-Found [] answers whole arrived ended nothing_ends fits gaps in
    ap (handle_gathered system m recording) found.gathered_eq
    ∙ handle_found system m recording line rest found.request found.later plain no_zero
        found.beginning found.ended
