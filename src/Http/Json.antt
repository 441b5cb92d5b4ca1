-- ===== src/Http/Json.antt =====
-- The strings that rk3588-media-gateway/src/api/http_server.c writes are JSON strings that read back as
-- the text that they hold.
use learn_apue.Base.{
  ℕ, zero, suc, ◌+◌, ◌-◌, ◌*◌, ◌/◌, ◌%◌, ◌<◌, true, false, ◌&&◌, ◌||◌, [], ◌∷◌, ◌++◌, Option, none,
  some, ◌≡◌, ◌↔◌, refl, ◌∙◌, ap, arith, ◌==◌, leb, ltb, length, if◌then◌else◌, length-append,
}
use learn_apue.Base.Text.{Bytes, cons_first}
use learn_apue.Http.{
  JsonWriter, json_append, hex_digit, unicode_escape, escape_byte, json_bytes, json_string,
}
use mathlib.Core.List.{append_assoc, append-nil}

-- A reader of the inside of a JSON string, up to its closing quote: plain text, behind a backslash,
-- or within the four digits of `\u`.
pub data Mode : Type 0 where
  plain escaped : Mode
  hex : ℕ → ℕ → Mode

abbrev pub hex_value : ℕ → Option ℕ
hex_value c =
    if leb b'0' c && leb c b'9'
    then some (c - b'0')
    else if leb b'a' c && leb c b'f'
    then some (c - 87)
    else if leb b'A' c && leb c b'F'
    then some (c - 55)
    else none

-- `\"`, `\\`, `\/`, `\b`, `\f`, `\n`, `\r` and `\t`
abbrev pub simple_escape : ℕ → Option ℕ
simple_escape c =
    if c == b'"' || c == b'\\' || c == b'/'
    then some c
    else if c == b'b'
    then some 8
    else if c == b'f'
    then some 12
    else if c == b'n'
    then some 10
    else if c == b'r'
    then some 13
    else if c == b't'
    then some 9
    else none

abbrev pub with_byte : Option ℕ → Option (Bytes × Bytes) → Option (Bytes × Bytes)
with_byte none rest = none
with_byte (some c) rest = cons_first c rest

-- The text, and what follows the closing quote.
unfoldable pub read_json : Mode → Bytes → Option (Bytes × Bytes)
read_json mode [] = none
read_json plain (c ∷ cs) =
    let inner = read_json escaped cs in
    let rest = read_json plain cs in
    if c == b'"'
    then some ([], cs)
    else if c == b'\\'
    then inner
    else if ltb c 32
    then none
    else cons_first c rest
read_json escaped (c ∷ cs) =
    let digits = read_json (hex 3 0) cs in
    let rest = read_json plain cs in if c == b'u' then digits else with_byte (simple_escape c) rest
read_json (hex k n) (c ∷ cs) = elim (hex_value c) [
  | none ↦ none
  | some d ↦ elim k [
    | zero ↦ cons_first (n * 16 + d) (read_json plain cs)
    | suc more ↦ read_json (hex more (n * 16 + d)) cs
  ]
]

hex_value-hex_digit : (d : ℕ) → d < 16 → hex_value (hex_digit d) ≡ some d
hex_value-hex_digit d h = ground arith

read_json-unicode :
    (c : ℕ) (rest : Bytes)
    → c < 256
    → read_json plain (unicode_escape c ++ rest) ≡ cons_first c (read_json plain rest)
unfolding read_json
read_json-unicode c rest small =
    let high = hex_value-hex_digit (c / 16) (omega (arith, small)) in
    let low = hex_value-hex_digit (c % 16) (omega arith) in
    let whole : (0 + c / 16) * 16 + c % 16 ≡ c = omega arith in rw (high, low, whole) refl

read_json-escape_byte :
    (c : ℕ) (rest : Bytes)
    → c < 256
    → read_json plain (escape_byte c ++ rest) ≡ cons_first c (read_json plain rest)
unfolding read_json escape_byte
read_json-escape_byte c rest small = ground (arith, read_json-unicode c rest small)

-- What a text becomes inside its quotes.
unfoldable pub escapes : Bytes → Bytes
escapes [] = []
escapes (c ∷ cs) = escape_byte c ++ escapes cs

abbrev pub AreBytes : Bytes → Type 0
AreBytes [] = Unit
AreBytes (c ∷ cs) = (c < 256) × AreBytes cs

read_json-escapes :
    (s rest : Bytes) → AreBytes s → read_json plain (escapes s ++ b'"' ∷ rest) ≡ some (s, rest)
unfolding escapes
read_json-escapes [] rest h = unfold read_json in refl
read_json-escapes (c ∷ s) rest h =
    ap (read_json plain) (append_assoc (escape_byte c) (escapes s) (b'"' ∷ rest))
    ∙ read_json-escape_byte c (escapes s ++ b'"' ∷ rest) h.0
    ∙ ap (cons_first c) (read_json-escapes s rest h.1)

-- What the writer holds behind a call that is given `s`.
pub record IsWritten (w w' : JsonWriter) (s : Bytes) : Type 0 where
  pub capacity_eq : w'.capacity ≡ w.capacity
  pub fits_iff : (w'.failed ≡ false) ↔ (length w.written + length s < w.capacity)
  pub written_eq : w'.failed ≡ false → w'.written ≡ w.written ++ s

pub json_append-IsWritten :
    (w : JsonWriter) (s : Bytes) → w.failed ≡ false → IsWritten w (json_append w s) s
unfolding json_append
json_append-IsWritten w s on = ground arith

pub json_append_failed : (w : JsonWriter) (s : Bytes) → w.failed ≡ true → json_append w s ≡ w
unfolding json_append
json_append_failed w s off = rw off refl

json_bytes_failed : (w : JsonWriter) (s : Bytes) → w.failed ≡ true → json_bytes w s ≡ w
unfolding json_bytes
json_bytes_failed w [] off = refl
json_bytes_failed w (c ∷ s) off = simp off refl

json_bytes-IsWritten :
    (w : JsonWriter) (s : Bytes)
    → w.failed ≡ false
    → length w.written < w.capacity
    → IsWritten w (json_bytes w s) (escapes s)
unfolding json_bytes escapes
json_bytes-IsWritten w [] on room = ground (arith, append-nil w.written)
json_bytes-IsWritten w (c ∷ s) on room =
    let next = json_append w (escape_byte c) in
    ground (
      arith,
      json_append-IsWritten w (escape_byte c) on,
      json_bytes_failed next s,
      json_bytes-IsWritten next s,
      length-append (escape_byte c) (escapes s),
      length-append w.written (escape_byte c),
      append_assoc w.written (escape_byte c) (escapes s),
    )

-- With its quotes.
unfoldable pub quoted : Bytes → Bytes
quoted s = b'"' ∷ (escapes s ++ b'"' ∷ [])

pub json_string-IsWritten :
    (w : JsonWriter) (s : Bytes)
    → w.failed ≡ false
    → length w.written < w.capacity
    → IsWritten w (json_string w s) (quoted s)
unfolding json_string quoted
json_string-IsWritten w s on room =
    let first = json_append w (b'"' ∷ []) in
    let middle = json_bytes first s in
    ground (
      arith,
      json_append-IsWritten w (b'"' ∷ []) on,
      json_bytes_failed first s,
      json_bytes-IsWritten first s,
      json_append-IsWritten middle (b'"' ∷ []),
      json_append_failed middle (b'"' ∷ []),
      length-append w.written (b'"' ∷ []),
      length-append first.written (escapes s),
      length-append (escapes s) (b'"' ∷ []),
      append_assoc w.written (b'"' ∷ []) (escapes s ++ b'"' ∷ []),
      append_assoc first.written (escapes s) (b'"' ∷ []),
    )

pub json_string_failed : (w : JsonWriter) (s : Bytes) → w.failed ≡ true → json_string w s ≡ w
unfolding json_string
json_string_failed w s off =
    ground (arith, json_append_failed w (b'"' ∷ []) off, json_bytes_failed w s off)

-- A text is written as a JSON string that reads back as the text: a writer that has not failed holds
-- behind the call what it held and the quoted text, and fails exactly when that does not fit its
-- buffer with the terminating zero; and behind its opening quote the quoted text reads as the text,
-- up to its closing quote. The elements of the text are bytes, and the writer has room for the
-- terminating zero before the call.
pub json_string-read_json :
    (w : JsonWriter) (s : Bytes)
    → AreBytes s
    → w.failed ≡ false
    → length w.written < w.capacity
    → (let w' = json_string w s in
        ((w'.failed ≡ false) ↔ (length w.written + length (quoted s) < w.capacity))
        × (w'.failed ≡ false → w'.written ≡ w.written ++ quoted s)
        × ((rest : Bytes)
            → (inside : Bytes) × (quoted s ++ rest ≡ b'"' ∷ inside)
              × (read_json plain inside ≡ some (s, rest))))
unfolding quoted
json_string-read_json w s bytes on room =
    let h = json_string-IsWritten w s on room in
    (
      h.fits_iff,
      h.written_eq,
      λ rest. (
        escapes s ++ b'"' ∷ rest,
        ap (◌∷◌ b'"') (append_assoc (escapes s) (b'"' ∷ []) rest),
        read_json-escapes s rest bytes,
      ),
    )
