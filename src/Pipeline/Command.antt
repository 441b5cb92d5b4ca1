-- ===== src/Pipeline/Command.antt =====
-- The worker's command line: what pipeline_builder.c builds, and what it frees.
use mathlib.Core.List.{append_assoc, append-nil}
use mathlib.Core.Path.{subst}
use learn_apue.Base.{
  ◌*◌, ◌^◌, ◌<◌, none, some, sym, ap, ◌∙◌, ==_iff, ℕ, zero, suc, leb, ◌/◌, ◌%◌, ◌==◌, ◌+◌, ◌≤◌,
  true, false, List, [], ◌∷◌, ◌++◌, Option, ◌≡◌, ◌≢◌, refl, arith, Bool-cases, inl, inr,
  length-append, if◌then◌else◌, length,
}
use learn_apue.Base.Decimal.{decimal_ℤ, decimal, decimal_digits}
use learn_apue.Base.Int.{ℤ, pos, negsuc}
use learn_apue.Base.Text.{Bytes, text}
use learn_apue.Config.{ChannelConfig, MediamtxConfig, url_cap}
use learn_apue.Status.{ok, overflow, GwError, error_set, error_clear}
use learn_apue.Pipeline.{
  Argv, more, failed, argv_init, argv_free, twice, last_byte, rga_filter, output_url,
  append_argument, append_pair, append_integer_pair, append_filter, append_url, append_all,
  binary_name, pipeline_build,
}

length-decimal_digits : (fuel n : ℕ) → length (decimal_digits fuel n) ≤ fuel
unfolding decimal_digits
length-decimal_digits zero n = omega arith
length-decimal_digits (suc fuel) n = ground (
  arith,
  length-decimal_digits fuel (n / 10),
  length-append (decimal_digits fuel (n / 10)) ((48 + n % 10) ∷ []),
)

length-decimal_ℤ : (z : ℤ) → length (decimal_ℤ z) ≤ 21
unfolding decimal_ℤ decimal
length-decimal_ℤ (pos n) = ground (arith, length-decimal_digits 20 n)
length-decimal_ℤ (negsuc n) = ground (arith, length-decimal_digits 20 (suc n))

short_number : (z : ℤ) → leb 64 (length (decimal_ℤ z ++ [])) ≡ false
short_number z = ground (arith, length-decimal_ℤ z, length-append (decimal_ℤ z) [])

short_rate : (z : ℤ) → leb 64 (length (decimal_ℤ z ++ text "k")) ≡ false
unfolding text
short_rate z = ground (arith, length-decimal_ℤ z, length-append (decimal_ℤ z) (text "k"))

short_filter : (w h : ℤ) → leb 160 (length (rga_filter w h)) ≡ false
unfolding text
short_filter w h = ground (
  arith,
  length-decimal_ℤ w,
  length-decimal_ℤ h,
  length-append (decimal_ℤ w) (text ":h=" ++ (decimal_ℤ h ++ text ":format=nv12")),
  length-append (decimal_ℤ h) (text ":format=nv12"),
)

-- The options that pipeline_builder.h documents, for a channel of that many frames a second and the name
-- of the executable.
abbrev pub options : ChannelConfig → ℕ → Bytes → List Bytes
options channel fps binary =
    binary
    ∷ text "-nostdin"
    ∷ text "-hide_banner"
    ∷ text "-loglevel"
    ∷ text "warning"
    ∷ text "-progress"
    ∷ text "pipe:1"
    ∷ text "-stats_period"
    ∷ text "1"
    ∷ text "-rtsp_transport"
    ∷ channel.input.transport
    ∷ text "-hwaccel"
    ∷ text "rkmpp"
    ∷ text "-hwaccel_output_format"
    ∷ text "drm_prime"
    ∷ text "-c:v"
    ∷ channel.video.decoder
    ∷ text "-i"
    ∷ channel.input.url
    ∷ text "-vf"
    ∷ (text "scale_rkrga=w="
        ++ (decimal_ℤ channel.video.width
            ++ (text ":h=" ++ (decimal_ℤ channel.video.height ++ text ":format=nv12"))))
    ∷ text "-c:v"
    ∷ channel.video.encoder
    ∷ text "-b:v"
    ∷ (decimal_ℤ channel.video.bitrate_kbps ++ text "k")
    ∷ text "-r"
    ∷ decimal fps
    ∷ text "-g"
    ∷ decimal (2 * fps)
    ∷ text "-an"
    ∷ text "-f"
    ∷ text "rtsp"
    ∷ text "-rtsp_transport"
    ∷ text "tcp"
    ∷ []

-- The command line, with the URL that the worker publishes to.
abbrev pub command_line : ChannelConfig → ℕ → Bytes → Bytes → List Bytes
command_line channel fps binary publish_url = options channel fps binary ++ publish_url ∷ []

-- The name of the executable, or the default that is documented.
abbrev pub executable : Option Bytes → Bytes
executable none = text "ffmpeg"
executable (some name) = name

-- The URL is the base URL and the path with one slash between them: that of the base URL, if it ends
-- with one.
pub data Joins (base path : Bytes) : Bytes → Type 0 where
  own_slash : (stem : Bytes) → base ≡ stem ++ b'/' ∷ [] → Joins base path (stem ++ (b'/' ∷ path))
  new_slash : ((stem : Bytes) → base ≢ stem ++ b'/' ∷ []) → Joins base path (base ++ (b'/' ∷ path))

last_byte-append : (stem : Bytes) (c : ℕ) → last_byte (stem ++ c ∷ []) ≡ c
last_byte-append [] c = refl
last_byte-append (a ∷ []) c = refl
last_byte-append (a ∷ b ∷ stem) c = last_byte-append (b ∷ stem) c

-- A text that ends with a slash.
stem_of : (base : Bytes) → last_byte base ≡ b'/' → (stem : Bytes) × (base ≡ stem ++ b'/' ∷ [])
stem_of [] h = absurd (omega arith)
stem_of (c ∷ []) h = ([], ap (λ x. x ∷ []) h)
stem_of (c ∷ d ∷ cs) h = let (stem, e) = stem_of (d ∷ cs) h in (c ∷ stem, ap (λ t. c ∷ t) e)

output_url-Joins : (base path : Bytes) → Joins base path (output_url base path)
unfolding output_url
output_url-Joins base path = elim (Bool-cases (last_byte base == b'/')) [
  | inl slash ↦
      let (stem, e) = stem_of base ((==_iff (last_byte base) b'/').0 slash) in
      let same : stem ++ (b'/' ∷ path) ≡ base ++ path =
        sym (append_assoc stem (b'/' ∷ []) path) ∙ ap (λ t. t ++ path) (sym e) in
      rw slash (subst (Joins base path) same (own_slash stem e))
  | inr other ↦ rw other (
      new_slash
        (λ stem e. ground (arith, other, ap (λ t. last_byte t) e, last_byte-append stem b'/')))
]

plain_number : (n : ℕ) → decimal_ℤ (pos n) ++ [] ≡ decimal n
unfolding decimal_ℤ
plain_number n = append-nil (decimal n)

-- Within the range the product is the number.
twice-eq : (n : ℕ) → n * 2 < 2 ^ 31 → twice (pos n) ≡ pos (2 * n)
twice-eq n h = ground arith

append_all-command_line :
    (channel : ChannelConfig) (mediamtx : MediamtxConfig) (binary : Bytes) (heap fps : ℕ)
    → channel.video.fps ≡ pos fps
    → fps * 2 < 2 ^ 31
    → (let url = output_url mediamtx.publish_base_url channel.output.path in
        append_all (λ n. true) channel mediamtx binary (record { items = []; heap = heap }) ≡ (
          if leb url_cap (length url)
          then failed overflow
              (text "publish URL is too long")
              (record { items = options channel fps binary; heap = heap + 34 })
          else more (record { items = command_line channel fps binary url; heap = heap + 35 })))
unfolding append_all append_pair append_argument append_integer_pair append_filter append_url
append_all-command_line channel mediamtx binary heap fps rate fits =
    rw
      (
        short_filter channel.video.width channel.video.height,
        short_rate channel.video.bitrate_kbps,
        rate,
        twice-eq fps fits,
        short_number (pos fps),
        short_number (pos (2 * fps)),
      )
      (rw (plain_number fps, plain_number (2 * fps)) (ground arith))

filled : (s : Bytes) → s ≢ [] → (length s == 0) ≡ false
filled [] h = absurd (h refl)
filled (c ∷ s) h = ground arith

binary_name-executable : (o : Option Bytes) → binary_name o ≡ executable o
binary_name-executable none = refl
binary_name-executable (some name) = refl

-- For a channel whose doubled frame rate fits an `int`, when no allocation fails and the base URL is not
-- empty, the worker is given exactly the command line that the header documents, in 35 allocated strings: its
-- key frames are two seconds apart, and it publishes to the base URL and the path with one slash between
-- them. A publish URL that does not fit its buffer is refused, and then all strings are freed.
pub pipeline_build_command :
    (channel : ChannelConfig) (mediamtx : MediamtxConfig) (ffmpeg_binary : Option Bytes) (a : Argv)
    (error : Option GwError) (fps : ℕ)
    → mediamtx.publish_base_url ≢ []
    → channel.video.fps ≡ pos fps
    → fps * 2 < 2 ^ 31
    → (url : Bytes) × Joins mediamtx.publish_base_url channel.output.path url
      × (pipeline_build (λ n. true) channel mediamtx ffmpeg_binary a error ≡ (
          if leb url_cap (length url)
          then (
            overflow,
            record { items = []; heap = a.heap },
            error_set error overflow (text "publish URL is too long"),
          )
          else (
            ok,
            record {
              items = command_line channel fps (executable ffmpeg_binary) url;
              heap = a.heap + 35;
            },
            error_clear error,
          )))
unfolding pipeline_build argv_init argv_free
pipeline_build_command channel mediamtx ffmpeg_binary a error fps h rate fits =
    let url = output_url mediamtx.publish_base_url channel.output.path in
    let run =
      append_all-command_line channel mediamtx (executable ffmpeg_binary) a.heap fps rate fits in
    let name = binary_name-executable ffmpeg_binary in
    (
      url,
      output_url-Joins mediamtx.publish_base_url channel.output.path,
      elim (Bool-cases (leb url_cap (length url))) [
        | inl b ↦ simp (filled mediamtx.publish_base_url h, name, run, b) (ground arith)
        | inr b ↦ simp (filled mediamtx.publish_base_url h, name, run, b) refl
      ],
    )
