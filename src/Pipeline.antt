-- ===== src/Pipeline.antt =====
-- The argument vector of a worker: rk3588-media-gateway/src/pipeline/pipeline_builder.c and
-- include/gateway/pipeline_builder.h. `heap` counts the strings that are allocated and not freed.
-- `strdup_ok n` says whether the copy of the argument at place `n` is allocated.
pub mod Command
pub mod Heap
use learn_apue.Base.{
  ℕ, zero, suc, ◌+◌, ◌-◌, ◌*◌, ◌%◌, ◌^◌, Bool, true, false, List, [], ◌∷◌, ◌++◌, Option, none, some,
  ◌==◌, leb, ltb, if◌then◌else◌, length,
}
use learn_apue.Base.Decimal.{decimal_ℤ}
use learn_apue.Base.Int.{ℤ, pos, negsuc}
use learn_apue.Base.Text.{Bytes, text}
use learn_apue.Config.{ChannelConfig, MediamtxConfig, url_cap}
use learn_apue.Status.{Status, ok, validation, no_memory, overflow, GwError, error_set, error_clear}

-- GW_PIPELINE_MAX_ARGS
abbrev pub max_args : ℕ
max_args = 40

pub record Argv : Type 0 where
  pub items : List Bytes
  pub heap : ℕ

-- A part of the construction goes on, or jumps to `fail` with a status and a diagnostic.
pub data Built : Type 0 where
  more : Argv → Built
  failed : Status → Bytes → Argv → Built

infixl 5 ◌>>=◌
abbrev pub ◌>>=◌ : Built → (Argv → Built) → Built
more a >>= f = f a
failed status message a >>= f = failed status message a

-- `gw_pipeline_argv_init`, which forgets what the vector held
unfoldable pub argv_init : Argv → Argv
argv_init a = record a { items = [] }

-- the loop of `free` over the items
abbrev pub free_items : List Bytes → ℕ → ℕ
free_items [] heap = heap
free_items (_ ∷ items) heap = free_items items (heap - 1)

unfoldable pub argv_free : Argv → Argv
argv_free a = record { items = []; heap = free_items a.items a.heap }

-- An `int` from its 32 bits.
abbrev pub int_of : ℕ → ℤ
int_of bits = if ltb bits (2 ^ 31) then pos bits else negsuc (2 ^ 32 - 1 - bits)

-- `fps * 2` of an `int`; an overflow, which C leaves undefined, wraps around.
abbrev pub twice : ℤ → ℤ
twice (pos n) = int_of ((n * 2) % 2 ^ 32)
twice (negsuc n) = int_of ((2 ^ 32 - suc n * 2) % 2 ^ 32)

abbrev pub last_byte : Bytes → ℕ
last_byte [] = 0
last_byte (c ∷ []) = c
last_byte (c ∷ d ∷ cs) = last_byte (d ∷ cs)

-- the format of the `-vf` option, and that of the publish URL
abbrev pub rga_filter : ℤ → ℤ → Bytes
rga_filter width height =
    text "scale_rkrga=w="
    ++ (decimal_ℤ width ++ (text ":h=" ++ (decimal_ℤ height ++ text ":format=nv12")))

unfoldable pub output_url : Bytes → Bytes → Bytes
output_url base path = base ++ ((if last_byte base == b'/' then [] else b'/' ∷ []) ++ path)

-- `none` is a null pointer for the executable's name; the other pointers are not null.
abbrev pub binary_name : Option Bytes → Bytes
binary_name none = text "ffmpeg"
binary_name (some name) = name

-- what follows the appends: the return, or `fail:`
abbrev pub conclude : Built → Option GwError → Status × Argv × Option GwError
conclude (more a) error = (ok, a, error_clear error)
conclude (failed status message a) error = (status, argv_free a, error_set error status message)

module _ (strdup_ok : ℕ → Bool) where
  unfoldable pub append_argument : Bytes → Argv → Built
  append_argument value a =
      if leb max_args (length a.items)
      then failed overflow (text "FFmpeg argument limit exceeded") a
      else if strdup_ok (length a.items)
      then more (record { items = a.items ++ value ∷ []; heap = a.heap + 1 })
      else failed no_memory (text "cannot allocate FFmpeg argument") a

  unfoldable pub append_pair : Bytes → Bytes → Argv → Built
  append_pair option value a = append_argument option a >>= append_argument value

  unfoldable pub append_integer_pair : Bytes → ℤ → Bytes → Argv → Built
  append_integer_pair option value suffix a =
      let buffer = decimal_ℤ value ++ suffix in
      if leb 64 (length buffer)
      then failed overflow (text "cannot format FFmpeg numeric argument") a
      else append_pair option buffer a

  unfoldable pub append_filter : ℤ → ℤ → Argv → Built
  append_filter width height a =
      if leb 160 (length (rga_filter width height))
      then failed overflow (text "RGA filter expression is too long") a
      else append_pair (text "-vf") (rga_filter width height) a

  unfoldable pub append_url : Bytes → Argv → Built
  append_url url a =
      if leb url_cap (length url)
      then failed overflow (text "publish URL is too long") a
      else append_argument url a

  -- The appends of `gw_pipeline_build`, in their order.
  unfoldable pub append_all : ChannelConfig → MediamtxConfig → Bytes → Argv → Built
  append_all channel mediamtx binary a =
      append_argument binary a
      >>= append_argument (text "-nostdin")
      >>= append_argument (text "-hide_banner")
      >>= append_pair (text "-loglevel") (text "warning")
      >>= append_pair (text "-progress") (text "pipe:1")
      >>= append_pair (text "-stats_period") (text "1")
      >>= append_pair (text "-rtsp_transport") channel.input.transport
      >>= append_pair (text "-hwaccel") (text "rkmpp")
      >>= append_pair (text "-hwaccel_output_format") (text "drm_prime")
      >>= append_pair (text "-c:v") channel.video.decoder
      >>= append_pair (text "-i") channel.input.url
      >>= append_filter channel.video.width channel.video.height
      >>= append_pair (text "-c:v") channel.video.encoder
      >>= append_integer_pair (text "-b:v") channel.video.bitrate_kbps (text "k")
      >>= append_integer_pair (text "-r") channel.video.fps []
      >>= append_integer_pair (text "-g") (twice channel.video.fps) []
      >>= append_argument (text "-an")
      >>= append_pair (text "-f") (text "rtsp")
      >>= append_pair (text "-rtsp_transport") (text "tcp")
      >>= append_url (output_url mediamtx.publish_base_url channel.output.path)

  unfoldable pub pipeline_build :
      ChannelConfig
      → MediamtxConfig
      → Option Bytes
      → Argv
      → Option GwError
      → Status × Argv × Option GwError
  pipeline_build channel mediamtx ffmpeg_binary a error =
      if length mediamtx.publish_base_url == 0
      then (validation, a, error_set error validation (text "MediaMTX publish base URL is empty"))
      else conclude (append_all channel mediamtx (binary_name ffmpeg_binary) (argv_init a)) error
