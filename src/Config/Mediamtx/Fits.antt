-- ===== src/Config/Mediamtx/Fits.antt =====
-- What mediamtx_config.c leaves in the output: the whole document, or nothing.
use mathlib.Core.List.{append_assoc, append-nil}
use mathlib.Core.Path.{subst}
use learn_apue.Base.{
  ℕ, ◌<◌, Bool, false, List, [], ◌∷◌, ◌++◌, Option, ◌==◌, leb, if◌then◌else◌, length, length-append,
  ◌≡◌, refl, sym, ◌∙◌, arith, Bool-cases, inl, inr,
}
use learn_apue.Base.Text.{Bytes, text}
use learn_apue.Config.{RecordingConfig, ChannelConfig, Config}
use learn_apue.Config.Mediamtx.{
  Writer, append, preamble, path_entry, append_paths, finished, render_config,
}
use learn_apue.Config.Validate.{validate}
use learn_apue.Status.{ok, overflow, GwError, error_set, error_clear}

abbrev pub path_entries : RecordingConfig → List ChannelConfig → Bytes
path_entries r [] = []
path_entries r (channel ∷ channels) = path_entry r channel ++ path_entries r channels

-- The document: the preamble and an entry for each channel.
abbrev pub document : Config → Bytes
document c = preamble c.mediamtx.recording ++ path_entries c.mediamtx.recording c.channels

-- The writer that `s` has been written with: it holds `s`, or it failed, since `s` does not fit.
pub record IsWritten (capacity : ℕ) (s : Bytes) (w : Writer) : Type 0 where
  pub same_capacity : w.capacity ≡ capacity
  pub failed_iff : w.failed ≡ leb capacity (length s)
  pub holds : w.failed ≡ false → w.written ≡ s

append-IsWritten :
    (capacity : ℕ) (s t : Bytes) (w : Writer)
    → IsWritten capacity s w
    → IsWritten capacity (s ++ t) (append w t)
unfolding append
append-IsWritten capacity s t w h = ground (arith, length-append s t, h.failed_iff, h.same_capacity)

append_paths-IsWritten :
    (capacity : ℕ) (r : RecordingConfig) (channels : List ChannelConfig) (s : Bytes) (w : Writer)
    → IsWritten capacity s w
    → IsWritten capacity (s ++ path_entries r channels) (append_paths r channels w)
unfolding append_paths
append_paths-IsWritten capacity r [] s w h =
    subst (λ t. IsWritten capacity t w) (sym (append-nil s)) h
append_paths-IsWritten capacity r (channel ∷ channels) s w h =
    subst (λ t. IsWritten capacity t (append_paths r channels (append w (path_entry r channel))))
      (append_assoc s (path_entry r channel) (path_entries r channels))
      (append_paths-IsWritten capacity r channels (s ++ path_entry r channel)
        (append w (path_entry r channel)) (append-IsWritten capacity s (path_entry r channel) w h))

finished-IsWritten :
    (capacity : ℕ) (s : Bytes) (w : Writer) (error : Option GwError)
    → IsWritten capacity s w
    → finished w error ≡ (
        if leb capacity (length s)
        then (
          overflow,
          [],
          error_set error overflow (text "MediaMTX configuration exceeds output capacity"),
        )
        else (ok, s, error_clear error))
finished-IsWritten capacity s w error h = elim (Bool-cases (leb capacity (length s))) [
  | inl over ↦ rw (h.failed_iff, over) refl
  | inr fits ↦ rw (h.failed_iff, fits, h.holds (h.failed_iff ∙ fits)) refl
]

-- For a configuration that validation accepts and a buffer that is not empty, the output is the
-- whole MediaMTX document, the preamble with one entry for each channel, if the document fits the
-- buffer with its terminating zero. Else the output is empty and an overflow is reported.
pub render_config-document :
    (is_ipv4 is_ipv6 : Bytes → Bool) (c : Config) (output : Bytes) (capacity : ℕ)
    (error : Option GwError) {error' : Option GwError}
    → 0 < capacity
    → validate is_ipv4 is_ipv6 c error ≡ (ok, error')
    → render_config is_ipv4 is_ipv6 c output capacity error ≡ (
        if leb capacity (length (document c))
        then (
          overflow,
          [],
          error_set error' overflow (text "MediaMTX configuration exceeds output capacity"),
        )
        else (ok, document c, error_clear error'))
unfolding render_config
render_config-document is_ipv4 is_ipv6 c output capacity error {error'} h q =
    let r = c.mediamtx.recording in
    let fresh : Writer = record { written = []; capacity = capacity; failed = false } in
    let begun = append-IsWritten capacity [] (preamble r) fresh (ground arith) in
    let filled : (capacity == 0) ≡ false = ground arith in
    rw (filled, q)
      (finished-IsWritten capacity (document c) _ error' (
        append_paths-IsWritten capacity r c.channels (preamble r) (append fresh (preamble r))
          begun))
