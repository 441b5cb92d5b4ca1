-- ===== src/Pipeline/Heap.antt =====
-- No string is lost: what the construction of pipeline_builder.c leaves allocated.
use learn_apue.Base.{
  ℕ, ◌+◌, ◌≤◌, Bool, List, [], ◌∷◌, ◌++◌, Option, ◌≡◌, ◌≢◌, ◌⊎◌, refl, ap, ◌∙◌, inl, inr, arith,
  length, length-append,
}
use learn_apue.Base.Decimal.{decimal_ℤ}
use learn_apue.Base.Int.{ℤ}
use learn_apue.Base.Text.{Bytes, text}
use learn_apue.Config.{ChannelConfig, MediamtxConfig}
use learn_apue.Status.{ok, GwError}
use learn_apue.Pipeline.{
  Argv, Built, more, failed, ◌>>=◌, argv_init, argv_free, free_items, rga_filter, append_argument,
  append_pair, append_integer_pair, append_filter, append_url, append_all, binary_name, conclude,
  pipeline_build, max_args,
}

-- The items are what was allocated since `heap` strings were, and the array holds them.
pub record IsOwner (heap : ℕ) (a : Argv) : Type 0 where
  pub owned : a.heap ≡ heap + length a.items
  pub fits : length a.items ≤ max_args

abbrev pub IsBuilt : ℕ → Built → Type 0
IsBuilt heap (more a) = IsOwner heap a
IsBuilt heap (failed status message a) = IsOwner heap a × (status ≢ ok)

free_items-all : (heap : ℕ) (items : List Bytes) → free_items items (heap + length items) ≡ heap
free_items-all heap [] = omega arith
free_items-all heap (x ∷ items) = ap (free_items items) (omega arith) ∙ free_items-all heap items

bind-IsBuilt :
    (heap : ℕ) (m : Built) (f : Argv → Built)
    → IsBuilt heap m
    → ((a : Argv) → IsOwner heap a → IsBuilt heap (f a))
    → IsBuilt heap (m >>= f)
bind-IsBuilt heap (more a) f h k = k a h
bind-IsBuilt heap (failed status message a) f h k = h

module _ (strdup_ok : ℕ → Bool) (heap : ℕ) where
  append_argument-IsBuilt :
      (value : Bytes) (a : Argv) → IsOwner heap a → IsBuilt heap (append_argument strdup_ok value a)
  unfolding append_argument
  append_argument-IsBuilt value a h = ground (arith, length-append a.items (value ∷ []))

  append_pair-IsBuilt :
      (option value : Bytes) (a : Argv)
      → IsOwner heap a
      → IsBuilt heap (append_pair strdup_ok option value a)
  unfolding append_pair
  append_pair-IsBuilt option value a h =
      bind-IsBuilt heap _ (append_argument strdup_ok value) (append_argument-IsBuilt option a h)
        (append_argument-IsBuilt value)

  append_integer_pair-IsBuilt :
      (option : Bytes) (value : ℤ) (suffix : Bytes) (a : Argv)
      → IsOwner heap a
      → IsBuilt heap (append_integer_pair strdup_ok option value suffix a)
  unfolding append_integer_pair
  append_integer_pair-IsBuilt option value suffix a h =
      ground (arith, append_pair-IsBuilt option (decimal_ℤ value ++ suffix) a h)

  append_filter-IsBuilt :
      (width height : ℤ) (a : Argv)
      → IsOwner heap a
      → IsBuilt heap (append_filter strdup_ok width height a)
  unfolding append_filter
  append_filter-IsBuilt width height a h =
      ground (arith, append_pair-IsBuilt (text "-vf") (rga_filter width height) a h)

  append_url-IsBuilt :
      (url : Bytes) (a : Argv) → IsOwner heap a → IsBuilt heap (append_url strdup_ok url a)
  unfolding append_url
  append_url-IsBuilt url a h = ground (arith, append_argument-IsBuilt url a h)

  ruleset appends = (
    bind-IsBuilt, append_argument-IsBuilt, append_pair-IsBuilt, append_integer_pair-IsBuilt,
    append_filter-IsBuilt, append_url-IsBuilt,
  )

  append_all-IsBuilt :
      (channel : ChannelConfig) (mediamtx : MediamtxConfig) (binary : Bytes) (a : Argv)
      → IsOwner heap a
      → IsBuilt heap (append_all strdup_ok channel mediamtx binary a)
  unfolding append_all
  append_all-IsBuilt channel mediamtx binary a h = search appends depth 30

conclude-IsOwner :
    (heap : ℕ) (m : Built) (error : Option GwError)
    → IsBuilt heap m
    → let (status, a, _) = conclude m error in
      ((status ≡ ok) × IsOwner heap a) ⊎ ((status ≢ ok) × (a.heap ≡ heap) × (a.items ≡ []))
unfolding argv_free
conclude-IsOwner heap (more a) error h = inl (refl, h)
conclude-IsOwner heap (failed status message a) error (h, e) =
    inr (e, rw h.owned (free_items-all heap a.items), refl)

-- Whichever allocation fails, the construction ends with the vector that owns every string
-- allocated, within its array, or with an error: then nothing stays allocated, and the vector is
-- empty unless the base URL was, in which case the vector is not touched.
pub pipeline_build_owns :
    (strdup_ok : ℕ → Bool) (channel : ChannelConfig) (mediamtx : MediamtxConfig)
    (ffmpeg_binary : Option Bytes) (a : Argv) (error : Option GwError)
    → let (status, a', _) = pipeline_build strdup_ok channel mediamtx ffmpeg_binary a error in
      ((status ≡ ok) × IsOwner a.heap a')
      ⊎ ((status ≢ ok)
          × (a'.heap ≡ a.heap)
          × ((a'.items ≡ []) ⊎ ((mediamtx.publish_base_url ≡ []) × (a'.items ≡ a.items))))
unfolding pipeline_build argv_init argv_free
pipeline_build_owns strdup_ok channel mediamtx ffmpeg_binary a error =
    let m = append_all strdup_ok channel mediamtx (binary_name ffmpeg_binary) (argv_init a) in
    let fresh : IsOwner a.heap (argv_init a) = ground arith in
    ground (
      arith,
      conclude-IsOwner a.heap m error (
          append_all-IsBuilt strdup_ok a.heap channel mediamtx (binary_name ffmpeg_binary)
            (argv_init a) fresh),
    )
