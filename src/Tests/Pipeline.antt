-- ===== src/Tests/Pipeline.antt =====
-- A command line at a concrete channel: pipeline_builder.c.
use learn_apue.Base.{
  ◌+◌, ◌==◌, true, not, [], none, some, ◌≡◌, ◌≢◌, ◌⊎◌, refl, arith, leb, if◌then◌else◌, length,
}
use learn_apue.Base.Text.{Bytes, text}
use learn_apue.Config.{url_cap}
use learn_apue.Pipeline.{
  append_all, append_argument, argv_init, append_pair, argv_free, Argv, pipeline_build,
}
use learn_apue.Pipeline.Command.{command_line, executable, Joins, pipeline_build_command}
use learn_apue.Pipeline.Heap.{IsOwner, pipeline_build_owns}
use learn_apue.Status.{ok, overflow, error_set, error_clear}
use learn_apue.Tests.Config.{camera, gateway}

abbrev nothing : Argv
nothing = record { items = []; heap = 2 }

base_given : gateway.mediamtx.publish_base_url ≢ []
unfolding text
base_given e = ground arith

pipeline_build_command_example :
    (url : Bytes) × Joins gateway.mediamtx.publish_base_url camera.output.path url
    × (pipeline_build (λ n. true) camera gateway.mediamtx none nothing none ≡ (
        if leb url_cap (length url)
        then (
          overflow,
          record { items = []; heap = 2 },
          error_set none overflow (text "publish URL is too long"),
        )
        else (
          ok,
          record { items = command_line camera 25 (executable none) url; heap = 2 + 35 },
          error_clear none,
        )))
pipeline_build_command_example =
    pipeline_build_command camera gateway.mediamtx none nothing none 25 base_given refl
      (omega arith)

pipeline_build_owns_example :
    let (status, a', _) =
      pipeline_build
        (λ n. not (n == 7))
        camera
        gateway.mediamtx
        (some (text "ffmpeg6"))
        nothing
        none in
    ((status ≡ ok) × IsOwner 2 a')
    ⊎ ((status ≢ ok)
        × (a'.heap ≡ 2)
        × ((a'.items ≡ []) ⊎ ((gateway.mediamtx.publish_base_url ≡ []) × (a'.items ≡ []))))
pipeline_build_owns_example =
    pipeline_build_owns (λ n. not (n == 7)) camera gateway.mediamtx (some (text "ffmpeg6")) nothing
      none

-- the copy of the eighth argument fails
eighth_fails :
    (pipeline_build (λ n. not (n == 7)) camera gateway.mediamtx none nothing none).1 ≡ nothing
unfolding pipeline_build text append_all append_argument argv_init append_pair argv_free
eighth_fails = refl
