-- ===== src/Tests/Monitor.antt =====
-- Samples of workers and of the recording directory at concrete inputs: process_metrics.c,
-- recording_status.c, and the sampler of channel_manager.c.
use learn_apue.Base.{ℕ, ◌+◌, true, List, [], ◌∷◌, some, none, ◌≡◌, refl, arith, map}
use learn_apue.Base.Int.{ℤ, pos, negsuc}
use learn_apue.Base.Text.{Bytes, text, starts_with}
use learn_apue.Config.{RecordingConfig}
use learn_apue.Manager.Creating.{new_manager, configure_all}
use learn_apue.Manager.Sampler.Current.{AreOwn, sample_pass-AreOwn}
use learn_apue.Manager.Sampler.{Reading, target_of, sample_pass}
use learn_apue.Manager.{Entry, find_free_entry, find_from}
use learn_apue.Metrics.Proc.Stat.{stat_line, parse_stat-stat_line}
use learn_apue.Metrics.Proc.{parse_stat, parse_status, find_rss, strto, skip_tabs}
use learn_apue.Progress.Numbers.{skip_spaces, read_digits}
use learn_apue.Recording.Capacity.{IsReading, recording_snapshot_read-IsReading}
use learn_apue.Recording.{Filesystem, recording_snapshot_read}
use learn_apue.Tests.Config.{gateway}

abbrev nine_fields : List ℤ
nine_fields = pos 1 ∷ pos 4 ∷ pos 0 ∷ negsuc 0 ∷ pos 5 ∷ pos 6 ∷ pos 7 ∷ pos 8 ∷ pos 9 ∷ []

-- a command called `f) S (`
abbrev command : Bytes
command = b'f' ∷ b')' ∷ 32 ∷ b'S' ∷ 32 ∷ b'(' ∷ []

parse_stat-stat_line_example :
    parse_stat (stat_line (b'7' ∷ []) command b'R' (pos 1 ∷ nine_fields) 250 50 (b'2' ∷ []))
    ≡ some (250 + 50)
parse_stat-stat_line_example =
    parse_stat-stat_line (b'7' ∷ []) command b'R' (pos 1) nine_fields 250 50 (b'2' ∷ []) refl
      (omega arith) refl (refl, tt) (omega arith)

rss_runs : parse_status (text "Name:\tf\nVmRSS:\t  512 kB\nThreads:\t1\n") ≡ some 512
unfolding parse_status find_rss text starts_with strto skip_tabs skip_spaces read_digits
rss_runs = refl

abbrev disk : Filesystem
disk = record { f_frsize = 4096; f_bsize = 8192; f_blocks = 1000000; f_bavail = 200000 }

abbrev recording : RecordingConfig
recording = record gateway.mediamtx.recording { enabled = true }

recording_snapshot_read-IsReading_example :
    IsReading true (some disk) 1024 (recording_snapshot_read (some disk) recording none)
recording_snapshot_read-IsReading_example =
    recording_snapshot_read-IsReading (some disk) recording none 1024 refl (omega arith)

abbrev entries : List Entry
entries = (new_manager gateway).entries

abbrev unread : ℕ → Reading
unread slot = record { sample_time_ns = pos 5; raw = none; meanwhile = λ e. e }

sample_pass-AreOwn_example :
    AreOwn (sample_pass (λ ticks rate time. 0) (pos 100) unread (map target_of entries) entries)
unfolding configure_all find_free_entry find_from
sample_pass-AreOwn_example =
    sample_pass-AreOwn (λ ticks rate time. 0) (pos 100) unread (map target_of entries) entries refl
