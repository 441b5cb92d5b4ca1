-- ===== src/Snapshot/Invariant.antt =====
-- What holds of every snapshot that channel_snapshot.c builds.
use learn_apue.Base.{◌<◌, false, List, [], ◌∷◌, ◌≡◌, ◌≢◌, ◌⊎◌, length, length-take, arith}
use learn_apue.Base.Int.{ℤ, eq_ℤ_iff}
use learn_apue.Base.Text.{Bytes, text}
use learn_apue.Channel.{Runtime}
use learn_apue.Config.{ChannelConfig}
use learn_apue.Progress.{WorkerProgress, no_progress}
use learn_apue.Snapshot.{
  none, worker, Snapshot, minus_one, snapshot_init, update_runtime, set_process, clear_process,
  clear_live_data, set_progress,
}

-- The calls that the supervisor makes. A process that is set is a worker.
pub data Update : Type 0 where
  runtime_changed : Runtime → Bytes → Update
  worker_set : ℤ → Bytes → Update
  process_cleared : ℤ → Bytes → Update
  live_data_cleared : Update
  progress_set : WorkerProgress → Bytes → Update

abbrev pub apply : Snapshot → Update → Snapshot
apply s (runtime_changed r event) = update_runtime s r event
apply s (worker_set pid event) = set_process s worker pid event
apply s (process_cleared code event) = clear_process s code event
apply s live_data_cleared = clear_live_data s
apply s (progress_set p event) = set_progress s p event

abbrev pub apply_all : Snapshot → List Update → Snapshot
apply_all s [] = s
apply_all s (u ∷ us) = apply_all (apply s u) us

pub record IsSnapshot (s : Snapshot) : Type 0 where
  pub id_fits : length s.channel_id < 65
  pub event_fits : length s.last_event < 64
  pub no_process : s.process_kind ≡ none → s.process_pid ≡ minus_one
  pub running_no_exit : s.process_kind ≡ worker → s.has_exit_code ≡ false
  pub no_exit : s.has_exit_code ≡ false → s.last_exit_code ≡ minus_one
  pub no_record : s.has_progress ≡ false → s.progress ≡ no_progress

snapshot_init-IsSnapshot : (channel : ChannelConfig) → IsSnapshot (snapshot_init channel)
unfolding snapshot_init
snapshot_init-IsSnapshot channel =
    ground (arith, length-take 64 channel.id, length-take 63 (text "initialized"))

apply-IsSnapshot : (s : Snapshot) (u : Update) → IsSnapshot s → IsSnapshot (apply s u)
unfolding update_runtime set_process clear_process clear_live_data set_progress
apply-IsSnapshot s (runtime_changed r event) h = ground (arith, length-take 63 event)
apply-IsSnapshot s (worker_set pid event) h = ground (arith, length-take 63 event)
apply-IsSnapshot s (process_cleared code event) h = ground (arith, length-take 63 event)
apply-IsSnapshot s live_data_cleared h = ground arith
apply-IsSnapshot s (progress_set p event) h = ground (arith, length-take 63 event)

apply_all-IsSnapshot :
    (s : Snapshot) (us : List Update) → IsSnapshot s → IsSnapshot (apply_all s us)
apply_all-IsSnapshot s [] h = h
apply_all-IsSnapshot s (u ∷ us) h = apply_all-IsSnapshot (apply s u) us (apply-IsSnapshot s u h)

-- After any updates a snapshot is consistent: identifier and event fit their arrays, there is no
-- process identifier without a worker and no exit code beside one, and no progress values are left
-- where none are reported.
pub updates-IsSnapshot :
    (channel : ChannelConfig) (us : List Update) → IsSnapshot (apply_all (snapshot_init channel) us)
updates-IsSnapshot channel us =
    apply_all-IsSnapshot (snapshot_init channel) us (snapshot_init-IsSnapshot channel)

-- A new worker never shows the progress of the one before: when the process identifier changes, no
-- progress is reported until the worker itself reports some.
pub set_process_fresh :
    (s : Snapshot) (pid : ℤ) (event : Bytes)
    → (s.process_kind ≡ none) ⊎ (s.process_pid ≢ pid)
    → ((set_process s worker pid event).has_progress ≡ false)
      × ((set_process s worker pid event).progress ≡ no_progress)
unfolding set_process
set_process_fresh s pid event h = ground (arith, eq_ℤ_iff s.process_pid pid)
