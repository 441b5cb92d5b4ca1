-- ===== src/Manager/Sampler/Current.antt =====
-- What the sampler of rk3588-media-gateway/src/channel/channel_manager.c leaves in an entry belongs to
-- the worker that the entry has.
use learn_apue.Base.{
  ℕ, suc, true, List, [], ◌∷◌, Option, none, some, ◌≡◌, arith, ==_iff, if◌then◌else◌, length,
}
use learn_apue.Base.Int.{ℤ, pos, ltb_ℤ, eq_ℤ_iff}
use learn_apue.Manager.{Entry}
use learn_apue.Manager.Sampler.{
  Target, Reading, has_worker, prepare, is_current, store, measure, sample_slot, sample_slots,
  sample_pass,
}
use learn_apue.Metrics.{ProcessMetrics, Tracker, tracker_update, measured}
use learn_apue.Snapshot.{is_worker, minus_one}

-- A sample is shown as available only where the entry has a worker, and then it is that worker's.
abbrev pub IsOwn : Entry → Type 0
IsOwn e =
    e.worker_metrics.available ≡ true
    → (e.occupied ≡ true)
      × (is_worker e.snapshot.process_kind ≡ true)
      × (e.worker_metrics.pid ≡ e.snapshot.process_pid)

abbrev pub AreOwn : List Entry → Type 0
AreOwn [] = Unit
AreOwn (e ∷ es) = IsOwn e × AreOwn es

module _ (percent : ℕ → ℤ → ℕ → ℕ) (clock_ticks_per_second : ℤ) where
  tracker_update-pid :
      (tracker : Tracker) (pid : ℤ) (raw : Option ProcessMetrics) (time : ℤ)
      → (let sampled = (tracker_update percent tracker pid raw time clock_ticks_per_second).1 in
          (sampled.pid ≡ pid) × (sampled.available ≡ true → ltb_ℤ (pos 0) pid ≡ true))
  unfolding tracker_update measured
  tracker_update-pid tracker pid none time = ground arith
  tracker_update-pid tracker pid (some metrics) time = ground arith

  measure_lem :
      (t : Target) (r : Reading) (e : Entry)
      → (let sampled = (measure percent clock_ticks_per_second t r e).1 in
          sampled.available ≡ true → (has_worker t ≡ true) × (sampled.pid ≡ t.process_pid))
  unfolding measure
  measure_lem t r e shown =
      let raw : Option ProcessMetrics = if has_worker t then r.raw else none in
      let pid = if has_worker t then t.process_pid else minus_one in
      ground (arith, tracker_update-pid e.metrics_tracker pid raw r.sample_time_ns)

  sample_slot-IsOwn :
      (t : Target) (r : Reading) (e : Entry)
      → IsOwn (sample_slot percent clock_ticks_per_second t r e)
  unfolding sample_slot store is_current
  sample_slot-IsOwn t r e shown =
      let measuring = measure percent clock_ticks_per_second t r (prepare t e) in
      let now = r.meanwhile measuring.0 in
      ground (
        arith,
        measure_lem t r (prepare t e),
        ==_iff now.generation t.generation,
        eq_ℤ_iff now.snapshot.process_pid t.process_pid,
      )

  sample_slots-AreOwn :
      (readings : ℕ → Reading) (slot : ℕ) (ts : List Target) (es : List Entry)
      → length ts ≡ length es
      → AreOwn (sample_slots percent clock_ticks_per_second readings slot ts es)
  unfolding sample_slots
  sample_slots-AreOwn readings slot [] [] same = tt
  sample_slots-AreOwn readings slot (t ∷ ts) (e ∷ es) same = (
    sample_slot-IsOwn t (readings slot) e,
    sample_slots-AreOwn readings (suc slot) ts es (omega (arith, same)),
  )
  sample_slots-AreOwn readings slot [] (e ∷ es) same = absurd (omega (arith, same))
  sample_slots-AreOwn readings slot (t ∷ ts) [] same = absurd (omega (arith, same))

  -- A pass of the sampler stores a sample only for the worker that the entry has when it is stored:
  -- a sample that is available stands in an occupied entry with a worker, and carries the identifier
  -- of that process. This holds whatever the targets were when they were copied, one for each entry,
  -- whatever the readings and the clock say, and whatever the other threads do between a reading and
  -- its store.
  pub sample_pass-AreOwn :
      (readings : ℕ → Reading) (ts : List Target) (es : List Entry)
      → length ts ≡ length es
      → AreOwn (sample_pass percent clock_ticks_per_second readings ts es)
  unfolding sample_pass
  sample_pass-AreOwn readings ts es same = sample_slots-AreOwn readings 0 ts es same
