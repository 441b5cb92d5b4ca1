-- ===== src/Manager/Sampler.antt =====
-- The thread that samples the workers: `sample_process_metrics` of
-- rk3588-media-gateway/src/channel/channel_manager.c. It copies what it will look for under the lock,
-- reads the process without the lock, and stores the sample under the lock again. What the other
-- threads do to the entry in between is a parameter, and so are the readings and the clock.
pub mod Current
use learn_apue.Base.{
  ℕ, suc, Bool, true, false, not, ◌&&◌, List, [], ◌∷◌, Option, none, some, ◌==◌, if◌then◌else◌,
}
use learn_apue.Base.Int.{ℤ, pos, ltb_ℤ, eq_ℤ}
use learn_apue.Manager.{Entry, eq_bool}
use learn_apue.Metrics.{ProcessMetrics, tracker_init, tracker_update}
use learn_apue.Snapshot.{ProcessKind, MetricsSnapshot, is_worker, minus_one, no_metrics}

pub record Target : Type 0 where
  pub occupied : Bool
  pub generation : ℕ  -- uint64_t
  pub process_kind : ProcessKind
  pub process_pid : ℤ

-- The copy that the first loop of a pass makes.
abbrev pub target_of : Entry → Target
target_of e = record {
  occupied = e.occupied;
  generation = e.generation;
  process_kind = e.snapshot.process_kind;
  process_pid = e.snapshot.process_pid;
}

-- `occupied && process_kind == GW_CHANNEL_PROCESS_WORKER && process_pid > 0`
abbrev pub has_worker : Target → Bool
has_worker t = t.occupied && is_worker t.process_kind && ltb_ℤ (pos 0) t.process_pid

unfoldable pub prepare : Target → Entry → Entry
prepare t e =
    if e.metrics_generation == t.generation
    then e
    else record e { metrics_tracker = tracker_init; metrics_generation = t.generation }

-- The test before the sample is stored: whether the entry is still what the target says.
unfoldable pub is_current : Target → Entry → Bool
is_current t e =
    eq_bool e.occupied t.occupied
    && e.generation == t.generation
    && eq_bool (is_worker e.snapshot.process_kind) (is_worker t.process_kind)
    && eq_ℤ e.snapshot.process_pid t.process_pid

unfoldable pub store : Target → MetricsSnapshot → Entry → Entry
store t sampled e = record e {
  worker_metrics = if is_current t e then sampled else no_metrics minus_one;
}

-- For one slot: the clock, what `gw_process_metrics_read` answers if it is asked, and what the other
-- threads do to the entry before the sample is stored.
pub record Reading : Type 0 where
  pub sample_time_ns : ℤ
  pub raw : Option ProcessMetrics
  pub meanwhile : Entry → Entry

module _ (percent : ℕ → ℤ → ℕ → ℕ) (clock_ticks_per_second : ℤ) where
  unfoldable pub measure : Target → Reading → Entry → Entry × MetricsSnapshot
  measure t r e =
      let raw : Option ProcessMetrics = if has_worker t then r.raw else none in
      let pid = if has_worker t then t.process_pid else minus_one in
      let (tracker, sampled) =
        tracker_update percent e.metrics_tracker pid raw r.sample_time_ns clock_ticks_per_second in
      (record e { metrics_tracker = tracker }, sampled)

  unfoldable pub sample_slot : Target → Reading → Entry → Entry
  sample_slot t r e =
      let (measuring, sampled) = measure t r (prepare t e) in
      store t sampled (r.meanwhile measuring)

  unfoldable pub sample_slots : (ℕ → Reading) → ℕ → List Target → List Entry → List Entry
  sample_slots readings slot (t ∷ ts) (e ∷ es) =
      sample_slot t (readings slot) e ∷ sample_slots readings (suc slot) ts es
  sample_slots readings slot _ es = es

  -- One pass of the loop: all targets are copied before the first sample is taken.
  unfoldable pub sample_pass : (ℕ → Reading) → List Target → List Entry → List Entry
  sample_pass readings targets es = sample_slots readings 0 targets es
