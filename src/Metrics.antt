-- ===== src/Metrics.antt =====
-- What a sample of a worker process says: the types and the tracker of
-- rk3588-media-gateway/src/monitor/process_metrics.c and include/gateway/process_metrics.h. The
-- arithmetic on doubles is a parameter: `percent ticks rate time` is the bits of
-- ticks * 100 * 10 ^ 9 / (rate * time). No caller passes a null tracker or a null snapshot.
pub mod Proc
use learn_apue.Base.{
  ℕ, ◌+◌, ◌-◌, Bool, true, false, not, ◌&&◌, ◌||◌, Option, none, some, leb, if◌then◌else◌,
}
use learn_apue.Base.Int.{ℤ, pos, pos_part, neg_part, ltb_ℤ, eq_ℤ}
use learn_apue.Snapshot.{MetricsSnapshot, minus_one, no_metrics}

pub record ProcessMetrics : Type 0 where
  pub cpu_ticks : ℕ  -- uint64_t
  pub rss_kib : ℤ
  pub fd_count : ℕ

pub record Tracker : Type 0 where
  pub pid : ℤ
  pub baseline_valid : Bool
  pub previous_cpu_ticks : ℕ  -- uint64_t
  pub previous_time_ns : ℤ

abbrev pub tracker_init : Tracker
tracker_init = record {
  pid = minus_one;
  baseline_valid = false;
  previous_cpu_ticks = 0;
  previous_time_ns = pos 0;
}

-- `a - b` where `b < a`
abbrev pub above : ℤ → ℤ → ℕ
above a b = (pos_part a + neg_part b) - (pos_part b + neg_part a)

unfoldable pub same_baseline : Tracker → ℤ → ProcessMetrics → ℤ → Bool
same_baseline t pid metrics sample_time_ns =
    t.baseline_valid
    && eq_ℤ t.pid pid
    && ltb_ℤ t.previous_time_ns sample_time_ns
    && leb t.previous_cpu_ticks metrics.cpu_ticks

-- `pid <= 0 || sample_time_ns <= 0 || clock_ticks_per_second <= 0`
abbrev pub unusable : ℤ → ℤ → ℤ → Bool
unusable pid sample_time_ns clock_ticks_per_second =
    not (ltb_ℤ (pos 0) pid)
    || not (ltb_ℤ (pos 0) sample_time_ns)
    || not (ltb_ℤ (pos 0) clock_ticks_per_second)

module _ (percent : ℕ → ℤ → ℕ → ℕ) where
  unfoldable pub measured : Tracker → ℤ → ProcessMetrics → ℤ → ℤ → MetricsSnapshot
  measured t pid metrics sample_time_ns clock_ticks_per_second =
      let same = same_baseline t pid metrics sample_time_ns in
      record {
        pid = pid;
        available = true;
        cpu_available = same;
        cpu_percent =
            if same
            then percent (metrics.cpu_ticks - t.previous_cpu_ticks) clock_ticks_per_second
                (above sample_time_ns t.previous_time_ns)
            else 0;
        rss_kib = metrics.rss_kib;
        fd_count = metrics.fd_count;
      }

  unfoldable pub tracker_update :
      Tracker → ℤ → Option ProcessMetrics → ℤ → ℤ → Tracker × MetricsSnapshot
  tracker_update t pid none sample_time_ns clock_ticks_per_second = (tracker_init, no_metrics pid)
  tracker_update t pid (some metrics) sample_time_ns clock_ticks_per_second =
      if unusable pid sample_time_ns clock_ticks_per_second
      then (tracker_init, no_metrics pid)
      else (
        record {
          pid = pid;
          baseline_valid = true;
          previous_cpu_ticks = metrics.cpu_ticks;
          previous_time_ns = sample_time_ns;
        },
        measured t pid metrics sample_time_ns clock_ticks_per_second,
      )
