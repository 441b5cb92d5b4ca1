-- ===== src/Recording/Capacity.antt =====
-- What rk3588-media-gateway/src/monitor/recording_status.c reports, stated without its arithmetic on 64
-- bits.
use native.Mathlib.Nat.{div-lt_iff_lt-mul, mul_comm, mod-eq_of_lt}
use learn_apue.Base.{
  ltb→lt, ℕ, zero, suc, ◌*◌, ◌-◌, ◌^◌, ◌<◌, ◌≤◌, Bool, true, false, Option, none, some, ◌≡◌, ◌≢◌,
  ◌↔◌, arith, ltb, if◌then◌else◌, inl, inr, Bool-cases,
}
use learn_apue.Base.Int.{pos}
use learn_apue.Config.{RecordingConfig}
use learn_apue.Recording.{
  State, disabled, low_space, unavailable, Filesystem, RecordingSnapshot, multiply_u64,
  fragment_size, recording_snapshot_read, Read,
}
use learn_apue.Status.{Status, overflow, GwError}

-- The test by division is the test of the product.
pub multiply_u64_exact :
    (a b : ℕ) → multiply_u64 a b ≡ (if ltb (a * b) (2 ^ 64) then some (a * b) else none)
unfolding multiply_u64
multiply_u64_exact zero b = ground arith
multiply_u64_exact (suc a) b =
    let d = div-lt_iff_lt-mul {k = suc a} {x = 2 ^ 64 - 1} {y = b} (omega arith) in
    let order : b * suc a ≡ suc a * b = mul_comm b (suc a) in
    elim (Bool-cases (ltb (suc a * b) (2 ^ 64))) [
      | inl small ↦
          let same =
            mod-eq_of_lt {n = suc a * b} {m = 2 ^ 64} (ltb→lt (suc a * b) (2 ^ 64) small) in
          ground (arith, d, order, same)
      | inr large ↦ ground (arith, d, order)
    ]

-- What the directory holds, where nothing overflows.
abbrev IsCapacity : Filesystem → ℕ → RecordingSnapshot → Type 0
IsCapacity f min_free_mb s =
    (s.total_bytes ≡ fragment_size f * f.f_blocks)
    × (s.available_bytes ≡ fragment_size f * f.f_bavail)
    × (s.min_free_bytes ≡ min_free_mb * 1048576)
    × (s.filesystem_available ≡ true)
    × (s.state ≡ low_space ↔ (fragment_size f * f.f_bavail < min_free_mb * 1048576))
    × (s.state ≡ State.ok ↔ (min_free_mb * 1048576 ≤ fragment_size f * f.f_bavail))

-- What is read, by what is asked.
abbrev pub IsReading : Bool → Option Filesystem → ℕ → Read → Type 0
IsReading false statvfs min_free_mb r = (r.status ≡ Status.ok) × (r.snapshot.state ≡ disabled)
IsReading true none min_free_mb r = (r.status ≡ Status.ok) × (r.snapshot.state ≡ unavailable)
IsReading true (some f) min_free_mb r =
    ((r.status ≡ Status.ok)
      ↔ ((fragment_size f * f.f_blocks < 2 ^ 64) × (fragment_size f * f.f_bavail < 2 ^ 64)))
    × (r.status ≡ Status.ok → IsCapacity f min_free_mb r.snapshot)
    × (r.status ≢ Status.ok → (r.status ≡ overflow) × (r.snapshot.state ≡ unavailable))

-- The recording status, for a threshold that an `int` of megabytes holds and that is not negative:
-- disabled recordings and a directory that cannot be read are reported as such without an error;
-- otherwise the call fails, with an overflow, exactly when the total or the free bytes do not fit 64
-- bits, and when it succeeds both are the true products, and space is low exactly when there are
-- fewer free bytes than the threshold.
pub recording_snapshot_read-IsReading :
    (statvfs : Option Filesystem) (config : RecordingConfig) (error : Option GwError)
    (min_free_mb : ℕ)
    → config.min_free_mb ≡ pos min_free_mb
    → min_free_mb < 2 ^ 31
    → IsReading config.enabled statvfs min_free_mb (recording_snapshot_read statvfs config error)
unfolding recording_snapshot_read
recording_snapshot_read-IsReading none config error n threshold small =
    ground (arith, multiply_u64_exact n 1048576)
recording_snapshot_read-IsReading (some f) config error n threshold small = ground (
  arith,
  multiply_u64_exact n 1048576,
  multiply_u64_exact (fragment_size f) f.f_blocks,
  multiply_u64_exact (fragment_size f) f.f_bavail,
)
