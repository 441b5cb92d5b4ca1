-- ===== src/Manager/Invariant/Finishing.antt =====
-- When the manager of rk3588-media-gateway/src/channel/channel_manager.c has finished, and what
-- waiting for it returns.
use learn_apue.Base.{ℕ, suc, Bool, true, false, ◌||◌, List, [], ◌∷◌, ◌≡◌, ◌≢◌, ◌↔◌, ◌⊎◌, arith}
use learn_apue.Base.Int.{pos, eq_ℤ_iff}
use learn_apue.Manager.{Entry, Manager, Threads}
use learn_apue.Manager.Invariant.{AreIdle, IsManager, threads_running}
use learn_apue.Manager.Invariant.Lifecycle.{wait-IsStopped}
use learn_apue.Manager.Lifecycle.{is_finished, wait, wait_all, has_failed, wait_entry}

abbrev pub NoneRuns : List Entry → Type 0
NoneRuns [] = Unit
NoneRuns (e ∷ es) = (e.thread_running ≡ false) × NoneRuns es

threads_running_iff : (es : List Entry) → (threads_running es ≡ 0) ↔ NoneRuns es
unfolding threads_running
threads_running_iff [] = ground arith
threads_running_iff (e ∷ es) = ground (arith, threads_running_iff es)

-- A well-formed manager counts as finished exactly when it was started and no thread of a channel
-- runs.
pub is_finished_iff :
    (m : Manager) → IsManager m → (is_finished m ≡ true) ↔ ((m.started ≡ true) × NoneRuns m.entries)
unfolding is_finished
is_finished_iff m inv = ground (arith, inv.counted, threads_running_iff m.entries)

any_failed : List Entry → Bool
any_failed [] = false
any_failed (e ∷ es) = has_failed e || any_failed es

wait_all_failed :
    (threads : Threads) (slot : ℕ) (es : List Entry) (active : ℕ) (failed : Bool)
    → (let (es', active', failed') = wait_all threads slot es active failed in
        failed' ≡ (failed || any_failed es'))
unfolding wait_all any_failed
wait_all_failed threads slot [] active failed = ground arith
wait_all_failed threads slot (e ∷ es) active failed =
    let (e', active') = wait_entry (threads.ending slot) e active in
    ground (arith, wait_all_failed threads (suc slot) es active' (failed || has_failed e'))

-- Some occupied entry has a result that is not zero.
abbrev pub SomeFailed : List Entry → Type 0
SomeFailed [] = ⊥
SomeFailed (e ∷ es) = ((e.occupied ≡ true) × (e.result ≢ pos 0)) ⊎ SomeFailed es

any_failed_iff : (es : List Entry) → (any_failed es ≡ true) ↔ SomeFailed es
unfolding any_failed
any_failed_iff [] = ground arith
any_failed_iff (e ∷ es) = ground (arith, any_failed_iff es, eq_ℤ_iff e.result (pos 0))

-- Waiting for a started, well-formed manager ends every thread and leaves it finished; it returns
-- one exactly when an occupied entry then has a result other than zero, and zero otherwise.
pub wait-is_finished :
    (threads : Threads) (m : Manager)
    → m.started ≡ true
    → IsManager m
    → (let (m', result) = wait threads m in
        (is_finished m' ≡ true)
        × AreIdle m'.entries
        × ((result ≡ pos 1) ↔ SomeFailed m'.entries)
        × ((result ≡ pos 0) ⊎ (result ≡ pos 1)))
unfolding wait is_finished
wait-is_finished threads m on inv =
    let (es, active, failed) = wait_all threads 0 m.entries m.active_threads false in
    ground (
      arith,
      wait-IsStopped threads m on inv,
      wait_all_failed threads 0 m.entries m.active_threads false,
      any_failed_iff es,
    )
