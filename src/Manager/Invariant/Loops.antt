-- ===== src/Manager/Invariant/Loops.antt =====
-- The loops of `gw_channel_manager_start` and `gw_channel_manager_wait` of
-- rk3588-media-gateway/src/channel/channel_manager.c over the slots.
use learn_apue.Base.{
  ℕ, suc, ◌+◌, ◌<◌, ◌≤◌, ◌^◌, Bool, ◌||◌, List, [], ◌∷◌, Option, ◌≡◌, arith, length,
}
use learn_apue.Manager.{Ending, Entry, Threads, stop_entry, start_entry}
use learn_apue.Manager.Invariant.{
  AreEntries, AreIdle, AreIdle-AreEntries, AreIdle-none, Alike, Alike-refl, threads_running,
}
use learn_apue.Manager.Lifecycle.{StartedAll, start_all, stop_all, wait_all, wait_entry, has_failed}
use learn_apue.Manager.OneEntry.{
  IsEntry, stop_entry-Ended, join_entry-Ended, start_entry-Begun, start_entry-created, Ended,
}
use learn_apue.Status.{GwError}

-- A loop that ends every thread.
pub record AllEnded (es es' : List Entry) (active active' : ℕ) : Type 0 where
  pub alike : Alike es es'
  pub idle : AreIdle es'
  pub counted :
      active < 2 ^ 64 → threads_running es ≤ active → active' + threads_running es ≡ active

pub stop_all-AllEnded :
    (threads : Threads) (slot : ℕ) (es : List Entry) (active : ℕ)
    → AreEntries es
    → (let (es', active') = stop_all threads slot es active in AllEnded es es' active active')
unfolding stop_all threads_running
stop_all-AllEnded threads slot [] active h = ground arith
stop_all-AllEnded threads slot (e ∷ es) active h =
    let (e', active') = stop_entry (threads.ending slot) e active in
    ground (
      arith,
      stop_entry-Ended (threads.ending slot) e active h.0,
      stop_all-AllEnded threads (suc slot) es active' h.1,
    )

wait_entry-Ended :
    (ending : Ending) (e : Entry) (active : ℕ)
    → IsEntry e
    → (let (e', active') = wait_entry ending e active in Ended e e' active active')
unfolding wait_entry
wait_entry-Ended ending e active h = ground (arith, join_entry-Ended ending e active)

pub wait_all-AllEnded :
    (threads : Threads) (slot : ℕ) (es : List Entry) (active : ℕ) (failed : Bool)
    → AreEntries es
    → (let (es', active', failed') = wait_all threads slot es active failed in
        AllEnded es es' active active')
unfolding wait_all threads_running
wait_all-AllEnded threads slot [] active failed h = ground arith
wait_all-AllEnded threads slot (e ∷ es) active failed h =
    let (e', active') = wait_entry (threads.ending slot) e active in
    ground (
      arith,
      wait_entry-Ended (threads.ending slot) e active h.0,
      wait_all-AllEnded threads (suc slot) es active' (failed || has_failed e') h.1,
    )

-- The loop that starts threads, from entries without any.
pub record AllBegun (es : List Entry) (active : ℕ) (s : StartedAll) : Type 0 where
  pub alike : Alike es s.entries
  pub entries_fit : AreEntries s.entries
  pub counted : active + length es < 2 ^ 64 → s.active ≡ active + threads_running s.entries

pub start_all-AllBegun :
    (threads : Threads) (slot : ℕ) (es : List Entry) (active : ℕ) (error : Option GwError)
    → AreIdle es
    → AllBegun es active (start_all threads slot es active error)
unfolding start_all threads_running
start_all-AllBegun threads slot [] active error h = ground arith
start_all-AllBegun threads slot (e ∷ es) active error h =
    let s = start_entry threads.strerror (threads.create slot) e active error in
    ground (
      arith,
      start_entry-Begun threads.strerror (threads.create slot) e active error h.0,
      start_entry-created threads.strerror (threads.create slot) e active error h.0,
      start_all-AllBegun threads (suc slot) es active error h.2,
      start_all-AllBegun threads (suc slot) es s.active s.error h.2,
      AreIdle-AreEntries es h.2,
      AreIdle-none es h.2,
      Alike-refl es,
    )
