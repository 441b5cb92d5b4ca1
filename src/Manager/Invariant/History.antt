-- ===== src/Manager/Invariant/History.antt =====
-- Histories of the manager of rk3588-media-gateway/src/channel/channel_manager.c: calls of its
-- operations and steps of its threads, in any order.
use learn_apue.Base.{
  ℕ, ◌≤◌, Bool, true, List, [], ◌∷◌, Option, none, some, ◌≡◌, arith, length, get_elem?,
  if◌then◌else◌, inl, inr, Bool-cases, Option-cases,
}
use learn_apue.Base.Int.{ℤ}
use learn_apue.Base.Text.{Bytes}
use learn_apue.Config.{Config, max_channels}
use learn_apue.Manager.{Entry, Manager, Threads, Ending, publish, run_channel}
use learn_apue.Manager.Control.{with_entry, start_channel, stop_channel, restart_channel}
use learn_apue.Manager.Invariant.{IsManager}
use learn_apue.Manager.Invariant.Commands.{
  start_channel-IsManager, stop_channel-IsManager, restart_channel-IsManager,
}
use learn_apue.Manager.Invariant.Creation.{create-IsCreated}
use learn_apue.Manager.Invariant.Lifecycle.{
  start-IsStarted, request_stop-IsManager, wait-IsStopped, IsReleased, destroy-IsReleased,
  publish-IsManager, run_channel-IsManager,
}
use learn_apue.Manager.Invariant.Reloading.{reload-IsManager}
use learn_apue.Manager.Creating.{Memory, create}
use learn_apue.Manager.Lifecycle.{start, request_stop, wait, destroy}
use learn_apue.Manager.Reload.{reload}
use learn_apue.Snapshot.{Snapshot}
use learn_apue.Status.{GwError}

-- The calls, and at a slot the steps of a thread between them: it publishes, or it ends.
pub data Call : Type 0 where
  starts : Threads → Option GwError → Call
  reloads : Threads → Config → Option GwError → Call
  starts_channel stops_channel restarts_channel : Threads → Bytes → Option GwError → Call
  requests_stop : ℤ → Call
  waits : Threads → Call
  publishes : ℕ → Snapshot → Call
  ends : ℕ → Ending → Call

-- Only a thread that runs takes a step.
pub thread_step : Manager → ℕ → (Entry → Entry × ℕ) → Option Entry → Manager
thread_step m slot act none = m
thread_step m slot act (some e) = if e.thread_running then with_entry m slot (act e) else m

module _ (is_ipv4 is_ipv6 : Bytes → Bool) where
  unfoldable pub step : Manager → Call → Manager
  unfolding thread_step
  step m (starts threads error) = (start threads m error).manager
  step m (reloads threads candidate error) =
      (reload is_ipv4 is_ipv6 threads m candidate error).manager
  step m (starts_channel threads id error) = (start_channel threads m id error).manager
  step m (stops_channel threads id error) = (stop_channel threads m id error).manager
  step m (restarts_channel threads id error) = (restart_channel threads m id error).manager
  step m (requests_stop signal) = request_stop m signal
  step m (waits threads) = (wait threads m).0
  step m (publishes slot s) =
      thread_step m slot (λ e. (publish e s, m.active_threads)) (get_elem? m.entries slot)
  step m (ends slot ending) =
      thread_step m slot (λ e. run_channel ending e m.active_threads) (get_elem? m.entries slot)

  unfoldable pub run : Manager → List Call → Manager
  run m [] = m
  run m (call ∷ calls) = run (step m call) calls

  -- A configuration has no more channels than its array.
  abbrev pub IsCall : Call → Type 0
  IsCall (reloads threads candidate error) = length candidate.channels ≤ max_channels
  IsCall _ = Unit

  abbrev pub AreCalls : List Call → Type 0
  AreCalls [] = Unit
  AreCalls (call ∷ calls) = IsCall call × AreCalls calls

  start-IsManager :
      (threads : Threads) (m : Manager) (error : Option GwError)
      → IsManager m
      → IsManager (start threads m error).manager
  unfolding start
  start-IsManager threads m error inv = elim (Bool-cases m.started) [
    | inl on ↦ ground (arith, inv)
    | inr off ↦ (start-IsStarted threads m error off inv).well_formed
  ]

  wait-IsManager : (threads : Threads) (m : Manager) → IsManager m → IsManager (wait threads m).0
  unfolding wait
  wait-IsManager threads m inv = elim (Bool-cases m.started) [
    | inl on ↦ (wait-IsStopped threads m on inv).well_formed
    | inr off ↦ ground (arith, inv)
  ]

  thread_step-IsManager :
      (m : Manager) (slot : ℕ) (act : Entry → Entry × ℕ)
      → IsManager m
      → ((e : Entry)
          → get_elem? m.entries slot ≡ some e
          → e.thread_running ≡ true
          → IsManager (with_entry m slot (act e)))
      → IsManager (thread_step m slot act (get_elem? m.entries slot))
  unfolding thread_step
  thread_step-IsManager m slot act inv behind = elim (Option-cases (get_elem? m.entries slot)) [
    | inl nothing ↦ ground (arith, inv)
    | inr (e, at) ↦ ground (arith, inv, behind e)
  ]

  step-IsManager : (m : Manager) (call : Call) → IsCall call → IsManager m → IsManager (step m call)
  unfolding step
  step-IsManager m (starts threads error) fits inv = start-IsManager threads m error inv
  step-IsManager m (reloads threads candidate error) fits inv =
      reload-IsManager is_ipv4 is_ipv6 threads m candidate error fits inv
  step-IsManager m (starts_channel threads id error) fits inv =
      start_channel-IsManager threads m id error inv
  step-IsManager m (stops_channel threads id error) fits inv =
      stop_channel-IsManager threads m id error inv
  step-IsManager m (restarts_channel threads id error) fits inv =
      restart_channel-IsManager threads m id error inv
  step-IsManager m (requests_stop signal) fits inv = request_stop-IsManager m signal inv
  step-IsManager m (waits threads) fits inv = wait-IsManager threads m inv
  step-IsManager m (publishes slot s) fits inv =
      thread_step-IsManager m slot (λ e. (publish e s, m.active_threads)) inv
        λ e at alive. publish-IsManager m slot e s at inv
  step-IsManager m (ends slot ending) fits inv =
      thread_step-IsManager m slot (λ e. run_channel ending e m.active_threads) inv
        λ e at alive. run_channel-IsManager m slot e ending at alive inv

  run-IsManager :
      (m : Manager) (calls : List Call) → AreCalls calls → IsManager m → IsManager (run m calls)
  unfolding run
  run-IsManager m [] fits inv = inv
  run-IsManager m (call ∷ calls) fits inv =
      run-IsManager (step m call) calls fits.1 (step-IsManager m call fits.0 inv)

  -- From its creation on, through any calls and any steps of its threads, the manager is
  -- well-formed: 64 slots with distinct channels, threads only in occupied entries, and
  -- `active_threads` the number of threads that run. And whenever it is then destroyed, no channel
  -- thread and no sampler is left that could use the memory that is freed. No configuration has more
  -- than 64 channels.
  pub run-create :
      (memory : Memory) (config : Config) (binary : Option Bytes) (error : Option GwError)
      (calls : List Call) {m : Manager}
      → length config.channels ≤ max_channels
      → (create is_ipv4 is_ipv6 memory config binary error).manager ≡ some m
      → AreCalls calls
      → IsManager (run m calls) × ((threads : Threads) → IsReleased (destroy threads (run m calls)))
  run-create memory config binary error calls {m} room made fits =
      let created = (create-IsCreated is_ipv4 is_ipv6 memory config binary error room made).1 in
      let inv = run-IsManager m calls fits created.well_formed in
      (inv, λ threads. destroy-IsReleased threads (run m calls) inv)
