-- ===== src/Manager/Invariant/Lifecycle.antt =====
-- The start, the stop, the wait and the threads' own steps of
-- rk3588-media-gateway/src/channel/channel_manager.c keep the invariant of the manager.
use learn_apue.Base.{ℕ, true, false, List, Option, some, ◌≡◌, ◌≢◌, ◌↔◌, refl, arith, get_elem?}
use learn_apue.Base.Int.{ℤ}
use learn_apue.Manager.{Entry, Manager, Threads, Ending, publish, run_channel, sigterm}
use learn_apue.Manager.Control.{with_entry}
use learn_apue.Manager.Invariant.{
  AreIdle, IsManager, Alike-AreDistinct, length-Alike, AreIdle-AreEntries, AreIdle-none,
  threads_running-le, AreIdle-get_elem?, AreEntries-get_elem?,
}
use learn_apue.Manager.Invariant.Commands.{with_entry-IsManager, at-IsCounted}
use learn_apue.Manager.Invariant.Loops.{
  AllEnded, AllBegun, stop_all-AllEnded, wait_all-AllEnded, start_all-AllBegun,
}
use learn_apue.Manager.Lifecycle.{
  StartedAll, Outcome, request_stop, start, finish_start, stop_everything, stop_all, wait, wait_all,
  destroy, start_all,
}
use learn_apue.Manager.OneEntry.{publish-Published, publish_all-Published}
use learn_apue.Snapshot.{Snapshot}
use learn_apue.Status.{ok, GwError}

pub request_stop-IsManager :
    (m : Manager) (signal_number : ℤ) → IsManager m → IsManager (request_stop m signal_number)
unfolding request_stop
request_stop-IsManager m signal_number inv =
    ground (arith, inv.registry, inv.entries_fit, inv.counted, inv.idle_before)

-- A manager none of whose threads is left.
pub record IsStopped (m : Manager) : Type 0 where
  pub well_formed : IsManager m
  pub idle : AreIdle m.entries
  pub none_active : m.active_threads ≡ 0

-- What the loops leave, when they end every thread.
ended-IsStopped :
    (m : Manager) (es : List Entry) (active : ℕ)
    → IsManager m
    → AllEnded m.entries es m.active_threads active
    → IsStopped (record m { entries = es; active_threads = active })
ended-IsStopped m es active inv ended = ground (
  arith,
  inv.registry,
  inv.counted,
  ended,
  threads_running-le m.entries,
  Alike-AreDistinct m.entries es,
  length-Alike m.entries es,
  AreIdle-AreEntries es,
  AreIdle-none es,
)

stop_everything-IsStopped :
    (threads : Threads) (m : Manager) → IsManager m → IsStopped (stop_everything threads m)
unfolding stop_everything request_stop
stop_everything-IsStopped threads m inv =
    let (es, active) = stop_all threads 0 m.entries m.active_threads in
    let s =
      ended-IsStopped m es active inv
        (stop_all-AllEnded threads 0 m.entries m.active_threads inv.entries_fit) in
    ground (arith, s, s.well_formed.registry, s.well_formed.entries_fit, s.well_formed.counted)

stop_everything_fields :
    (threads : Threads) (m : Manager)
    → (let m' = stop_everything threads m in
        (m'.stop_signal ≡ sigterm)
        × (m'.metrics_thread_started ≡ m.metrics_thread_started)
        × (m'.started ≡ m.started))
unfolding stop_everything request_stop
stop_everything_fields threads m = ground arith

-- Behind the loop that starts the threads.
launched-IsManager :
    (m : Manager) (s : StartedAll)
    → m.started ≡ false
    → IsManager m
    → AllBegun m.entries m.active_threads s
    → IsManager (record m {
      started = true;
      metrics_stop_requested = false;
      entries = s.entries;
      active_threads = s.active;
    })
launched-IsManager m s off inv begun = ground (
  arith,
  inv.registry,
  inv.counted,
  begun,
  Alike-AreDistinct m.entries s.entries,
  length-Alike m.entries s.entries,
  AreIdle-none m.entries (inv.idle_before off),
)

-- What a start leaves: the invariant; and behind a failure no thread, and a request to stop.
pub record IsStarted (o : Outcome) : Type 0 where
  pub well_formed : IsManager o.manager
  pub all_stopped : o.status ≢ ok → AreIdle o.manager.entries × (o.manager.active_threads ≡ 0)
  pub stop_stays : o.status ≢ ok → o.manager.stop_signal ≡ sigterm
  pub sampler_runs : (o.status ≡ ok) ↔ (o.manager.metrics_thread_started ≡ true)

-- Starting a well-formed manager that was not started leaves it well-formed; when it fails, whichever
-- thread could not be created, every thread that had been created has ended and is joined, and the
-- request to stop stays set; the sampler runs exactly when it succeeds.
pub start-IsStarted :
    (threads : Threads) (m : Manager) (error : Option GwError)
    → m.started ≡ false
    → IsManager m
    → IsStarted (start threads m error)
unfolding start finish_start
start-IsStarted threads m error off inv =
    let s = start_all threads 0 m.entries m.active_threads error in
    let begun =
      start_all-AllBegun threads 0 m.entries m.active_threads error (inv.idle_before off) in
    let ready = launched-IsManager m s off inv begun in
    let launched : Manager = record m {
      started = true;
      metrics_stop_requested = false;
      entries = s.entries;
      active_threads = s.active;
    } in
    let stopped = stop_everything-IsStopped threads launched ready in
    ground (
      arith,
      inv.sampler_before off,
      stopped,
      stopped.well_formed.registry,
      stopped.well_formed.entries_fit,
      stopped.well_formed.counted,
      stop_everything_fields threads launched,
    )

pub wait-IsStopped :
    (threads : Threads) (m : Manager)
    → m.started ≡ true
    → IsManager m
    → IsStopped (wait threads m).0
unfolding wait
wait-IsStopped threads m on inv =
    let (es, active, failed) = wait_all threads 0 m.entries m.active_threads false in
    let s =
      ended-IsStopped m es active inv
        (wait_all-AllEnded threads 0 m.entries m.active_threads false inv.entries_fit) in
    ground (arith, s, s.well_formed.registry, s.well_formed.entries_fit, s.well_formed.counted)

wait_sampler :
    (threads : Threads) (m : Manager)
    → m.started ≡ true
    → (wait threads m).0.metrics_thread_started ≡ false
unfolding wait
wait_sampler threads m on = ground arith

request_stop_started : (m : Manager) (n : ℤ) → (request_stop m n).started ≡ m.started
unfolding request_stop
request_stop_started m n = refl

-- What is left when the manager is freed.
pub record IsReleased (m : Manager) : Type 0 where
  pub no_threads : AreIdle m.entries
  pub none_active : m.active_threads ≡ 0
  pub no_sampler : m.metrics_thread_started ≡ false

-- A manager is freed only when no channel thread and no sampler is left that could use it, whatever
-- the manager went through before.
pub destroy-IsReleased :
    (threads : Threads) (m : Manager) → IsManager m → IsReleased (destroy threads m)
unfolding destroy
destroy-IsReleased threads m inv =
    let stopping = request_stop m sigterm in
    ground (
      arith,
      inv.counted,
      inv.idle_before,
      AreIdle-none m.entries,
      wait-IsStopped threads m,
      wait-IsStopped threads stopping,
      request_stop-IsManager m sigterm inv,
      wait_sampler threads m,
      wait_sampler threads stopping,
      request_stop_started m sigterm,
    )

-- The thread of an entry that runs publishes a snapshot, or ends.
pub publish-IsManager :
    (m : Manager) (slot : ℕ) (e : Entry) (s : Snapshot)
    → get_elem? m.entries slot ≡ some e
    → IsManager m
    → IsManager (with_entry m slot (publish e s, m.active_threads))
publish-IsManager m slot e s at inv =
    with_entry-IsManager m slot e (publish e s, m.active_threads) at inv
      (ground (
        arith,
        publish-Published e s,
        AreEntries-get_elem? m.entries slot {e = e} at inv.entries_fit,
        AreIdle-get_elem? m.entries slot {e = e} at,
        inv.idle_before,
      ))

pub run_channel-IsManager :
    (m : Manager) (slot : ℕ) (e : Entry) (ending : Ending)
    → get_elem? m.entries slot ≡ some e
    → e.thread_running ≡ true
    → IsManager m
    → IsManager (with_entry m slot (run_channel ending e m.active_threads))
unfolding run_channel
run_channel-IsManager m slot e ending at alive inv =
    with_entry-IsManager m slot e (run_channel ending e m.active_threads) at inv (
      ground (
        arith,
        publish_all-Published e ending.published,
        at-IsCounted m slot e at inv,
        AreEntries-get_elem? m.entries slot {e = e} at inv.entries_fit,
        AreIdle-get_elem? m.entries slot {e = e} at,
        inv.idle_before,
      ))
