-- ===== src/Manager/Invariant/Commands.antt =====
-- The commands for one channel, the start, the stop and the wait of
-- rk3588-media-gateway/src/channel/channel_manager.c keep the invariant of the manager.
use learn_apue.Base.{
  ℕ, zero, suc, ◌+◌, ◌<◌, ◌≤◌, ◌^◌, true, false, List, [], ◌∷◌, Option, some, ◌≡◌, arith, get_elem?,
  inl, inr, Option-cases,
}
use learn_apue.Base.Text.{Bytes}
use learn_apue.Manager.{
  Entry, Manager, Threads, stop_entry, join_entry, start_entry, put_entry, find_entry, serves,
}
use learn_apue.Manager.Control.{
  with_entry, command, start_found, start_channel, stop_found, stop_channel, restart_found,
  restart_channel, conclude_start,
}
use learn_apue.Manager.Invariant.{
  AreIdle, IsManager, Alike-set, Alike-AreDistinct, length-Alike, AreEntries-set,
  AreEntries-get_elem?, threads_running-set, threads_running-le,
}
use learn_apue.Manager.Lifecycle.{Outcome}
use learn_apue.Manager.OneEntry.{
  IsEntry, Same, running, Ended, join_entry-Ended, stop_entry-Ended, start_entry-Begun,
}
use learn_apue.Manager.View.{find_from-IsHit}
use learn_apue.Status.{GwError}

-- What a step may do to the entry at a slot.
pub record IsStep (m : Manager) (e : Entry) (r : Entry × ℕ) : Type 0 where
  pub same : Same e r.0
  pub entry_fits : IsEntry r.0
  pub counted : r.1 + running e ≡ m.active_threads + running r.0
  pub idle_before : m.started ≡ false → r.0.thread_started ≡ false × (r.0.thread_running ≡ false)

AreIdle-set :
    (es : List Entry) (index : ℕ) (e' : Entry)
    → e'.thread_started ≡ false
    → e'.thread_running ≡ false
    → AreIdle es
    → AreIdle (put_entry es index e')
AreIdle-set [] index e' off still h = tt
AreIdle-set (x ∷ es) zero e' off still h = ground arith
AreIdle-set (x ∷ es) (suc index) e' off still h = ground (arith, AreIdle-set es index e')

pub with_entry-IsManager :
    (m : Manager) (slot : ℕ) (e : Entry) (r : Entry × ℕ)
    → get_elem? m.entries slot ≡ some e
    → IsManager m
    → IsStep m e r
    → IsManager (with_entry m slot r)
with_entry-IsManager m slot e r at inv step = ground (
  arith,
  inv.registry,
  inv.counted,
  inv.idle_before,
  step,
  Alike-set m.entries slot e r.0 at step.same,
  Alike-AreDistinct m.entries (put_entry m.entries slot r.0),
  length-Alike m.entries (put_entry m.entries slot r.0),
  AreEntries-set m.entries slot r.0 step.entry_fits inv.entries_fit,
  threads_running-set m.entries slot e r.0 at,
  AreIdle-set m.entries slot r.0,
)

-- The bounds that keep the count from wrapping.
pub record IsCounted (m : Manager) (e : Entry) : Type 0 where
  pub fits_size : suc m.active_threads < 2 ^ 64
  pub own_counted : running e ≤ m.active_threads

pub at-IsCounted :
    (m : Manager) (slot : ℕ) (e : Entry)
    → get_elem? m.entries slot ≡ some e
    → IsManager m
    → IsCounted m e
at-IsCounted m slot e at inv = ground (
  arith,
  inv.registry,
  inv.counted,
  threads_running-le m.entries,
  threads_running-set m.entries slot e (record e { thread_running = false }) at,
)

-- A thread that is ended, and one that is started behind it.
Ended-IsStep :
    (m : Manager) (e e' : Entry) (active' : ℕ)
    → IsCounted m e
    → Ended e e' m.active_threads active'
    → IsStep m e (e', active')
Ended-IsStep m e e' active' counted ended = ground (arith, counted, ended)

conclude_start-IsManager :
    (threads : Threads) (m : Manager) (slot : ℕ) (e e' : Entry) (active' : ℕ)
    (error : Option GwError)
    → get_elem? m.entries slot ≡ some e
    → e.occupied ≡ true
    → m.started ≡ true
    → IsManager m
    → Ended e e' m.active_threads active'
    → IsManager (conclude_start threads m slot (e', active') error).manager
unfolding conclude_start
conclude_start-IsManager threads m slot e e' active' error at taken on inv ended =
    let s = start_entry threads.strerror (threads.create slot) e' active' error in
    with_entry-IsManager m slot e (s.entry, s.active) at inv
      (ground (
        arith,
        on,
        ended,
        at-IsCounted m slot e at inv,
        start_entry-Begun threads.strerror (threads.create slot) e' active' error ended.not_started,
      ))

-- An entry without a thread counts as ended.
idle-Ended :
    (e : Entry) (active : ℕ) → IsEntry e → e.thread_started ≡ false → Ended e e active active
idle-Ended e active fit off = ground arith

start_found-IsManager :
    (threads : Threads) (m : Manager) (id : Bytes) (error : Option GwError) (slot : ℕ) (e : Entry)
    → get_elem? m.entries slot ≡ some e
    → e.occupied ≡ true
    → m.started ≡ true
    → IsManager m
    → IsManager (start_found threads m id error slot e).manager
unfolding start_found
start_found-IsManager threads m id error slot e at taken on inv =
    let fit = AreEntries-get_elem? m.entries slot {e = e} at inv.entries_fit in
    let joined = join_entry (threads.ending slot) e m.active_threads in
    let ended = join_entry-Ended (threads.ending slot) e m.active_threads in
    let idle = idle-Ended e m.active_threads fit in
    ground (
      arith,
      ended.not_started,
      with_entry-IsManager m slot e (e, m.active_threads) at inv,
      with_entry-IsManager m slot e joined at inv
          (Ended-IsStep m e joined.0 joined.1 (at-IsCounted m slot e at inv) ended),
      conclude_start-IsManager threads m slot e e m.active_threads error at taken on inv,
      idle,
      conclude_start-IsManager threads m slot e joined.0 joined.1 error at taken on inv ended,
    )

stop_found-IsManager :
    (threads : Threads) (m : Manager) (id : Bytes) (error : Option GwError) (slot : ℕ) (e : Entry)
    → get_elem? m.entries slot ≡ some e
    → IsManager m
    → IsManager (stop_found threads m id error slot e).manager
unfolding stop_found
stop_found-IsManager threads m id error slot e at inv =
    let fit = AreEntries-get_elem? m.entries slot {e = e} at inv.entries_fit in
    let counted = at-IsCounted m slot e at inv in
    let joined = join_entry (threads.ending slot) e m.active_threads in
    let stopped = stop_entry (threads.ending slot) e m.active_threads in
    ground (
      arith,
      with_entry-IsManager m slot e (e, m.active_threads) at inv,
      with_entry-IsManager m slot e joined at inv (
          Ended-IsStep m e joined.0 joined.1 counted
            (join_entry-Ended (threads.ending slot) e m.active_threads)),
      with_entry-IsManager m slot e stopped at inv (
          Ended-IsStep m e stopped.0 stopped.1 counted
            (stop_entry-Ended (threads.ending slot) e m.active_threads fit)),
    )

restart_found-IsManager :
    (threads : Threads) (m : Manager) (error : Option GwError) (slot : ℕ) (e : Entry)
    → get_elem? m.entries slot ≡ some e
    → e.occupied ≡ true
    → m.started ≡ true
    → IsManager m
    → IsManager (restart_found threads m error slot e).manager
unfolding restart_found
restart_found-IsManager threads m error slot e at taken on inv =
    let fit = AreEntries-get_elem? m.entries slot {e = e} at inv.entries_fit in
    let stopped = stop_entry (threads.ending slot) e m.active_threads in
    conclude_start-IsManager threads m slot e stopped.0 stopped.1 error at taken on inv
      (stop_entry-Ended (threads.ending slot) e m.active_threads fit)

-- What a command does to the manager is what it does behind its guards.
command-IsManager :
    (m : Manager) (id : Bytes) (error : Option GwError) (act : ℕ → Entry → Outcome)
    → IsManager m
    → ((slot : ℕ) (e : Entry)
        → get_elem? m.entries slot ≡ some e
        → e.occupied ≡ true
        → m.started ≡ true
        → IsManager (act slot e).manager)
    → IsManager (command m id error act).manager
unfolding command find_entry
command-IsManager m [] error act inv behind = inv
command-IsManager m (b ∷ bs) error act inv behind =
    elim (Option-cases (find_entry m.entries (b ∷ bs))) [
      | inl missing ↦ ground (arith, missing)
      | inr ((slot, e), q) ↦
          let hit = find_from-IsHit (serves (b ∷ bs)) 0 m.entries {slot = slot} {e = e} q in
          ground (arith, q, hit, behind slot e)
    ]

pub start_channel-IsManager :
    (threads : Threads) (m : Manager) (id : Bytes) (error : Option GwError)
    → IsManager m
    → IsManager (start_channel threads m id error).manager
unfolding start_channel
start_channel-IsManager threads m id error inv =
    command-IsManager m id error (start_found threads m id error) inv
      λ slot e at taken on. start_found-IsManager threads m id error slot e at taken on inv

pub stop_channel-IsManager :
    (threads : Threads) (m : Manager) (id : Bytes) (error : Option GwError)
    → IsManager m
    → IsManager (stop_channel threads m id error).manager
unfolding stop_channel
stop_channel-IsManager threads m id error inv =
    command-IsManager m id error (stop_found threads m id error) inv
      λ slot e at taken on. stop_found-IsManager threads m id error slot e at inv

pub restart_channel-IsManager :
    (threads : Threads) (m : Manager) (id : Bytes) (error : Option GwError)
    → IsManager m
    → IsManager (restart_channel threads m id error).manager
unfolding restart_channel
restart_channel-IsManager threads m id error inv =
    command-IsManager m id error (restart_found threads m error) inv
      λ slot e at taken on. restart_found-IsManager threads m error slot e at taken on inv
