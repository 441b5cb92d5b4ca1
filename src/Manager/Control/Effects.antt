-- ===== src/Manager/Control/Effects.antt =====
-- What the commands of rk3588-media-gateway/src/channel/channel_manager.c do to the channel that they
-- name.
use learn_apue.Manager.Control.Local.{IsLocal, command_cases, commands-IsLocal, get_elem?-set}
use mathlib.Core.Path.{subst}
use learn_apue.Base.{ℕ, true, false, Option, some, ◌≡◌, ◌≢◌, arith, get_elem?}
use learn_apue.Base.Int.{ℤ, pos, eq_ℤ_iff}
use learn_apue.Base.Text.{Bytes}
use learn_apue.Manager.{
  Entry, Manager, Threads, serves, join_entry, stop_entry, start_entry, sigterm,
}
use learn_apue.Manager.Control.{
  entry_stop_requested, with_entry, start_found, start_channel, stop_found, stop_channel,
  restart_found, restart_channel, conclude_start, reap_ended, is_busy,
}
use learn_apue.Manager.Lifecycle.{request_stop}
use learn_apue.Manager.OneEntry.{join_entry-Ended}
use learn_apue.Status.{ok, GwError}

-- The entry of the channel before and after a command.
pub record Acted (m : Manager) (id : Bytes) (r : Manager) (before after : Entry) : Type 0 where
  pub slot : ℕ
  pub stood : get_elem? m.entries slot ≡ some before
  pub own : serves id before ≡ true
  pub stands : get_elem? r.entries slot ≡ some after

with_entry-Acted :
    (m : Manager) (id : Bytes) (slot : ℕ) (e : Entry) (r : Entry × ℕ)
    → get_elem? m.entries slot ≡ some e
    → serves id e ≡ true
    → Acted m id (with_entry m slot r) e r.0
with_entry-Acted m id slot e r at own = record {
  slot = slot;
  stood = at;
  own = own;
  stands = ground (arith, get_elem?-set m.entries slot slot e r.0 e at);
}

-- A stop that succeeds: a thread ran, and it is gone.
abbrev pub HasStopped : Manager → Bytes → Manager → Type 0
HasStopped m id r =
    (before : Entry) × (after : Entry) × Acted m id r before after
    × (before.thread_running ≡ true)
    × (after.thread_started ≡ false)
    × (after.thread_running ≡ false)

-- A start that succeeds: no thread ran, the channel was stopped or had failed, and a thread runs
-- that was not asked to stop.
abbrev pub HasStarted : Manager → Bytes → Manager → Type 0
HasStarted m id r =
    (before : Entry) × (after : Entry) × Acted m id r before after
    × (before.thread_started ≡ true → before.thread_running ≡ false)
    × (is_busy before.snapshot.state ≡ false)
    × (after.thread_running ≡ true)
    × (after.stop_signal ≡ pos 0)

abbrev pub HasRestarted : Manager → Bytes → Manager → Type 0
HasRestarted m id r =
    (before : Entry) × (after : Entry) × Acted m id r before after
    × (after.thread_running ≡ true)
    × (after.stop_signal ≡ pos 0)

stop_found-HasStopped :
    (threads : Threads) (m : Manager) (id : Bytes) (error : Option GwError) (slot : ℕ) (e : Entry)
    → get_elem? m.entries slot ≡ some e
    → serves id e ≡ true
    → (stop_found threads m id error slot e).status ≡ ok
    → HasStopped m id (stop_found threads m id error slot e).manager
unfolding stop_found stop_entry
stop_found-HasStopped threads m id error slot e at own done =
    let r = stop_entry (threads.ending slot) e m.active_threads in
    let ended =
      join_entry-Ended (threads.ending slot) (record e { stop_signal = sigterm })
        m.active_threads in
    let alive : e.thread_running ≡ true = ground arith in
    let same : with_entry m slot r ≡ (stop_found threads m id error slot e).manager =
      ground arith in
    subst (HasStopped m id) same (
      e,
      r.0,
      with_entry-Acted m id slot e r at own,
      alive,
      ground (arith, ended),
      ground (arith, ended),
    )

started_now :
    (threads : Threads) (slot : ℕ) (e : Entry) (active : ℕ) (error : Option GwError)
    → (let s = start_entry threads.strerror (threads.create slot) e active error in
        s.status ≡ ok → (s.entry.thread_running ≡ true) × (s.entry.stop_signal ≡ pos 0))
unfolding start_entry
started_now threads slot e active error done = ground arith

reap_ended_keeps :
    (threads : Threads) (m : Manager) (slot : ℕ) (e : Entry)
    → (let (e', active) = reap_ended threads m slot e in
        e'.thread_started ≡ false → e.thread_started ≡ true → e.thread_running ≡ false)
unfolding join_entry
reap_ended_keeps threads m slot e off on = ground arith

reap_ended_state :
    (threads : Threads) (m : Manager) (slot : ℕ) (e : Entry)
    → (reap_ended threads m slot e).0.snapshot ≡ e.snapshot
unfolding join_entry
reap_ended_state threads m slot e = ground arith

start_found-HasStarted :
    (threads : Threads) (m : Manager) (id : Bytes) (error : Option GwError) (slot : ℕ) (e : Entry)
    → get_elem? m.entries slot ≡ some e
    → serves id e ≡ true
    → (start_found threads m id error slot e).status ≡ ok
    → HasStarted m id (start_found threads m id error slot e).manager
unfolding start_found conclude_start
start_found-HasStarted threads m id error slot e at own done =
    let (e', active) = reap_ended threads m slot e in
    let s = start_entry threads.strerror (threads.create slot) e' active error in
    let off : e'.thread_started ≡ false = ground arith in
    let free : is_busy e'.snapshot.state ≡ false = ground arith in
    let created : s.status ≡ ok = ground arith in
    let same : with_entry m slot (s.entry, s.active)
        ≡ (start_found threads m id error slot e).manager =
      ground arith in
    let (runs, unasked) = started_now threads slot e' active error created in
    subst (HasStarted m id) same (
      e,
      s.entry,
      with_entry-Acted m id slot e (s.entry, s.active) at own,
      reap_ended_keeps threads m slot e off,
      subst (λ t. is_busy t.state ≡ false) (reap_ended_state threads m slot e) free,
      runs,
      unasked,
    )

restart_found-HasRestarted :
    (threads : Threads) (m : Manager) (id : Bytes) (error : Option GwError) (slot : ℕ) (e : Entry)
    → get_elem? m.entries slot ≡ some e
    → serves id e ≡ true
    → (restart_found threads m error slot e).status ≡ ok
    → HasRestarted m id (restart_found threads m error slot e).manager
unfolding restart_found conclude_start
restart_found-HasRestarted threads m id error slot e at own done =
    let (e', active) = stop_entry (threads.ending slot) e m.active_threads in
    let s = start_entry threads.strerror (threads.create slot) e' active error in
    let (runs, unasked) = started_now threads slot e' active error done in
    (e, s.entry, with_entry-Acted m id slot e (s.entry, s.active) at own, runs, unasked)

-- A command for a channel leaves the entry of every other channel, the configuration and the stop
-- request of the manager as they are, whether it succeeds or not. When it succeeds, it has done the
-- following. A start: the channel was stopped or had failed, no thread of it ran, and now one runs
-- that is not asked to stop. A stop: a thread ran, and it has ended and is joined. A restart: a
-- thread runs that is not asked to stop.
pub commands_act :
    (threads : Threads) (m : Manager) (id : Bytes) (error : Option GwError)
    → (let started = start_channel threads m id error in
        IsLocal m id started.manager × (started.status ≡ ok → HasStarted m id started.manager))
      × (let stopped = stop_channel threads m id error in
          IsLocal m id stopped.manager × (stopped.status ≡ ok → HasStopped m id stopped.manager))
      × (let restarted = restart_channel threads m id error in
          IsLocal m id restarted.manager
          × (restarted.status ≡ ok → HasRestarted m id restarted.manager))
unfolding start_channel stop_channel restart_channel
commands_act threads m id error =
    let (start_local, stop_local, restart_local) = commands-IsLocal threads m id error in
    (
      (
        start_local,
        command_cases (λ o. o.status ≡ ok → HasStarted m id o.manager) m id error
            (start_found threads m id error) (λ status message bad done. absurd (bad done))
            (λ slot e at own. start_found-HasStarted threads m id error slot e at own),
      ),
      (
        stop_local,
        command_cases (λ o. o.status ≡ ok → HasStopped m id o.manager) m id error
            (stop_found threads m id error) (λ status message bad done. absurd (bad done))
            (λ slot e at own. stop_found-HasStopped threads m id error slot e at own),
      ),
      (
        restart_local,
        command_cases (λ o. o.status ≡ ok → HasRestarted m id o.manager) m id error
            (restart_found threads m error) (λ status message bad done. absurd (bad done))
            (λ slot e at own. restart_found-HasRestarted threads m id error slot e at own),
      ),
    )

-- Once the manager is asked to stop, the stop test of every channel thread answers with a signal,
-- whatever the caller's own test and signal say.
pub entry_stop_requested-request_stop :
    (stop_check caller_signal : Option ℤ) (m : Manager) (n : ℤ) (e : Entry)
    → entry_stop_requested stop_check caller_signal (request_stop m n) e ≢ pos 0
unfolding entry_stop_requested request_stop
entry_stop_requested-request_stop stop_check caller_signal m n e =
    ground (arith, eq_ℤ_iff e.stop_signal (pos 0), eq_ℤ_iff n (pos 0))
