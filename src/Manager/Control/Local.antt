-- ===== src/Manager/Control/Local.antt =====
-- The commands of rk3588-media-gateway/src/channel/channel_manager.c leave the channels that they
-- do not name alone.
use learn_apue.Base.{
  ℕ, zero, suc, ◌==◌, true, false, List, [], ◌∷◌, Option, some, ◌≡◌, ◌≢◌, refl, arith, inl, inr,
  Bool-cases, Option-cases, get_elem?, set,
}
use learn_apue.Base.Text.{Bytes}
use learn_apue.Manager.{Entry, Manager, Threads, serves, find_entry, stop_entry, start_entry}
use learn_apue.Manager.Control.{
  with_entry, command, start_found, start_channel, stop_found, stop_channel, restart_found,
  restart_channel, conclude_start, reap_ended, answer,
}
use learn_apue.Manager.Lifecycle.{Outcome}
use learn_apue.Manager.Reload.{is_unavailable}
use learn_apue.Manager.View.{find_from-IsHit}
use learn_apue.Status.{Status, ok, GwError}

pub get_elem?-set :
    (es : List Entry) (slot index : ℕ) (e e' f : Entry)
    → get_elem? es slot ≡ some e
    → get_elem? (set es slot e') index
      ≡ (elim (slot == index) [ true ↦ some e' | false ↦ get_elem? es index ])
get_elem?-set [] slot index e e' f at = absurd (ground arith)
get_elem?-set (x ∷ es) zero zero e e' f at = refl
get_elem?-set (x ∷ es) zero (suc index) e e' f at = ground arith
get_elem?-set (x ∷ es) (suc slot) zero e e' f at = ground arith
get_elem?-set (x ∷ es) (suc slot) (suc index) e e' f at =
    ground (arith, get_elem?-set es slot index e e' f at)

-- A command leaves every other slot as it is.
pub record IsLocal (m : Manager) (id : Bytes) (r : Manager) : Type 0 where
  pub others_kept :
      (index : ℕ) (e : Entry)
      → get_elem? m.entries index ≡ some e
      → serves id e ≡ false
      → get_elem? r.entries index ≡ some e
  pub config_eq : r.config ≡ m.config
  pub stop_eq : r.stop_signal ≡ m.stop_signal
  pub started_eq : r.started ≡ m.started

IsLocal-refl : (m : Manager) (id : Bytes) → IsLocal m id m
IsLocal-refl m id = record {
  others_kept = λ index e at other. at;
  config_eq = refl;
  stop_eq = refl;
  started_eq = refl;
}

pub with_entry-IsLocal :
    (m : Manager) (id : Bytes) (slot : ℕ) (e : Entry) (r : Entry × ℕ)
    → get_elem? m.entries slot ≡ some e
    → serves id e ≡ true
    → IsLocal m id (with_entry m slot r)
with_entry-IsLocal m id slot e r at own = record {
  others_kept =
      λ index f there other. ground (arith, get_elem?-set m.entries slot index e r.0 f at);
  config_eq = refl;
  stop_eq = refl;
  started_eq = refl;
}

-- Behind the guards of a command, at the slot that serves the channel.
pub command_cases :
    (P : Outcome → Type 0) (m : Manager) (id : Bytes) (error : Option GwError)
    (act : ℕ → Entry → Outcome)
    → ((status : Status) (message : Bytes) → status ≢ ok → P (answer m error status message))
    → ((slot : ℕ) (e : Entry)
        → get_elem? m.entries slot ≡ some e
        → serves id e ≡ true
        → P (act slot e))
    → P (command m id error act)
unfolding command find_entry
command_cases P m [] error act refused behind = refused _ _ λ e. cc
command_cases P m (b ∷ bs) error act refused behind = elim (Bool-cases (is_unavailable m)) [
  | inl off ↦ rw (off, command) (refused _ _ λ e. cc)
  | inr on ↦ elim (Option-cases (find_entry m.entries (b ∷ bs))) [
    | inl missing ↦ rw (on, missing, command) (refused _ _ λ e. cc)
    | inr ((slot, e), q) ↦
        let hit = find_from-IsHit (serves (b ∷ bs)) 0 m.entries {slot = slot} {e = e} q in
        rw (on, q, command) (behind slot e (ground (arith, hit)) hit.passes)
  ]
]

conclude_start-IsLocal :
    (threads : Threads) (m : Manager) (id : Bytes) (slot : ℕ) (e : Entry) (r : Entry × ℕ)
    (error : Option GwError)
    → get_elem? m.entries slot ≡ some e
    → serves id e ≡ true
    → IsLocal m id (conclude_start threads m slot r error).manager
unfolding conclude_start
conclude_start-IsLocal threads m id slot e (e', active) error at own =
    let s = start_entry threads.strerror (threads.create slot) e' active error in
    with_entry-IsLocal m id slot e (s.entry, s.active) at own

start_found-IsLocal :
    (threads : Threads) (m : Manager) (id : Bytes) (error : Option GwError) (slot : ℕ) (e : Entry)
    → get_elem? m.entries slot ≡ some e
    → serves id e ≡ true
    → IsLocal m id (start_found threads m id error slot e).manager
unfolding start_found
start_found-IsLocal threads m id error slot e at own =
    let r = reap_ended threads m slot e in
    ground (
      arith,
      with_entry-IsLocal m id slot e r at own,
      conclude_start-IsLocal threads m id slot e r error at own,
    )

stop_found-IsLocal :
    (threads : Threads) (m : Manager) (id : Bytes) (error : Option GwError) (slot : ℕ) (e : Entry)
    → get_elem? m.entries slot ≡ some e
    → serves id e ≡ true
    → IsLocal m id (stop_found threads m id error slot e).manager
unfolding stop_found
stop_found-IsLocal threads m id error slot e at own = ground (
  arith,
  with_entry-IsLocal m id slot e (reap_ended threads m slot e) at own,
  with_entry-IsLocal m id slot e (stop_entry (threads.ending slot) e m.active_threads) at own,
)

pub commands-IsLocal :
    (threads : Threads) (m : Manager) (id : Bytes) (error : Option GwError)
    → IsLocal m id (start_channel threads m id error).manager
      × IsLocal m id (stop_channel threads m id error).manager
      × IsLocal m id (restart_channel threads m id error).manager
unfolding start_channel stop_channel restart_channel restart_found
commands-IsLocal threads m id error =
    let refused : (status : Status) (message : Bytes)
        → status ≢ ok
        → IsLocal m id (answer m error status message).manager =
      λ status message bad. IsLocal-refl m id in
    (
      command_cases (λ o. IsLocal m id o.manager) m id error (start_found threads m id error)
          refused (λ slot e at own. start_found-IsLocal threads m id error slot e at own),
      command_cases (λ o. IsLocal m id o.manager) m id error (stop_found threads m id error) refused
          (λ slot e at own. stop_found-IsLocal threads m id error slot e at own),
      command_cases (λ o. IsLocal m id o.manager) m id error (restart_found threads m error) refused
          (λ slot e at own.
            conclude_start-IsLocal threads m id slot e
              (stop_entry (threads.ending slot) e m.active_threads) error at own),
    )
