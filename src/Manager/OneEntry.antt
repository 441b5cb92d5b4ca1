-- ===== src/Manager/OneEntry.antt =====
-- What the steps of rk3588-media-gateway/src/channel/channel_manager.c on one entry leave alone, and
-- when its thread runs behind them.
use learn_apue.Base.{
  ℕ, suc, ◌↔◌, ◌+◌, ◌≤◌, ◌<◌, ◌^◌, Bool, true, false, List, [], ◌∷◌, Option, ◌≡◌, arith,
}
use learn_apue.Base.Text.{Bytes}
use learn_apue.Config.{ChannelConfig, Config}
use learn_apue.Manager.{
  Entry, Ending, publish, publish_all, run_channel, join_entry, stop_entry, start_entry,
  configure_entry, channel_of, sigterm,
}
use learn_apue.Snapshot.{Snapshot}
use learn_apue.Status.{ok, GwError}

-- The fields that a thread never writes.
pub record Same (e e' : Entry) : Type 0 where
  pub occupied_eq : e'.occupied ≡ e.occupied
  pub config_eq : e'.run_config ≡ e.run_config
  pub generation_eq : e'.generation ≡ e.generation

pub record Published (e e' : Entry) : Type 0 where
  pub same : Same e e'
  pub started_eq : e'.thread_started ≡ e.thread_started
  pub running_eq : e'.thread_running ≡ e.thread_running

pub publish_all-Published : (e : Entry) (ss : List Snapshot) → Published e (publish_all e ss)
unfolding publish_all publish
publish_all-Published e [] = ground arith
publish_all-Published e (s ∷ ss) = ground (arith, publish_all-Published (publish e s) ss)

pub publish-Published : (e : Entry) (s : Snapshot) → Published e (publish e s)
unfolding publish
publish-Published e s = ground arith

-- A thread runs only where it was started, and only an occupied entry has one.
pub record IsEntry (e : Entry) : Type 0 where
  pub running_started : e.thread_running ≡ true → e.thread_started ≡ true
  pub started_occupied : e.thread_started ≡ true → e.occupied ≡ true

abbrev pub count_of : Bool → ℕ
count_of true = 1
count_of false = 0

abbrev pub running : Entry → ℕ
running e = count_of e.thread_running

-- The count of active threads, of which one entry contributes its own.
pub record Ended (e e' : Entry) (active active' : ℕ) : Type 0 where
  pub same : Same e e'
  pub not_started : e'.thread_started ≡ false
  pub not_running : e'.thread_running ≡ false
  pub counted : active < 2 ^ 64 → running e ≤ active → active' + running e ≡ active

pub join_entry-Ended :
    (ending : Ending) (e : Entry) (active : ℕ)
    → (let (e', active') = join_entry ending e active in Ended e e' active active')
unfolding join_entry run_channel
join_entry-Ended ending e active = ground (arith, publish_all-Published e ending.published)

pub stop_entry-Ended :
    (ending : Ending) (e : Entry) (active : ℕ)
    → IsEntry e
    → (let (e', active') = stop_entry ending e active in Ended e e' active active')
unfolding stop_entry
stop_entry-Ended ending e active inv =
    ground (arith, join_entry-Ended ending (record e { stop_signal = sigterm }) active)

-- An entry that is started: it runs if the thread was created, and counts for itself either way.
pub record Begun (e e' : Entry) (active active' : ℕ) : Type 0 where
  pub same : Same e e'
  pub runs : e'.thread_running ≡ e'.thread_started
  pub counted : suc active < 2 ^ 64 → active' ≡ active + running e'

pub start_entry-Begun :
    (strerror : ℕ → Bytes) (created : ℕ) (e : Entry) (active : ℕ) (error : Option GwError)
    → e.thread_started ≡ false
    → (let s = start_entry strerror created e active error in Begun e s.entry active s.active)
unfolding start_entry
start_entry-Begun strerror created e active error off = ground arith

pub start_entry-created :
    (strerror : ℕ → Bytes) (created : ℕ) (e : Entry) (active : ℕ) (error : Option GwError)
    → e.thread_started ≡ false
    → (let s = start_entry strerror created e active error in
        (s.status ≡ ok) ↔ (s.entry.thread_started ≡ true))
unfolding start_entry
start_entry-created strerror created e active error off = ground arith

pub record Configured (e e' : Entry) (channel : ChannelConfig) : Type 0 where
  pub taken : e'.occupied ≡ true
  pub serves_channel : channel_of e' ≡ channel
  pub started_eq : e'.thread_started ≡ e.thread_started
  pub running_eq : e'.thread_running ≡ e.thread_running

pub configure_entry-Configured :
    (e : Entry) (channel : ChannelConfig) (config : Config)
    → Configured e (configure_entry e channel config) channel
unfolding configure_entry
configure_entry-Configured e channel config = ground arith
