-- ===== src/Manager/Reload.antt =====
-- `gw_channel_manager_reload` of rk3588-media-gateway/src/channel/channel_manager.c: the loop over
-- the slots, the loop over the channels of the candidate, and the guards before them.
pub mod Adding
pub mod Capacity
pub mod Omissions
pub mod Summary
pub mod Unaffected
pub mod Refines
pub mod Serves
use learn_apue.Base.{
  ℕ, suc, Bool, true, false, not, ◌||◌, List, [], ◌∷◌, Option, none, some, if◌then◌else◌,
}
use learn_apue.Base.Int.{pos, eq_ℤ}
use learn_apue.Base.Text.{Bytes, text}
use learn_apue.Config.{ChannelConfig, Config}
use learn_apue.Config.Validate.{validate}
use learn_apue.Manager.Creating.{code_of}
use learn_apue.Manager.{
  Entry, Manager, Threads, channel_of, channel_config_equal, worker_globals_equal,
  find_enabled_channel, find_entry, find_free_entry, configure_entry, stop_entry, StartedEntry,
  start_entry, put_entry,
}
use learn_apue.Status.{
  Status, ok, argument, io, validation, overflow, GwError, error_set, error_clear,
}

pub record ReloadSummary : Type 0 where
  pub unchanged : ℕ
  pub added : ℕ
  pub removed : ℕ
  pub restarted : ℕ

abbrev pub no_changes : ReloadSummary
no_changes = record { unchanged = 0; added = 0; removed = 0; restarted = 0 }

-- What the loops carry besides the entries.
pub record Changes : Type 0 where
  pub summary : ReloadSummary
  pub active : ℕ
  pub final_status : Status
  pub error : Option GwError

-- `if (start_entry(entry, error) != GW_OK) final_status = GW_ERR_IO;`
abbrev pub worst : Status → Status → Status
worst ok before = before
worst _ before = io

-- `configure_entry` and `start_entry` for a slot, counted off by `count`.
unfoldable pub launch :
    Threads → Config → ℕ → Entry → ChannelConfig → ReloadSummary → Changes → Entry × Changes
launch threads candidate slot e channel summary c =
    let s =
      start_entry threads.strerror (threads.create slot) (configure_entry e channel candidate)
        c.active c.error in
    (
      s.entry,
      record {
        summary = summary;
        active = s.active;
        final_status = worst s.status c.final_status;
        error = s.error;
      },
    )

unfoldable pub restart : Threads → Config → ℕ → Entry → ChannelConfig → Changes → Entry × Changes
restart threads candidate slot e channel c =
    let (stopped, active) = stop_entry (threads.ending slot) e c.active in
    launch threads candidate slot stopped channel
      (record c.summary { restarted = suc c.summary.restarted }) (record c { active = active })

unfoldable pub remove : Threads → ℕ → Entry → Changes → Entry × Changes
remove threads slot e c =
    let (stopped, active) = stop_entry (threads.ending slot) e c.active in
    (
      record stopped { occupied = false },
      record c { active = active; summary = record c.summary { removed = suc c.summary.removed } },
    )

abbrev pub replace :
    Threads → Bool → Config → ℕ → Entry → Changes → Option ChannelConfig → Entry × Changes
replace threads globals_equal candidate slot e c none = remove threads slot e c
replace threads true candidate slot e c (some replacement) =
    if channel_config_equal (channel_of e) replacement
    then (e, record c { summary = record c.summary { unchanged = suc c.summary.unchanged } })
    else restart threads candidate slot e replacement c
replace threads false candidate slot e c (some replacement) =
    restart threads candidate slot e replacement c

-- The body of the first loop.
unfoldable pub reload_entry : Threads → Bool → Config → ℕ → Entry → Changes → Entry × Changes
reload_entry threads globals_equal candidate slot e c =
    if e.occupied
    then replace threads globals_equal candidate slot e c
        (find_enabled_channel candidate.channels (channel_of e).id)
    else (e, c)

unfoldable pub reload_entries :
    Threads → Bool → Config → ℕ → List Entry → Changes → List Entry × Changes
reload_entries threads globals_equal candidate slot [] c = ([], c)
reload_entries threads globals_equal candidate slot (e ∷ es) c =
    let (e', c') = reload_entry threads globals_equal candidate slot e c in
    let (es', c'') = reload_entries threads globals_equal candidate (suc slot) es c' in
    (e' ∷ es', c'')

-- `++changes.added`
abbrev pub suc_added : ReloadSummary → ReloadSummary
suc_added summary = record summary { added = suc summary.added }

-- The slot that the channel gets, or `none` where the loop breaks.
abbrev pub add_to :
    Threads
    → Config
    → List Entry
    → ChannelConfig
    → Changes
    → Option (ℕ × Entry)
    → Option (List Entry × Changes)
add_to threads candidate es channel c none = none
add_to threads candidate es channel c (some (slot, e)) =
    let (e', c') = launch threads candidate slot e channel (suc_added c.summary) c in
    some (put_entry es slot e', c')

-- Whether the loop skips the channel.
abbrev pub skips : List Entry → ChannelConfig → Bool
skips es channel = elim (find_entry es channel.id) [ none ↦ not channel.enabled | some _ ↦ true ]

abbrev pub no_room : Changes → Changes
no_room c = record c {
  final_status = overflow;
  error = error_set c.error overflow (text "channel manager capacity exceeded");
}

-- The second loop.
unfoldable pub add_channels :
    Threads → Config → List ChannelConfig → List Entry → Changes → List Entry × Changes
add_channels threads candidate [] es c = (es, c)
add_channels threads candidate (channel ∷ rest) es c = elim (skips es channel) [
  | true ↦ add_channels threads candidate rest es c
  | false ↦ elim (add_to threads candidate es channel c (find_free_entry es)) [
    | none ↦ (es, no_room c)
    | some (es', c') ↦ add_channels threads candidate rest es' c'
  ]
]

pub record Reloaded : Type 0 where
  pub manager : Manager
  pub summary : ReloadSummary
  pub status : Status
  pub error : Option GwError

-- Both loops.
unfoldable pub apply_candidate : Threads → Manager → Config → Option GwError → List Entry × Changes
apply_candidate threads m candidate error =
    let start : Changes = record {
      summary = no_changes;
      active = m.active_threads;
      final_status = ok;
      error = error;
    } in
    let (es, c) =
      reload_entries threads (worker_globals_equal m.config candidate) candidate 0 m.entries
        start in
    add_channels threads candidate candidate.channels es c

abbrev pub clear_if_ok : Status → Option GwError → Option GwError
clear_if_ok ok error = error_clear error
clear_if_ok _ error = error

abbrev pub refused : Manager → Status → Option GwError → Reloaded
refused m status error = record {
  manager = m;
  summary = no_changes;
  status = status;
  error = error;
}

-- `!started || stop_signal != 0`
abbrev pub is_unavailable : Manager → Bool
is_unavailable m = not m.started || not (eq_ℤ m.stop_signal (pos 0))

-- The pointers are not null.
abbrev pub reload_valid : Threads → Manager → Config → Status × Option GwError → Reloaded
reload_valid threads m candidate (ok, error) =
    let (es, c) = apply_candidate threads m candidate error in
    record {
      manager = record m { entries = es; active_threads = c.active; config = candidate };
      summary = c.summary;
      status = c.final_status;
      error = clear_if_ok c.final_status c.error;
    }
reload_valid threads m candidate (status, error) = refused m (code_of error) error

unfoldable pub reload :
    (Bytes → Bool) → (Bytes → Bool) → Threads → Manager → Config → Option GwError → Reloaded
reload is_ipv4 is_ipv6 threads m candidate error =
    if is_unavailable m
    then refused m validation
        (error_set error validation (text "channel manager is not available for reload"))
    else reload_valid threads m candidate (validate is_ipv4 is_ipv6 candidate error)
