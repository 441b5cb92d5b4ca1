-- ===== src/Manager/Invariant/Reloading.antt =====
-- `gw_channel_manager_reload` of rk3588-media-gateway/src/channel/channel_manager.c keeps the
-- invariant of the manager.
use learn_apue.Base.{
  ℕ, suc, ◌+◌, ◌<◌, ◌≤◌, ◌^◌, Bool, true, false, List, [], ◌∷◌, Option, none, some, ◌≡◌, arith,
  length,
}
use learn_apue.Base.Text.{Bytes}
use learn_apue.Config.{ChannelConfig, Config, max_channels}
use learn_apue.Config.Validate.{validate}
use learn_apue.Manager.{
  Entry, Manager, Threads, channel_of, find_enabled_channel, worker_globals_equal, stop_entry,
  configure_entry,
}
use learn_apue.Manager.Invariant.{
  AreEntries, threads_running, IsManager, AreEntries-set, AreEntries-get_elem?, threads_running-set,
  threads_running-le,
}
use learn_apue.Manager.OneEntry.{
  IsEntry, running, stop_entry-Ended, start_entry-Begun, configure_entry-Configured,
}
use learn_apue.Manager.Registry.{find_free_entry-stood, length-set}
use learn_apue.Manager.Reload.{
  Changes, ReloadSummary, launch, restart, remove, replace, reload_entry, reload_entries,
  add_channels, suc_added, no_changes, apply_candidate, reload,
}
use learn_apue.Manager.Reload.Adding.{add_channels_induction}
use learn_apue.Manager.Reload.Omissions.{length-reload_entries}
use learn_apue.Manager.Reload.Capacity.{apply_candidate-IsServing}
use learn_apue.Status.{ok, GwError}

-- A step on one entry keeps the count.
record Counting (e e' : Entry) (active active' : ℕ) : Type 0 where
  entry_fits : IsEntry e'
  counted : suc active < 2 ^ 64 → running e ≤ active → active' + running e ≡ active + running e'

launch-Counting :
    (threads : Threads) (candidate : Config) (slot : ℕ) (e : Entry) (channel : ChannelConfig)
    (summary : ReloadSummary) (c : Changes)
    → e.thread_started ≡ false
    → e.thread_running ≡ false
    → (let (e', c') = launch threads candidate slot e channel summary c in
        Counting e e' c.active c'.active)
unfolding launch
launch-Counting threads candidate slot e channel summary c off still =
    let e' = configure_entry e channel candidate in
    ground (
      arith,
      configure_entry-Configured e channel candidate,
      start_entry-Begun threads.strerror (threads.create slot) e' c.active c.error,
    )

restart-Counting :
    (threads : Threads) (candidate : Config) (slot : ℕ) (e : Entry) (channel : ChannelConfig)
    (c : Changes)
    → IsEntry e
    → (let (e', c') = restart threads candidate slot e channel c in
        Counting e e' c.active c'.active)
unfolding restart
restart-Counting threads candidate slot e channel c fit =
    let (stopped, active) = stop_entry (threads.ending slot) e c.active in
    let summary = record c.summary { restarted = suc c.summary.restarted } in
    ground (
      arith,
      stop_entry-Ended (threads.ending slot) e c.active fit,
      launch-Counting threads candidate slot stopped channel summary (record c { active = active }),
    )

replace-Counting :
    (threads : Threads) (globals_equal : Bool) (candidate : Config) (slot : ℕ) (e : Entry)
    (c : Changes) (found : Option ChannelConfig)
    → IsEntry e
    → (let (e', c') = replace threads globals_equal candidate slot e c found in
        Counting e e' c.active c'.active)
unfolding remove
replace-Counting threads globals_equal candidate slot e c none fit =
    ground (arith, stop_entry-Ended (threads.ending slot) e c.active fit)
replace-Counting threads true candidate slot e c (some channel) fit =
    ground (arith, restart-Counting threads candidate slot e channel c fit)
replace-Counting threads false candidate slot e c (some channel) fit =
    restart-Counting threads candidate slot e channel c fit

-- So do the loops.
record AllCounting (es es' : List Entry) (active active' : ℕ) : Type 0 where
  entries_fit : AreEntries es'
  counted :
      active + length es < 2 ^ 64
      → threads_running es ≤ active
      → active' + threads_running es ≡ active + threads_running es'

reload_entries-AllCounting :
    (threads : Threads) (globals_equal : Bool) (candidate : Config) (slot : ℕ) (es : List Entry)
    (c : Changes)
    → AreEntries es
    → (let (es', c') = reload_entries threads globals_equal candidate slot es c in
        AllCounting es es' c.active c'.active)
unfolding reload_entries reload_entry threads_running
reload_entries-AllCounting threads globals_equal candidate slot [] c fit = ground arith
reload_entries-AllCounting threads globals_equal candidate slot (e ∷ es) c fit =
    let (e', c') = reload_entry threads globals_equal candidate slot e c in
    ground (
      arith,
      replace-Counting threads globals_equal candidate slot e c
          (find_enabled_channel candidate.channels (channel_of e).id) fit.0,
      reload_entries-AllCounting threads globals_equal candidate (suc slot) es c' fit.1,
    )

-- The second loop, from a count that is right.
abbrev KeepsCount : List ChannelConfig → List Entry → Changes → List Entry × Changes → Type 0
KeepsCount rest es c r =
    AreEntries es
    → length es + 1 < 2 ^ 64
    → c.active ≡ threads_running es
    → AreEntries r.0 × (r.1.active ≡ threads_running r.0)

add_channels-KeepsCount :
    (threads : Threads) (candidate : Config) (rest : List ChannelConfig) (es : List Entry)
    (c : Changes)
    → KeepsCount rest es c (add_channels threads candidate rest es c)
add_channels-KeepsCount threads candidate =
    add_channels_induction threads candidate KeepsCount (λ es c fit room count. (fit, count))
      (λ channel rest es c r skipped ih. ih)
      (λ channel rest es c wanted full fit room count. (fit, count))
      (λ channel rest es c slot e r wanted q ih fit room count.
        let (e', c') = launch threads candidate slot e channel (suc_added c.summary) c in
        let (stood, free) = find_free_entry-stood es {slot = slot} {e = e} q in
        let e_fit = AreEntries-get_elem? es slot {e = e} stood fit in
        ground (
          arith,
          ih,
          e_fit,
          launch-Counting threads candidate slot e channel (suc_added c.summary) c,
          AreEntries-set es slot e',
          threads_running-set es slot e e' stood,
          length-set es slot e',
          threads_running-le es,
        ))

-- A reload keeps the invariant, if the candidate has no more channels than there are slots.
pub reload-IsManager :
    (is_ipv4 is_ipv6 : Bytes → Bool) (threads : Threads) (m : Manager) (candidate : Config)
    (error : Option GwError)
    → length candidate.channels ≤ max_channels
    → IsManager m
    → IsManager (reload is_ipv4 is_ipv6 threads m candidate error).manager
unfolding reload apply_candidate
reload-IsManager is_ipv4 is_ipv6 threads m candidate error room inv =
    let (status, error') = validate is_ipv4 is_ipv6 candidate error in
    let start : Changes = record {
      summary = no_changes;
      active = m.active_threads;
      final_status = ok;
      error = error';
    } in
    let g = worker_globals_equal m.config candidate in
    let (es, c) = reload_entries threads g candidate 0 m.entries start in
    ground (
      arith,
      inv.registry,
      inv.counted,
      inv.idle_before,
      reload_entries-AllCounting threads g candidate 0 m.entries start inv.entries_fit,
      add_channels-KeepsCount threads candidate candidate.channels es c,
      length-reload_entries threads g candidate 0 m.entries start,
      threads_running-le m.entries,
      apply_candidate-IsServing threads m candidate error' inv.registry.distinct,
    )
