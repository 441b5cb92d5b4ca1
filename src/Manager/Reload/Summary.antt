-- ===== src/Manager/Reload/Summary.antt =====
-- The summary that `gw_channel_manager_reload` of
-- rk3588-media-gateway/src/channel/channel_manager.c reports.
use learn_apue.Base.{ℕ, suc, ◌+◌, Bool, true, false, List, [], ◌∷◌, Option, none, some, ◌≡◌, arith}
use learn_apue.Base.Text.{Bytes}
use learn_apue.Config.{ChannelConfig, Config}
use learn_apue.Config.Validate.{validate}
use learn_apue.Manager.{
  Entry, Manager, Threads, stop_entry, channel_of, find_enabled_channel, worker_globals_equal,
}
use learn_apue.Manager.OneEntry.{count_of}
use learn_apue.Manager.Registry.{occupancy, find_free_entry-Filled}
use learn_apue.Manager.Reload.{
  Changes, ReloadSummary, launch, restart, remove, replace, reload_entry, reload_entries,
  add_channels, suc_added, apply_candidate, no_changes, reload, is_unavailable,
}
use learn_apue.Manager.Reload.Adding.{add_channels_induction}
use learn_apue.Manager.Reload.Serves.{launch-Serving}
use learn_apue.Manager.View.{find_entry_iff}
use learn_apue.Status.{ok, GwError}

-- The entries that were there, and those that stay.
abbrev seen : ReloadSummary → ℕ
seen s = s.unchanged + s.removed + s.restarted

abbrev stayed : ReloadSummary → ℕ
stayed s = s.unchanged + s.restarted

-- What a pass of the first loop counts.
record Counted (e e' : Entry) (c c' : Changes) : Type 0 where
  seen_more : seen c'.summary ≡ seen c.summary + count_of e.occupied
  stayed_more : stayed c'.summary ≡ stayed c.summary + count_of e'.occupied
  added_eq : c'.summary.added ≡ c.summary.added

restart-Counted :
    (threads : Threads) (candidate : Config) (slot : ℕ) (e : Entry) (channel : ChannelConfig)
    (c : Changes)
    → e.occupied ≡ true
    → (let (e', c') = restart threads candidate slot e channel c in Counted e e' c c')
unfolding restart launch
restart-Counted threads candidate slot e channel c taken =
    let (stopped, active) = stop_entry (threads.ending slot) e c.active in
    let summary = record c.summary { restarted = suc c.summary.restarted } in
    ground (
      arith,
      launch-Serving threads candidate slot stopped channel summary (record c { active = active }),
    )

replace-Counted :
    (threads : Threads) (globals_equal : Bool) (candidate : Config) (slot : ℕ) (e : Entry)
    (c : Changes) (found : Option ChannelConfig)
    → e.occupied ≡ true
    → (let (e', c') = replace threads globals_equal candidate slot e c found in Counted e e' c c')
unfolding remove
replace-Counted threads globals_equal candidate slot e c none taken = ground arith
replace-Counted threads true candidate slot e c (some channel) taken =
    ground (arith, restart-Counted threads candidate slot e channel c taken)
replace-Counted threads false candidate slot e c (some channel) taken =
    restart-Counted threads candidate slot e channel c taken

-- What the first loop counts.
record AllCounted (es es' : List Entry) (c c' : Changes) : Type 0 where
  seen_more : seen c'.summary ≡ seen c.summary + occupancy es
  stayed_more : stayed c'.summary ≡ stayed c.summary + occupancy es'
  added_eq : c'.summary.added ≡ c.summary.added

reload_entries-AllCounted :
    (threads : Threads) (globals_equal : Bool) (candidate : Config) (slot : ℕ) (es : List Entry)
    (c : Changes)
    → (let (es', c') = reload_entries threads globals_equal candidate slot es c in
        AllCounted es es' c c')
unfolding reload_entries reload_entry occupancy
reload_entries-AllCounted threads globals_equal candidate slot [] c = ground arith
reload_entries-AllCounted threads globals_equal candidate slot (e ∷ es) c =
    let (e', c') = reload_entry threads globals_equal candidate slot e c in
    ground (
      arith,
      replace-Counted threads globals_equal candidate slot e c
          (find_enabled_channel candidate.channels (channel_of e).id),
      reload_entries-AllCounted threads globals_equal candidate (suc slot) es c',
    )

abbrev AddsCounted : List ChannelConfig → List Entry → Changes → List Entry × Changes → Type 0
AddsCounted rest es c r =
    (seen r.1.summary ≡ seen c.summary)
    × (stayed r.1.summary ≡ stayed c.summary)
    × (occupancy r.0 + c.summary.added ≡ occupancy es + r.1.summary.added)

add_channels-AddsCounted :
    (threads : Threads) (candidate : Config) (rest : List ChannelConfig) (es : List Entry)
    (c : Changes)
    → AddsCounted rest es c (add_channels threads candidate rest es c)
unfolding launch
add_channels-AddsCounted threads candidate =
    add_channels_induction threads candidate AddsCounted (λ es c. ground arith)
      (λ channel rest es c r skipped ih. ih) (λ channel rest es c wanted full. ground arith)
      (λ channel rest es c slot e r wanted q ih.
        let e' = (launch threads candidate slot e channel (suc_added c.summary) c).0 in
        ground (
          arith,
          ih,
          find_entry_iff es channel.id,
          find_free_entry-Filled es e' q,
          launch-Serving threads candidate slot e channel (suc_added c.summary) c,
        ))

-- The summary of an accepted reload adds up: each entry that was occupied is counted once, as
-- unchanged, removed or restarted; and the entries that are occupied afterwards are the unchanged,
-- the restarted and the added ones.
pub reload-summary :
    (is_ipv4 is_ipv6 : Bytes → Bool) (threads : Threads) (m : Manager) (candidate : Config)
    (error : Option GwError)
    → is_unavailable m ≡ false
    → (validate is_ipv4 is_ipv6 candidate error).0 ≡ ok
    → (let r = reload is_ipv4 is_ipv6 threads m candidate error in
        (r.summary.unchanged + r.summary.removed + r.summary.restarted ≡ occupancy m.entries)
        × (occupancy r.manager.entries
            ≡ r.summary.unchanged + r.summary.restarted + r.summary.added))
unfolding reload apply_candidate
reload-summary is_ipv4 is_ipv6 threads m candidate error available valid =
    let (status, error') = validate is_ipv4 is_ipv6 candidate error in
    let start : Changes = record {
      summary = no_changes;
      active = m.active_threads;
      final_status = ok;
      error = error';
    } in
    let g = worker_globals_equal m.config candidate in
    let (es, c) = reload_entries threads g candidate 0 m.entries start in
    ground (
      arith,
      reload_entries-AllCounted threads g candidate 0 m.entries start,
      add_channels-AddsCounted threads candidate candidate.channels es c,
    )
