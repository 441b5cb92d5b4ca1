-- ===== src/Manager/Reload/Capacity.antt =====
-- The slots suffice: `gw_channel_manager_reload` of
-- rk3588-media-gateway/src/channel/channel_manager.c never runs out of them when the candidate has no
-- more channels than there are slots.
use learn_apue.Manager.Reload.Omissions.{
  omitted, omissions, count, skips_eq, occupancy-omissions, reload_entries-AreDistinct,
  reload_entries-AreWanted, length-reload_entries,
}
use learn_apue.Base.{
  ℕ, suc, ◌+◌, ◌≤◌, Bool, true, false, not, List, [], ◌∷◌, Option, none, some, ◌≡◌, ◌≢◌, ◌∙◌, refl,
  arith, length,
}
use learn_apue.Base.Text.{Bytes}
use learn_apue.Config.{ChannelConfig, Config}
use learn_apue.Manager.{
  Entry, Threads, Manager, worker_globals_equal, channel_of, find_enabled_channel, find_free_entry,
  put_entry, start_entry,
}
use learn_apue.Manager.Registry.{
  AreDistinct, occupancy, find_free_entry_full, find_free_entry-Filled,
}
use learn_apue.Manager.Reload.{
  ReloadSummary, no_changes, apply_candidate, replace, restart, remove, Changes, launch,
  reload_entry, reload_entries, add_channels, suc_added,
}
use learn_apue.Manager.Reload.Adding.{add_channels_induction}
use learn_apue.Manager.Reload.Serves.{
  Serving, launch-Serving, served-reload_entries, served-added, add_channels-served,
}
use learn_apue.Manager.View.{served}
use learn_apue.Status.{ok, overflow, GwError}

-- How many channels the second loop still has to place.
missing : List Entry → List ChannelConfig → ℕ
unfolding count
missing es [] = 0
missing es (channel ∷ rest) = count (not (omitted es channel)) + missing es rest

missing-omissions :
    (es : List Entry) (channels : List ChannelConfig)
    → missing es channels + omissions es channels ≡ length channels
unfolding missing omissions count
missing-omissions es [] = omega arith
missing-omissions es (channel ∷ rest) = ground (arith, missing-omissions es rest)

missing-put :
    (es : List Entry) (channel : ChannelConfig) (rest : List ChannelConfig) {slot : ℕ} {e : Entry}
    (e' : Entry)
    → find_free_entry es ≡ some (slot, e)
    → served es channel.id ≡ none
    → Serving e' channel
    → missing (put_entry es slot e') rest ≤ missing es rest
unfolding missing count
missing-put es channel [] e' q new s = omega arith
missing-put es channel (x ∷ rest) e' q new s =
    ground (arith, missing-put es channel rest e' q new s, served-added es channel x.id e' q new s)

launch-no_overflow :
    (threads : Threads) (candidate : Config) (slot : ℕ) (e : Entry) (channel : ChannelConfig)
    (summary : ReloadSummary) (c : Changes)
    → c.final_status ≢ overflow
    → (launch threads candidate slot e channel summary c).1.final_status ≢ overflow
unfolding launch start_entry
launch-no_overflow threads candidate slot e channel summary c before = ground arith

replace-no_overflow :
    (threads : Threads) (globals_equal : Bool) (candidate : Config) (slot : ℕ) (e : Entry)
    (c : Changes) (found : Option ChannelConfig)
    → c.final_status ≢ overflow
    → (replace threads globals_equal candidate slot e c found).1.final_status ≢ overflow
unfolding restart launch start_entry remove
replace-no_overflow threads globals_equal candidate slot e c none before = before
replace-no_overflow threads true candidate slot e c (some channel) before = ground arith
replace-no_overflow threads false candidate slot e c (some channel) before = ground arith

reload_entries-no_overflow :
    (threads : Threads) (globals_equal : Bool) (candidate : Config) (slot : ℕ) (es : List Entry)
    (c : Changes)
    → c.final_status ≢ overflow
    → (reload_entries threads globals_equal candidate slot es c).1.final_status ≢ overflow
unfolding reload_entries reload_entry
reload_entries-no_overflow threads globals_equal candidate slot [] c before = before
reload_entries-no_overflow threads globals_equal candidate slot (e ∷ es) c before =
    let e' = reload_entry threads globals_equal candidate slot e c in
    ground (
      arith,
      reload_entries-no_overflow threads globals_equal candidate (suc slot) es e'.1,
      replace-no_overflow threads globals_equal candidate slot e c
          (find_enabled_channel candidate.channels (channel_of e).id),
    )

-- While what is taken and what is to be placed fit into the slots, the second loop never breaks,
-- and keeps the identifiers distinct.
abbrev Fits : List ChannelConfig → List Entry → Changes → List Entry × Changes → Type 0
Fits rest es c r =
    AreDistinct es
    → c.final_status ≢ overflow
    → occupancy es + missing es rest ≤ length es
    → (r.1.final_status ≢ overflow) × AreDistinct r.0 × (length r.0 ≡ length es)

add_channels-Fits :
    (threads : Threads) (candidate : Config) (rest : List ChannelConfig) (es : List Entry)
    (c : Changes)
    → Fits rest es c (add_channels threads candidate rest es c)
unfolding missing count
add_channels-Fits threads candidate =
    add_channels_induction threads candidate Fits (λ es c d before fits. (before, d, refl))
      (λ channel rest es c r skipped ih d before fits.
        ground (arith, ih d before, skips_eq es channel))
      (λ channel rest es c wanted full d before fits.
        ground (arith, skips_eq es channel, find_free_entry_full es full))
      (λ channel rest es c slot e r wanted q ih d before fits.
        let (e', c') = launch threads candidate slot e channel (suc_added c.summary) c in
        let new : served es channel.id ≡ none = ground (arith, skips_eq es channel) in
        let s = launch-Serving threads candidate slot e channel (suc_added c.summary) c in
        ground (
          arith,
          ih,
          skips_eq es channel,
          find_free_entry-Filled es e' q,
          missing-put es channel rest e' q new s,
          launch-no_overflow threads candidate slot e channel (suc_added c.summary) c before,
        ))

-- Both loops.
pub record IsServing (threads : Threads) (m : Manager) (candidate : Config)
    (r : List Entry × Changes) : Type 0 where
  pub no_overflow : r.1.final_status ≢ overflow
  pub still_distinct : AreDistinct r.0
  pub length_eq : length r.0 ≡ length m.entries
  pub serves_wanted : (id : Bytes) → served r.0 id ≡ find_enabled_channel candidate.channels id

pub apply_candidate-IsServing :
    (threads : Threads) (m : Manager) (candidate : Config) (error : Option GwError)
    → AreDistinct m.entries
    → length candidate.channels ≤ length m.entries
    → IsServing threads m candidate (apply_candidate threads m candidate error)
unfolding apply_candidate
apply_candidate-IsServing threads m candidate error distinct room =
    let g = worker_globals_equal m.config candidate in
    let start : Changes = record {
      summary = no_changes;
      active = m.active_threads;
      final_status = ok;
      error = error;
    } in
    let (es, c) = reload_entries threads g candidate 0 m.entries start in
    let d = reload_entries-AreDistinct threads g candidate 0 m.entries start distinct in
    let w = reload_entries-AreWanted threads g candidate 0 m.entries start in
    let l = length-reload_entries threads g candidate 0 m.entries start in
    let fits =
      add_channels-Fits threads candidate candidate.channels es c d
        (reload_entries-no_overflow threads g candidate 0 m.entries start (ground arith))
        (omega (
          arith,
          l,
          room,
          occupancy-omissions candidate.channels es d w,
          missing-omissions es candidate.channels,
        )) in
    record {
      no_overflow = fits.0;
      still_distinct = fits.1;
      length_eq = fits.2 ∙ l;
      serves_wanted = λ id. ground (
        arith,
        add_channels-served threads candidate id candidate.channels es c fits.0,
        served-reload_entries threads g candidate 0 m.entries start id,
      );
    }
