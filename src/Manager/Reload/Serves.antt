-- ===== src/Manager/Reload/Serves.antt =====
-- After `gw_channel_manager_reload` of rk3588-media-gateway/src/channel/channel_manager.c the registry
-- serves what the candidate asks for.
use learn_apue.Base.{
  if◌then◌else◌, ℕ, suc, Bool, true, false, List, [], ◌∷◌, Option, none, some, ◌≡◌, ◌≢◌, ◌⊎◌, inl,
  inr, refl, arith, Bool-cases,
}
use learn_apue.Base.Text.{Bytes, str_eq, str_eq_iff}
use learn_apue.Config.{ChannelConfig, Config}
use learn_apue.Manager.{
  channel_config_equal, Entry, Threads, channel_of, find_enabled_channel, find_free_entry, is_free,
  put_entry, start_entry,
}
use learn_apue.Manager.Equal.{channel_config_equal_iff}
use learn_apue.Manager.OneEntry.{configure_entry-Configured}
use learn_apue.Manager.Reload.Adding.{add_channels_induction}
use learn_apue.Manager.Reload.{
  suc_added, Changes, ReloadSummary, launch, restart, remove, replace, reload_entry, reload_entries,
  add_channels,
}
use learn_apue.Manager.View.{
  served, or_else, served-set, find_from-IsHit, find_entry_iff, find_enabled_sound,
}
use learn_apue.Status.{overflow}

-- An entry that is launched serves the channel.
pub record Serving (e' : Entry) (channel : ChannelConfig) : Type 0 where
  pub taken : e'.occupied ≡ true
  pub channel_eq : channel_of e' ≡ channel

pub launch-Serving :
    (threads : Threads) (candidate : Config) (slot : ℕ) (e : Entry) (channel : ChannelConfig)
    (summary : ReloadSummary) (c : Changes)
    → Serving (launch threads candidate slot e channel summary c).0 channel
unfolding launch start_entry
launch-Serving threads candidate slot e channel summary c =
    ground (arith, configure_entry-Configured e channel candidate)

pub restart-Serving :
    (threads : Threads) (candidate : Config) (slot : ℕ) (e : Entry) (channel : ChannelConfig)
    (c : Changes)
    → Serving (restart threads candidate slot e channel c).0 channel
unfolding restart
restart-Serving threads candidate slot e channel c =
    launch-Serving threads candidate slot _ channel _ _

-- What the candidate makes of an entry.
abbrev pub Treated : Config → Entry → Entry → Type 0
Treated candidate e e' =
    ((e.occupied ≡ false) × (e' ≡ e))
    ⊎ ((e.occupied ≡ true)
        × (find_enabled_channel candidate.channels (channel_of e).id ≡ none)
        × (e'.occupied ≡ false))
    ⊎ ((e.occupied ≡ true)
        × ((channel : ChannelConfig) × (find_enabled_channel candidate.channels (channel_of e).id
              ≡ some channel)
            × Serving e' channel))

replace-Treated :
    (threads : Threads) (globals_equal : Bool) (candidate : Config) (slot : ℕ) (e : Entry)
    (c : Changes) (found : Option ChannelConfig)
    → e.occupied ≡ true
    → find_enabled_channel candidate.channels (channel_of e).id ≡ found
    → Treated candidate e (replace threads globals_equal candidate slot e c found).0
unfolding remove
replace-Treated threads globals_equal candidate slot e c none o q = inr (inl (o, q, refl))
replace-Treated threads true candidate slot e c (some channel) o q = inr (
    inr (
      o,
      (
        channel,
        q,
        elim (Bool-cases (channel_config_equal (channel_of e) channel)) [
          | inl same ↦ rw same (record {
            taken = o;
            channel_eq = (channel_config_equal_iff (channel_of e) channel).0 same;
          })
          | inr other ↦ rw other (restart-Serving threads candidate slot e channel c)
        ],
      ),
    ))
replace-Treated threads false candidate slot e c (some channel) o q =
    inr (inr (o, (channel, q, restart-Serving threads candidate slot e channel c)))

pub reload_entry-Treated :
    (threads : Threads) (globals_equal : Bool) (candidate : Config) (slot : ℕ) (e : Entry)
    (c : Changes)
    → Treated candidate e (reload_entry threads globals_equal candidate slot e c).0
unfolding reload_entry
reload_entry-Treated threads globals_equal candidate slot e c = ground (
  arith,
  replace-Treated threads globals_equal candidate slot e c
      (find_enabled_channel candidate.channels (channel_of e).id),
)

-- What stays of the map: a channel that was served, as the candidate has it.
abbrev pub kept : Option ChannelConfig → Option ChannelConfig → Option ChannelConfig
kept none wanted = none
kept (some _) wanted = wanted

pub served-reload_entries :
    (threads : Threads) (globals_equal : Bool) (candidate : Config) (slot : ℕ) (es : List Entry)
    (c : Changes) (id : Bytes)
    → served (reload_entries threads globals_equal candidate slot es c).0 id
      ≡ kept (served es id) (find_enabled_channel candidate.channels id)
unfolding reload_entries served
served-reload_entries threads globals_equal candidate slot [] c id = refl
served-reload_entries threads globals_equal candidate slot (e ∷ es) c id =
    let e' = reload_entry threads globals_equal candidate slot e c in
    ground (
      arith,
      reload_entry-Treated threads globals_equal candidate slot e c,
      served-reload_entries threads globals_equal candidate (suc slot) es e'.1 id,
      str_eq_iff (channel_of e).id id,
      str_eq_iff (channel_of e'.0).id id,
      find_enabled_sound candidate.channels (channel_of e).id {c = channel_of e'.0},
    )

-- A channel that is added is served beside the others.
pub served-added :
    (es : List Entry) (channel : ChannelConfig) (id : Bytes) {slot : ℕ} {e : Entry} (e' : Entry)
    → find_free_entry es ≡ some (slot, e)
    → served es channel.id ≡ none
    → Serving e' channel
    → served (put_entry es slot e') id
      ≡ (if str_eq channel.id id then some channel else served es id)
unfolding find_free_entry
served-added es channel id {slot} {e} e' q new s =
    let hit = find_from-IsHit is_free 0 es {slot = slot} {e = e} q in
    ground (arith, hit, served-set es slot e e' id)

abbrev WillServe : Bytes → List ChannelConfig → List Entry → Changes → List Entry × Changes → Type 0
WillServe id rest es c r =
    r.1.final_status ≢ overflow
    → served r.0 id ≡ or_else (served es id) (find_enabled_channel rest id)

pub add_channels-served :
    (threads : Threads) (candidate : Config) (id : Bytes) (rest : List ChannelConfig)
    (es : List Entry) (c : Changes)
    → WillServe id rest es c (add_channels threads candidate rest es c)
unfolding find_enabled_channel
add_channels-served threads candidate id =
    add_channels_induction threads candidate (WillServe id) (λ es c h. ground arith)
      (λ channel rest es c r skipped ih h.
        ground (arith, ih h, find_entry_iff es channel.id, str_eq_iff channel.id id))
      (λ channel rest es c wanted full h. absurd (h refl))
      (λ channel rest es c slot e r wanted q ih h.
        let (e', c') = launch threads candidate slot e channel (suc_added c.summary) c in
        ground (
          arith,
          ih h,
          find_entry_iff es channel.id,
          str_eq_iff channel.id id,
          served-added es channel id e' q,
          launch-Serving threads candidate slot e channel (suc_added c.summary) c,
        ))
