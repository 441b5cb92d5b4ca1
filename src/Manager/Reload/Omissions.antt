-- ===== src/Manager/Reload/Omissions.antt =====
-- How many channels of the candidate the second loop of `gw_channel_manager_reload`,
-- rk3588-media-gateway/src/channel/channel_manager.c, passes over: at least as many as entries are
-- taken behind the first loop.
use learn_apue.Base.{
  ℕ, suc, ◌+◌, ◌≤◌, Bool, true, false, not, List, [], ◌∷◌, none, some, ◌≡◌, ◌≢◌, refl, arith,
  length,
}
use learn_apue.Base.Text.{str_eq_iff}
use learn_apue.Config.{ChannelConfig, Config}
use learn_apue.Manager.{Entry, Threads, channel_of, find_enabled_channel}
use learn_apue.Manager.Registry.{AreDistinct, occupancy}
use learn_apue.Manager.Reload.{Changes, reload_entry, reload_entries, skips}
use learn_apue.Manager.Reload.Serves.{reload_entry-Treated, served-reload_entries}
use learn_apue.Manager.View.{served, find_entry_iff, find_enabled_sound}

-- Whether the second loop passes over a channel.
abbrev pub omitted : List Entry → ChannelConfig → Bool
omitted es channel = elim (served es channel.id) [ none ↦ not channel.enabled | some _ ↦ true ]

pub skips_eq : (es : List Entry) (channel : ChannelConfig) → skips es channel ≡ omitted es channel
skips_eq es channel = ground (arith, find_entry_iff es channel.id)

unfoldable pub count : Bool → ℕ
count true = 1
count false = 0

-- How many channels are passed over.
unfoldable pub omissions : List Entry → List ChannelConfig → ℕ
unfolding count
omissions es [] = 0
omissions es (channel ∷ rest) = count (omitted es channel) + omissions es rest

omissions_nil :
    (channels : List ChannelConfig) (es : List Entry) → omissions es channels ≤ length channels
unfolding omissions count
omissions_nil [] es = omega arith
omissions_nil (channel ∷ rest) es = ground (arith, omissions_nil rest es)

omissions-grow :
    (e : Entry) (es : List Entry) (channels : List ChannelConfig)
    → omissions es channels ≤ omissions (e ∷ es) channels
unfolding omissions served count
omissions-grow e es [] = omega arith
omissions-grow e es (channel ∷ rest) = ground (arith, omissions-grow e es rest)

omissions-more :
    (e : Entry) (es : List Entry) (channels : List ChannelConfig)
    → e.occupied ≡ true
    → served es (channel_of e).id ≡ none
    → find_enabled_channel channels (channel_of e).id ≢ none
    → omissions es channels + 1 ≤ omissions (e ∷ es) channels
unfolding omissions served count find_enabled_channel
omissions-more e es [] taken new wanted = absurd (wanted refl)
omissions-more e es (channel ∷ rest) taken new wanted = ground (
  arith,
  omissions-more e es rest,
  omissions-grow e es rest,
  str_eq_iff channel.id (channel_of e).id,
  str_eq_iff (channel_of e).id channel.id,
)

-- Every occupied entry serves a channel of the candidate.
abbrev pub AreWanted : List ChannelConfig → List Entry → Type 0
AreWanted channels [] = Unit
AreWanted channels (e ∷ es) =
    (e.occupied ≡ true → find_enabled_channel channels (channel_of e).id ≢ none)
    × AreWanted channels es

-- So there are at least as many channels to pass over as entries that are taken.
pub occupancy-omissions :
    (channels : List ChannelConfig) (es : List Entry)
    → AreDistinct es
    → AreWanted channels es
    → occupancy es ≤ omissions es channels
unfolding occupancy
occupancy-omissions channels [] d w = omega arith
occupancy-omissions channels (e ∷ es) d w = ground (
  arith,
  occupancy-omissions channels es,
  omissions-more e es channels,
  omissions-grow e es channels,
)

-- The first loop keeps the identifiers distinct, and leaves only what the candidate wants.
pub reload_entries-AreDistinct :
    (threads : Threads) (globals_equal : Bool) (candidate : Config) (slot : ℕ) (es : List Entry)
    (c : Changes)
    → AreDistinct es
    → AreDistinct (reload_entries threads globals_equal candidate slot es c).0
unfolding reload_entries
reload_entries-AreDistinct threads globals_equal candidate slot [] c d = tt
reload_entries-AreDistinct threads globals_equal candidate slot (e ∷ es) c d =
    let e' = reload_entry threads globals_equal candidate slot e c in
    ground (
      arith,
      reload_entry-Treated threads globals_equal candidate slot e c,
      reload_entries-AreDistinct threads globals_equal candidate (suc slot) es e'.1,
      served-reload_entries threads globals_equal candidate (suc slot) es e'.1 (channel_of e).id,
      find_enabled_sound candidate.channels (channel_of e).id {c = channel_of e'.0},
    )

pub reload_entries-AreWanted :
    (threads : Threads) (globals_equal : Bool) (candidate : Config) (slot : ℕ) (es : List Entry)
    (c : Changes)
    → AreWanted candidate.channels (reload_entries threads globals_equal candidate slot es c).0
unfolding reload_entries
reload_entries-AreWanted threads globals_equal candidate slot [] c = tt
reload_entries-AreWanted threads globals_equal candidate slot (e ∷ es) c =
    let e' = reload_entry threads globals_equal candidate slot e c in
    ground (
      arith,
      reload_entry-Treated threads globals_equal candidate slot e c,
      reload_entries-AreWanted threads globals_equal candidate (suc slot) es e'.1,
      find_enabled_sound candidate.channels (channel_of e).id {c = channel_of e'.0},
    )

pub length-reload_entries :
    (threads : Threads) (globals_equal : Bool) (candidate : Config) (slot : ℕ) (es : List Entry)
    (c : Changes)
    → length (reload_entries threads globals_equal candidate slot es c).0 ≡ length es
unfolding reload_entries
length-reload_entries threads globals_equal candidate slot [] c = refl
length-reload_entries threads globals_equal candidate slot (e ∷ es) c =
    let e' = reload_entry threads globals_equal candidate slot e c in
    ground (arith, length-reload_entries threads globals_equal candidate (suc slot) es e'.1)
