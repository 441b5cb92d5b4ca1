-- ===== src/Manager/Invariant/Creation.antt =====
-- What `gw_channel_manager_create` of rk3588-media-gateway/src/channel/channel_manager.c hands out.
use mathlib.Core.Path.{subst}
use learn_apue.Base.{
  ℕ, zero, suc, ◌+◌, ◌≤◌, Bool, true, false, List, [], ◌∷◌, Option, none, some, ◌≡◌, ◌∙◌, refl, sym,
  ap, arith, get_elem?, length, replicate, inl, inr, Bool-cases, Option-cases,
}
use learn_apue.Base.Text.{Bytes, str_eq_iff}
use learn_apue.Config.{ChannelConfig, Config, max_channels}
use learn_apue.Config.Validate.Decides.{validate_iff}
use learn_apue.Config.Validate.Policy.{ApartFromAll, AreChannels, IsConfig}
use learn_apue.Manager.{
  Entry, Manager, find_free_entry, find_enabled_channel, configure_entry, put_entry,
}
use learn_apue.Manager.Invariant.{AreIdle, AreIdle-AreEntries, AreIdle-none, IsManager}
use learn_apue.Manager.Creating.{
  Memory, empty_entry, configure_all, new_manager, create, has_enabled,
}
use learn_apue.Manager.OneEntry.{configure_entry-Configured}
use learn_apue.Manager.Registry.{
  AreDistinct, occupancy, find_free_entry_full, find_free_entry-Filled, find_free_entry-stood,
}
use learn_apue.Manager.Reload.Serves.{Serving, served-added}
use learn_apue.Manager.View.{served, or_else}
use learn_apue.Status.{GwError}

-- The channels that are to come are new to the entries and to each other.
abbrev AreNew : List Entry → List ChannelConfig → Type 0
AreNew es [] = Unit
AreNew es (channel ∷ rest) =
    (served es channel.id ≡ none) × ApartFromAll channel rest × AreNew es rest

AreNew-put :
    (es : List Entry) (channel : ChannelConfig) (rest : List ChannelConfig) {slot : ℕ} {e : Entry}
    (e' : Entry)
    → find_free_entry es ≡ some (slot, e)
    → served es channel.id ≡ none
    → Serving e' channel
    → ApartFromAll channel rest
    → AreNew es rest
    → AreNew (put_entry es slot e') rest
AreNew-put es channel [] e' q new s apart news = tt
AreNew-put es channel (x ∷ rest) e' q new s apart news = ground (
  arith,
  AreNew-put es channel rest e' q new s,
  served-added es channel x.id e' q new s,
  str_eq_iff channel.id x.id,
)

AreIdle-put :
    (es : List Entry) (slot : ℕ) (e' : Entry)
    → e'.thread_started ≡ false
    → e'.thread_running ≡ false
    → AreIdle es
    → AreIdle (put_entry es slot e')
AreIdle-put [] slot e' off still h = tt
AreIdle-put (x ∷ es) zero e' off still h = ground arith
AreIdle-put (x ∷ es) (suc slot) e' off still h = ground (arith, AreIdle-put es slot e')

AreIdle-at :
    (es : List Entry) (slot : ℕ) {e : Entry}
    → get_elem? es slot ≡ some e
    → AreIdle es
    → (e.thread_started ≡ false) × (e.thread_running ≡ false)
AreIdle-at [] slot at h = absurd (ground arith)
AreIdle-at (x ∷ es) zero at h = ground arith
AreIdle-at (x ∷ es) (suc slot) {e} at h = AreIdle-at es slot {e = e} at h.2

-- The entries behind the loop.
record AllConfigured (rest : List ChannelConfig) (es es' : List Entry) : Type 0 where
  distinct : AreDistinct es'
  idle : AreIdle es'
  length_eq : length es' ≡ length es
  serves_all : (id : Bytes) → served es' id ≡ or_else (served es id) (find_enabled_channel rest id)

configure_all-AllConfigured :
    (config : Config) (rest : List ChannelConfig) (es : List Entry)
    → AreDistinct es
    → AreIdle es
    → AreNew es rest
    → occupancy es + length rest ≤ length es
    → AllConfigured rest es (configure_all config rest es)
unfolding configure_all find_enabled_channel
configure_all-AllConfigured config [] es d idle news room = record {
  distinct = d;
  idle = idle;
  length_eq = refl;
  serves_all = λ id. ground arith;
}
configure_all-AllConfigured config (channel ∷ rest) es d idle news room =
    elim (Bool-cases channel.enabled) [
      | inr off ↦
          let all =
            configure_all-AllConfigured config rest es d idle news.2 (omega (arith, room)) in
          record {
            distinct = ground (arith, all.distinct);
            idle = ground (arith, all.idle);
            length_eq = ground (arith, all.length_eq);
            serves_all = λ id. ground (arith, all.serves_all id);
          }
      | inl on ↦ elim (Option-cases (find_free_entry es)) [
        | inl full ↦ absurd (omega (arith, find_free_entry_full es full, room))
        | inr ((slot, e), q) ↦
            let e' = configure_entry e channel config in
            let c = configure_entry-Configured e channel config in
            let s : Serving e' channel = record {
              taken = c.taken;
              channel_eq = c.serves_channel;
            } in
            let (stood, free) = find_free_entry-stood es {slot = slot} {e = e} q in
            let filled = find_free_entry-Filled es e' q c.taken (ground (arith, s, news.0)) in
            let next = put_entry es slot e' in
            let was = AreIdle-at es slot {e = e} stood idle in
            let all =
              configure_all-AllConfigured config rest next (filled.still_distinct d)
                (AreIdle-put es slot e' (c.started_eq ∙ was.0) (c.running_eq ∙ was.1) idle)
                (AreNew-put es channel rest e' q news.0 s news.1 news.2)
                (omega (arith, room, filled.one_more_taken, filled.length_eq)) in
            record {
              distinct = ground (arith, on, q, all.distinct);
              idle = ground (arith, on, q, all.idle);
              length_eq = ground (arith, on, q, all.length_eq, filled.length_eq);
              serves_all = λ id. ground (
                arith,
                on,
                q,
                all.serves_all id,
                served-added es channel id e' q news.0 s,
                str_eq_iff channel.id id,
              );
            }
      ]
    ]

replicate-facts :
    (n : ℕ)
    → AreDistinct (replicate n empty_entry)
      × AreIdle (replicate n empty_entry)
      × (length (replicate n empty_entry) ≡ n)
      × (occupancy (replicate n empty_entry) ≡ 0)
unfolding occupancy
replicate-facts zero = ground arith
replicate-facts (suc n) = ground (arith, replicate-facts n)

served-replicate : (n : ℕ) (id : Bytes) → served (replicate n empty_entry) id ≡ none
unfolding served
served-replicate zero id = refl
served-replicate (suc n) id = ground (arith, served-replicate n id)

AreNew-first :
    (n : ℕ) (channels : List ChannelConfig)
    → AreChannels channels
    → AreNew (replicate n empty_entry) channels
AreNew-first n [] h = tt
AreNew-first n (channel ∷ rest) h = (served-replicate n channel.id, h.1, AreNew-first n rest h.2)

-- A manager that is handed out: well-formed, and serving the enabled channels.
pub record IsCreated (config : Config) (m : Manager) : Type 0 where
  pub well_formed : IsManager m
  pub serves_enabled : (id : Bytes) → served m.entries id ≡ find_enabled_channel config.channels id
  pub not_started : m.started ≡ false
  pub some_enabled : has_enabled config.channels ≡ true

pub new_manager-IsCreated :
    (config : Config)
    → AreChannels config.channels
    → length config.channels ≤ max_channels
    → has_enabled config.channels ≡ true
    → IsCreated config (new_manager config)
new_manager-IsCreated config channels room enabled =
    let (d, idle, l, o) = replicate-facts max_channels in
    let all =
      configure_all-AllConfigured config config.channels (replicate max_channels empty_entry) d idle
        (AreNew-first max_channels config.channels channels) (omega (arith, room, l, o)) in
    record {
      well_formed = record {
        registry = record { slots = all.length_eq ∙ l; distinct = all.distinct };
        entries_fit = AreIdle-AreEntries (new_manager config).entries all.idle;
        counted = sym (AreIdle-none (new_manager config).entries all.idle);
        idle_before = λ _. all.idle;
        sampler_before = λ _. refl;
      };
      serves_enabled = λ id.
          all.serves_all id
          ∙ ap (λ o. or_else o (find_enabled_channel config.channels id))
              (served-replicate max_channels id);
      not_started = refl;
      some_enabled = enabled;
    }

-- Creation hands out a manager only for a valid configuration with an enabled channel; the manager
-- is well-formed, not started, and serves exactly the enabled channels. The configuration has at
-- most 64 channels.
pub create-IsCreated :
    (is_ipv4 is_ipv6 : Bytes → Bool) (memory : Memory) (config : Config) (binary : Option Bytes)
    (error : Option GwError) {m : Manager}
    → length config.channels ≤ max_channels
    → (create is_ipv4 is_ipv6 memory config binary error).manager ≡ some m
    → IsConfig is_ipv4 is_ipv6 config × IsCreated config m
unfolding create
create-IsCreated is_ipv4 is_ipv6 memory config binary error {m} room made =
    let v = validate_iff is_ipv4 is_ipv6 config error in
    let valid : IsConfig is_ipv4 is_ipv6 config = ground (arith, v) in
    let enabled : has_enabled config.channels ≡ true = ground arith in
    let same : new_manager config ≡ m = ground arith in
    (
      valid,
      subst (IsCreated config) same (new_manager-IsCreated config valid.channels_fit room enabled),
    )
