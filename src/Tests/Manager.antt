-- ===== src/Tests/Manager.antt =====
-- A manager of one channel, and a second configuration with two: channel_manager.c.
use learn_apue.Base.{◌+◌, true, List, [], ◌∷◌, none, some, ◌≡◌, refl, ◌↔◌, ◌⊎◌, arith, get_elem?}
use learn_apue.Base.Int.{pos}
use learn_apue.Base.Text.{text, str_eq, starts_with}
use learn_apue.Config.{ChannelConfig, Config}
use learn_apue.Config.Validate.Decides.{validate_iff}
use learn_apue.Config.Validate.{
  validate, check_config, check_channels, check_channel, check_previous, supported_codec,
  valid_identifier, valid_absolute_directory, all_bytes, recording_out_of_range,
  policy_out_of_range, video_out_of_range,
}
use learn_apue.Manager.Control.Local.{IsLocal}
use learn_apue.Manager.Control.Effects.{commands_act, HasStarted, HasStopped, HasRestarted}
use learn_apue.Manager.Control.{start_channel, stop_channel, restart_channel}
use learn_apue.Manager.Invariant.Creation.{IsCreated, new_manager-IsCreated}
use learn_apue.Manager.Invariant.Finishing.{wait-is_finished, SomeFailed}
use learn_apue.Manager.Invariant.History.{Call, starts, reloads, ends, run, run-create}
use learn_apue.Manager.Invariant.Lifecycle.{IsStarted, start-IsStarted, IsReleased}
use learn_apue.Manager.Invariant.{IsManager, AreIdle}
use learn_apue.Manager.Creating.{
  Memory, create, new_manager, empty_entry, configure_all, has_enabled,
}
use learn_apue.Manager.Lifecycle.{start, wait, destroy, is_finished}
use learn_apue.Manager.Query.Agree.{IsListing, list_snapshots-get_snapshot}
use learn_apue.Manager.Query.{list_snapshots}
use learn_apue.Manager.Registry.{occupancy}
use learn_apue.Manager.Reload.Refines.{IsReloaded, reload-refines}
use learn_apue.Manager.Reload.Summary.{reload-summary}
use learn_apue.Manager.Reload.Unaffected.{IsUnaffected, reload_unaffected}
use learn_apue.Manager.Reload.{reload}
use learn_apue.Manager.{
  Entry, Manager, Threads, find_enabled_channel, find_free_entry, find_from, configure_entry,
}
use learn_apue.Status.{ok, error_clear}
use learn_apue.Tests.Config.{camera, gateway, any_address, gateway_valid}

abbrev garden : ChannelConfig
garden = record camera { id = b'c' ∷ b'2' ∷ []; output = record { path = b'g' ∷ [] } }

abbrev wider : Config
wider = record gateway { channels = camera ∷ garden ∷ [] }

abbrev memory : Memory
memory = record { allocated = true; rwlock_init = 0; mutex_init = 0; strerror = λ n. [] }

abbrev pub willing : Threads
willing = record {
  create = λ slot. 0;
  ending = λ slot. record { published = []; returned = pos 0 };
  create_metrics = 0;
  strerror = λ n. [];
}

wider_valid : (validate any_address any_address wider none).0 ≡ ok
unfolding validate check_config check_channels check_channel check_previous supported_codec
    valid_identifier valid_absolute_directory all_bytes recording_out_of_range policy_out_of_range
    video_out_of_range str_eq starts_with text
wider_valid = refl

abbrev fresh : Manager
fresh = new_manager gateway

abbrev pub running : Manager
running = record fresh { started = true }

fresh-IsCreated : IsCreated gateway fresh
unfolding has_enabled
fresh-IsCreated =
    new_manager-IsCreated gateway
      ((validate_iff any_address any_address gateway none).0 gateway_valid).channels_fit
      (omega arith) refl

pub running-IsManager : IsManager running
running-IsManager =
    let inv = fresh-IsCreated.well_formed in
    record {
      registry = record { slots = inv.registry.slots; distinct = inv.registry.distinct };
      entries_fit = inv.entries_fit;
      counted = inv.counted;
      idle_before = λ off. cc;
      sampler_before = λ off. cc;
    }

-- asked to stop by SIGTERM
abbrev stopping : Manager
stopping = record running { stop_signal = pos 15 }

reload-refines_example :
    IsReloaded wider (reload any_address any_address willing running wider none)
reload-refines_example =
    reload-refines any_address any_address willing running wider none running-IsManager.registry
      (omega arith) refl wider_valid

reload-summary_example :
    (let r = reload any_address any_address willing running wider none in
      (r.summary.unchanged + r.summary.removed + r.summary.restarted ≡ occupancy running.entries)
      × (occupancy r.manager.entries ≡ r.summary.unchanged + r.summary.restarted + r.summary.added))
reload-summary_example =
    reload-summary any_address any_address willing running wider none refl wider_valid

abbrev first : Entry
first = configure_entry empty_entry camera gateway

first_stands : get_elem? running.entries 0 ≡ some first
unfolding configure_all find_free_entry find_from
first_stands = refl

first-IsUnaffected : IsUnaffected gateway wider first
unfolding find_enabled_channel str_eq configure_entry
first-IsUnaffected = record {
  taken = refl;
  channel_kept = refl;
  url_kept = refl;
  policy_kept = refl;
}

reload_unaffected_example :
    get_elem? (reload any_address any_address willing running wider none).manager.entries 0
    ≡ some first
reload_unaffected_example =
    reload_unaffected any_address any_address willing running wider none 0 first first_stands
      first-IsUnaffected

created :
    (create any_address any_address memory gateway (some (b'f' ∷ [])) none).manager ≡ some fresh
unfolding create validate check_config check_channels check_channel check_previous supported_codec
    valid_identifier valid_absolute_directory all_bytes recording_out_of_range policy_out_of_range
    video_out_of_range str_eq starts_with text error_clear has_enabled
created = refl

abbrev calls : List Call
calls =
    starts willing none
    ∷ ends 0 (record { published = []; returned = pos 1 })
    ∷ reloads willing wider none
    ∷ []

run-create_example :
    IsManager (run any_address any_address fresh calls)
    × ((threads : Threads) → IsReleased (destroy threads (run any_address any_address fresh calls)))
run-create_example =
    run-create any_address any_address memory gateway (some (b'f' ∷ [])) none calls (omega arith)
      created (tt, (tt, (omega arith, tt)))

start-IsStarted_example : IsStarted (start willing fresh none)
start-IsStarted_example = start-IsStarted willing fresh none refl fresh-IsCreated.well_formed

wait-is_finished_example :
    (let (m', result) = wait willing running in
      (is_finished m' ≡ true)
      × AreIdle m'.entries
      × ((result ≡ pos 1) ↔ SomeFailed m'.entries)
      × ((result ≡ pos 0) ⊎ (result ≡ pos 1)))
wait-is_finished_example = wait-is_finished willing running refl running-IsManager

commands_act_example :
    (let started = start_channel willing running camera.id none in
      IsLocal running camera.id started.manager
      × (started.status ≡ ok → HasStarted running camera.id started.manager))
    × (let stopped = stop_channel willing running camera.id none in
        IsLocal running camera.id stopped.manager
        × (stopped.status ≡ ok → HasStopped running camera.id stopped.manager))
    × (let restarted = restart_channel willing running camera.id none in
        IsLocal running camera.id restarted.manager
        × (restarted.status ≡ ok → HasRestarted running camera.id restarted.manager))
commands_act_example = commands_act willing running camera.id none

list_snapshots-get_snapshot_example : IsListing running 64 (list_snapshots running 64 none).held
list_snapshots-get_snapshot_example = list_snapshots-get_snapshot running 64 none
