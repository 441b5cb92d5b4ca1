-- ===== src/Manager/Reload/Refines.antt =====
-- What `gw_channel_manager_reload` of rk3588-media-gateway/src/channel/channel_manager.c does to the
-- map from identifiers to channels that the registry stands for.
use learn_apue.Base.{Bool, true, false, Option, ◌≡◌, ◌≢◌, ◌≤◌, arith, length}
use learn_apue.Base.Text.{Bytes}
use learn_apue.Config.{Config, max_channels}
use learn_apue.Base.Int.{pos}
use learn_apue.Config.Validate.Policy.{IsConfig}
use learn_apue.Config.Validate.{validate}
use learn_apue.Manager.{Manager, Threads, find_enabled_channel}
use learn_apue.Manager.Registry.{AreDistinct}
use learn_apue.Manager.Reload.{Reloaded, is_unavailable, reload}
use learn_apue.Manager.Reload.Capacity.{apply_candidate-IsServing}
use learn_apue.Manager.View.{served}
use learn_apue.Status.{Status, ok, overflow, GwError}

-- The registry has its slots, and no two of them serve the same channel.
pub record IsRegistry (m : Manager) : Type 0 where
  pub slots : length m.entries ≡ max_channels
  pub distinct : AreDistinct m.entries

-- The map that the registry stands for is the candidate's.
pub record IsReloaded (candidate : Config) (r : Reloaded) : Type 0 where
  pub serves_wanted :
      (id : Bytes) → served r.manager.entries id ≡ find_enabled_channel candidate.channels id
  pub config_eq : r.manager.config ≡ candidate
  pub registry : IsRegistry r.manager
  pub no_overflow : r.status ≢ overflow

module _ (is_ipv4 is_ipv6 : Bytes → Bool) where
  -- A reload that a running manager accepts makes the registry serve exactly the enabled channels
  -- of the candidate, each under its identifier and as the candidate has it, whichever threads fail
  -- to start; the registry stays well-formed and never runs out of slots. The registry has its 64
  -- slots with distinct channels, the manager is started and not asked to stop, and the candidate is
  -- valid with at most 64 channels.
  pub reload-refines :
      (threads : Threads) (m : Manager) (candidate : Config) (error : Option GwError)
      → IsRegistry m
      → length candidate.channels ≤ max_channels
      → is_unavailable m ≡ false
      → (validate is_ipv4 is_ipv6 candidate error).0 ≡ ok
      → IsReloaded candidate (reload is_ipv4 is_ipv6 threads m candidate error)
  unfolding reload
  reload-refines threads m candidate error registry room available valid =
      let (status, e) = validate is_ipv4 is_ipv6 candidate error in
      let s =
        apply_candidate-IsServing threads m candidate e registry.distinct
          (ground (arith, registry.slots)) in
      ground (arith, s, registry.slots, s.serves_wanted)

  -- A manager that takes a reload, and a candidate that it may be given.
  pub record CanReload (m : Manager) (candidate : Config) : Type 0 where
    pub started : m.started ≡ true
    pub not_stopping : m.stop_signal ≡ pos 0
    pub candidate_fits : IsConfig is_ipv4 is_ipv6 candidate
