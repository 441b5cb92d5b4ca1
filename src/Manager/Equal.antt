-- ===== src/Manager/Equal.antt =====
-- The comparisons by which `gw_channel_manager_reload` of
-- rk3588-media-gateway/src/channel/channel_manager.c decides what a new configuration changes.
use learn_apue.Base.{true, ◌≡◌, ◌↔◌, arith, Bool}
use learn_apue.Base.Int.{ℤ, eq_ℤ, eq_ℤ_iff}
use learn_apue.Base.Text.{str_eq_iff}
use learn_apue.Config.{RetryPolicy, ChannelConfig, Config}
use learn_apue.Manager.{retry_policy_equal, eq_bool, channel_config_equal, worker_globals_equal}

eq_bool_iff : (a b : Bool) → (eq_bool a b ≡ true) ↔ (a ≡ b)
eq_bool_iff a b = ground arith

eq_ℤ_refl : (a : ℤ) → eq_ℤ a a ≡ true
eq_ℤ_refl a = ground (arith, eq_ℤ_iff a a)

retry_policy_equal_iff : (a b : RetryPolicy) → (retry_policy_equal a b ≡ true) ↔ (a ≡ b)
unfolding retry_policy_equal
retry_policy_equal_iff a b = ground (
  arith,
  eq_ℤ_iff a.startup_timeout_sec b.startup_timeout_sec,
  eq_ℤ_iff a.progress_timeout_sec b.progress_timeout_sec,
  eq_ℤ_iff a.stable_run_sec b.stable_run_sec,
  eq_ℤ_iff a.stop_timeout_sec b.stop_timeout_sec,
  eq_ℤ_iff a.max_retries b.max_retries,
  eq_ℤ_iff a.max_backoff_sec b.max_backoff_sec,
)

-- A channel counts as unchanged exactly when no field of it differs.
pub channel_config_equal_iff : (a b : ChannelConfig) → (channel_config_equal a b ≡ true) ↔ (a ≡ b)
unfolding channel_config_equal
channel_config_equal_iff a b = ground (
  arith,
  eq_bool_iff a.enabled b.enabled,
  str_eq_iff a.id b.id,
  str_eq_iff a.input.type b.input.type,
  str_eq_iff a.input.url b.input.url,
  str_eq_iff a.input.transport b.input.transport,
  str_eq_iff a.video.decoder b.video.decoder,
  eq_ℤ_iff a.video.width b.video.width,
  eq_ℤ_iff a.video.height b.video.height,
  str_eq_iff a.video.encoder b.video.encoder,
  eq_ℤ_iff a.video.bitrate_kbps b.video.bitrate_kbps,
  eq_ℤ_iff a.video.fps b.video.fps,
  str_eq_iff a.output.path b.output.path,
)

-- The settings that every worker depends on count as unchanged exactly when the publish URL and the
-- retry policy are the same.
pub worker_globals_equal_iff :
    (a b : Config)
    → (worker_globals_equal a b ≡ true)
      ↔ ((a.mediamtx.publish_base_url ≡ b.mediamtx.publish_base_url) × (a.defaults ≡ b.defaults))
unfolding worker_globals_equal
worker_globals_equal_iff a b = ground (
  arith,
  str_eq_iff a.mediamtx.publish_base_url b.mediamtx.publish_base_url,
  retry_policy_equal_iff a.defaults b.defaults,
)
