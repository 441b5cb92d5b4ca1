-- ===== src/Tests/Mediamtx.antt =====
-- The MediaMTX document of a concrete configuration: mediamtx_config.c.
use learn_apue.Base.{[], none, ◌≡◌, refl, arith, leb, length, if◌then◌else◌}
use learn_apue.Base.Text.{text, str_eq, starts_with}
use learn_apue.Config.Mediamtx.{render_config}
use learn_apue.Config.Mediamtx.Fits.{document, render_config-document}
use learn_apue.Config.Validate.{
  validate, check_config, check_channels, check_channel, check_previous, supported_codec,
  valid_identifier, valid_absolute_directory, all_bytes, recording_out_of_range,
  policy_out_of_range, video_out_of_range,
}
use learn_apue.Status.{ok, overflow, error_set, error_clear}
use learn_apue.Tests.Config.{gateway, any_address}

gateway-validate : validate any_address any_address gateway none ≡ (ok, none)
unfolding validate check_config check_channels check_channel check_previous supported_codec
    valid_identifier valid_absolute_directory all_bytes recording_out_of_range policy_out_of_range
    video_out_of_range str_eq starts_with text error_clear
gateway-validate = refl

render_config-document_example : render_config any_address any_address gateway [] 4096 none ≡ (
    if leb 4096 (length (document gateway))
    then (
      overflow,
      [],
      error_set none overflow (text "MediaMTX configuration exceeds output capacity"),
    )
    else (ok, document gateway, error_clear none))
render_config-document_example =
    render_config-document any_address any_address gateway [] 4096 none (omega arith)
      gateway-validate
