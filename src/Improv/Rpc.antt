-- ===== src/Improv/Rpc.antt =====
-- `wifi_cfg_improv_handle_rpc` of src/esp_wifi_config_improv.c, its remaining handlers and the start
-- and stop of the core.
pub mod Dispatch
use esp_wifi_config.Common.{
  ℕ, ◌+◌, List, [], ◌∷◌, ◌++◌, Option, none, some, Bool, true, false, length, take, ltb, ◌==◌,
  if◌then◌else◌,
}
use esp_wifi_config.Common.Bytes.{Bytes, codes}
use esp_wifi_config.Wifi.{WifiApi}
use esp_wifi_config.Improv.Core.{
  ImprovState, authorized, ImprovError, error_none, invalid_rpc, unknown_rpc, Transport, identify,
  Improv, improv_set_error, send_rpc_result, append_tlv_string,
}
use esp_wifi_config.Improv.Settings.{handle_send_wifi_settings}
use esp_wifi_config.Improv.Networks.{Style, handle_get_wifi_networks}

-- What the configuration says of the device; `on_identify` is whether there is a callback, and the
-- name of the chip is what the table gives for the model that the platform reports.
pub record DeviceInfo : Type 0 where
  pub on_identify : Bool
  pub firmware_name : Option Bytes
  pub firmware_version : Option Bytes
  pub device_name : Option Bytes
  pub chip_variant : Bytes

abbrev or_default : Bytes → Option Bytes → Bytes
or_default d none = d
or_default d (some s) = s

-- The four strings, as far as there is room for each in 200 bytes.
unfoldable pub device_info_payload : DeviceInfo → Bytes
unfolding append_tlv_string
device_info_payload d = append_tlv_string 200 (or_default [] d.device_name) (
    append_tlv_string 200 d.chip_variant (
      append_tlv_string 200 (or_default (codes "1.0.0") d.firmware_version)
        (append_tlv_string 200 (or_default (codes "esp_wifi_config") d.firmware_name) [])))

-- IMPROV_CAPABILITY_DEVICE_INFO and IMPROV_CAPABILITY_WIFI_SCAN, and IMPROV_CAPABILITY_IDENTIFY
unfoldable pub improv_get_capabilities : DeviceInfo → ℕ
improv_get_capabilities d = if d.on_identify then 7 else 6

module _ {W : Type 0} (api : WifiApi W) (info : DeviceInfo) where
  unfoldable pub handle_identify : Transport → Improv W → Improv W
  unfolding send_rpc_result
  handle_identify t m =
      send_rpc_result 2 [] t
        (if info.on_identify then record m { effects = m.effects ++ identify ∷ [] } else m)

  unfoldable pub handle_get_device_info : Transport → Improv W → Improv W
  unfolding send_rpc_result device_info_payload
  handle_get_device_info t m = send_rpc_result 3 (device_info_payload info) t m

  -- The commands by their number; the payload is as long as the packet says.
  unfoldable pub dispatch : Bool → ℕ → Bytes → Transport → Style → ℕ → Improv W → Improv W
  unfolding handle_identify handle_get_device_info handle_send_wifi_settings
      handle_get_wifi_networks improv_set_error
  dispatch allocated cmd payload t style max_payload m =
      if cmd == 1
      then handle_send_wifi_settings api payload t m
      else if cmd == 2
      then handle_identify t m
      else if cmd == 3
      then handle_get_device_info t m
      else if cmd == 4
      then handle_get_wifi_networks api allocated t style max_payload m
      else improv_set_error unknown_rpc m

  unfoldable pub improv_handle_rpc : Bool → Bytes → Transport → Style → ℕ → Improv W → Improv W
  unfolding dispatch improv_set_error
  improv_handle_rpc allocated [] t style max_payload m = improv_set_error invalid_rpc m
  improv_handle_rpc allocated (cmd ∷ []) t style max_payload m = improv_set_error invalid_rpc m
  improv_handle_rpc allocated (cmd ∷ n ∷ rest) t style max_payload m =
      if ltb (length rest) n
      then improv_set_error invalid_rpc m
      else dispatch allocated cmd (take n rest) t style max_payload (improv_set_error error_none m)

-- `wifi_cfg_improv_start`, as far as the core's own state goes
unfoldable pub improv_start : {W : Type 0} → Improv W → Improv W
improv_start m = record m { state = authorized; error = error_none }
