-- ===== src/Improv/Networks.antt =====
-- The scan results as Improv sends them: `handle_get_wifi_networks`.
pub mod Packing
use esp_wifi_config.Common.{
  ℕ, ◌+◌, ◌-◌, List, [], ◌∷◌, ◌++◌, Option, none, some, Bool, true, false, length, take, ltb, leb,
  if◌then◌else◌,
}
use esp_wifi_config.Common.Bytes.{Bytes, codes}
use esp_wifi_config.Common.Decimal.{decimal}
use esp_wifi_config.Wifi.{
  AuthMode, auth_open, auth_wep, auth_wpa_psk, auth_wpa2_psk, auth_wpa_wpa2_psk, auth_wpa3_psk,
  auth_wpa2_wpa3_psk, auth_wpa2_enterprise, auth_wapi_psk, ScanResult, WifiApi,
}
use esp_wifi_config.Improv.Core.{
  ImprovError, error_unknown, Transport, Improv, improv_set_error, send_rpc_result,
  append_tlv_string,
}

-- `improv_rpc_style_t`
pub data Style : Type 0 where
  single chunked : Style

unfoldable pub auth_mode_str : AuthMode → Bytes
auth_mode_str auth_open = codes "NO"
auth_mode_str auth_wep = codes "WEP"
auth_mode_str auth_wpa_psk = codes "WPA"
auth_mode_str auth_wpa2_psk = codes "WPA2"
auth_mode_str auth_wpa_wpa2_psk = codes "WPA/WPA2"
auth_mode_str auth_wpa3_psk = codes "WPA3"
auth_mode_str auth_wpa2_wpa3_psk = codes "WPA2/WPA3"
auth_mode_str auth_wpa2_enterprise = codes "WPA2 EAP"
auth_mode_str auth_wapi_psk = codes "WAPI"
auth_mode_str _ = codes "WPA2"

-- `snprintf(rssi_str, sizeof(rssi_str), "%d", rssi)` over 8 bytes
unfoldable pub rssi_str : ℕ → Bytes
rssi_str rssi = take 7 (if leb 128 rssi then b'-' ∷ decimal (256 - rssi) else decimal rssi)

-- IMPROV_RPC_MAX_PAYLOAD
abbrev pub rpc_max_payload : ℕ
rpc_max_payload = 255

-- The three strings of a network, as far as there is room for each.
unfoldable pub append_network : ℕ → ScanResult → Bytes → Bytes
unfolding append_tlv_string
append_network size r buf =
    append_tlv_string size (auth_mode_str r.auth)
      (append_tlv_string size (rssi_str r.rssi) (append_tlv_string size r.ssid buf))

unfoldable pub needed : ScanResult → ℕ
needed r = 1 + length r.ssid + 1 + length (rssi_str r.rssi) + 1 + length (auth_mode_str r.auth)

-- The payload of the one response: networks are packed until one does not fit.
unfoldable pub pack_single : ℕ → List ScanResult → Bytes → Bytes
unfolding append_network
pack_single size [] buf = buf
pack_single size (r ∷ rs) buf =
    let rest = pack_single size rs (append_network size r buf) in
    if ltb size (length buf + needed r) then buf else rest

-- `max_payload` is 0 where the transport states no limit.
abbrev pub payload_room : ℕ → ℕ
payload_room max_payload =
    if ltb 0 max_payload
    then (if ltb max_payload rpc_max_payload then max_payload else rpc_max_payload)
    else rpc_max_payload

module _ {W : Type 0} where
  -- One response for each network.
  unfoldable pub send_chunks : ℕ → List ScanResult → Transport → Improv W → Improv W
  unfolding append_network send_rpc_result
  send_chunks size [] t m = m
  send_chunks size (r ∷ rs) t m =
      send_chunks size rs t (send_rpc_result 4 (append_network size r []) t m)

  unfoldable pub send_networks : Style → ℕ → List ScanResult → Transport → Improv W → Improv W
  unfolding send_chunks pack_single send_rpc_result
  send_networks chunked size rs t m = send_rpc_result 4 [] t (send_chunks size rs t m)
  send_networks single size rs t m = send_rpc_result 4 (pack_single size rs []) t m

-- `allocated` is whether there is memory for the results.
unfoldable pub handle_get_wifi_networks :
    {W : Type 0} → WifiApi W → Bool → Transport → Style → ℕ → Improv W → Improv W
unfolding send_networks improv_set_error
handle_get_wifi_networks {W} api allocated t style max_payload m =
    let (found, w) = api.scan m.wifi in
    let scanned = elim found as (λ _. Improv W) [
      | none ↦ improv_set_error error_unknown (record m { wifi = w })
      | some rs ↦
          send_networks style (payload_room max_payload) (take 20 rs) t (record m { wifi = w })
    ] in
    if allocated then scanned else improv_set_error error_unknown m
