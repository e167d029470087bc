-- ===== src/Http/Documents.antt =====
-- The documents that the GET handlers of src/esp_wifi_config_http.c send, and how they are sent: in
-- chunks, through a scratch buffer. Sending a chunk is the server's.
pub mod Delivered
use esp_wifi_config.Common.{
  ℕ, ◌+◌, ◌-◌, ◌^◌, List, [], ◌∷◌, ◌++◌, map, Option, none, some, Bool, true, false, length, take,
  min, ltb, if◌then◌else◌,
}
use esp_wifi_config.Common.Bytes.{Bytes, codes}
use esp_wifi_config.Network.Types.{Network, max_networks}
use esp_wifi_config.Vars.{Var}
use esp_wifi_config.Wifi.{
  AuthMode, auth_open, auth_wep, auth_wpa_psk, auth_wpa2_psk, auth_wpa_wpa2_psk, auth_wpa3_psk,
  ScanResult,
}
use esp_wifi_config.Manager.{WifiState, wifi_connected, wifi_connecting}
use esp_wifi_config.Json.{
  Sink, Writer, WriteErr, write_ok, sink_failed, is_ok, json_init, json_finish,
}
use esp_wifi_config.Json.Document.{
  Value, str_value, int_value, bool_value, object, array, Members, no_members, member, Items,
  no_items, item, emit,
}
use esp_wifi_config.SoftAp.{ApConfig}

-- `wifi_status_t`, as far as it is sent; `rssi` is the bit pattern of an `int8_t`.
pub record Status : Type 0 where
  pub state : WifiState
  pub ssid : Bytes
  pub rssi : ℕ
  pub quality : ℕ
  pub channel : ℕ
  pub ip : Bytes
  pub netmask : Bytes
  pub gateway : Bytes
  pub dns : Bytes
  pub mac : Bytes
  pub hostname : Bytes
  pub uptime_ms : ℕ
  pub ap_active : Bool

-- `wifi_ap_status_t`; a client is its MAC and its IP. The list is the array of four.
pub record ApStatus : Type 0 where
  pub active : Bool
  pub ssid : Bytes
  pub ip : Bytes
  pub channel : ℕ
  pub sta_count : ℕ
  pub clients : List (Bytes × Bytes)

abbrev pub members : List (Bytes × Value) → Members
members [] = no_members
members ((key, v) ∷ rest) = member key v (members rest)

abbrev pub items : List Value → Items
items [] = no_items
items (v ∷ vs) = item v (items vs)

-- An `int8_t` as an `int64_t`.
abbrev pub widened : ℕ → ℕ
widened n = if ltb n 128 then n else n + (2 ^ 64 - 256)

abbrev pub state_name : WifiState → Bytes
state_name wifi_connected = codes "connected"
state_name wifi_connecting = codes "connecting"
state_name _ = codes "disconnected"

unfoldable pub status_document : Status → Value
status_document s = object (
    members (
      (codes "state", str_value (state_name s.state))
      ∷ (codes "ssid", str_value s.ssid)
      ∷ (codes "rssi", int_value (widened s.rssi))
      ∷ (codes "quality", int_value s.quality)
      ∷ (codes "channel", int_value s.channel)
      ∷ (codes "ip", str_value s.ip)
      ∷ (codes "netmask", str_value s.netmask)
      ∷ (codes "gateway", str_value s.gateway)
      ∷ (codes "dns", str_value s.dns)
      ∷ (codes "mac", str_value s.mac)
      ∷ (codes "hostname", str_value s.hostname)
      ∷ (codes "uptime_ms", int_value s.uptime_ms)
      ∷ (codes "ap_active", bool_value s.ap_active)
      ∷ []))

unfoldable pub auth_str : AuthMode → Bytes
auth_str auth_open = codes "OPEN"
auth_str auth_wep = codes "WEP"
auth_str auth_wpa_psk = codes "WPA"
auth_str auth_wpa2_psk = codes "WPA2"
auth_str auth_wpa_wpa2_psk = codes "WPA/WPA2"
auth_str auth_wpa3_psk = codes "WPA3"
auth_str _ = codes "UNKNOWN"

abbrev pub listing : Bytes → List Value → Value
listing key vs = object (members ((key, array (items vs)) ∷ []))

abbrev pub scan_item : ScanResult → Value
scan_item r = object (
    members (
      (codes "ssid", str_value r.ssid)
      ∷ (codes "rssi", int_value (widened r.rssi))
      ∷ (codes "auth", str_value (auth_str r.auth))
      ∷ []))

unfoldable pub scan_document : List ScanResult → Value
unfolding auth_str
scan_document rs = listing (codes "networks") (map scan_item rs)

abbrev pub network_item : Network → Value
network_item n =
    object
      (members ((codes "ssid", str_value n.ssid) ∷ (codes "priority", int_value n.priority) ∷ []))

unfoldable pub networks_document : List Network → Value
networks_document ns = listing (codes "networks") (map network_item (take max_networks ns))

abbrev pub client_item : Bytes × Bytes → Value
client_item (mac, ip) =
    object (members ((codes "mac", str_value mac) ∷ (codes "ip", str_value ip) ∷ []))

unfoldable pub ap_status_document : ApStatus → Value
ap_status_document s = object (
    members (
      (codes "active", bool_value s.active)
      ∷ (codes "ssid", str_value s.ssid)
      ∷ (codes "ip", str_value s.ip)
      ∷ (codes "channel", int_value s.channel)
      ∷ (codes "sta_count", int_value s.sta_count)
      ∷ (codes "clients", array (items (map client_item (take (min s.sta_count 4) s.clients))))
      ∷ []))

unfoldable pub ap_config_document : ApConfig → Value
ap_config_document c = object (
    members (
      (codes "ssid", str_value c.ssid)
      ∷ (codes "password", str_value c.password)
      ∷ (codes "channel", int_value c.channel)
      ∷ (codes "max_connections", int_value c.max_connections)
      ∷ (codes "hidden", bool_value c.hidden)
      ∷ (codes "ip", str_value c.ip)
      ∷ (codes "netmask", str_value c.netmask)
      ∷ (codes "gateway", str_value c.gateway)
      ∷ (codes "dhcp_start", str_value c.dhcp_start)
      ∷ (codes "dhcp_end", str_value c.dhcp_end)
      ∷ []))

abbrev pub var_item : Var → Value
var_item v =
    object (members ((codes "key", str_value v.key) ∷ (codes "value", str_value v.value) ∷ []))

unfoldable pub vars_document : List Var → Value
vars_document vs = listing (codes "vars") (map var_item vs)

-- What a GET request is answered with.
pub data Content : Type 0 where
  status_content : Status → Content
  scan_content : List ScanResult → Content
  networks_content : List Network → Content
  ap_status_content : ApStatus → Content
  ap_config_content : ApConfig → Content
  vars_content : List Var → Content

unfoldable pub document : Content → Value
unfolding status_document scan_document networks_document ap_status_document ap_config_document
    vars_document
document (status_content s) = status_document s
document (scan_content rs) = scan_document rs
document (networks_content ns) = networks_document ns
document (ap_status_content s) = ap_status_document s
document (ap_config_content c) = ap_config_document c
document (vars_content vs) = vars_document vs

abbrev pub scratch_size : ℕ
scratch_size = 256

module _ {Ctx : Type 0} (send_chunk : Sink Ctx) where
  -- What `json_response_end` returns: that of the last, empty chunk, or ESP_FAIL (-1).
  abbrev pub response_end : Writer Ctx → WriteErr × Ctx
  response_end w =
      let (sent, c) = send_chunk w.ctx [] in
      (if is_ok w.err then sent else sink_failed (2 ^ 32 - 1), c)

  -- From `json_response_begin` to `json_response_end`.
  unfoldable pub json_response : Value → Ctx → WriteErr × Ctx
  json_response v req = response_end (
      json_finish (some send_chunk)
        (emit (some send_chunk) none v (json_init true scratch_size req)))
