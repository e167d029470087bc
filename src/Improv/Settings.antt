-- ===== src/Improv/Settings.antt =====
-- The settings that a client sends: `handle_send_wifi_settings` and what follows when the
-- connection succeeds or fails.
pub mod Parse
pub mod Deferred
pub mod Answered
use esp_wifi_config.Common.{
  ℕ, ◌+◌, List, [], ◌∷◌, ◌++◌, Option, none, some, Bool, true, false, length, take, drop, ltb, ◌==◌,
  if◌then◌else◌,
}
use esp_wifi_config.Common.Bytes.{Bytes, codes, c_string}
use esp_wifi_config.Network.Types.{Network, EspErr, invalid_state}
use esp_wifi_config.Wifi.{WifiApi}
use esp_wifi_config.Improv.Core.{
  ImprovState, authorized, provisioning, provisioned, ImprovError, error_none, invalid_rpc,
  unable_to_connect, Transport, Improv, improv_set_state, improv_set_error, send_rpc_result,
  append_tlv_string,
}

-- The second field, behind the first one.
abbrev second_field : Bytes → Bytes → Option (Bytes × Bytes)
second_field ssid [] = none
second_field ssid (n ∷ rest) = if ltb (length rest) n then none else some (ssid, take n rest)

-- `[ssid_len, ssid..., password_len, password...]`; `none` where the handler reports an invalid RPC.
unfoldable pub parse_settings : Bytes → Option (Bytes × Bytes)
parse_settings [] = none
parse_settings (n ∷ rest) =
    if ltb (length rest) n then none else second_field (take n rest) (drop n rest)

-- What the arrays `ssid[33]` and `password[64]` hold; the priority is 10.
abbrev pub settings_network : Bytes → Bytes → Network
settings_network ssid password = record {
  ssid = c_string (take 32 ssid);
  password = c_string (take 63 password);
  priority = 10;
}

module _ {W : Type 0} (api : WifiApi W) where
  open api use {add_network, update_network, connect, status_ip}

  abbrev pub is_invalid_state : EspErr → Bool
  is_invalid_state invalid_state = true
  is_invalid_state _ = false

  -- The network is added, or updated if it is saved already, and then connected to.
  unfoldable pub save_and_connect : Network → W → W
  save_and_connect n w =
      let (r, w1) = add_network n w in
      (connect n.ssid (if is_invalid_state r then (update_network n w1).1 else w1)).1

  unfoldable pub handle_send_wifi_settings : Bytes → Transport → Improv W → Improv W
  unfolding save_and_connect improv_set_state improv_set_error
  handle_send_wifi_settings payload t m = elim (parse_settings payload) [
    | none ↦ improv_set_error invalid_rpc m
    | some (ssid, password) ↦
        let m1 = improv_set_state provisioning (improv_set_error error_none m) in
        record m1 {
          pending = some t;
          wifi = save_and_connect (settings_network ssid password) m1.wifi;
        }
  ]

  -- `snprintf(url, sizeof(url), "http://%s", status.ip)` over 64 bytes
  abbrev pub redirect_url : W → Bytes
  redirect_url w = take 63 (codes "http://" ++ status_ip w)

  abbrev pub answer_pending : Option Transport → Improv W → Improv W
  answer_pending none m = m
  answer_pending (some t) m =
      record (send_rpc_result 1 (append_tlv_string 128 (redirect_url m.wifi) []) t m) {
        pending = none;
      }

  abbrev pub is_provisioning : ImprovState → Bool
  is_provisioning provisioning = true
  is_provisioning _ = false

  unfoldable pub improv_on_got_ip : Improv W → Improv W
  unfolding improv_set_state send_rpc_result append_tlv_string
  improv_on_got_ip m =
      if is_provisioning m.state
      then answer_pending m.pending (improv_set_state provisioned m)
      else m

  unfoldable pub improv_on_disconnected : Improv W → Improv W
  unfolding improv_set_state improv_set_error
  improv_on_disconnected m =
      if is_provisioning m.state
      then record (improv_set_state authorized (improv_set_error unable_to_connect m)) {
        pending = none;
      }
      else m
