-- ===== src/Event.antt =====
-- src/esp_wifi_config_event.c: the events that the library posts, and their names.
use esp_wifi_config.Common.{ℕ}
use esp_wifi_config.Common.Bytes.{Bytes}
use esp_wifi_config.Network.Types.{Network}

-- `wifi_cfg_event_t` with the payload that the library posts along with each event.
pub data Event : Type 0 where
  connected : Bytes → Event
  disconnected : Bytes → ℕ → Event
  connecting : Bytes → Event
  scan_done : ℕ → Event
  got_ip : ℕ → Event
  lost_ip ap_start ap_stop : Event
  ap_sta_connected : Bytes → Event
  network_added network_updated : Network → Event
  network_removed : Bytes → Event
  var_changed : Bytes → Bytes → Event
  provisioning_started provisioning_stopped : Event
  prov_cred_recv : Bytes → Bytes → Event
  prov_cred_fail : ℕ → Event
  prov_cred_success : Event
