-- ===== src/Tests/Provisioning.antt =====
-- The Improv protocol on concrete inputs.
use esp_wifi_config.Common.{
  ℕ, ◌-◌, ◌≡◌, ◌↔◌, refl, List, [], ◌∷◌, ◌++◌, none, some, true, inl, arith, length,
}
use esp_wifi_config.Common.Bytes.{Bytes, codes}
use esp_wifi_config.Network.Types.{Network, esp_ok}
use esp_wifi_config.Network.Store.{Store, add_network}
use esp_wifi_config.Table.{find}
use esp_wifi_config.Wifi.{WifiApi, ScanResult, auth_open, auth_wpa2_psk}
use esp_wifi_config.Wifi.Saved.{saved_api}
use esp_wifi_config.Improv.Serial.{
  checksum_from, serial_send_packet, improv_checksum, frame_body, rx_run, rx_start,
}
use esp_wifi_config.Improv.Serial.Frames.{Idle, send_all, requests, rx_run-send_all}
use esp_wifi_config.Improv.Serial.Corruption.{rx_run-changed_byte}
use esp_wifi_config.Improv.Core.{authorized, provisioning, error_none, serial, ble, Improv}
use esp_wifi_config.Improv.Settings.{parse_settings, settings_network}
use esp_wifi_config.Improv.Settings.Parse.{settings_layout, parse_settings_iff}
use esp_wifi_config.Improv.Networks.{chunked}
use esp_wifi_config.Improv.Rpc.{DeviceInfo, improv_handle_rpc}
use esp_wifi_config.Improv.Rpc.Dispatch.{improv_handle_rpc-settings}
use esp_wifi_config.Tests.Flash.{Memory, blank, memory}

idle : Idle rx_start
idle = record { at_header = refl; at_first = refl }

abbrev packets : List (ℕ × Bytes)
packets = (3, 2 ∷ 0 ∷ []) ∷ (1, []) ∷ []

rx_run-send_all_example :
    Idle (rx_run (send_all packets) rx_start).0
    × ((rx_run (send_all packets) rx_start).1 ≡ requests packets)
rx_run-send_all_example = rx_run-send_all packets rx_start (ground arith) idle

-- A stray `I` before a frame makes the parser miss the frame.
stray_test : (rx_run (b'I' ∷ send_all packets) rx_start).1 ≡ requests ((1, []) ∷ [])
unfolding rx_run checksum_from serial_send_packet
stray_test = refl

rx_run-changed_byte_example :
    let r =
      rx_run
        (frame_body 3 ([] ++ 3 ∷ 0 ∷ []) ++ improv_checksum (frame_body 3 ([] ++ 2 ∷ 0 ∷ [])) ∷ [])
        rx_start in
    Idle r.0 × (r.1 ≡ [])
rx_run-changed_byte_example =
    rx_run-changed_byte rx_start 3 [] (0 ∷ []) 2 3 idle (omega arith) (omega arith) (omega arith)

abbrev home : Network
home = record { ssid = codes "home"; password = codes "secret12"; priority = 10 }

abbrev pub device : Improv (Store (Memory Network))
device = record {
  state = authorized;
  error = error_none;
  state_cbs = serial ∷ ble ∷ [];
  pending = none;
  wifi = record { networks = []; flash = blank; posted = [] };
  effects = [];
}

abbrev pub networks : List ScanResult
networks =
    record { ssid = codes "home"; rssi = 256 - 60; auth = auth_wpa2_psk }
    ∷ record { ssid = codes "cafe"; rssi = 256 - 71; auth = auth_open }
    ∷ []

abbrev pub api : WifiApi (Store (Memory Network))
api = saved_api (memory Network) (λ ssid. esp_ok) (some networks) (codes "192.168.1.7")

abbrev pub info : DeviceInfo
info = record {
  on_identify = true;
  firmware_name = none;
  firmware_version = none;
  device_name = none;
  chip_variant = codes "ESP32";
}

parse_settings_iff_example :
    (parse_settings (2 ∷ b'a' ∷ b'b' ∷ 0 ∷ []) ≡ some (codes "ab", []))
    ↔ ((tail : Bytes) × (2 ∷ b'a' ∷ b'b' ∷ 0 ∷ [] ≡ settings_layout (codes "ab") [] tail))
parse_settings_iff_example = parse_settings_iff (2 ∷ b'a' ∷ b'b' ∷ 0 ∷ []) (codes "ab") []

improv_handle_rpc-settings_example :
    let payload = settings_layout (codes "home") (codes "secret12") [] in
    let m1 =
      improv_handle_rpc api info true
        (1 ∷ length payload ∷ (payload ++ []))
        serial
        chunked
        253
        device in
    (m1.state ≡ provisioning)
    × (m1.error ≡ error_none)
    × (m1.pending ≡ some serial)
    × (api.saved m1.wifi (settings_network (codes "home") (codes "secret12")).ssid
        ≡ some (settings_network (codes "home") (codes "secret12")))
unfolding add_network find
improv_handle_rpc-settings_example =
    improv_handle_rpc-settings api info true (codes "home") (codes "secret12") [] [] serial chunked
      253 device (inl refl)

abbrev cafe_settings : Bytes
cafe_settings = settings_layout (codes "cafe") [] []
