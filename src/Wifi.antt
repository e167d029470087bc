-- ===== src/Wifi.antt =====
-- What the front ends use of the Wi-Fi manager: the public calls of include/esp_wifi_config.h that
-- they make, with the laws that the manager's own theorems give them.
pub mod Saved
use esp_wifi_config.Common.{ℕ, ◌≡◌, ◌≢◌, List, Option, none, some}
use esp_wifi_config.Common.Bytes.{Bytes}
use esp_wifi_config.Network.Types.{Network, EspErr, esp_ok, invalid_state}

-- `wifi_auth_mode_t`, as far as the library tells the modes apart
pub data AuthMode : Type 0 where
  auth_open auth_wep auth_wpa_psk auth_wpa2_psk auth_wpa_wpa2_psk auth_wpa3_psk auth_wpa2_wpa3_psk
        auth_wpa2_enterprise auth_wapi_psk auth_other :
      AuthMode

-- `wifi_scan_result_t`; `rssi` is the bit pattern of an `int8_t`
pub record ScanResult : Type 0 where
  pub ssid : Bytes
  pub rssi : ℕ
  pub auth : AuthMode

-- The manager behind the calls; `saved` is the saved network of an SSID.
pub record WifiApi (W : Type 0) : Type 0 where
  pub add_network : Network → W → EspErr × W
  pub update_network : Network → W → EspErr × W
  pub connect : Bytes → W → EspErr × W
  pub scan : W → Option (List ScanResult) × W
  pub status_ip : W → Bytes
  pub saved : W → Bytes → Option Network
  pub saved-add_network :
      (n : Network) (w : W)
      → (add_network n w).0 ≡ esp_ok
      → saved (add_network n w).1 n.ssid ≡ some n
  pub saved-update_network :
      (n : Network) (w : W)
      → (add_network n w).0 ≡ invalid_state
      → saved (update_network n (add_network n w).1).1 n.ssid ≡ some n
  pub saved-connect : (ssid j : Bytes) (w : W) → saved (connect ssid w).1 j ≡ saved w j
