-- ===== src/Network/Types.antt =====
-- `wifi_network_t` of include/esp_wifi_config.h, and the error codes that the library returns.
use esp_wifi_config.Common.{ℕ}
use esp_wifi_config.Common.Bytes.{Bytes}

pub record Network : Type 0 where
  pub ssid : Bytes  -- char[33]
  pub password : Bytes  -- char[64]
  pub priority : ℕ  -- uint8_t

-- `esp_err_t`: the codes that the modelled operations return.
pub data EspErr : Type 0 where
  esp_ok esp_fail invalid_arg invalid_state no_mem not_found timeout : EspErr

-- WIFI_CFG_MAX_NETWORKS, at the value that a build without Kconfig uses.
abbrev pub max_networks : ℕ
max_networks = 5
