-- ===== src/BleHost.antt =====
-- The BLE host of the Improv transport: the lifecycle of src/esp_wifi_config_ble.c over a backend,
-- and the two backends, of src/esp_wifi_config_ble_nimble.c and
-- src/esp_wifi_config_ble_bluedroid.c.
pub mod Advert
pub mod Nimble
pub mod Bluedroid
use esp_wifi_config.Common.{ℕ, List, [], ◌∷◌, Option, none, some, take}
use esp_wifi_config.Common.Bytes.{Bytes, codes}
use esp_wifi_config.SoftAp.{wifi_cfg_expand_template}

-- `esp_err_t` of a call into the stack: ESP_OK, or a code that is passed on. `aborted` is the end of
-- the program that `ESP_ERROR_CHECK` comes to.
pub data HostErr : Type 0 where
  host_ok host_fail host_invalid_state aborted : HostErr
  passed_on : ℕ → HostErr

-- `strncpy` into `s_device_name`, `char[32]`
abbrev pub copy_name : Bytes → Bytes
copy_name name = take 31 name

-- The backend that is compiled in.
pub record Backend (S : Type 0) : Type 0 where
  pub backend_init : Bytes → S → HostErr × S
  pub backend_start : S → HostErr × S
  pub backend_stop : S → HostErr × S
  pub backend_deinit : S → HostErr × S

-- A null pointer or an empty text leaves the template to the default.
abbrev pub name_template : Option Bytes → Bytes
name_template none = codes "ESP32-WiFi-{id}"
name_template (some []) = codes "ESP32-WiFi-{id}"
name_template (some (c ∷ s)) = c ∷ s

module _ {S : Type 0} (backend : Backend S) where
  open backend use {backend_init, backend_start, backend_stop, backend_deinit}

  -- The context is given by its `ble_device_name`; `none` is the context before the
  -- initialisation.
  unfoldable pub ble_init : ℕ → ℕ → ℕ → Option (Option Bytes) → S → HostErr × S
  ble_init m3 m4 m5 none s = (host_invalid_state, s)
  ble_init m3 m4 m5 (some name) s =
      backend_init (wifi_cfg_expand_template m3 m4 m5 (name_template name) 32) s

  abbrev pub ble_start : S → HostErr × S
  ble_start s = backend_start s

  abbrev pub ble_stop : S → HostErr × S
  ble_stop s = backend_stop s

  abbrev pub ble_deinit : S → HostErr × S
  ble_deinit s = backend_deinit s
