-- ===== src/Tests/Links.antt =====
-- Improv over BLE, the name template and a start of the device on concrete inputs.
use esp_wifi_config.Common.{
  ◌+◌, ◌≡◌, ◌≤◌, refl, List, [], ◌∷◌, Option, none, some, true, false, length, take, arith,
}
use esp_wifi_config.Common.Bytes.{Bytes, codes}
use esp_wifi_config.Network.Types.{Network, esp_ok}
use esp_wifi_config.Network.Store.{Store}
use esp_wifi_config.Vars.{Var}
use esp_wifi_config.Nvs.{wifi_cfg_nvs_save_networks, wifi_cfg_nvs_save_vars}
use esp_wifi_config.Provisioning.{http_full}
use esp_wifi_config.SoftAp.{ApConfig, normalize_ap_config, nvs_save_ap_config}
use esp_wifi_config.Startup.{
  security_1, SecurityBuild, InitConfig, init_ok, blank_ap, prov_validate, need_http, wifi_cfg_init,
}
use esp_wifi_config.Nvs.Shared.{Layout}
use esp_wifi_config.Startup.Saves.{Save, saved_networks, saved_vars, saved_ap, store_all}
use esp_wifi_config.Startup.Reboot.{Fit, wifi_cfg_init-reboot}
use esp_wifi_config.Improv.Serial.{checksum_from}
use esp_wifi_config.Improv.Networks.Packing.{Packed}
use esp_wifi_config.Improv.Ble.{
  Link, improv_ble_frame_valid, improv_ble_max_result_payload, handle_command,
}
use esp_wifi_config.Improv.Ble.Frame.{framed}
use esp_wifi_config.Improv.Ble.Budget.{results, handle_command-scan}
use esp_wifi_config.Tests.Flash.{Memory, blank, memory}
use esp_wifi_config.Tests.Provisioning.{device, api, info, networks}

improv_ble_frame_valid_test : improv_ble_frame_valid (4 ∷ 0 ∷ 4 ∷ []) ≡ true
unfolding improv_ble_frame_valid checksum_from
improv_ble_frame_valid_test = refl

-- A link that did not negotiate its MTU.
abbrev link : Link (Store (Memory Network))
link = record { core = device; mtu = some 23; cmd_queue = some []; rpc_result = []; notices = [] }

handle_command-scan_example :
    let l1 = handle_command api info true (framed 4 []) link in
    (payload : Bytes) × Packed
      (improv_ble_max_result_payload (some 23))
      (take 20 networks)
      []
      payload
    × (l1.rpc_result ≡ framed 4 payload)
    × (results l1.notices ≡ framed 4 payload ∷ [])
    × (length (framed 4 payload) + 3 ≤ 23)
handle_command-scan_example =
    handle_command-scan api info 23 networks device.wifi link (omega arith) refl refl

abbrev build : SecurityBuild
build = record { has_0 = true; has_1 = true; has_2 = true }

-- The defaults of the library, as far as they decide here.
abbrev defaults : InitConfig
defaults = record {
  default_networks = none;
  default_vars = none;
  retry_interval_ms = 5000;
  retry_max_interval_ms = 60000;
  http_post_prov_mode = http_full;
  default_ap = record blank_ap { ssid = codes "ESP32-Config"; ip = codes "192.168.4.1" };
  always_use_ap_defaults = false;
  enable_ap = false;
  user_httpd = false;
  prov_ble = record {
    security = security_1;
    security2_salt = false;
    security2_salt_len = 0;
    security2_verifier = false;
    security2_verifier_len = 0;
    manufacturer_data_len = 0;
  };
}

-- The server is set up for the default configuration, and not for a null pointer.
need_http_test : (need_http (some defaults) ≡ true) × (need_http none ≡ false)
unfolding need_http
need_http_test = (refl, refl)

defaults-Fit : Fit build defaults
unfolding prov_validate
defaults-Fit = record { interval = λ e. cc; max_interval = λ e. cc; secure = refl }

abbrev home : Network
home = record { ssid = codes "home"; password = codes "secret12"; priority = 10 }

abbrev lang : Var
lang = record { key = codes "lang"; value = codes "en" }

abbrev own_ap : ApConfig
own_ap = record blank_ap { ssid = codes "kitchen" }

-- The kinds of blob in the one namespace.
data Stored : Type 0 where
  network : Network → Stored
  var : Var → Stored
  config : ApConfig → Stored

abbrev as_network : Stored → Option Network
as_network (network n) = some n
as_network _ = none

abbrev as_var : Stored → Option Var
as_var (var v) = some v
as_var _ = none

abbrev as_config : Stored → Option ApConfig
as_config (config c) = some c
as_config _ = none

abbrev net_lay : Layout Network Stored
net_lay = record { as_blob = network; as_item = as_network; as_item-as_blob = λ n. refl }

abbrev var_lay : Layout Var Stored
var_lay = record { as_blob = var; as_item = as_var; as_item-as_blob = λ v. refl }

abbrev ap_lay : Layout ApConfig Stored
ap_lay = record { as_blob = config; as_item = as_config; as_item-as_blob = λ c. refl }

-- The networks are saved twice, with the others between.
abbrev saves : List Save
saves =
    saved_networks [] ∷ saved_vars (lang ∷ []) ∷ saved_ap own_ap ∷ saved_networks (home ∷ []) ∷ []

written : Memory Stored
written = (store_all (memory Stored) net_lay var_lay ap_lay saves blank).1

wifi_cfg_init-reboot_example :
    wifi_cfg_init
      (memory Stored)
      net_lay
      var_lay
      ap_lay
      build
      defaults
      false
      true
      esp_ok
      esp_ok
      (some defaults)
      written
    ≡ (
      init_ok,
      some (record {
        networks = home ∷ [];
        vars = lang ∷ [];
        ap_config = normalize_ap_config own_ap;
        flash = written;
        http_wanted = need_http (some defaults);
      }),
    )
unfolding written wifi_cfg_nvs_save_networks wifi_cfg_nvs_save_vars nvs_save_ap_config
wifi_cfg_init-reboot_example =
    wifi_cfg_init-reboot (memory Stored) net_lay var_lay ap_lay build defaults defaults saves
      (home ∷ []) (lang ∷ []) own_ap blank written defaults-Fit refl
      (omega arith, (omega arith, (tt, (omega arith, tt)))) refl refl (λ e. cc) (λ e. cc)
