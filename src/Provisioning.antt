-- ===== src/Provisioning.antt =====
-- The provisioning interfaces: `wifi_cfg_start_provisioning` and `wifi_cfg_stop_provisioning` of
-- src/esp_wifi_config.c with the messages of the access point, the access point of
-- src/esp_wifi_config_ap.c, and the registration flags of src/esp_wifi_config_http.c. The settings
-- of the access point, the DNS responder that follows it, and the routes themselves are left out, as
-- is the state of Improv that its start resets.
pub mod Budget
pub mod Repair
pub mod Routes
pub mod Sessions
use esp_wifi_config.Common.{
  ℕ, ◌+◌, List, [], ◌∷◌, ◌++◌, Bool, true, false, ◌&&◌, ◌||◌, not, ltb, leb, if◌then◌else◌,
}
use esp_wifi_config.Event.{Event, ap_start, ap_stop, provisioning_started, provisioning_stopped}
use esp_wifi_config.Network.Types.{EspErr, esp_ok, esp_fail, invalid_state}
use esp_wifi_config.Network.Connect.{ProvisioningMode, prov_when_unprovisioned, prov_manual}

-- `wifi_mode_t`
pub data WifiMode : Type 0 where
  mode_null mode_sta mode_ap mode_apsta : WifiMode

-- `wifi_http_post_prov_mode_t`
pub data HttpMode : Type 0 where
  http_full http_api_only http_disabled : HttpMode

-- The BLE interface of the build: none, the platform's provisioning manager, or the library's own.
pub data BleBuild : Type 0 where
  no_ble manager_ble own_ble : BleBuild

-- The fields of `wifi_cfg_config_t` that are read here; `provision_when_exhausted` is whether
-- `on_reconnect_exhausted` is WIFI_ON_RECONNECT_EXHAUSTED_PROVISION. The last three are the build.
pub record Settings : Type 0 where
  pub enable_ap : Bool
  pub http_post_prov_mode : HttpMode
  pub provisioning_mode : ProvisioningMode
  pub provision_when_exhausted : Bool
  pub max_reconnect_attempts : ℕ
  pub ble : BleBuild
  pub improv_serial : Bool
  pub improv_ble : Bool

-- The fields of `wifi_cfg_ctx_t`, the mode of the Wi-Fi driver and whether `esp_wifi_get_mode` reads
-- it, and the events posted.
pub record Device : Type 0 where
  pub mode : WifiMode
  pub mode_read : Bool
  pub ap_active : Bool
  pub ble_active : Bool
  pub improv_serial_active : Bool
  pub improv_ble_active : Bool
  pub provisioning_active : Bool
  pub ap_reassert_count : ℕ
  pub httpd : Bool
  pub httpd_owned : Bool
  pub http_handlers_registered : Bool
  pub provisioning_handlers_registered : Bool
  pub posted : List Event

-- How the start of the BLE interface goes: an error, or the mode that it leaves the driver in.
pub data BleStart : Type 0 where
  ble_fails : BleStart
  ble_starts : WifiMode → BleStart

abbrev pub has_ap : WifiMode → Bool
has_ap mode_ap = true
has_ap mode_apsta = true
has_ap _ = false

-- WIFI_CFG_AP_REASSERT_MAX
abbrev pub reassert_max : ℕ
reassert_max = 3

unfoldable pub start_ap : Device → Device
start_ap d = record d { ap_active = true; mode = mode_apsta; posted = d.posted ++ ap_start ∷ [] }

unfoldable pub stop_ap : Device → Device
stop_ap d = record d { ap_active = false; mode = mode_sta; posted = d.posted ++ ap_stop ∷ [] }

module _ (cfg : Settings) where
  -- The access point is put back if it is gone, as long as the budget lasts.
  unfoldable pub ap_reassert : Device → EspErr × Device
  unfolding start_ap
  ap_reassert d =
      if not cfg.enable_ap || not d.provisioning_active
      then (esp_ok, d)
      else if not d.mode_read || has_ap d.mode
      then (esp_ok, d)
      else if leb reassert_max d.ap_reassert_count
      then (esp_fail, d)
      else (esp_ok, start_ap (record d { ap_reassert_count = d.ap_reassert_count + 1 }))

  -- The manager starting takes the driver to a mode of its own.
  abbrev pub ble_up : BleBuild → BleStart → Device → Device
  ble_up manager_ble (ble_starts m) d = (ap_reassert (record d { mode = m; ble_active = true })).1
  ble_up own_ble (ble_starts m) d = record d { ble_active = true }
  ble_up _ _ d = d

  unfoldable pub start_ble : BleStart → Device → Device
  unfolding ap_reassert
  start_ble start d = if d.ble_active then d else ble_up cfg.ble start d

  abbrev pub improv_start : Device → Device
  improv_start d = record d {
    improv_serial_active = cfg.improv_serial || d.improv_serial_active;
    improv_ble_active = cfg.improv_ble || d.improv_ble_active;
  }

  abbrev pub improv_stop : Device → Device
  improv_stop d = record d {
    improv_serial_active = not cfg.improv_serial && d.improv_serial_active;
    improv_ble_active = not cfg.improv_ble && d.improv_ble_active;
  }

  -- Both groups of routes are registered if there is a server.
  abbrev pub http_register : Device → Device
  http_register d = record d {
    http_handlers_registered = d.httpd || d.http_handlers_registered;
    provisioning_handlers_registered = d.httpd || d.provisioning_handlers_registered;
  }

  abbrev pub ap_for_provisioning : Device → Device
  ap_for_provisioning d =
      let d1 = record d { ap_reassert_count = 0 } in
      if cfg.enable_ap && not d.ap_active then start_ap d1 else d1

  -- What follows the start of the BLE interface.
  abbrev pub session_up : Device → Device
  session_up d =
      let d1 = http_register (improv_start d) in
      record d1 { provisioning_active = true; posted = d1.posted ++ provisioning_started ∷ [] }

  unfoldable pub start_provisioning : BleStart → Device → Device
  unfolding start_ble start_ap
  start_provisioning start d =
      let d1 = session_up (start_ble start (ap_for_provisioning d)) in
      if d.provisioning_active then d else d1

  abbrev pub drops_ui : HttpMode → Bool
  drops_ui http_full = false
  drops_ui _ = true

  abbrev is_disabled : HttpMode → Bool
  is_disabled http_disabled = true
  is_disabled _ = false

  -- `wifi_cfg_http_transition_post_prov`; without a server nothing is unregistered.
  abbrev pub transition_post_prov : HttpMode → Device → Device
  transition_post_prov mode d = record d {
    provisioning_handlers_registered =
        not (drops_ui mode && d.httpd) && d.provisioning_handlers_registered;
    http_handlers_registered = not (is_disabled mode && d.httpd) && d.http_handlers_registered;
  }

  abbrev pub lets_go : ProvisioningMode → Bool
  lets_go prov_when_unprovisioned = true
  lets_go prov_manual = true
  lets_go _ = false

  abbrev pub reconnect_constraint : Bool
  reconnect_constraint =
      cfg.enable_ap && cfg.provision_when_exhausted && ltb 0 cfg.max_reconnect_attempts

  -- The server is stopped if it is the library's and nothing needs it any more.
  abbrev pub tears_down : Device → Bool
  tears_down d =
      is_disabled cfg.http_post_prov_mode
      && d.httpd_owned
      && d.httpd
      && not reconnect_constraint
      && lets_go cfg.provisioning_mode

  abbrev pub teardown_httpd : Device → Device
  teardown_httpd d = record d {
    httpd = d.httpd && not (tears_down d);
    httpd_owned = d.httpd_owned && not (tears_down d);
  }

  abbrev pub ap_down : Device → Device
  ap_down d = if d.ap_active then stop_ap d else d

  -- What follows the stop of the access point.
  abbrev pub session_down : Device → Device
  session_down d =
      let d1 = improv_stop (record d { ble_active = false }) in
      let d2 = teardown_httpd (transition_post_prov cfg.http_post_prov_mode d1) in
      record d2 { provisioning_active = false; posted = d2.posted ++ provisioning_stopped ∷ [] }

  unfoldable pub stop_provisioning : Device → Device
  unfolding stop_ap
  stop_provisioning d = if d.provisioning_active then session_down (ap_down d) else d

  -- WM_INT_EVT_AP_STARTED
  unfoldable pub ap_started : Device → Device
  ap_started d = record d { ap_active = true }

  -- WM_INT_EVT_AP_STOPPED: a stop that finds the flag set was not the library's.
  unfoldable pub ap_stopped : Device → Device
  unfolding ap_reassert
  ap_stopped d =
      let d1 = record d { ap_active = false } in if d.ap_active then (ap_reassert d1).1 else d1

  -- `wifi_cfg_stop_http`
  unfoldable pub stop_http : Device → EspErr × Device
  stop_http d =
      if not d.httpd || d.provisioning_active || reconnect_constraint || not d.httpd_owned
      then (invalid_state, d)
      else (
        esp_ok,
        record d {
          provisioning_handlers_registered = false;
          http_handlers_registered = false;
          httpd = false;
          httpd_owned = false;
        },
      )
