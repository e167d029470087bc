-- ===== src/Tests/Lifecycle.antt =====
-- Provisioning sessions on concrete devices.
use esp_wifi_config.Common.{◌+◌, ◌≤◌, ◌≡◌, refl, List, [], ◌∷◌, true, false, arith}
use esp_wifi_config.Event.{ap_start, ap_stop, provisioning_started, provisioning_stopped}
use esp_wifi_config.Network.Connect.{prov_manual}
use esp_wifi_config.Provisioning.{
  mode_sta, http_disabled, manager_ble, Settings, Device, ble_fails, ble_starts, start_provisioning,
  stop_provisioning,
}
use esp_wifi_config.Provisioning.Budget.{
  Happening, mode_set, message_ap_stopped, call_stop, call_stop_http, call_start_ap,
  call_set_ap_config, asked, ap_starts, happenings, happenings-budget,
}
use esp_wifi_config.Provisioning.Routes.{IsConsistent}
use esp_wifi_config.Provisioning.Sessions.{sessions, sessions-IsConsistent}

abbrev settings : Settings
settings = record {
  enable_ap = true;
  http_post_prov_mode = http_disabled;
  provisioning_mode = prov_manual;
  provision_when_exhausted = false;
  max_reconnect_attempts = 0;
  ble = manager_ble;
  improv_serial = true;
  improv_ble = false;
}

abbrev fresh : Device
fresh = record {
  mode = mode_sta;
  mode_read = true;
  ap_active = false;
  ble_active = false;
  improv_serial_active = false;
  improv_ble_active = false;
  provisioning_active = false;
  ap_reassert_count = 0;
  httpd = true;
  httpd_owned = true;
  http_handlers_registered = false;
  provisioning_handlers_registered = false;
  posted = [];
}

abbrev in_session : Device
in_session = record fresh { ap_active = true; ble_active = true; provisioning_active = true }

abbrev course : List Happening
course =
    message_ap_stopped
    ∷ mode_set mode_sta
    ∷ message_ap_stopped
    ∷ call_stop
    ∷ message_ap_stopped
    ∷ call_stop_http
    ∷ call_start_ap
    ∷ call_set_ap_config
    ∷ []

happenings-budget_example :
    (ap_starts (happenings settings course in_session).posted + 0
      ≤ ap_starts in_session.posted + asked settings course in_session + 3)
    × (in_session.provisioning_active ≡ false
        → ap_starts (happenings settings course in_session).posted
          ≡ ap_starts in_session.posted + asked settings course in_session)
happenings-budget_example = happenings-budget settings course in_session (omega arith)

fresh-IsConsistent : IsConsistent settings fresh
fresh-IsConsistent = record {
  api_routes = λ h. refl;
  ui_routes = λ h. refl;
  owned = λ h. refl;
  serial_built = λ h. refl;
  ble_built = λ h. absurd (ground arith);
  session = λ h. absurd (ground arith);
}

sessions-IsConsistent_example :
    IsConsistent settings
      (sessions settings ((ble_starts mode_sta, course) ∷ (ble_fails, []) ∷ []) fresh)
sessions-IsConsistent_example =
    sessions-IsConsistent settings ((ble_starts mode_sta, course) ∷ (ble_fails, []) ∷ []) fresh
      fresh-IsConsistent

-- A session with its end: the access point and the server go, and the events say so.
session_test :
    (stop_provisioning settings (start_provisioning settings ble_fails fresh)).posted
    ≡ ap_start ∷ provisioning_started ∷ ap_stop ∷ provisioning_stopped ∷ []
unfolding start_provisioning stop_provisioning
session_test = refl

server_test :
    (stop_provisioning settings (start_provisioning settings ble_fails fresh)).httpd ≡ false
unfolding start_provisioning stop_provisioning
server_test = refl
