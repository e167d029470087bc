-- ===== src/Tests/Hosts.antt =====
-- The two BLE backends on concrete inputs.
use esp_wifi_config.Common.{ℕ, ◌≡◌, refl, List, [], ◌∷◌, ◌++◌, map, none, some, true, false, All}
use esp_wifi_config.Common.Bytes.{codes}
use esp_wifi_config.Improv.Core.{authorized, provisioning}
use esp_wifi_config.SoftAp.{find_id, wifi_cfg_expand_template}
use esp_wifi_config.BleHost.{host_fail, host_invalid_state, ble_init}
use esp_wifi_config.BleHost.Nimble
use esp_wifi_config.BleHost.Nimble.Quiet
use esp_wifi_config.BleHost.Nimble.Readable.{IsReadable, run-IsReadable}
use esp_wifi_config.BleHost.Nimble.Armed.{EndsStarted, run-either_order}
use esp_wifi_config.BleHost.Bluedroid
use esp_wifi_config.BleHost.Bluedroid.Chain

-- NimBLE accepts every call.
abbrev willing : Nimble.Call → List Nimble.Call → ℕ
willing c cs = 0

-- NimBLE refuses to add the service.
abbrev full : Nimble.Call → List Nimble.Call → ℕ
full Nimble.gatts_add_svcs cs = 6
full _ cs = 0

abbrev fresh : Nimble.Host
fresh = record {
  conn_handle = none;
  device_name = codes "a name of twenty-nine letters";
  stack_owned = true;
  advertising_desired = false;
  synced = false;
  improv_state = authorized;
  capabilities = 6;
  calls = [];
}

-- A client's link comes up and goes again, while the backend waits for its end.
abbrev linked : Nimble.Host
linked = record fresh { conn_handle = some 1; advertising_desired = true; synced = true }

run-stop_quiet_example :
    Quiet.adv_starts
      (Nimble.run willing
        (Nimble.stop ([] ∷ (Nimble.disconnect ∷ []) ∷ [])
          ∷ Nimble.sync
          ∷ Nimble.gap Nimble.adv_complete
          ∷ [])
        linked).calls
    ≡ 0
unfolding Quiet.adv_starts
run-stop_quiet_example =
    Quiet.run-stop_quiet willing ([] ∷ (Nimble.disconnect ∷ []) ∷ [])
      (Nimble.sync ∷ Nimble.gap Nimble.adv_complete ∷ []) linked (refl, (refl, tt))

abbrev course : List Nimble.Happening
course = Nimble.start ∷ Nimble.sync ∷ Nimble.gap Nimble.disconnect ∷ []

run-IsReadable_example : All IsReadable (Nimble.run willing course fresh).calls
run-IsReadable_example = run-IsReadable willing course fresh refl

run-either_order_example :
    EndsStarted (
      Nimble.run willing
        (Nimble.start ∷ map Nimble.gap (Nimble.connect 0 1 ∷ []) ++ Nimble.sync ∷ [])
        fresh)
    × EndsStarted (
        Nimble.run willing
          (Nimble.sync ∷ map Nimble.gap (Nimble.connect 0 1 ∷ []) ++ Nimble.start ∷ [])
          fresh)
run-either_order_example = run-either_order willing (Nimble.connect 0 1 ∷ []) fresh (λ c cs. refl)

-- The service is refused: the initialisation fails, and the host's task is not started.
backend_init_test : (Nimble.backend_init full false (codes "x") fresh).0 ≡ host_fail
unfolding Nimble.backend_init
backend_init_test = refl

ble_init_test : (ble_init (Nimble.nimble willing false []) 1 2 3 none fresh).0 ≡ host_invalid_state
unfolding ble_init
ble_init_test = refl

ble_init-default_test :
    (ble_init (Nimble.nimble willing true []) 0xAB 0xCD 0xEF (some (some [])) fresh).1.device_name
    ≡ codes "ESP32-WiFi-ABCDEF"
unfolding ble_init Nimble.nimble Nimble.backend_init find_id wifi_cfg_expand_template
ble_init-default_test = refl

abbrev idle : Bluedroid.Host
idle = record {
  device_name = codes "x";
  stack_owned = true;
  advertising_desired = false;
  connected = false;
  remote_bda = 0;
  svc_state = 2;
  svc_capabilities = 0;
  improv_state = provisioning;
  capabilities = 7;
  calls = [];
}

run-stop_outrun_example :
    let s' =
      Bluedroid.run
        (Bluedroid.start
          ∷ Bluedroid.stop
          ∷ Bluedroid.gap Bluedroid.adv_data_set_complete
          ∷ Bluedroid.gap Bluedroid.scan_rsp_data_set_complete
          ∷ [])
        idle in
    (Chain.adv_starts s'.calls ≡ 1) × (s'.advertising_desired ≡ false)
unfolding Chain.adv_starts
run-stop_outrun_example = Chain.run-stop_outrun idle

start_test : (Bluedroid.run (Bluedroid.start ∷ []) idle).calls ≡ Bluedroid.config_adv_data 3 7 ∷ []
unfolding Bluedroid.run Bluedroid.happens Bluedroid.backend_start
start_test = refl
