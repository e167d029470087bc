-- ===== src/BleHost/Bluedroid.antt =====
-- The backend of src/esp_wifi_config_ble_bluedroid.c. What Bluedroid answers is a parameter, a
-- function of the call and of the calls before it; its events are operations.
pub mod Chain
use esp_wifi_config.Common.{
  ℕ, List, [], ◌∷◌, ◌++◌, Option, none, some, Bool, true, false, not, ◌==◌, if◌then◌else◌,
}
use esp_wifi_config.Common.Bytes.{Bytes}
use esp_wifi_config.Improv.Core.{ImprovState}
use esp_wifi_config.BleHost.{HostErr, host_ok, passed_on, aborted, copy_name, Backend}
use esp_wifi_config.BleHost.Advert.{state_byte}

-- An event of the GATT server: a client's address at the begin of its link, its end, and any other.
pub data GattsEvent : Type 0 where
  gatts_connect : ℕ → GattsEvent
  gatts_disconnect gatts_other : GattsEvent

-- An event of GAP; the ends of the other operations are logged only.
pub data GapEvent : Type 0 where
  adv_data_set_complete scan_rsp_data_set_complete gap_other : GapEvent

-- The calls into the stack and into the Improv profile. The advertising data is described by the
-- state and the capabilities in `improv_svc_data`.
pub data Call : Type 0 where
  config_adv_data : ℕ → ℕ → Call
  config_scan_rsp start_adv stop_adv : Call
  gap_disconnect : ℕ → Call
  mem_release controller_init controller_enable bluedroid_init bluedroid_enable : Call
  register_gatts register_gap set_local_mtu : Call
  set_device_name : Bytes → Call
  bluedroid_disable bluedroid_deinit controller_disable controller_deinit : Call
  profile : GattsEvent → Call

-- The static variables, what the Improv core reports, and the calls made, the latest last.
pub record Host : Type 0 where
  pub device_name : Bytes
  pub stack_owned : Bool
  pub advertising_desired : Bool
  pub connected : Bool
  pub remote_bda : ℕ
  pub svc_state : ℕ
  pub svc_capabilities : ℕ
  pub improv_state : ImprovState
  pub capabilities : ℕ
  pub calls : List Call

abbrev pub issue : Call → Host → Host
issue c s = record s { calls = s.calls ++ c ∷ [] }

-- Each step of the configuration is begun at the end of the one before.
unfoldable pub gap_event_handler : GapEvent → Host → Host
gap_event_handler adv_data_set_complete s = issue config_scan_rsp s
gap_event_handler scan_rsp_data_set_complete s = issue start_adv s
gap_event_handler gap_other s = s

abbrev pub track : GattsEvent → Host → Host
track (gatts_connect bda) s = record s { connected = true; remote_bda = bda }
track gatts_disconnect s =
    let s1 = record s { connected = false } in
    if s.advertising_desired then issue start_adv s1 else s1
track gatts_other s = s

unfoldable pub gatts_dispatch_handler : GattsEvent → Host → Host
gatts_dispatch_handler e s = issue (profile e) (track e s)

unfoldable pub backend_start : Host → HostErr × Host
backend_start s =
    let s1 = record s {
      advertising_desired = true;
      svc_state = state_byte s.improv_state;
      svc_capabilities = s.capabilities;
    } in
    (host_ok, issue (config_adv_data s1.svc_state s1.svc_capabilities) s1)

unfoldable pub backend_stop : Host → HostErr × Host
backend_stop s =
    let s1 = record s { advertising_desired = false } in
    (host_ok, issue stop_adv (if s.connected then issue (gap_disconnect s.remote_bda) s1 else s1))

abbrev pub stop_stack : Host → Host
stop_stack s =
    if s.stack_owned
    then issue controller_deinit
        (issue controller_disable (issue bluedroid_deinit (issue bluedroid_disable s)))
    else s

unfoldable pub backend_deinit : Host → HostErr × Host
unfolding backend_stop
backend_deinit s =
    (host_ok, record (stop_stack (backend_stop s).1) { connected = false; stack_owned = false })

-- 0 is ESP_OK.
module _ (answer : Call → List Call → ℕ) where
  -- A call whose failure ends the initialisation with its error.
  abbrev pub require : Call → (Host → HostErr × Host) → Host → HostErr × Host
  require c next s =
      if answer c s.calls == 0 then next (issue c s) else (passed_on (answer c s.calls), issue c s)

  abbrev pub register_callbacks : Host → HostErr × Host
  register_callbacks = require register_gatts (
      require register_gap
        (λ s. (host_ok, issue set_local_mtu (issue (set_device_name s.device_name) s))))

  abbrev pub bring_up : Host → HostErr × Host
  bring_up = require controller_init (
      require controller_enable
        (require bluedroid_init (require bluedroid_enable register_callbacks)))

  -- Whether the stack runs already is what Bluedroid reports. The release of the memory of Classic
  -- Bluetooth is checked by `ESP_ERROR_CHECK`.
  unfoldable pub backend_init : Bool → Bytes → Host → HostErr × Host
  backend_init running name s =
      let s1 = record s { device_name = copy_name name; stack_owned = not running } in
      if running
      then register_callbacks s1
      else if answer mem_release s1.calls == 0
      then bring_up (issue mem_release s1)
      else (aborted, issue mem_release s1)

  unfoldable pub bluedroid : Bool → Backend Host
  bluedroid running = record {
    backend_init = backend_init running;
    backend_start = backend_start;
    backend_stop = backend_stop;
    backend_deinit = backend_deinit;
  }

-- What happens to the backend once it is initialised: the calls of the lifecycle, the stack's
-- callbacks, and a change of what the Improv core reports.
pub data Happening : Type 0 where
  start stop deinit : Happening
  gap : GapEvent → Happening
  gatts : GattsEvent → Happening
  improv : ImprovState → ℕ → Happening

unfoldable pub happens : Happening → Host → Host
unfolding backend_start backend_stop backend_deinit
happens start s = (backend_start s).1
happens stop s = (backend_stop s).1
happens deinit s = (backend_deinit s).1
happens (gap e) s = gap_event_handler e s
happens (gatts e) s = gatts_dispatch_handler e s
happens (improv st caps) s = record s { improv_state = st; capabilities = caps }

unfoldable pub run : List Happening → Host → Host
run [] s = s
run (e ∷ es) s = run es (happens e s)
