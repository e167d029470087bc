-- ===== src/BleHost/Nimble.antt =====
-- The backend of src/esp_wifi_config_ble_nimble.c. What NimBLE answers is a parameter, a function
-- of the call and of the calls before it; its events are operations.
pub mod Keeps
pub mod Quiet
pub mod Readable
pub mod Armed
use esp_wifi_config.Common.{
  ℕ, zero, suc, List, [], ◌∷◌, ◌++◌, Option, none, some, Bool, true, false, ◌&&◌, not, ◌==◌,
  if◌then◌else◌,
}
use esp_wifi_config.Common.Bytes.{Bytes}
use esp_wifi_config.Improv.Core.{ImprovState}
use esp_wifi_config.BleHost.{HostErr, host_ok, host_fail, passed_on, copy_name, Backend}
use esp_wifi_config.BleHost.Advert.{adv_buf, rsp_buf}

-- The calls into the stack and into the Improv transport.
pub data Call : Type 0 where
  adv_set_data adv_rsp_set_data : Bytes → Call
  adv_start adv_stop : Call
  update_params terminate conn_find delete_peer inject_io : ℕ → Call
  improv_on_connect : ℕ → Call
  improv_on_disconnect ensure_addr store_clear write_data_len : Call
  gatts_reset port_init hs_config set_preferred_mtu svc_gap_init : Call
  device_name_set : Bytes → Call
  gatts_count_cfg gatts_add_svcs gatts_start host_task port_stop port_deinit : Call

-- The static variables, what the Improv core reports, and the calls made, the latest last.
pub record Host : Type 0 where
  pub conn_handle : Option ℕ
  pub device_name : Bytes
  pub stack_owned : Bool
  pub advertising_desired : Bool
  pub synced : Bool
  pub improv_state : ImprovState
  pub capabilities : ℕ
  pub calls : List Call

-- The events that the handler acts on, and any other.
pub data GapEvent : Type 0 where
  connect : ℕ → ℕ → GapEvent
  disconnect adv_complete : GapEvent
  enc_change : ℕ → ℕ → GapEvent
  repeat_pairing : ℕ → GapEvent
  passkey_action : Bool → ℕ → GapEvent
  other_event : GapEvent

-- What happens to the backend: the calls of the lifecycle, the stack's callbacks, and a change of
-- what the Improv core reports. `reset` is `ble_on_reset`, which logs only.
pub data Happening : Type 0 where
  init : Bool → Bytes → Happening
  start : Happening
  stop deinit : List (List GapEvent) → Happening
  sync reset : Happening
  gap : GapEvent → Happening
  improv : ImprovState → ℕ → Happening

abbrev pub is_start : Happening → Bool
is_start start = true
is_start _ = false

-- A call whose result is not looked at.
abbrev pub issue : Call → Host → Host
issue c s = record s { calls = s.calls ++ c ∷ [] }

abbrev pub handle_open : Option ℕ → Bool
handle_open none = false
handle_open (some handle) = true

-- What the handler returns: BLE_GAP_REPEAT_PAIRING_RETRY, or 0.
abbrev pub gap_result : GapEvent → ℕ
gap_result (repeat_pairing handle) = 1
gap_result _ = 0

-- 0 is success.
module _ (answer : Call → List Call → ℕ) where
  abbrev pub succeeds : Call → Host → Bool
  succeeds c s = answer c s.calls == 0

  abbrev pub put_advert : Host → Host
  put_advert s =
      let s1 = issue (adv_set_data (adv_buf s.improv_state s.capabilities)) s in
      if succeeds (adv_set_data (adv_buf s.improv_state s.capabilities)) s
      then issue adv_start (issue (adv_rsp_set_data (rsp_buf s.device_name)) s1)
      else s1

  unfoldable pub start_advertising : Host → Host
  start_advertising s = if s.synced && s.advertising_desired then put_advert s else s

  abbrev pub if_desired : Host → Host
  if_desired s = if s.advertising_desired then start_advertising s else s

  -- A repeated pairing uses the descriptor whatever the search for it answers. The Boolean of a
  -- passkey action is whether it asks for no input.
  unfoldable pub gap_event_handler : GapEvent → Host → Host
  gap_event_handler (connect status handle) s =
      if status == 0
      then issue (improv_on_connect handle)
          (issue (update_params handle) (record s { conn_handle = some handle }))
      else start_advertising s
  gap_event_handler disconnect s =
      if_desired (issue improv_on_disconnect (record s { conn_handle = none }))
  gap_event_handler adv_complete s = if_desired s
  gap_event_handler (enc_change status handle) s =
      if status == 0
      then s
      else if succeeds (conn_find handle) s
      then issue (delete_peer handle) (issue (conn_find handle) s)
      else issue (conn_find handle) s
  gap_event_handler (repeat_pairing handle) s =
      issue (delete_peer handle) (issue (conn_find handle) s)
  gap_event_handler (passkey_action no_input handle) s =
      if no_input then issue (inject_io handle) s else s
  gap_event_handler other_event s = s

  unfoldable pub ble_on_sync : Host → Host
  ble_on_sync s =
      let s1 = issue ensure_addr s in
      if succeeds ensure_addr s
      then start_advertising
          (record (issue write_data_len (issue store_clear s1)) { synced = true })
      else s1

  -- A call whose failure ends the initialisation with ESP_FAIL.
  abbrev pub require : Call → (Host → HostErr × Host) → Host → HostErr × Host
  require c next s = if succeeds c s then next (issue c s) else (host_fail, issue c s)

  -- The stack is owned: its task is started, and it calls `ble_on_sync`. It is not: the service is
  -- committed, and the host has synchronised already.
  abbrev pub launch : Host → HostErr × Host
  launch s =
      if s.stack_owned
      then (host_ok, issue host_task s)
      else require gatts_start (λ s'. (host_ok, record s' { synced = true })) s

  abbrev pub register_services : Host → HostErr × Host
  register_services s = require gatts_count_cfg (require gatts_add_svcs launch) (
      issue (device_name_set s.device_name)
        (issue svc_gap_init (issue set_preferred_mtu (issue hs_config s))))

  -- Whether the stack runs already is what the controller reports.
  unfoldable pub backend_init : Bool → Bytes → Host → HostErr × Host
  backend_init running name s =
      let s1 = record s { device_name = copy_name name; stack_owned = not running } in
      if running
      then register_services (issue gatts_reset s1)
      else if succeeds port_init s1
      then register_services (issue port_init s1)
      else (passed_on (answer port_init s1.calls), issue port_init s1)

  unfoldable pub backend_start : Host → HostErr × Host
  backend_start s = (host_ok, start_advertising (record s { advertising_desired = true }))

  unfoldable pub gap_events : List GapEvent → Host → Host
  gap_events [] s = s
  gap_events (e ∷ es) s = gap_events es (gap_event_handler e s)

  -- Up to so many delays until the handle is gone. The lists are the events that arrive in each;
  -- none arrives in those past the last.
  unfoldable pub wait_closed : ℕ → List (List GapEvent) → Host → Host
  wait_closed zero ess s = s
  wait_closed (suc n) [] s = s
  wait_closed (suc n) (es ∷ ess) s =
      let later = wait_closed n ess (gap_events es s) in
      if handle_open s.conn_handle then later else s

  abbrev pub close_link : List (List GapEvent) → Host → Host
  close_link ess s = elim (s.conn_handle) [
    | none ↦ s
    | some handle ↦ wait_closed 50 ess (issue (terminate handle) s)
  ]

  unfoldable pub backend_stop : List (List GapEvent) → Host → HostErr × Host
  backend_stop ess s =
      (host_ok, issue adv_stop (close_link ess (record s { advertising_desired = false })))

  abbrev pub stop_stack : Host → Host
  stop_stack s = if s.stack_owned then issue port_deinit (issue port_stop s) else s

  unfoldable pub backend_deinit : List (List GapEvent) → Host → HostErr × Host
  unfolding backend_stop
  backend_deinit ess s =
      let s1 = (backend_stop ess s).1 in
      let s2 =
        issue gatts_start
          (issue (device_name_set s1.device_name) (issue svc_gap_init (issue gatts_reset s1))) in
      (host_ok, record (stop_stack s2) { conn_handle = none; stack_owned = false; synced = false })

  -- The backend, where the stack is found running or not, and the events arrive as given.
  unfoldable pub nimble : Bool → List (List GapEvent) → Backend Host
  nimble running ess = record {
    backend_init = backend_init running;
    backend_start = backend_start;
    backend_stop = backend_stop ess;
    backend_deinit = backend_deinit ess;
  }

  unfoldable pub happens : Happening → Host → Host
  unfolding backend_init backend_start backend_stop backend_deinit
  happens (init running name) s = (backend_init running name s).1
  happens start s = (backend_start s).1
  happens (stop ess) s = (backend_stop ess s).1
  happens (deinit ess) s = (backend_deinit ess s).1
  happens sync s = ble_on_sync s
  happens reset s = s
  happens (gap e) s = gap_event_handler e s
  happens (improv st caps) s = record s { improv_state = st; capabilities = caps }

  unfoldable pub run : List Happening → Host → Host
  run [] s = s
  run (e ∷ es) s = run es (happens e s)
