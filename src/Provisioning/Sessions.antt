-- ===== src/Provisioning/Sessions.antt =====
-- Courses of sessions keep the routes and the interfaces consistent.
use esp_wifi_config.Common.{
  ◌≡◌, refl, List, [], ◌∷◌, ◌++◌, Bool, true, false, ◌&&◌, ◌||◌, not, if◌then◌else◌, arith,
}
use esp_wifi_config.Event.{ap_start, ap_stop}
use esp_wifi_config.Provisioning.Repair.{ap_reassert_idle}
use esp_wifi_config.Provisioning.{
  WifiMode, BleBuild, no_ble, manager_ble, own_ble, BleStart, ble_fails, ble_starts, Settings,
  Device, start_ap, stop_ap, mode_sta, ble_up, start_ble, ap_for_provisioning, session_up,
  start_provisioning, ap_started, mode_apsta,
}
use esp_wifi_config.Provisioning.Budget.{
  Happening, mode_reads, call_start_ap, call_stop_ap, call_set_ap_config, mode_set,
  message_ap_started, message_ap_stopped, call_stop, call_stop_http, happen, happenings,
}
use esp_wifi_config.Provisioning.Routes.{
  IsConsistent, ap_changed-IsConsistent, ap_stopped-IsConsistent, stop_provisioning-IsConsistent,
  stop_http-IsConsistent,
}

started-left :
    (built active : Bool) → (active ≡ true → built ≡ true) → (built || active) ≡ true → built ≡ true
started-left built active runs h = ground arith

served-left :
    (httpd flag : Bool) → (flag ≡ true → httpd ≡ true) → (httpd || flag) ≡ true → httpd ≡ true
served-left httpd flag served h = ground arith

module _ (cfg : Settings) where
  -- A session is beginning: the same, but for what runs in it.
  record Beginning (d : Device) : Type 0 where
    api_served : d.http_handlers_registered ≡ true → d.httpd ≡ true
    ui_served : d.provisioning_handlers_registered ≡ true → d.httpd ≡ true
    served : d.httpd_owned ≡ true → d.httpd ≡ true
    serial : d.improv_serial_active ≡ true → cfg.improv_serial ≡ true
    ble : d.improv_ble_active ≡ true → cfg.improv_ble ≡ true

  session_up-IsConsistent : (d : Device) → Beginning d → IsConsistent cfg (session_up cfg d)
  session_up-IsConsistent d b = record {
    api_routes = served-left d.httpd d.http_handlers_registered b.api_served;
    ui_routes = served-left d.httpd d.provisioning_handlers_registered b.ui_served;
    owned = b.served;
    serial_built = started-left cfg.improv_serial d.improv_serial_active b.serial;
    ble_built = started-left cfg.improv_ble d.improv_ble_active b.ble;
    session = λ h. refl;
  }

  Beginning-IsConsistent : (d : Device) → IsConsistent cfg d → Beginning d
  Beginning-IsConsistent d ok = record {
    api_served = ok.api_routes;
    ui_served = ok.ui_routes;
    served = ok.owned;
    serial = ok.serial_built;
    ble = ok.ble_built;
  }

  Beginning-mode :
      (d : Device) (m : WifiMode)
      → Beginning d
      → Beginning (record d { mode = m; ble_active = true })
  Beginning-mode d m b = record {
    api_served = b.api_served;
    ui_served = b.ui_served;
    served = b.served;
    serial = b.serial;
    ble = b.ble;
  }

  ble_up-Beginning :
      (build : BleBuild) (start : BleStart) (d : Device)
      → d.provisioning_active ≡ false
      → Beginning d
      → Beginning (ble_up cfg build start d)
  ble_up-Beginning no_ble start d off b = b
  ble_up-Beginning manager_ble ble_fails d off b = b
  ble_up-Beginning manager_ble (ble_starts m) d off b =
      rw (ap_reassert_idle cfg (record d { mode = m; ble_active = true }) off)
        (Beginning-mode d m b)
  ble_up-Beginning own_ble ble_fails d off b = b
  ble_up-Beginning own_ble (ble_starts m) d off b = Beginning-mode d d.mode b

  Beginning-if :
      (t : Bool) (x y : Device) → Beginning x → Beginning y → Beginning (if t then x else y)
  Beginning-if true x y p q = p
  Beginning-if false x y p q = q

  off-if :
      (t : Bool) (x y : Device)
      → x.provisioning_active ≡ false
      → y.provisioning_active ≡ false
      → (if t then x else y).provisioning_active ≡ false
  off-if true x y p q = p
  off-if false x y p q = q

  start_ble-Beginning :
      (start : BleStart) (d : Device)
      → d.provisioning_active ≡ false
      → Beginning d
      → Beginning (start_ble cfg start d)
  unfolding start_ble
  start_ble-Beginning start d off b =
      Beginning-if d.ble_active d _ b (ble_up-Beginning cfg.ble start d off b)

  ap_for_provisioning-Beginning :
      (d : Device) → IsConsistent cfg d → Beginning (ap_for_provisioning cfg d)
  unfolding start_ap
  ap_for_provisioning-Beginning d ok =
      Beginning-if (cfg.enable_ap && not d.ap_active) _ _
        (Beginning-IsConsistent _
          (ap_changed-IsConsistent cfg d mode_apsta true 0 (d.posted ++ ap_start ∷ []) ok))
        (Beginning-IsConsistent _ (ap_changed-IsConsistent cfg d d.mode d.ap_active 0 d.posted ok))

  ap_for_provisioning_off :
      (d : Device)
      → d.provisioning_active ≡ false
      → (ap_for_provisioning cfg d).provisioning_active ≡ false
  unfolding start_ap
  ap_for_provisioning_off d off = off-if (cfg.enable_ap && not d.ap_active) _ _ off off

  begun :
      (b : Bool) (x y : Device)
      → IsConsistent cfg x
      → (b ≡ false → IsConsistent cfg y)
      → IsConsistent cfg (if b then x else y)
  begun true x y p q = p
  begun false x y p q = q refl

  start_provisioning-IsConsistent :
      (start : BleStart) (d : Device)
      → IsConsistent cfg d
      → IsConsistent cfg (start_provisioning cfg start d)
  unfolding start_provisioning
  start_provisioning-IsConsistent start d ok = begun d.provisioning_active d _ ok (λ off.
      session_up-IsConsistent (start_ble cfg start (ap_for_provisioning cfg d)) (
        start_ble-Beginning start (ap_for_provisioning cfg d) (ap_for_provisioning_off d off)
          (ap_for_provisioning-Beginning d ok)))

  mode_reads-IsConsistent :
      (b : Bool) (d : Device) → IsConsistent cfg d → IsConsistent cfg (record d { mode_read = b })
  mode_reads-IsConsistent b d ok = record {
    api_routes = ok.api_routes;
    ui_routes = ok.ui_routes;
    owned = ok.owned;
    serial_built = ok.serial_built;
    ble_built = ok.ble_built;
    session = ok.session;
  }

  start_ap-IsConsistent : (d : Device) → IsConsistent cfg d → IsConsistent cfg (start_ap d)
  unfolding start_ap
  start_ap-IsConsistent d ok =
      ap_changed-IsConsistent cfg d mode_apsta true d.ap_reassert_count (d.posted ++ ap_start ∷ [])
        ok

  stop_ap-IsConsistent : (d : Device) → IsConsistent cfg d → IsConsistent cfg (stop_ap d)
  unfolding stop_ap
  stop_ap-IsConsistent d ok =
      ap_changed-IsConsistent cfg d mode_sta false d.ap_reassert_count (d.posted ++ ap_stop ∷ []) ok

  happen-IsConsistent :
      (h : Happening) (d : Device) → IsConsistent cfg d → IsConsistent cfg (happen cfg h d)
  unfolding ap_started
  happen-IsConsistent (mode_set m) d ok =
      ap_changed-IsConsistent cfg d m d.ap_active d.ap_reassert_count d.posted ok
  happen-IsConsistent (mode_reads b) d ok = mode_reads-IsConsistent b d ok
  happen-IsConsistent call_start_ap d ok = start_ap-IsConsistent d ok
  happen-IsConsistent call_stop_ap d ok = stop_ap-IsConsistent d ok
  happen-IsConsistent call_set_ap_config d ok =
      begun d.ap_active (start_ap d) d (start_ap-IsConsistent d ok) (λ down. ok)
  happen-IsConsistent message_ap_started d ok =
      ap_changed-IsConsistent cfg d d.mode true d.ap_reassert_count d.posted ok
  happen-IsConsistent message_ap_stopped d ok = ap_stopped-IsConsistent cfg d ok
  happen-IsConsistent call_stop d ok = stop_provisioning-IsConsistent cfg d ok
  happen-IsConsistent call_stop_http d ok = stop_http-IsConsistent cfg d ok

  happenings-IsConsistent :
      (hs : List Happening) (d : Device)
      → IsConsistent cfg d
      → IsConsistent cfg (happenings cfg hs d)
  unfolding happenings
  happenings-IsConsistent [] d ok = ok
  happenings-IsConsistent (h ∷ hs) d ok =
      happenings-IsConsistent hs (happen cfg h d) (happen-IsConsistent h d ok)

  -- Sessions one after the other: how the BLE interface starts, and what happens until the next.
  unfoldable pub sessions : List (BleStart × List Happening) → Device → Device
  sessions [] d = d
  sessions ((start, hs) ∷ later) d =
      sessions later (happenings cfg hs (start_provisioning cfg start d))

  -- Any course of sessions, however the BLE interface starts in each and whatever messages, changes
  -- of mode, stops and calls for the access point follow, keeps the device consistent: no route
  -- outlives the HTTP server, a server that is owned is there, Improv runs only on transports of the
  -- build, and outside a session neither BLE nor Improv is marked as running. (The access point may
  -- run outside a session: it can be asked for on its own.)
  pub sessions-IsConsistent :
      (later : List (BleStart × List Happening)) (d : Device)
      → IsConsistent cfg d
      → IsConsistent cfg (sessions later d)
  unfolding sessions
  sessions-IsConsistent [] d ok = ok
  sessions-IsConsistent ((start, hs) ∷ later) d ok =
      sessions-IsConsistent later (happenings cfg hs (start_provisioning cfg start d)) (
        happenings-IsConsistent hs (start_provisioning cfg start d)
          (start_provisioning-IsConsistent start d ok))
