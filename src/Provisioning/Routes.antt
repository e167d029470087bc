-- ===== src/Provisioning/Routes.antt =====
-- The routes of the HTTP server and the interfaces of a session, as an invariant.
use esp_wifi_config.Common.{
  ℕ, ◌≡◌, refl, List, Bool, true, false, ◌&&◌, ◌||◌, not, Bool-cases, inl, inr, leb, if◌then◌else◌,
  arith,
}
use esp_wifi_config.Event.{Event}
use esp_wifi_config.Provisioning.{
  WifiMode, HttpMode, http_full, http_api_only, http_disabled, Settings, Device, has_ap, start_ap,
  stop_ap, ap_reassert, ap_down, session_down, stop_provisioning, ap_stopped, stop_http,
  is_disabled, drops_ui, tears_down, reconnect_constraint, lets_go,
}

-- What is left of a flag that needs the server, when the server may be stopped.
api-left :
    (dis owned httpd rc lg flag : Bool)
    → (flag ≡ true → httpd ≡ true)
    → (not (dis && httpd) && flag) ≡ true
    → (httpd && not (dis && owned && httpd && not rc && lg)) ≡ true
api-left dis owned httpd rc lg flag served h = ground arith

ui-left :
    (ui dis owned httpd rc lg flag : Bool)
    → (dis ≡ true → ui ≡ true)
    → (flag ≡ true → httpd ≡ true)
    → (not (ui && httpd) && flag) ≡ true
    → (httpd && not (dis && owned && httpd && not rc && lg)) ≡ true
ui-left ui dis owned httpd rc lg flag drops served h = ground arith

owned-left :
    (owned httpd torn : Bool)
    → (owned ≡ true → httpd ≡ true)
    → (owned && not torn) ≡ true
    → (httpd && not torn) ≡ true
owned-left owned httpd torn served h = ground arith

stopped-left :
    (built active : Bool) → (active ≡ true → built ≡ true) → (not built && active) ≡ false
stopped-left built active runs = ground arith

module _ (cfg : Settings) where
  -- Routes are registered with a server that is there, and so is a server that is owned; Improv runs
  -- on the transports of the build, and neither BLE nor Improv runs without a session.
  pub record IsConsistent (d : Device) : Type 0 where
    pub api_routes : d.http_handlers_registered ≡ true → d.httpd ≡ true
    pub ui_routes : d.provisioning_handlers_registered ≡ true → d.httpd ≡ true
    pub owned : d.httpd_owned ≡ true → d.httpd ≡ true
    pub serial_built : d.improv_serial_active ≡ true → cfg.improv_serial ≡ true
    pub ble_built : d.improv_ble_active ≡ true → cfg.improv_ble ≡ true
    pub session :
        (d.ble_active || d.improv_serial_active || d.improv_ble_active) ≡ true
        → d.provisioning_active ≡ true

  drops_disabled : (mode : HttpMode) → is_disabled cfg mode ≡ true → drops_ui cfg mode ≡ true
  drops_disabled http_full h = absurd (ground arith)
  drops_disabled http_api_only h = refl
  drops_disabled http_disabled h = refl

  session_down-IsConsistent : (d : Device) → IsConsistent d → IsConsistent (session_down cfg d)
  session_down-IsConsistent d ok =
      let torn = tears_down cfg d in
      record {
        api_routes =
            api-left (is_disabled cfg cfg.http_post_prov_mode) d.httpd_owned d.httpd
              (reconnect_constraint cfg) (lets_go cfg cfg.provisioning_mode)
              d.http_handlers_registered ok.api_routes;
        ui_routes =
            ui-left (drops_ui cfg cfg.http_post_prov_mode) (is_disabled cfg cfg.http_post_prov_mode)
              d.httpd_owned d.httpd (reconnect_constraint cfg) (lets_go cfg cfg.provisioning_mode)
              d.provisioning_handlers_registered (drops_disabled cfg.http_post_prov_mode)
              ok.ui_routes;
        owned = owned-left d.httpd_owned d.httpd torn ok.owned;
        serial_built = λ h.
            absurd (
              ground
                (arith, stopped-left cfg.improv_serial d.improv_serial_active ok.serial_built));
        ble_built = λ h.
            absurd (ground (arith, stopped-left cfg.improv_ble d.improv_ble_active ok.ble_built));
        session = λ h. absurd (
            ground (
              arith,
              stopped-left cfg.improv_serial d.improv_serial_active ok.serial_built,
              stopped-left cfg.improv_ble d.improv_ble_active ok.ble_built,
            ));
      }

  -- The access point, the driver's mode and the events have no part in it.
  pub ap_changed-IsConsistent :
      (d : Device) (m : WifiMode) (a : Bool) (n : ℕ) (es : List Event)
      → IsConsistent d
      → IsConsistent (record d { mode = m; ap_active = a; ap_reassert_count = n; posted = es })
  ap_changed-IsConsistent d m a n es ok = record {
    api_routes = ok.api_routes;
    ui_routes = ok.ui_routes;
    owned = ok.owned;
    serial_built = ok.serial_built;
    ble_built = ok.ble_built;
    session = ok.session;
  }

  IsConsistent-if :
      (t : Bool) (a b : Device)
      → IsConsistent a
      → IsConsistent b
      → IsConsistent (if t then a else b)
  IsConsistent-if true a b p q = p
  IsConsistent-if false a b p q = q

  ap_reassert-IsConsistent : (d : Device) → IsConsistent d → IsConsistent (ap_reassert cfg d).1
  unfolding ap_reassert start_ap
  ap_reassert-IsConsistent d ok =
      elim (Bool-cases (not cfg.enable_ap || not d.provisioning_active)) [
        | inl idle ↦ rw (idle, ap_reassert) ok
        | inr wanted ↦ elim (Bool-cases (not d.mode_read || has_ap d.mode)) [
          | inl up ↦ rw (wanted, ap_reassert) (rw up ok)
          | inr gone ↦ elim (Bool-cases (leb 3 d.ap_reassert_count)) [
            | inl spent ↦ rw (wanted, ap_reassert) (rw gone (rw spent ok))
            | inr left ↦
                rw (wanted, ap_reassert) (rw gone (rw left (ap_changed-IsConsistent d _ _ _ _ ok)))
          ]
        ]
      ]

  pub ap_stopped-IsConsistent : (d : Device) → IsConsistent d → IsConsistent (ap_stopped cfg d)
  unfolding ap_stopped
  ap_stopped-IsConsistent d ok =
      let ok1 = ap_changed-IsConsistent d d.mode false d.ap_reassert_count d.posted ok in
      IsConsistent-if d.ap_active _ _
        (ap_reassert-IsConsistent (record d { ap_active = false }) ok1) ok1

  pub stop_provisioning-IsConsistent :
      (d : Device) → IsConsistent d → IsConsistent (stop_provisioning cfg d)
  unfolding stop_provisioning stop_ap
  stop_provisioning-IsConsistent d ok =
      IsConsistent-if d.provisioning_active _ d
        (session_down-IsConsistent (ap_down cfg d)
          (IsConsistent-if d.ap_active (stop_ap d) d (ap_changed-IsConsistent d _ _ _ _ ok) ok))
        ok

  pub stop_http-IsConsistent : (d : Device) → IsConsistent d → IsConsistent (stop_http cfg d).1
  unfolding stop_http
  stop_http-IsConsistent d ok =
      elim (Bool-cases
        (not d.httpd || d.provisioning_active || reconnect_constraint cfg || not d.httpd_owned)) [
          | inl refused ↦ rw (refused, stop_http) ok
          | inr stopped ↦
              rw (stopped, stop_http)
                (record {
                  api_routes = λ h. absurd (ground arith);
                  ui_routes = λ h. absurd (ground arith);
                  owned = λ h. absurd (ground arith);
                  serial_built = ok.serial_built;
                  ble_built = ok.ble_built;
                  session = ok.session;
                })
        ]
