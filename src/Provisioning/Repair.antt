-- ===== src/Provisioning/Repair.antt =====
-- The access point while the platform's provisioning manager starts.
use esp_wifi_config.Common.{
  ◌≡◌, refl, ap, ◌∙◌, arith, Bool, true, false, ◌&&◌, not, Bool-cases, inl, inr, if◌then◌else◌,
}
use esp_wifi_config.Provisioning.{
  WifiMode, mode_apsta, manager_ble, Settings, Device, ble_starts, has_ap, start_ap, ap_reassert,
  start_ble, ap_for_provisioning, session_up, start_provisioning, ap_stopped,
}

active_already :
    (enabled active : Bool) → enabled ≡ true → (enabled && not active) ≡ false → active ≡ true
active_already enabled active h k = ground arith

not_begun : (b : Bool) (x y : Device) → b ≡ false → (if b then x else y) ≡ y
not_begun b x y h = rw h refl

module _ (cfg : Settings) where
  -- The access point is wanted, and no session is on.
  pub record Ready (d : Device) : Type 0 where
    pub wanted : cfg.enable_ap ≡ true
    pub manager : cfg.ble ≡ manager_ble
    pub no_session : d.provisioning_active ≡ false
    pub no_ble : d.ble_active ≡ false
    pub readable : d.mode_read ≡ true

  -- Out of a session there is nothing to put back.
  pub ap_reassert_idle : (d : Device) → d.provisioning_active ≡ false → (ap_reassert cfg d).1 ≡ d
  unfolding ap_reassert
  ap_reassert_idle d off = elim (Bool-cases cfg.enable_ap) [
    | inl on ↦ rw (on, ap_reassert) (rw off refl)
    | inr out ↦ rw (out, ap_reassert) refl
  ]

  abbrev forced : WifiMode → Device → Device
  forced m d = record d { mode = m; ble_active = true }

  -- The device as the session begins: the access point is marked active.
  record Marked (d : Device) : Type 0 where
    active : d.ap_active ≡ true
    outside : d.provisioning_active ≡ false
    without_ble : d.ble_active ≡ false
    unspent : d.ap_reassert_count ≡ 0
    reads : d.mode_read ≡ true

  Marked-if :
      (t : Bool) (d1 d2 : Device)
      → (t ≡ true → Marked d1)
      → (t ≡ false → Marked d2)
      → Marked (if t then d1 else d2)
  Marked-if true d1 d2 p q = p refl
  Marked-if false d1 d2 p q = q refl

  ap_for_provisioning-Marked : (d : Device) → Ready d → Marked (ap_for_provisioning cfg d)
  unfolding start_ap
  ap_for_provisioning-Marked d ready =
      Marked-if (cfg.enable_ap && not d.ap_active) _ _
        (λ down. record {
          active = refl;
          outside = ready.no_session;
          without_ble = ready.no_ble;
          unspent = refl;
          reads = ready.readable;
        })
        (λ up. record {
          active = active_already cfg.enable_ap d.ap_active ready.wanted up;
          outside = ready.no_session;
          without_ble = ready.no_ble;
          unspent = refl;
          reads = ready.readable;
        })

  start_ble-Marked :
      (m : WifiMode) (d : Device)
      → cfg.ble ≡ manager_ble
      → Marked d
      → start_ble cfg (ble_starts m) d ≡ forced m d
  unfolding start_ble
  start_ble-Marked m d manager marked =
      rw (marked.without_ble, start_ble) (rw manager (ap_reassert_idle (forced m d) marked.outside))

  ap_stopped_put_back :
      (d : Device)
      → cfg.enable_ap ≡ true
      → d.provisioning_active ≡ true
      → d.mode_read ≡ true
      → has_ap d.mode ≡ false
      → d.ap_active ≡ true
      → d.ap_reassert_count ≡ 0
      → ap_stopped cfg d ≡ start_ap (record d { ap_active = false; ap_reassert_count = 1 })
  unfolding ap_stopped ap_reassert start_ap
  ap_stopped_put_back d wanted on reads gone active unspent =
      rw (active, ap_stopped)
        (rw (wanted, ap_reassert) (rw on (rw reads (rw gone (rw unspent refl)))))

  start_provisioning-Ready :
      (m : WifiMode) (d : Device)
      → Ready d
      → start_provisioning cfg (ble_starts m) d
        ≡ session_up cfg (forced m (ap_for_provisioning cfg d))
  unfolding start_provisioning
  start_provisioning-Ready m d ready =
      not_begun d.provisioning_active d _ ready.no_session
      ∙ ap (session_up cfg) (
          start_ble-Marked m (ap_for_provisioning cfg d) ready.manager
            (ap_for_provisioning-Marked d ready))

  put_back_end :
      (d : Device)
      → let d2 = start_ap (record d { ap_active = false; ap_reassert_count = 1 }) in
        (d2.ap_active ≡ true) × (d2.mode ≡ mode_apsta) × (d2.ap_reassert_count ≡ 1)
  unfolding start_ap
  put_back_end d = (refl, refl, refl)

  -- When the platform's provisioning manager takes the driver to a mode without an access point,
  -- the session comes up without it, although it is wanted and marked active: the call that is to
  -- put it back at once does nothing. The driver's message that it stopped puts it back, as the
  -- first of the session's three restarts.
  pub start_provisioning-put_back :
      (m : WifiMode) (d : Device)
      → Ready d
      → has_ap m ≡ false
      → let d1 = start_provisioning cfg (ble_starts m) d in
        let d2 = ap_stopped cfg d1 in
        ((d1.provisioning_active ≡ true) × (d1.ap_active ≡ true) × (d1.mode ≡ m))
        × ((d2.ap_active ≡ true) × (d2.mode ≡ mode_apsta) × (d2.ap_reassert_count ≡ 1))
  start_provisioning-put_back m d ready gone =
      let d0 = ap_for_provisioning cfg d in
      let marked = ap_for_provisioning-Marked d ready in
      rw (start_provisioning-Ready m d ready) (
        rw
          (ap_stopped_put_back (session_up cfg (forced m d0)) ready.wanted refl marked.reads gone
            marked.active marked.unspent)
          ((refl, marked.active, refl), (put_back_end (session_up cfg (forced m d0)))))
