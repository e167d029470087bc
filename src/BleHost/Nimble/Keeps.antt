-- ===== src/BleHost/Nimble/Keeps.antt =====
-- What the operations of the NimBLE backend keep: a predicate that the calls, the advertising and
-- the fields' updates keep is kept by every callback and by the lifecycle.
use esp_wifi_config.Common.{
  ℕ, ◌≡◌, refl, All, List, [], ◌∷◌, Option, none, some, Bool, true, false, not, ◌||◌, zero, suc,
  ◌==◌, if◌then◌else◌,
}
use esp_wifi_config.Common.Bytes.{Bytes}
use esp_wifi_config.Improv.Core.{ImprovState}
use esp_wifi_config.BleHost.{HostErr, host_ok, copy_name}
use esp_wifi_config.BleHost.Nimble.{
  Call, adv_set_data, adv_rsp_set_data, adv_start, adv_stop, update_params, terminate, conn_find,
  delete_peer, inject_io, improv_on_connect, improv_on_disconnect, ensure_addr, store_clear,
  write_data_len, gatts_reset, port_init, hs_config, set_preferred_mtu, svc_gap_init,
  device_name_set, gatts_count_cfg, gatts_add_svcs, gatts_start, host_task, port_stop, port_deinit,
  Host, GapEvent, connect, disconnect, adv_complete, enc_change, repeat_pairing, passkey_action,
  other_event, issue, start_advertising, if_desired, gap_event_handler, ble_on_sync, require,
  launch, register_services, backend_init, gap_events, handle_open, wait_closed, close_link,
  backend_stop, stop_stack, backend_deinit, backend_start, Happening, is_start, init, start, stop,
  deinit, sync, reset, gap, improv, happens, run,
}

abbrev pub is_adv_start : Call → Bool
is_adv_start adv_start = true
is_adv_start _ = false

-- The advertising data and the scan response that a call hands to the stack.
abbrev pub adv_payload : Call → Option Bytes
adv_payload (adv_set_data bs) = some bs
adv_payload _ = none

abbrev pub rsp_payload : Call → Option Bytes
rsp_payload (adv_rsp_set_data bs) = some bs
rsp_payload _ = none

abbrev pub is_given : Option Bytes → Bool
is_given none = false
is_given (some bs) = true

-- The calls that put an advertisement on the air.
abbrev pub is_advert : Call → Bool
is_advert c = is_adv_start c || (is_given (adv_payload c) || is_given (rsp_payload c))

pub pick : {A : Type 0} (P : A → Type 0) (b : Bool) (x y : A) → P x → P y → P (if b then x else y)
pick P true x y p q = p
pick P false x y p q = q

pub pick_no :
    {A : Type 0} (P : A → Type 0) (b : Bool) (x y : A) → b ≡ false → P y → P (if b then x else y)
pick_no P true x y h q = absurd (cc)
pick_no P false x y h q = q

pub pick_yes :
    {A : Type 0} (P : A → Type 0) (b : Bool) (x y : A) → b ≡ true → P x → P (if b then x else y)
pick_yes P true x y h p = p
pick_yes P false x y h p = absurd (cc)

module _ (answer : Call → List Call → ℕ) (P : Host → Type 0) where
  -- Kept by what the stack's callbacks do.
  pub record Keeps : Type 0 where
    pub issues : (c : Call) (s : Host) → is_advert c ≡ false → P s → P (issue c s)
    pub advertises : (s : Host) → P s → P (start_advertising answer s)
    pub links : (h : Option ℕ) (s : Host) → P s → P (record s { conn_handle = h })
    pub syncs : (s : Host) → P s → P (record s { synced = true })
    pub reports :
        (st : ImprovState) (caps : ℕ) (s : Host)
        → P s
        → P (record s { improv_state = st; capabilities = caps })

  -- Kept by the initialisation, a stop and a teardown as well.
  pub record KeepsCycle : Type 0 where
    pub keeps : Keeps
    pub names :
        (name : Bytes) (owned : Bool) (s : Host)
        → P s
        → P (record s { device_name = name; stack_owned = owned })
    pub stops : (s : Host) → P s → P (record s { advertising_desired = false })
    pub ends :
        (s : Host) → P s → P (record s { conn_handle = none; stack_owned = false; synced = false })

  module _ (k : Keeps) where
    if_desired-keeps : (s : Host) → P s → P (if_desired answer s)
    if_desired-keeps s p =
        pick P s.advertising_desired (start_advertising answer s) s (k.advertises s p) p

    pub gap_event_handler-keeps : (e : GapEvent) (s : Host) → P s → P (gap_event_handler answer e s)
    unfolding gap_event_handler
    gap_event_handler-keeps (connect status handle) s p =
        pick P (status == 0) _ _
          (k.issues (improv_on_connect handle) _ refl
            (k.issues (update_params handle) _ refl (k.links (some handle) s p)))
          (k.advertises s p)
    gap_event_handler-keeps disconnect s p =
        if_desired-keeps _ (k.issues improv_on_disconnect _ refl (k.links none s p))
    gap_event_handler-keeps adv_complete s p = if_desired-keeps s p
    gap_event_handler-keeps (enc_change status handle) s p =
        let found = k.issues (conn_find handle) s refl p in
        pick P (status == 0) _ _ p (
          pick P (answer (conn_find handle) s.calls == 0) _ _
            (k.issues (delete_peer handle) _ refl found) found)
    gap_event_handler-keeps (repeat_pairing handle) s p =
        k.issues (delete_peer handle) _ refl (k.issues (conn_find handle) s refl p)
    gap_event_handler-keeps (passkey_action no_input handle) s p =
        pick P no_input _ _ (k.issues (inject_io handle) s refl p) p
    gap_event_handler-keeps other_event s p = p

    pub ble_on_sync-keeps : (s : Host) → P s → P (ble_on_sync answer s)
    unfolding ble_on_sync
    ble_on_sync-keeps s p =
        let addressed = k.issues ensure_addr s refl p in
        pick P (answer ensure_addr s.calls == 0) _ _
          (k.advertises _
            (k.syncs _ (k.issues write_data_len _ refl (k.issues store_clear _ refl addressed))))
          addressed

    pub gap_events-keeps : (es : List GapEvent) (s : Host) → P s → P (gap_events answer es s)
    unfolding gap_events
    gap_events-keeps [] s p = p
    gap_events-keeps (e ∷ es) s p = gap_events-keeps es _ (gap_event_handler-keeps e s p)

    wait_closed-keeps :
        (n : ℕ) (ess : List (List GapEvent)) (s : Host) → P s → P (wait_closed answer n ess s)
    unfolding wait_closed
    wait_closed-keeps zero ess s p = p
    wait_closed-keeps (suc n) [] s p = p
    wait_closed-keeps (suc n) (es ∷ ess) s p =
        pick P (handle_open s.conn_handle) _ _ (wait_closed-keeps n ess _ (gap_events-keeps es s p))
          p

    close_link-keeps : (ess : List (List GapEvent)) (s : Host) → P s → P (close_link answer ess s)
    close_link-keeps ess s p = elim (s.conn_handle) as (λ h. P (closed h)) [
      | none ↦ p
      | some handle ↦ wait_closed-keeps 50 ess _ (k.issues (terminate handle) s refl p)
    ]
      where
        closed : Option ℕ → Host
        closed h = elim h [
          | none ↦ s
          | some handle ↦ wait_closed answer 50 ess (issue (terminate handle) s)
        ]

  module _ (k : KeepsCycle) where
    kept : Keeps
    kept = k.keeps

    pub backend_stop-keeps :
        (ess : List (List GapEvent)) (s : Host) → P s → P (backend_stop answer ess s).1
    unfolding backend_stop
    backend_stop-keeps ess s p =
        kept.issues adv_stop _ refl (close_link-keeps kept ess _ (k.stops s p))

    stop_stack-keeps : (s : Host) → P s → P (stop_stack answer s)
    stop_stack-keeps s p =
        pick P s.stack_owned _ _ (kept.issues port_deinit _ refl (kept.issues port_stop s refl p)) p

    pub backend_deinit-keeps :
        (ess : List (List GapEvent)) (s : Host) → P s → P (backend_deinit answer ess s).1
    unfolding backend_deinit
    backend_deinit-keeps ess s p =
        let s1 = (backend_stop answer ess s).1 in
        k.ends _ (
          stop_stack-keeps _ (
            kept.issues gatts_start _ refl (
              kept.issues (device_name_set s1.device_name) _ refl (
                kept.issues svc_gap_init _ refl
                  (kept.issues gatts_reset _ refl (backend_stop-keeps ess s p))))))

    require-keeps :
        (c : Call) (next : Host → HostErr × Host)
        → is_advert c ≡ false
        → ((s : Host) → P s → P (next s).1)
        → (s : Host) → P s
        → P (require answer c next s).1
    require-keeps c next plain goes_on s p =
        pick (λ (r : HostErr × Host). P r.1) (answer c s.calls == 0) _ _
          (goes_on _ (kept.issues c s plain p)) (kept.issues c s plain p)

    launch-keeps : (s : Host) → P s → P (launch answer s).1
    launch-keeps s p =
        pick (λ (r : HostErr × Host). P r.1) s.stack_owned _ _ (kept.issues host_task s refl p)
          (require-keeps gatts_start (λ s'. (host_ok, record s' { synced = true })) refl
            (λ s' q. kept.syncs s' q) s p)

    register_services-keeps : (s : Host) → P s → P (register_services answer s).1
    register_services-keeps s p =
        require-keeps gatts_count_cfg (require answer gatts_add_svcs (launch answer)) refl
          (require-keeps gatts_add_svcs (launch answer) refl launch-keeps) _
          (kept.issues (device_name_set s.device_name) _ refl (
            kept.issues svc_gap_init _ refl
              (kept.issues set_preferred_mtu _ refl (kept.issues hs_config s refl p))))

    pub backend_init-keeps :
        (running : Bool) (name : Bytes) (s : Host) → P s → P (backend_init answer running name s).1
    unfolding backend_init
    backend_init-keeps running name s p =
        let named = k.names (copy_name name) (not running) s p in
        pick (λ (r : HostErr × Host). P r.1) running _ _
          (register_services-keeps _ (kept.issues gatts_reset _ refl named))
          (pick (λ (r : HostErr × Host). P r.1) (answer port_init s.calls == 0) _ _
            (register_services-keeps _ (kept.issues port_init _ refl named))
            (kept.issues port_init _ refl named))

    -- Kept by a start, where the happening is one.
    abbrev pub Starts : Happening → Type 0
    Starts e = is_start e ≡ true → (s : Host) → P s → P (record s { advertising_desired = true })

    pub happens-keeps : (e : Happening) → Starts e → (s : Host) → P s → P (happens answer e s)
    unfolding happens backend_start
    happens-keeps (init running name) st s p = backend_init-keeps running name s p
    happens-keeps start st s p = kept.advertises _ (st refl s p)
    happens-keeps (stop ess) st s p = backend_stop-keeps ess s p
    happens-keeps (deinit ess) st s p = backend_deinit-keeps ess s p
    happens-keeps sync st s p = ble_on_sync-keeps kept s p
    happens-keeps reset st s p = p
    happens-keeps (gap e) st s p = gap_event_handler-keeps kept e s p
    happens-keeps (improv im caps) st s p = kept.reports im caps s p

    pub run-keeps : (es : List Happening) → All Starts es → (s : Host) → P s → P (run answer es s)
    unfolding run
    run-keeps [] st s p = p
    run-keeps (e ∷ es) st s p = run-keeps es st.1 _ (happens-keeps e st.0 s p)
