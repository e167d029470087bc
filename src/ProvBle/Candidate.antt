-- ===== src/ProvBle/Candidate.antt =====
-- Credentials that are confirmed are saved.
use mathlib.Core.Path.{subst}
use esp_wifi_config.Common.{
  ℕ, ◌≡◌, ◌∙◌, List, [], ◌∷◌, ◌++◌, refl, sym, true, false, arith, All, inl, inr,
}
use esp_wifi_config.Common.Bytes.{Bytes}
use esp_wifi_config.Network.Types.{Network}
use esp_wifi_config.Nvs.Driver.{NvsDriver}
use esp_wifi_config.Network.Store.{Store}
use esp_wifi_config.Network.Store.Map.{view}
use esp_wifi_config.Network.Store.Upsert.{upserted}
use esp_wifi_config.ProvBle.Runs.{run-on, heard-on, run-heard}
use esp_wifi_config.ProvBle.{
  ProvConfig, Prov, Happening, received, failed, succeeded, begun, ended, backstop, session_started,
  session_ended, heard, queue_pending_restart, deinited, disconnected, init, start, stop, deinit,
  restart_message, candidate, persist_pending_network, restore_coex, on_protocomm_ble_disconnect,
  cred_recv, cred_fail, cred_success, happens, run,
}
use esp_wifi_config.ProvBle.Forgotten.{is_received, Settled, run-Settled}
use esp_wifi_config.ProvBle.Waiting.{
  is_quiet, is_neutral, is_bound, Awaiting, Persisted, Waits, either, happens-Awaiting,
  view-networks, cred_success-view, success-Persisted, disconnected-cases,
}

module _ (cfg : ProvConfig) (drv : NvsDriver Network) where
  open drv use {Flash}

  -- What follows without new credentials leaves them saved.
  run-Persisted :
      (n : Network) (es : List (Happening cfg drv)) (s : Prov Flash) (t : Store Flash)
      → All (λ e. is_received cfg drv e ≡ false) es
      → Persisted cfg drv n t s
      → view (run cfg drv es s).store ≡ (upserted n (view t)).1
  run-Persisted n es s t h q =
      let settled : Settled cfg drv s.store.networks s.store.flash s = record {
        nothing = q.decided;
        same_networks = refl;
        same_flash = refl;
      } in
      view-networks cfg drv (run cfg drv es s).store s.store
        (run-Settled cfg drv es s h settled).same_networks
      ∙ q.upserts

  neutral_old :
      (e : Happening cfg drv) → is_neutral cfg drv e ≡ true → is_received cfg drv e ≡ false
  neutral_old (received ssid password) h = absurd (cc)
  neutral_old (failed reason) h = refl
  neutral_old succeeded h = refl
  neutral_old begun h = refl
  neutral_old ended h = refl
  neutral_old deinited h = refl
  neutral_old disconnected h = refl
  neutral_old (init registered created) h = refl
  neutral_old (start go) h = refl
  neutral_old stop h = refl
  neutral_old deinit h = refl
  neutral_old backstop h = refl
  neutral_old (restart_message go) h = refl

  All-old :
      (es : List (Happening cfg drv))
      → All (λ e. is_neutral cfg drv e ≡ true) es
      → All (λ e. is_received cfg drv e ≡ false) (es ++ succeeded ∷ [])
  All-old [] h = (refl, tt)
  All-old (e ∷ es) h = (neutral_old e h.0, All-old es h.1)

  succeeded-Waits :
      (n : Network) (s : Prov Flash) (t : Store Flash)
      → Awaiting cfg drv n t s
      → Waits cfg drv n t (happens cfg drv succeeded s)
  unfolding happens
  succeeded-Waits n s t q =
      either cfg drv n t s.event_handler_registered (cred_success cfg drv s) s
        (inr (success-Persisted cfg drv n s t q)) (inl q)

  neutral_step :
      (n : Network) (e : Happening cfg drv) (s : Prov Flash) (t : Store Flash)
      → is_neutral cfg drv e ≡ true
      → Awaiting cfg drv n t s
      → Waits cfg drv n t (happens cfg drv e s)
  neutral_step n succeeded s t h q = succeeded-Waits n s t q
  neutral_step n disconnected s t h q = disconnected-cases cfg drv n s t q
  neutral_step n deinited s t h q = inl (happens-Awaiting cfg drv deinited s refl q)
  neutral_step n (init registered created) s t h q =
      inl (happens-Awaiting cfg drv (init registered created) s refl q)
  neutral_step n (start go) s t h q = inl (happens-Awaiting cfg drv (start go) s refl q)
  neutral_step n stop s t h q = inl (happens-Awaiting cfg drv stop s refl q)
  neutral_step n (restart_message go) s t h q =
      inl (happens-Awaiting cfg drv (restart_message go) s refl q)
  neutral_step n _ s t h q = absurd (cc)

  run_to_success :
      (n : Network) (es : List (Happening cfg drv)) (s : Prov Flash) (t : Store Flash)
      → All (λ e. is_neutral cfg drv e ≡ true) es
      → Awaiting cfg drv n t s
      → view (run cfg drv (es ++ succeeded ∷ []) s).store ≡ (upserted n (view t)).1
  unfolding run happens
  run_to_success n [] s t h q =
      rw (run-heard cfg drv succeeded [] s (cred_success cfg drv s) q.running q.hears refl)
        (cred_success-view cfg drv n s t q)
  run_to_success n (e ∷ es) s t h q =
      rw (run-on cfg drv e (es ++ succeeded ∷ []) s q.running) (elim (neutral_step n e s t h.0 q) [
        | inl still ↦ run_to_success n es (happens cfg drv e s) t h.1 still
        | inr saved ↦ run-Persisted n (es ++ succeeded ∷ []) _ t (All-old es h.1) saved
      ])

  cred_recv-Awaiting :
      (ssid password : Bytes) (s : Prov Flash)
      → s.restarted ≡ false
      → s.event_handler_registered ≡ true
      → Awaiting cfg drv
          (candidate cfg drv ssid password)
          s.store
          (cred_recv cfg drv ssid password s)
  unfolding cred_recv
  cred_recv-Awaiting ssid password s on hears = ground arith

  pick_heard :
      (n : Network) (s : Prov Flash) (t : Store Flash) (after : Prov Flash)
      → Awaiting cfg drv n t s
      → Settled cfg drv t.networks t.flash after
      → Settled cfg drv t.networks t.flash (heard cfg drv after s)
  pick_heard n s t after q settled =
      subst (Settled cfg drv t.networks t.flash) (sym (heard-on cfg drv after s q.hears)) settled

  ended-Settled :
      (n : Network) (s : Prov Flash) (t : Store Flash)
      → Awaiting cfg drv n t s
      → Settled cfg drv t.networks t.flash (session_ended cfg drv s)
  unfolding session_ended restore_coex queue_pending_restart
  ended-Settled n s t q = ground arith

  bound-Settled :
      (n : Network) (e : Happening cfg drv) (s : Prov Flash) (t : Store Flash)
      → is_bound cfg drv e ≡ true
      → Awaiting cfg drv n t s
      → Settled cfg drv t.networks t.flash (happens cfg drv e s)
  unfolding happens session_started
  bound-Settled n begun s t h q =
      pick_heard n s t (session_started cfg drv s) q
        (record { nothing = refl; same_networks = q.kept_networks; same_flash = q.kept_flash })
  bound-Settled n ended s t h q =
      pick_heard n s t (session_ended cfg drv s) q (ended-Settled n s t q)
  bound-Settled n _ s t h q = absurd (cc)

  run_discarded :
      (n : Network) (e : Happening cfg drv) (es fs : List (Happening cfg drv)) (s : Prov Flash)
      (t : Store Flash)
      → All (λ e. is_quiet cfg drv e ≡ true) es
      → is_bound cfg drv e ≡ true
      → All (λ e. is_received cfg drv e ≡ false) fs
      → Awaiting cfg drv n t s
      → let s' = run cfg drv (es ++ e ∷ fs) s in
        (s'.store.networks ≡ t.networks) × (s'.store.flash ≡ t.flash)
  run_discarded n e [] fs s t h bound old q =
      let settled = bound-Settled n e s t bound q in
      let r = run-Settled cfg drv fs (happens cfg drv e s) old settled in
      rw (run-on cfg drv e fs s q.running) (r.same_networks, r.same_flash)
  run_discarded n e (d ∷ es) fs s t h bound old q =
      rw (run-on cfg drv d (es ++ e ∷ fs) s q.running) (
        run_discarded n e es fs (happens cfg drv d s) t h.1 bound old
          (happens-Awaiting cfg drv d s h.0 q))

  -- On a device that has not restarted and hears the manager's events, credentials that the manager
  -- confirms are saved: their network is added with priority 10, or replaces the one of its name,
  -- exactly as an upsert on the map of saved networks does. In between the client may leave, upon
  -- which the device may restart with them saved unconfirmed, and the application may call for a start
  -- or a stop; but the manager tells of no begin and no end of a session, of no failure and of no
  -- other credentials, and the session is not torn down.
  pub run-confirmed_saved :
      (ssid password : Bytes) (es : List (Happening cfg drv)) (s : Prov Flash)
      → s.restarted ≡ false
      → s.event_handler_registered ≡ true
      → All (λ e. is_neutral cfg drv e ≡ true) es
      → view (run cfg drv (received ssid password ∷ (es ++ succeeded ∷ [])) s).store
        ≡ (upserted (candidate cfg drv ssid password) (view s.store)).1
  unfolding happens
  run-confirmed_saved ssid password es s on hears h =
      rw
        (run-heard cfg drv (received ssid password) (es ++ succeeded ∷ []) s
          (cred_recv cfg drv ssid password s) on hears refl)
        (run_to_success (candidate cfg drv ssid password) es (cred_recv cfg drv ssid password s)
          s.store h (cred_recv-Awaiting ssid password s on hears))

  -- On a device that has not restarted and hears the manager's events, the begin or the end of a
  -- session that comes before the confirmation discards the credentials: whatever follows without
  -- new ones, a confirmation included, leaves the saved networks as they were, in memory and on
  -- flash. Between the credentials and that begin or end there are calls of the application that
  -- start, stop or initialise, the queued restart and the manager's own teardown, and nothing else.
  pub run-unconfirmed_discarded :
      (ssid password : Bytes) (es fs : List (Happening cfg drv)) (e : Happening cfg drv)
      (s : Prov Flash)
      → s.restarted ≡ false
      → s.event_handler_registered ≡ true
      → All (λ d. is_quiet cfg drv d ≡ true) es
      → is_bound cfg drv e ≡ true
      → All (λ d. is_received cfg drv d ≡ false) fs
      → let s' = run cfg drv (received ssid password ∷ (es ++ e ∷ fs)) s in
        (s'.store.networks ≡ s.store.networks) × (s'.store.flash ≡ s.store.flash)
  unfolding happens
  run-unconfirmed_discarded ssid password es fs e s on hears h bound old =
      rw
        (run-heard cfg drv (received ssid password) (es ++ e ∷ fs) s
          (cred_recv cfg drv ssid password s) on hears refl)
        (run_discarded (candidate cfg drv ssid password) e es fs (cred_recv cfg drv ssid password s)
          s.store h bound old (cred_recv-Awaiting ssid password s on hears))

  -- A client that leaves after its credentials failed is taken for one that is done: on a device that
  -- hears the manager's events, with a session that is active and the reboot on success in force, the
  -- device restarts, though nothing was saved.
  pub run-failed_reboots :
      (ssid password : Bytes) (reason : ℕ) (s : Prov Flash)
      → s.restarted ≡ false
      → s.event_handler_registered ≡ true
      → s.active ≡ true
      → s.disconnect_handler_registered ≡ true
      → cfg.disable_reboot_on_provisioning_success ≡ false
      → let s' = run cfg drv (received ssid password ∷ failed reason ∷ disconnected ∷ []) s in
        (s'.restarted ≡ true) × (s'.store.networks ≡ s.store.networks)
  unfolding run happens cred_recv cred_fail on_protocomm_ble_disconnect persist_pending_network
  run-failed_reboots ssid password reason s on hears active registered reboots = ground arith
