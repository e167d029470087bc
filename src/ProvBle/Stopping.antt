-- ===== src/ProvBle/Stopping.antt =====
-- What a stop of the session rules out, and what slips past it.
use mathlib.Core.Path.{subst}
use esp_wifi_config.Common.{
  ◌≡◌, refl, sym, List, [], ◌∷◌, Bool, true, false, ◌||◌, ◌==◌, arith, All, Bool-cases, inl, inr,
}
use esp_wifi_config.Network.Types.{Network, esp_ok}
use esp_wifi_config.Nvs.Driver.{NvsDriver}
use esp_wifi_config.ProvBle.Runs.{run-over, run-on, run-heard}
use esp_wifi_config.ProvBle.{
  ProvConfig, Prov, StartRun, Happening, received, failed, succeeded, begun, ended, deinited,
  disconnected, init, start, stop, deinit, backstop, restart_message, persist_pending_network,
  restore_coex, queue_pending_restart, prov_init, prov_start, prov_stop,
  on_protocomm_ble_disconnect, cred_recv, cred_fail, cred_success, session_started, session_ended,
  handle_restart, happens, run,
}

module _ (cfg : ProvConfig) (drv : NvsDriver Network) where
  open drv use {Flash}

  -- The application's own calls that begin or tear down.
  abbrev pub is_restarting : Happening cfg drv → Bool
  is_restarting (start go) = true
  is_restarting deinit = true
  is_restarting _ = false

  -- A stop is in force, and no restart is queued or on its way.
  record Stopped (s : Prov Flash) : Type 0 where
    pub stopping : s.explicit_stop ≡ true
    pub none_queued : s.restart_pending ≡ false
    pub none_sent : s.restart_messages ≡ 0

  happens-Stopped :
      (e : Happening cfg drv) (s : Prov Flash)
      → is_restarting e ≡ false
      → Stopped s
      → Stopped (happens cfg drv e s)
  unfolding happens cred_recv cred_fail cred_success persist_pending_network session_started
      session_ended restore_coex queue_pending_restart on_protocomm_ble_disconnect prov_init
      prov_stop
  happens-Stopped (received ssid password) s h q = ground arith
  happens-Stopped (failed reason) s h q = ground arith
  happens-Stopped succeeded s h q = ground arith
  happens-Stopped begun s h q = ground arith
  happens-Stopped ended s h q = ground arith
  happens-Stopped deinited s h q = ground arith
  happens-Stopped disconnected s h q = ground arith
  happens-Stopped (init registered created) s h q = ground arith
  happens-Stopped (start go) s h q = absurd (cc)
  happens-Stopped stop s h q = ground arith
  happens-Stopped deinit s h q = absurd (cc)
  happens-Stopped backstop s h q = ground arith
  happens-Stopped (restart_message go) s h q = ground arith

  run-Stopped :
      (es : List (Happening cfg drv)) (s : Prov Flash)
      → All (λ e. is_restarting e ≡ false) es
      → Stopped s
      → Stopped (run cfg drv es s)
  unfolding run
  run-Stopped [] s h q = q
  run-Stopped (e ∷ es) s h q = elim (Bool-cases s.restarted) [
    | inl over ↦ subst Stopped (sym (run-over cfg drv e es s over)) q
    | inr on ↦
        subst Stopped (sym (run-on cfg drv e es s on))
          (run-Stopped es (happens cfg drv e s) h.1 (happens-Stopped e s h.0 q))
  ]

  prov_stop-Stopped :
      (s : Prov Flash)
      → (s.active || s.initialized) ≡ true
      → s.restart_messages ≡ 0
      → Stopped (prov_stop s)
  unfolding prov_stop
  prov_stop-Stopped s up none_sent = ground arith

  -- A stop of a session that is up, with no restart on its way to the manager task, cancels a queued
  -- restart, and whatever follows but a start or a teardown by the application sends none: the
  -- session is not started again behind the application's back.
  pub run-stop_final :
      (es : List (Happening cfg drv)) (s : Prov Flash)
      → s.restarted ≡ false
      → (s.active || s.initialized) ≡ true
      → s.restart_messages ≡ 0
      → All (λ e. is_restarting e ≡ false) es
      → let s' = run cfg drv (stop ∷ es) s in
        (s'.restart_messages ≡ 0) × (s'.restart_pending ≡ false)
  unfolding happens
  run-stop_final es s on up none_sent h =
      let q = run-Stopped es (prov_stop s) h (prov_stop-Stopped s up none_sent) in
      rw (run-on cfg drv stop es s on) (q.none_sent, q.none_queued)

  -- The session is down, and a message is on its way to start it again.
  record Down (s : Prov Flash) : Type 0 where
    pub inactive : s.active ≡ false
    pub uninitialized : s.initialized ≡ false
    pub sent : (s.restart_messages == 0) ≡ false
    pub running : s.restarted ≡ false

  session_ended-Down :
      (s : Prov Flash)
      → s.restarted ≡ false
      → s.restart_pending ≡ true
      → Down (session_ended cfg drv s)
  unfolding session_ended restore_coex queue_pending_restart
  session_ended-Down s on queued = ground arith

  prov_stop-Down : (s : Prov Flash) → Down s → Down (prov_stop s)
  unfolding prov_stop
  prov_stop-Down s q = ground arith

  prov_start_active :
      (go : StartRun) (s : Prov Flash)
      → go.init_result ≡ esp_ok
      → go.start_result ≡ esp_ok
      → (prov_start go s).1.active ≡ true
  unfolding prov_start restore_coex
  prov_start_active go s inits starts = ground arith

  handle_restart_active :
      (go : StartRun) (s : Prov Flash)
      → Down s
      → go.init_result ≡ esp_ok
      → go.start_result ≡ esp_ok
      → (handle_restart cfg drv go s).active ≡ true
  handle_restart_active go s q inits starts = rw (q.sent) (prov_start_active go _ inits starts)

  -- A stop between the end of a session (which is heard) and the message that restarts it is lost:
  -- the session is down at that moment, so the stop does nothing, and the message starts the session
  -- again.
  pub run-stop_lost :
      (go : StartRun) (s : Prov Flash)
      → s.restarted ≡ false
      → s.event_handler_registered ≡ true
      → s.restart_pending ≡ true
      → go.init_result ≡ esp_ok
      → go.start_result ≡ esp_ok
      → (run cfg drv (ended ∷ stop ∷ restart_message go ∷ []) s).active ≡ true
  unfolding run happens
  run-stop_lost go s on hears queued inits starts =
      let s1 = session_ended cfg drv s in
      let down = session_ended-Down s on queued in
      let stopped = prov_stop-Down s1 down in
      rw (run-heard cfg drv ended (stop ∷ restart_message go ∷ []) s s1 on hears refl) (
        rw (run-on cfg drv stop (restart_message go ∷ []) s1 down.running) (
          rw (run-on cfg drv (restart_message go) [] (prov_stop s1) stopped.running)
            (handle_restart_active go (prov_stop s1) stopped inits starts)))
