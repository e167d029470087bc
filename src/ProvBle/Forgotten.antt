-- ===== src/ProvBle/Forgotten.antt =====
-- Credentials that failed are forgotten.
use mathlib.Core.Path.{subst}
use esp_wifi_config.Common.{
  ℕ, ◌≡◌, refl, sym, List, [], ◌∷◌, none, Bool, true, false, ◌==◌, arith, All, Bool-cases, inl, inr,
}
use esp_wifi_config.Network.Types.{Network}
use esp_wifi_config.Nvs.Driver.{NvsDriver}
use esp_wifi_config.ProvBle.Runs.{run-over, run-on, run-heard}
use esp_wifi_config.ProvBle.{
  ProvConfig, Prov, StartRun, Happening, received, failed, succeeded, handle_restart, begun, ended,
  deinited, disconnected, init, start, stop, deinit, backstop, restart_message,
  persist_pending_network, restore_coex, queue_pending_restart, prov_init, prov_start, prov_stop,
  prov_deinit, on_protocomm_ble_disconnect, cred_recv, cred_fail, cred_success, session_started,
  session_ended, happens, run,
}

module _ (cfg : ProvConfig) (drv : NvsDriver Network) where
  open drv use {Flash}

  abbrev pub is_received : Happening cfg drv → Bool
  is_received (received ssid password) = true
  is_received _ = false

  -- No candidate, and the saved networks, on flash as well, are as given.
  pub record Settled (ns : List Network) (fl : Flash) (s : Prov Flash) : Type 0 where
    pub nothing : s.pending_network ≡ none
    pub same_networks : s.store.networks ≡ ns
    pub same_flash : s.store.flash ≡ fl

  -- What a start leaves as it was.
  pub record SameStore (s s' : Prov Flash) : Type 0 where
    pub same_pending : s'.pending_network ≡ s.pending_network
    pub same_store : s'.store ≡ s.store

  pub prov_start-SameStore : (go : StartRun) (s : Prov Flash) → SameStore s (prov_start go s).1
  unfolding prov_start restore_coex
  prov_start-SameStore go s = ground arith

  prov_start-Settled :
      {ns : List Network} {fl : Flash} (go : StartRun) (s : Prov Flash)
      → Settled ns fl s
      → Settled ns fl (prov_start go s).1
  prov_start-Settled go s q = let p = prov_start-SameStore go s in ground arith

  handle_restart-Settled :
      {ns : List Network} {fl : Flash} (go : StartRun) (s : Prov Flash)
      → Settled ns fl s
      → Settled ns fl (handle_restart cfg drv go s)
  handle_restart-Settled go s q = elim (Bool-cases (s.restart_messages == 0)) [
    | inl nothing_sent ↦ rw nothing_sent q
    | inr sent ↦ rw sent (prov_start-Settled go _ (ground arith))
  ]

  happens-Settled :
      {ns : List Network} {fl : Flash} (e : Happening cfg drv) (s : Prov Flash)
      → is_received e ≡ false
      → Settled ns fl s
      → Settled ns fl (happens cfg drv e s)
  unfolding happens cred_recv cred_fail cred_success persist_pending_network session_started
      session_ended restore_coex queue_pending_restart on_protocomm_ble_disconnect prov_init
      prov_stop prov_deinit
  happens-Settled (received ssid password) s h q = absurd (cc)
  happens-Settled (failed reason) s h q = ground arith
  happens-Settled succeeded s h q = ground arith
  happens-Settled begun s h q = ground arith
  happens-Settled ended s h q = ground arith
  happens-Settled deinited s h q = ground arith
  happens-Settled disconnected s h q = ground arith
  happens-Settled (init registered created) s h q = ground arith
  happens-Settled (start go) s h q = prov_start-Settled go s q
  happens-Settled stop s h q = ground arith
  happens-Settled deinit s h q = ground arith
  happens-Settled backstop s h q = ground arith
  happens-Settled (restart_message go) s h q = handle_restart-Settled go s q

  pub run-Settled :
      {ns : List Network} {fl : Flash} (es : List (Happening cfg drv)) (s : Prov Flash)
      → All (λ e. is_received e ≡ false) es
      → Settled ns fl s
      → Settled ns fl (run cfg drv es s)
  unfolding run
  run-Settled [] s h q = q
  run-Settled {ns} {fl} (e ∷ es) s h q = elim (Bool-cases s.restarted) [
    | inl over ↦ subst (Settled ns fl) (sym (run-over cfg drv e es s over)) q
    | inr on ↦
        subst (Settled ns fl) (sym (run-on cfg drv e es s on))
          (run-Settled es (happens cfg drv e s) h.1 (happens-Settled e s h.0 q))
  ]

  cred_fail-Settled :
      (reason : ℕ) (s : Prov Flash)
      → Settled s.store.networks s.store.flash (cred_fail cfg drv reason s)
  unfolding cred_fail
  cred_fail-Settled reason s = ground arith

  -- Credentials that turn out wrong are never saved: behind a failure that is heard, whatever happens
  -- until new ones come (disconnects, successes, restarts of the session, a teardown) leaves the
  -- saved networks as they were, in memory and on flash.
  pub run-failed_forgotten :
      (reason : ℕ) (es : List (Happening cfg drv)) (s : Prov Flash)
      → s.event_handler_registered ≡ true
      → All (λ e. is_received e ≡ false) es
      → let s' = run cfg drv (failed reason ∷ es) s in
        (s'.store.networks ≡ s.store.networks) × (s'.store.flash ≡ s.store.flash)
  unfolding happens
  run-failed_forgotten reason es s hears h = elim (Bool-cases s.restarted) [
    | inl over ↦ rw (run-over cfg drv (failed reason) es s over) (refl, refl)
    | inr on ↦
        let q = run-Settled es (cred_fail cfg drv reason s) h (cred_fail-Settled reason s) in
        rw (run-heard cfg drv (failed reason) es s (cred_fail cfg drv reason s) on hears refl)
          (q.same_networks, q.same_flash)
  ]
