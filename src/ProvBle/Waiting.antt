-- ===== src/ProvBle/Waiting.antt =====
-- Credentials that wait for their confirmation.
use esp_wifi_config.Common.{
  ◌≡◌, ap, ◌∙◌, List, length, none, some, ◌⊎◌, not, ◌&&◌, if◌then◌else◌, Bool, true, false, ◌==◌,
  arith, Bool-cases, inl, inr,
}
use esp_wifi_config.Network.Types.{Network, EspErr}
use esp_wifi_config.Nvs.Driver.{NvsDriver}
use esp_wifi_config.Table.{find}
use esp_wifi_config.Network.Store.{Store, ssid_of}
use esp_wifi_config.Network.Store.Map.{Saved, view}
use esp_wifi_config.Network.Store.Upsert.{upsert, upserted, upsert-upserted}
use esp_wifi_config.ProvBle.{
  ProvConfig, Prov, StartRun, Happening, succeeded, begun, ended, reboot_on_success, is_ignored,
  restart_session, handle_restart, deinited, disconnected, init, start, stop, restart_message,
  persist_pending_network, restore_coex, prov_init, prov_start, prov_stop,
  on_protocomm_ble_disconnect, cred_success, happens,
}
use esp_wifi_config.ProvBle.Forgotten.{prov_start-SameStore}

module _ (cfg : ProvConfig) (drv : NvsDriver Network) where
  open drv use {Flash}

  -- Calls that leave the candidate alone, until the manager tells of what they lead to.
  abbrev pub is_quiet : Happening cfg drv → Bool
  is_quiet deinited = true
  is_quiet (init registered created) = true
  is_quiet (start go) = true
  is_quiet stop = true
  is_quiet (restart_message go) = true
  is_quiet _ = false

  -- What neither replaces the candidate nor discards it.
  abbrev pub is_neutral : Happening cfg drv → Bool
  is_neutral succeeded = true
  is_neutral disconnected = true
  is_neutral e = is_quiet e

  -- The begin and the end of a session.
  abbrev pub is_bound : Happening cfg drv → Bool
  is_bound begun = true
  is_bound ended = true
  is_bound _ = false

  -- The candidate, and the store but for what was posted, on a device that hears the manager's events
  -- and has not restarted.
  pub record Awaiting (n : Network) (t : Store Flash) (s : Prov Flash) : Type 0 where
    pub waiting : s.pending_network ≡ some n
    pub kept_networks : s.store.networks ≡ t.networks
    pub kept_flash : s.store.flash ≡ t.flash
    pub hears : s.event_handler_registered ≡ true
    pub running : s.restarted ≡ false

  -- The candidate is saved.
  pub record Persisted (n : Network) (t : Store Flash) (s : Prov Flash) : Type 0 where
    pub decided : s.pending_network ≡ none
    pub upserts : view s.store ≡ (upserted n (view t)).1

  -- The candidate still waits, or is saved.
  abbrev pub Waits : Network → Store Flash → Prov Flash → Type 0
  Waits n t s = Awaiting n t s ⊎ Persisted n t s

  pub either :
      (n : Network) (t : Store Flash) (b : Bool) (x y : Prov Flash)
      → Waits n t x
      → Waits n t y
      → Waits n t (if b then x else y)
  either n t true x y p q = p
  either n t false x y p q = q

  prov_start_running :
      (go : StartRun) (s : Prov Flash) → (prov_start go s).1.restarted ≡ s.restarted
  unfolding prov_start restore_coex
  prov_start_running go s = ground arith

  prov_start_hears :
      (go : StartRun) (s : Prov Flash)
      → (prov_start go s).1.event_handler_registered ≡ s.event_handler_registered
  unfolding prov_start restore_coex
  prov_start_hears go s = ground arith

  prov_start-Awaiting :
      {n : Network} {t : Store Flash} (go : StartRun) (s : Prov Flash)
      → Awaiting n t s
      → Awaiting n t (prov_start go s).1
  prov_start-Awaiting go s q =
      let p = prov_start-SameStore cfg drv go s in
      ground (arith, prov_start_running go s, prov_start_hears go s)

  handle_restart-Awaiting :
      {n : Network} {t : Store Flash} (go : StartRun) (s : Prov Flash)
      → Awaiting n t s
      → Awaiting n t (handle_restart cfg drv go s)
  handle_restart-Awaiting go s q = elim (Bool-cases (s.restart_messages == 0)) [
    | inl nothing_sent ↦ rw nothing_sent q
    | inr sent ↦ rw sent (prov_start-Awaiting go _ (ground arith))
  ]

  pub happens-Awaiting :
      {n : Network} {t : Store Flash} (e : Happening cfg drv) (s : Prov Flash)
      → is_quiet e ≡ true
      → Awaiting n t s
      → Awaiting n t (happens cfg drv e s)
  unfolding happens restore_coex prov_init prov_stop
  happens-Awaiting deinited s h q = ground arith
  happens-Awaiting (init registered created) s h q = ground arith
  happens-Awaiting (start go) s h q = prov_start-Awaiting go s q
  happens-Awaiting stop s h q = ground arith
  happens-Awaiting (restart_message go) s h q = handle_restart-Awaiting go s q
  happens-Awaiting _ s h q = absurd (cc)

  stored_by :
      (n : Network) (s : Prov Flash)
      → s.pending_network ≡ some n
      → (persist_pending_network cfg drv s).store ≡ (upsert drv n s.store).1
  unfolding persist_pending_network
  stored_by n s q = ground arith

  persisted_decided :
      (n : Network) (s : Prov Flash)
      → s.pending_network ≡ some n
      → (persist_pending_network cfg drv s).pending_network ≡ none
  unfolding persist_pending_network
  persisted_decided n s q = ground arith

  cred_success-persisted :
      (s : Prov Flash)
      → (cred_success cfg drv s).store.networks ≡ (persist_pending_network cfg drv s).store.networks
  unfolding cred_success persist_pending_network
  cred_success-persisted s = ground arith

  cred_success_decided : (s : Prov Flash) → (cred_success cfg drv s).pending_network ≡ none
  unfolding cred_success persist_pending_network
  cred_success_decided s = ground arith

  pub view-networks : (s t : Store Flash) → s.networks ≡ t.networks → view s ≡ view t
  view-networks s t same =
      ap (λ (ns : List Network). record { get = λ j. find ssid_of j ns; count = length ns }) same

  upsert-view :
      (n : Network) (s t : Store Flash)
      → s.networks ≡ t.networks
      → view (upsert drv n s).1 ≡ (upserted n (view t)).1
  upsert-view n s t same =
      ap (λ (r : EspErr × Saved). r.1) (upsert-upserted drv n s)
      ∙ ap (λ (m : Saved). (upserted n m).1) (view-networks s t same)

  pub cred_success-view :
      (n : Network) (s : Prov Flash) (t : Store Flash)
      → Awaiting n t s
      → view (cred_success cfg drv s).store ≡ (upserted n (view t)).1
  cred_success-view n s t q =
      view-networks (cred_success cfg drv s).store (upsert drv n s.store).1
        (cred_success-persisted s ∙ ap (λ (x : Store Flash). x.networks) (stored_by n s q.waiting))
      ∙ upsert-view n s.store t q.kept_networks

  pub success-Persisted :
      (n : Network) (s : Prov Flash) (t : Store Flash)
      → Awaiting n t s
      → Persisted n t (cred_success cfg drv s)
  success-Persisted n s t q = record {
    decided = cred_success_decided s;
    upserts = cred_success-view n s t q;
  }

  saved_candidate :
      (n : Network) (s : Prov Flash) (t : Store Flash)
      → Awaiting n t s
      → Persisted n t (record (persist_pending_network cfg drv s) { restarted = true })
  saved_candidate n s t q = record {
    decided = persisted_decided n s q.waiting;
    upserts = ap view (stored_by n s q.waiting) ∙ upsert-view n s.store t q.kept_networks;
  }

  -- The client leaves: the candidate is saved on the way to a restart, or waits on.
  pub disconnected-cases :
      (n : Network) (s : Prov Flash) (t : Store Flash)
      → Awaiting n t s
      → Waits n t (happens cfg drv disconnected s)
  unfolding happens on_protocomm_ble_disconnect
  disconnected-cases n s t q =
      either n t s.disconnect_handler_registered _ s
        (either n t (not s.active) s _ (inl q) (
          either n t (s.creds_received && reboot_on_success cfg drv)
            (record (persist_pending_network cfg drv s) { restarted = true }) _
            (inr (saved_candidate n s t q))
            (either n t (is_ignored cfg drv s) s (restart_session cfg drv s) (inl q) (
              inl (record {
                waiting = q.waiting;
                kept_networks = q.kept_networks;
                kept_flash = q.kept_flash;
                hears = q.hears;
                running = q.running;
              })))))
        (inl q)
