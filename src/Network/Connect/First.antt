-- ===== src/Network/Connect/First.antt =====
-- Which network a connect sequence ends up with.
use esp_wifi_config.Common.{
  ℕ, suc, ◌<◌, ◌≡◌, ◌⊎◌, refl, ap, ◌∙◌, List, ◌++◌, inl, inr, false, ◌&&◌, not, Bool-cases, length,
  take,
}
use esp_wifi_config.Network.Types.{Network}
use esp_wifi_config.Network.Sort.{sort_networks_by_priority}
use esp_wifi_config.Manager.{wifi_disconnected}
use esp_wifi_config.Network.Connect.{
  Outcome, is_up, given_up, Retries, Course, try_networks, ProvisioningMode, Connecting, on_failure,
  announce, leave, start_connect_sequence,
}
use esp_wifi_config.Network.Connect.Attempts.{
  GoesOn, nonempty, FirstUp, AllDown, try_networks-cases,
}

module _ (cfg : Retries) where
  leave-up :
      (mode : ProvisioningMode) (c : Course cfg) (s : Connecting)
      → c.ending ≡ is_up
      → let s1 = leave cfg mode c s in
        ((s1.manager.connecting ≡ false) × (s1.networks ≡ s.networks))
        × (s1.manager.retry_count ≡ 0)
        × (s1.manager.posted ≡ s.manager.posted ++ announce c.tried)
  leave-up mode c s e = rw (e, leave) ((refl, refl), refl, refl)

  leave-given_up :
      (mode : ProvisioningMode) (c : Course cfg) (s : Connecting)
      → c.ending ≡ given_up
      → let s1 = leave cfg mode c s in
        ((s1.manager.connecting ≡ false) × (s1.networks ≡ s.networks))
        × (s1.manager.state ≡ wifi_disconnected)
        × (s1.manager.posted ≡ s.manager.posted ++ announce c.tried)
  leave-given_up mode c s e = elim (Bool-cases (on_failure mode && not s.provisioning_active)) [
    | inl calls ↦ rw (e, leave) (rw (calls) ((refl, refl), refl, refl))
    | inr not_needed ↦ rw (e, leave) (rw (not_needed) ((refl, refl), refl, refl))
  ]

  start_connect_sequence_tries :
      (mode : ProvisioningMode) (outcome : ℕ → ℕ → Outcome) (s : Connecting)
      → 0 < length s.networks
      → start_connect_sequence cfg mode false outcome s
        ≡ leave cfg mode
            (try_networks cfg outcome 0 (sort_networks_by_priority s.networks))
            (record s {
              manager = record s.manager { reconnect_pending = false };
              networks = sort_networks_by_priority s.networks;
            })
  unfolding start_connect_sequence
  start_connect_sequence_tries mode outcome s some_network = nonempty s.networks some_network _ _

  -- A connect sequence that no stop request ends tries the saved networks by falling priority, and
  -- has one of two ends. Either it comes up with the first of them that any of its retries brings
  -- up, none of the retries of those before it did, and the events name exactly the networks up to
  -- it; the backoff counter is reset. Or no retry of any network came up, every network was named,
  -- and the device is disconnected.
  pub start_connect_sequence-first :
      (mode : ProvisioningMode) (outcome : ℕ → ℕ → Outcome) (s : Connecting)
      → ((j r : ℕ) → GoesOn (outcome j r))
      → 0 < length s.networks
      → let ns = sort_networks_by_priority s.networks in
        let s1 = start_connect_sequence cfg mode false outcome s in
        ((s1.manager.connecting ≡ false) × (s1.networks ≡ ns))
        × (((k : ℕ) × FirstUp cfg outcome 0 ns k
              × (s1.manager.retry_count ≡ 0)
              × (s1.manager.posted ≡ s.manager.posted ++ announce (take (suc k) ns)))
            ⊎ (AllDown cfg outcome 0 ns
                × (s1.manager.state ≡ wifi_disconnected)
                × (s1.manager.posted ≡ s.manager.posted ++ announce ns)))
  start_connect_sequence-first mode outcome s go some_network =
      let ns = sort_networks_by_priority s.networks in
      let s2 = record s {
        manager = record s.manager { reconnect_pending = false };
        networks = ns;
      } in
      let c = try_networks cfg outcome 0 ns in
      rw (start_connect_sequence_tries mode outcome s some_network)
        (elim (try_networks-cases cfg outcome 0 ns go) [
          | inl (up, (k, first, tried)) ↦
              let (kept, reset, posted) = leave-up mode c s2 up in
              (
                kept,
                inl (
                  k,
                  first,
                  reset,
                  posted ∙ ap (λ (xs : List Network). s.manager.posted ++ announce xs) tried,
                ),
              )
          | inr (down, none_up, tried) ↦
              let (kept, off, posted) = leave-given_up mode c s2 down in
              (
                kept,
                inr (
                  none_up,
                  off,
                  posted ∙ ap (λ (xs : List Network). s.manager.posted ++ announce xs) tried,
                ),
              )
        ])
