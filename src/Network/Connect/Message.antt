-- ===== src/Network/Connect/Message.antt =====
-- The start message beside the connect sequence.
use esp_wifi_config.Common.{ℕ, ◌≡◌, refl, ap, List, [], ◌∷◌, Bool, true, false}
use esp_wifi_config.Network.Types.{Network}
use esp_wifi_config.Network.Sort.{sort_networks_by_priority}
use esp_wifi_config.Network.Connect.{
  Outcome, Retries, ProvisioningMode, prov_on_failure, prov_when_unprovisioned, prov_manual,
  prov_always, Connecting, call_provisioning, start_connect_sequence, start_message, leave,
  try_networks,
}

-- A test of the networks in front of one that has the same first branch.
same_empty :
    (ns : List Network) (x y z : Connecting)
    → x ≡ y
    → (elim ns as (λ _. Connecting) [
      | [] ↦ x
      | ◌∷◌ _ _ ↦ (elim ns as (λ _. Connecting) [ [] ↦ y | ◌∷◌ _ _ ↦ z ])
    ])
      ≡ (elim ns as (λ _. Connecting) [ [] ↦ y | ◌∷◌ _ _ ↦ z ])
same_empty [] x y z e = e
same_empty (n ∷ ns) x y z e = refl

module _ (cfg : Retries) where
  abbrev unscheduled : Connecting → Connecting
  unscheduled s = record s { manager = record s.manager { reconnect_pending = false } }

  unset_same : (s : Connecting) → s.manager.reconnect_pending ≡ false → s ≡ unscheduled s
  unset_same s unset =
      ap (λ (b : Bool). record s { manager = record s.manager { reconnect_pending = b } }) unset

  abbrev tried_all : (ℕ → ℕ → Outcome) → ProvisioningMode → Connecting → Connecting
  tried_all outcome mode s =
      let ns = sort_networks_by_priority s.networks in
      leave cfg mode (try_networks cfg outcome 0 ns) (record (unscheduled s) { networks = ns })

  -- The guards of the start message add nothing to those of the connect sequence: in each of the
  -- four provisioning modes, with networks or without, the message comes to what the sequence alone
  -- does, once no reconnect is scheduled.
  pub start_message-start_connect_sequence :
      (mode : ProvisioningMode) (outcome : ℕ → ℕ → Outcome) (s : Connecting)
      → s.manager.reconnect_pending ≡ false
      → start_message cfg mode false outcome s ≡ start_connect_sequence cfg mode false outcome s
  unfolding start_message start_connect_sequence
  start_message-start_connect_sequence prov_on_failure outcome s unset =
      same_empty s.networks _ _ (tried_all outcome prov_on_failure s)
        (ap (call_provisioning true) (unset_same s unset))
  start_message-start_connect_sequence prov_when_unprovisioned outcome s unset =
      same_empty s.networks _ _ (tried_all outcome prov_when_unprovisioned s)
        (ap (call_provisioning true) (unset_same s unset))
  start_message-start_connect_sequence prov_manual outcome s unset =
      same_empty s.networks _ _ (tried_all outcome prov_manual s) (unset_same s unset)
  start_message-start_connect_sequence prov_always outcome s unset =
      same_empty s.networks _ _ (tried_all outcome prov_always s) (unset_same s unset)
