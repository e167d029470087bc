-- ===== src/Network/Store/Upsert.antt =====
-- Adding a network, or updating it where it is there already, as POST /networks and the provisioning
-- manager's handler do.
use esp_wifi_config.Common.{
  ◌+◌, ◌≡◌, ◌≢◌, refl, ◌∙◌, none, some, length, leb, if◌then◌else◌, arith, Bool-cases, Option-cases,
  inl, inr,
}
use esp_wifi_config.Common.Bytes.{str_eq}
use esp_wifi_config.Table.{find}
use esp_wifi_config.Network.Types.{Network, EspErr, esp_ok, invalid_state, no_mem, max_networks}
use esp_wifi_config.Nvs.Driver.{NvsDriver}
use esp_wifi_config.Network.Store.{Store, ssid_of, add_network, update_network}
use esp_wifi_config.Network.Store.Map.{Saved, view, promised, seen, add-promised, update-promised}

-- A network that is saved is overwritten, and another one added while there is room.
abbrev pub upserted : Network → Saved → EspErr × Saved
upserted n m = elim (m.get n.ssid) [
  | some _ ↦ (esp_ok, record m { get = λ j. if str_eq n.ssid j then some n else m.get j })
  | none ↦ if leb max_networks m.count then (no_mem, m) else (
    esp_ok,
    record { get = λ j. if str_eq n.ssid j then some n else m.get j; count = m.count + 1 },
  )
]

module _ (drv : NvsDriver Network) where
  open drv use {Flash}

  abbrev pub or_update : Network → EspErr × Store Flash → EspErr × Store Flash
  or_update n (invalid_state, s) = update_network drv n s
  or_update n (r, s) = (r, s)

  unfoldable pub upsert : Network → Store Flash → EspErr × Store Flash
  upsert n s = or_update n (add_network drv n s)

  add_network-known :
      (n : Network) (s : Store Flash) {old : Network}
      → find ssid_of n.ssid s.networks ≡ some old
      → add_network drv n s ≡ (invalid_state, s)
  unfolding add_network
  add_network-known n s found = rw (found, add_network)

  add_network-result :
      (n : Network) (s : Store Flash)
      → find ssid_of n.ssid s.networks ≡ none
      → (add_network drv n s).0 ≢ invalid_state
  unfolding add_network
  add_network-result n s missing = ground arith

  or_update_other :
      (n : Network) (r : EspErr × Store Flash) → r.0 ≢ invalid_state → or_update n r ≡ r
  or_update_other n (invalid_state, s) other = absurd (other refl)
  or_update_other n (_, s) other = refl

  pub upsert-upserted :
      (n : Network) (s : Store Flash) → seen drv (upsert n s) ≡ upserted n (view s)
  unfolding upsert
  upsert-upserted n s = elim (Option-cases (find ssid_of n.ssid s.networks)) [
    | inr (old, found) ↦
        rw (add_network-known n s found) (update-promised drv n s ∙ rw (found, promised, upserted))
    | inl missing ↦ rw (or_update_other n (add_network drv n s) (add_network-result n s missing)) (
        add-promised drv n s ∙ elim (Bool-cases (leb max_networks (length s.networks))) [
          | inl full ↦ rw (missing, promised, upserted) (rw (full, promised, upserted))
          | inr room ↦ rw (missing, promised, upserted) (rw (room, promised, upserted))
        ])
  ]
