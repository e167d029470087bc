-- ===== src/Network/Store/Valid.antt =====
-- What holds of the saved networks between two calls.
use esp_wifi_config.Common.{
  ◌+◌, ◌≤◌, ◌≡◌, refl, [], ◌∷◌, inl, inr, arith, length, length-append, Option-cases,
}
use esp_wifi_config.Common.Bytes.{Bytes}
use esp_wifi_config.Network.Types.{Network, max_networks}
use esp_wifi_config.Nvs.Driver.{NvsDriver}
use esp_wifi_config.Table.{replace, remove}
use esp_wifi_config.Table.Laws.{
  Unique, OnSome_apply, Unique-append, Unique-replace, Unique-remove, length-replace, length-remove,
}
use esp_wifi_config.Network.Store.{Store, ssid_of, add_network, update_network, remove_network}

-- No SSID is saved twice, and the array is not over-full.
pub record IsValid {F : Type 0} (s : Store F) : Type 0 where
  pub unique : Unique ssid_of s.networks
  pub fits : length s.networks ≤ max_networks

module _ (drv : NvsDriver Network) where
  open drv use {Flash}

  pub add_network-IsValid :
      (n : Network) (s : Store Flash) → IsValid s → IsValid (add_network drv n s).1
  unfolding add_network
  add_network-IsValid n s v =
      grind (arith, Unique-append ssid_of n s.networks, length-append s.networks (n ∷ []))

  pub update_network-IsValid :
      (n : Network) (s : Store Flash) → IsValid s → IsValid (update_network drv n s).1
  unfolding update_network
  update_network-IsValid n s v = elim (Option-cases (replace ssid_of n.ssid (λ _. n) s.networks)) [
    | inl missing ↦ rw (missing, update_network) v
    | inr (ns, found) ↦
        rw (found, update_network)
          (record {
            unique =
                OnSome_apply ssid_of (Unique ssid_of) _
                  (Unique-replace ssid_of n.ssid (λ _. n) (λ _ _. refl) s.networks v.unique) found;
            fits = omega (
              arith,
              OnSome_apply ssid_of (λ ns. length ns ≡ length s.networks) _
                  (length-replace ssid_of n.ssid (λ _. n) s.networks) found,
              v.fits,
            );
          })
  ]

  pub remove_network-IsValid :
      (ssid : Bytes) (s : Store Flash) → IsValid s → IsValid (remove_network drv ssid s).1
  unfolding remove_network
  remove_network-IsValid ssid s v = elim (Option-cases (remove ssid_of ssid s.networks)) [
    | inl missing ↦ rw (missing, remove_network) v
    | inr (ns, found) ↦
        rw (found, remove_network)
          (record {
            unique =
                OnSome_apply ssid_of (Unique ssid_of) _
                  (Unique-remove ssid_of ssid s.networks v.unique) found;
            fits = omega (
              arith,
              OnSome_apply ssid_of (λ ns. length ns + 1 ≡ length s.networks) _
                  (length-remove ssid_of ssid s.networks) found,
              v.fits,
            );
          })
  ]
