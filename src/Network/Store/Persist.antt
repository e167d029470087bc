-- ===== src/Network/Store/Persist.antt =====
-- What a successful call leaves on flash.
use esp_wifi_config.Common.{
  ◌≡◌, refl, ap, ◌∙◌, some, inl, inr, arith, length, Option-cases, Bool-cases, leb,
}
use esp_wifi_config.Network.Types.{Network, EspErr, esp_ok, max_networks}
use esp_wifi_config.Nvs.Driver.{NvsErr, nvs_ok, NvsDriver}
use esp_wifi_config.Nvs.{wifi_cfg_nvs_save_networks, wifi_cfg_nvs_load_networks}
use esp_wifi_config.Nvs.RoundTrip.{load_networks-save_networks}
use esp_wifi_config.Table.{find, replace, remove}
use esp_wifi_config.Network.Store.{Store, ssid_of, add_network, update_network, remove_network}
use esp_wifi_config.Network.Store.Valid.{IsValid}
use esp_wifi_config.Network.Store.Map.{Call, add, update, forget, call, call-IsValid}

module _ (drv : NvsDriver Network) where
  open drv use {Flash}

  -- The flash is what saving the new array onto the old flash gives.
  abbrev IsSaved : Flash → EspErr × Store Flash → Type 0
  IsSaved fl (esp_ok, s') = s'.flash ≡ (wifi_cfg_nvs_save_networks drv s'.networks fl).1
  IsSaved fl (_, s') = Unit

  call-IsSaved : (c : Call) (s : Store Flash) → IsSaved s.flash (call drv c s)
  unfolding add_network update_network remove_network
  call-IsSaved (add n) s = elim (Option-cases (find ssid_of n.ssid s.networks)) [
    | inr (old, found) ↦ rw (found, add_network) tt
    | inl missing ↦
        rw (missing, add_network)
          (elim (Bool-cases (leb max_networks (length s.networks))) [
            | inl full ↦ rw full tt
            | inr room ↦ rw room refl
          ])
  ]
  call-IsSaved (update n) s = elim (Option-cases (replace ssid_of n.ssid (λ _. n) s.networks)) [
    | inl missing ↦ rw (missing, update_network) tt
    | inr (ns, replaced) ↦ rw (replaced, update_network) refl
  ]
  call-IsSaved (forget ssid) s = elim (Option-cases (remove ssid_of ssid s.networks)) [
    | inl missing ↦ rw (missing, remove_network) tt
    | inr (ns, removed) ↦ rw (removed, remove_network) refl
  ]

  IsSaved-ok :
      (fl : Flash) (w : EspErr × Store Flash)
      → IsSaved fl w
      → w.0 ≡ esp_ok
      → w.1.flash ≡ (wifi_cfg_nvs_save_networks drv w.1.networks fl).1
  IsSaved-ok fl (esp_ok, s') h e = h
  IsSaved-ok fl (_, s') h e = cc

  -- When a call that adds, updates or removes a network succeeds and its write to flash reports
  -- success, what the next start loads from flash is exactly the array that the call left.
  pub load_networks-call :
      (c : Call) (s : Store Flash) {fl' : Flash}
      → IsValid s
      → (call drv c s).0 ≡ esp_ok
      → wifi_cfg_nvs_save_networks drv (call drv c s).1.networks s.flash ≡ (nvs_ok, fl')
      → wifi_cfg_nvs_load_networks drv max_networks (call drv c s).1.flash
        ≡ (nvs_ok, some (call drv c s).1.networks)
  load_networks-call c s {fl'} v ok saved =
      let fits = (call-IsValid drv c s v).fits in
      let same =
        IsSaved-ok s.flash (call drv c s) (call-IsSaved c s) ok
        ∙ ap (λ (p : NvsErr × Flash). p.1) saved in
      rw same (
        load_networks-save_networks drv (call drv c s).1.networks max_networks s.flash fl'
          (omega arith) fits saved)
