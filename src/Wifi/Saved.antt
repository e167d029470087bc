-- ===== src/Wifi/Saved.antt =====
-- The saved networks of src/esp_wifi_config_network.c give the front ends what they rely on.
use esp_wifi_config.Common.{
  ◌≡◌, refl, sym, ap, ◌∙◌, List, Option, some, inl, inr, arith, Option-cases, Bool-cases, leb,
}
use esp_wifi_config.Common.Bytes.{Bytes, str_eq_self}
use esp_wifi_config.Network.Types.{Network, EspErr, esp_ok, invalid_state, max_networks}
use esp_wifi_config.Nvs.Driver.{NvsDriver}
use esp_wifi_config.Table.{find}
use esp_wifi_config.Network.Store.{Store, ssid_of, add_network, update_network}
use esp_wifi_config.Network.Store.Map.{
  add-promised, update-promised, promised, add, update, Saved, view,
}
use esp_wifi_config.Wifi.{ScanResult, WifiApi}

promised_add :
    (n : Network) (m : Saved)
    → (promised (add n) m).0 ≡ esp_ok
    → (promised (add n) m).1.get n.ssid ≡ some n
promised_add n m ok = elim (Option-cases (m.get n.ssid)) [
  | inr (old, found) ↦ absurd (ground (arith, rw (found, promised) at ok))
  | inl missing ↦ elim (Bool-cases (leb max_networks m.count)) [
    | inl full ↦ absurd (ground (arith, rw (missing, full, promised) at ok))
    | inr room ↦ rw (missing, room, str_eq_self n.ssid, promised) refl
  ]
]

promised_known :
    (n : Network) (m : Saved)
    → (promised (add n) m).0 ≡ invalid_state
    → (old : Network) × (((promised (add n) m).1.get n.ssid) ≡ some old)
promised_known n m known = elim (Option-cases (m.get n.ssid)) [
  | inr (old, found) ↦ (old, rw (found, promised) found)
  | inl missing ↦ elim (Bool-cases (leb max_networks m.count)) [
    | inl full ↦ absurd (ground (arith, rw (missing, full, promised) at known))
    | inr room ↦ absurd (ground (arith, rw (missing, room, promised) at known))
  ]
]

promised_update :
    (n old : Network) (m : Saved)
    → m.get n.ssid ≡ some old
    → (promised (update n) m).1.get n.ssid ≡ some n
promised_update n old m found = rw (found, str_eq_self n.ssid, promised) refl

module _ (drv : NvsDriver Network) where
  open drv use {Flash}

  abbrev pub saved : Store Flash → Bytes → Option Network
  saved s j = find ssid_of j s.networks

  -- A network that was added is the saved network of its SSID.
  pub saved-add_network :
      (n : Network) (s : Store Flash)
      → (add_network drv n s).0 ≡ esp_ok
      → saved (add_network drv n s).1 n.ssid ≡ some n
  saved-add_network n s ok =
      let same = add-promised drv n s in
      ap (λ (r : EspErr × Saved). r.1.get n.ssid) same
      ∙ promised_add n (view s) (ap (λ (r : EspErr × Saved). r.0) (sym same) ∙ ok)

  -- Where adding finds the SSID saved already, updating makes the network the saved one.
  pub saved-update_network :
      (n : Network) (s : Store Flash)
      → (add_network drv n s).0 ≡ invalid_state
      → saved (update_network drv n (add_network drv n s).1).1 n.ssid ≡ some n
  saved-update_network n s known =
      let same = add-promised drv n s in
      let s1 = (add_network drv n s).1 in
      let (old, found) =
        promised_known n (view s) (ap (λ (r : EspErr × Saved). r.0) (sym same) ∙ known) in
      ap (λ (r : EspErr × Saved). r.1.get n.ssid) (update-promised drv n s1)
      ∙ promised_update n old (view s1) (ap (λ (r : EspErr × Saved). r.1.get n.ssid) same ∙ found)

  -- The manager's saved networks as the front ends see them; what the driver does on `connect`,
  -- on a scan and with the address is given.
  abbrev pub saved_api : (Bytes → EspErr) → Option (List ScanResult) → Bytes → WifiApi (Store Flash)
  saved_api connected scanned ip = record {
    add_network = add_network drv;
    update_network = update_network drv;
    connect = λ ssid s. (connected ssid, s);
    scan = λ s. (scanned, s);
    status_ip = λ s. ip;
    saved = saved;
    saved-add_network = saved-add_network;
    saved-update_network = saved-update_network;
    saved-connect = λ ssid j s. refl;
  }
