-- ===== src/Nvs/Reset.antt =====
-- A factory reset leaves nothing to load.
use esp_wifi_config.Common.{ℕ, ◌≡◌, refl, ◌∙◌, ap, [], some, arith}
use esp_wifi_config.Common.Bytes.{Bytes, codes}
use esp_wifi_config.Nvs.Driver.{NvsErr, nvs_ok, nvs_not_found, nvs_failed, NvsDriver}
use esp_wifi_config.Nvs.{
  nvs_load_blobs, then_write, stored_count, wifi_cfg_nvs_load_networks, wifi_cfg_nvs_load_vars,
  wifi_cfg_nvs_factory_reset,
}
use esp_wifi_config.Nvs.RoundTrip.{then_write-eq-ok}

module _ {Item : Type 0} (drv : NvsDriver Item) where
  open drv use {
    Flash, open_readonly, get_u8, erase_all, commit, get_u8-erase_all, get_u8-commit,
    open_readonly-commit,
  }

  stored_count_not_found : (r : NvsErr × ℕ) → r.0 ≡ nvs_not_found → stored_count drv r ≡ 0
  stored_count_not_found (nvs_ok, n) e = cc
  stored_count_not_found (nvs_not_found, n) e = refl
  stored_count_not_found (nvs_failed, n) e = refl

  nvs_load_blobs_empty :
      (count_key prefix : Bytes) (max_count : ℕ) (fl : Flash)
      → open_readonly fl ≡ nvs_ok
      → (get_u8 fl count_key).0 ≡ nvs_not_found
      → nvs_load_blobs drv count_key prefix max_count fl ≡ (nvs_ok, some [])
  unfolding nvs_load_blobs
  nvs_load_blobs_empty count_key prefix max_count fl opened missing =
      rw (opened, nvs_load_blobs) (rw (stored_count_not_found (get_u8 fl count_key) missing))

  -- After a factory reset that reports success, loading the networks and loading the variables
  -- both succeed and give empty lists.
  pub load-factory_reset :
      (max_count : ℕ) (fl fl' : Flash)
      → wifi_cfg_nvs_factory_reset drv fl ≡ (nvs_ok, fl')
      → (wifi_cfg_nvs_load_networks drv max_count fl' ≡ (nvs_ok, some []))
        × (wifi_cfg_nvs_load_vars drv max_count fl' ≡ (nvs_ok, some []))
  unfolding wifi_cfg_nvs_load_networks wifi_cfg_nvs_load_vars
  load-factory_reset max_count fl fl' e =
      let erasing : then_write drv (erase_all fl) commit ≡ (nvs_ok, fl') =
        unfold wifi_cfg_nvs_factory_reset in ground arith in
      let (erased, wiped, done) = then_write-eq-ok drv (erase_all fl) commit erasing in
      let missing = λ (k : Bytes).
        ap (λ (r : NvsErr × ℕ). r.0) (get_u8-commit erased fl' k done)
        ∙ get_u8-erase_all fl erased k wiped in
      let opened = open_readonly-commit erased fl' done in
      (
        nvs_load_blobs_empty _ (codes "net_") max_count fl' opened (missing _),
        nvs_load_blobs_empty _ (codes "var_") max_count fl' opened (missing _),
      )
