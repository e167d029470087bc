-- ===== src/Nvs.antt =====
-- src/esp_wifi_config_nvs.c: the blob arrays that hold the networks and the variables on flash.
-- The flash driver itself (`nvs_open`, `nvs_get_blob` and so on) is ESP-IDF code: a parameter.
pub mod Driver
pub mod RoundTrip
pub mod Shared
pub mod Reset
use esp_wifi_config.Common.{
  ℕ, zero, suc, ◌+◌, ◌%◌, List, [], ◌∷◌, ◌++◌, Option, none, some, length, take, ltb, if◌then◌else◌,
}
use esp_wifi_config.Common.Bytes.{Bytes, codes}
use esp_wifi_config.Common.Decimal.{decimal}
use esp_wifi_config.Nvs.Driver.{NvsErr, nvs_ok, nvs_not_found, nvs_failed, NvsDriver}

-- `snprintf(key, sizeof(key), "%s%d", prefix, i)` over a buffer of 16 bytes
pub blob_key : Bytes → ℕ → Bytes
blob_key prefix i = take 15 (prefix ++ decimal i)

module _ {Item : Type 0} (drv : NvsDriver Item) where
  open drv use {
    Flash, open_readonly, open_readwrite, get_u8, set_u8, get_blob, set_blob, commit, erase_all,
  }

  abbrev pub append_found : List Item → Option Item → List Item
  append_found items none = items
  append_found items (some x) = items ++ x ∷ []

  -- The loop of `nvs_load_blobs`: an element that cannot be read is skipped. The first argument
  -- is what is left of the stored count.
  pub load_items : ℕ → ℕ → Bytes → ℕ → List Item → Flash → List Item
  load_items zero max_count prefix i items fl = items
  load_items (suc n) max_count prefix i items fl =
      let rest =
        load_items n max_count prefix (i + 1) (append_found items (get_blob fl (blob_key prefix i)))
          fl in
      if ltb (length items) max_count then rest else items

  -- The count that is read, or 0 where there is none or it cannot be read.
  abbrev pub stored_count : NvsErr × ℕ → ℕ
  stored_count (nvs_ok, n) = n
  stored_count (_, _) = 0

  -- `none` where the outputs are left as they were.
  unfoldable pub nvs_load_blobs : Bytes → Bytes → ℕ → Flash → NvsErr × Option (List Item)
  unfolding load_items blob_key
  nvs_load_blobs count_key prefix max_count fl = elim (open_readonly fl) [
    | nvs_not_found ↦ (nvs_ok, some [])
    | nvs_failed ↦ (nvs_failed, none)
    | nvs_ok ↦
        (nvs_ok, some (load_items (stored_count (get_u8 fl count_key)) max_count prefix 0 [] fl))
  ]

  -- Goes on if the last write went through, and stops with its error if not.
  abbrev pub then_write : NvsErr × Flash → (Flash → NvsErr × Flash) → NvsErr × Flash
  then_write (nvs_ok, fl) next = next fl
  then_write (nvs_not_found, fl) next = (nvs_not_found, fl)
  then_write (nvs_failed, fl) next = (nvs_failed, fl)

  pub save_items : Bytes → ℕ → List Item → Flash → NvsErr × Flash
  save_items prefix i [] fl = (nvs_ok, fl)
  save_items prefix i (x ∷ xs) fl =
      then_write (set_blob fl (blob_key prefix i) x) (λ fl'. save_items prefix (i + 1) xs fl')

  unfoldable pub nvs_save_blobs : Bytes → Bytes → List Item → Flash → NvsErr × Flash
  unfolding save_items blob_key
  nvs_save_blobs count_key prefix items fl = elim (open_readwrite fl) [
    | nvs_ok ↦
        then_write (set_u8 fl count_key (length items % 256))
          (λ fl'. then_write (save_items prefix 0 items fl') commit)
    | nvs_not_found ↦ (nvs_not_found, fl)
    | nvs_failed ↦ (nvs_failed, fl)
  ]

  unfoldable pub wifi_cfg_nvs_load_networks : ℕ → Flash → NvsErr × Option (List Item)
  unfolding nvs_load_blobs
  wifi_cfg_nvs_load_networks max_count = nvs_load_blobs (codes "net_count") (codes "net_") max_count

  unfoldable pub wifi_cfg_nvs_save_networks : List Item → Flash → NvsErr × Flash
  unfolding nvs_save_blobs
  wifi_cfg_nvs_save_networks items = nvs_save_blobs (codes "net_count") (codes "net_") items

  unfoldable pub wifi_cfg_nvs_load_vars : ℕ → Flash → NvsErr × Option (List Item)
  unfolding nvs_load_blobs
  wifi_cfg_nvs_load_vars max_count = nvs_load_blobs (codes "var_count") (codes "var_") max_count

  unfoldable pub wifi_cfg_nvs_save_vars : List Item → Flash → NvsErr × Flash
  unfolding nvs_save_blobs
  wifi_cfg_nvs_save_vars items = nvs_save_blobs (codes "var_count") (codes "var_") items

  unfoldable pub wifi_cfg_nvs_factory_reset : Flash → NvsErr × Flash
  wifi_cfg_nvs_factory_reset fl = elim (open_readwrite fl) [
    | nvs_ok ↦ then_write (erase_all fl) commit
    | nvs_not_found ↦ (nvs_not_found, fl)
    | nvs_failed ↦ (nvs_failed, fl)
  ]
