-- ===== src/Nvs/Driver.antt =====
-- What the library relies on of ESP-IDF's non-volatile storage: reads and writes of one namespace,
-- each of which may fail, and the documented laws of the writes that succeed.
use esp_wifi_config.Common.{ℕ, ◌≡◌, ◌≢◌, Option, some}
use esp_wifi_config.Common.Bytes.{Bytes}

-- `nvs_not_found` is ESP_ERR_NVS_NOT_FOUND, `nvs_failed` any other error.
pub data NvsErr : Type 0 where
  nvs_ok nvs_not_found nvs_failed : NvsErr

-- A blob is read and written whole, as an `Item`; `none` is any error of the read.
pub record NvsDriver (Item : Type 0) : Type 1 where
  pub Flash : Type 0
  pub open_readonly : Flash → NvsErr
  pub open_readwrite : Flash → NvsErr
  pub get_u8 : Flash → Bytes → NvsErr × ℕ
  pub set_u8 : Flash → Bytes → ℕ → NvsErr × Flash
  pub get_blob : Flash → Bytes → Option Item
  pub set_blob : Flash → Bytes → Item → NvsErr × Flash
  pub commit : Flash → NvsErr × Flash
  pub erase_all : Flash → NvsErr × Flash
  pub get_u8-set_u8 :
      (fl fl' : Flash) (k : Bytes) (v : ℕ)
      → set_u8 fl k v ≡ (nvs_ok, fl')
      → get_u8 fl' k ≡ (nvs_ok, v)
  pub get_u8-set_u8_ne :
      (fl fl' : Flash) (k j : Bytes) (v : ℕ)
      → set_u8 fl k v ≡ (nvs_ok, fl')
      → k ≢ j
      → get_u8 fl' j ≡ get_u8 fl j
  pub get_blob-set_u8_ne :
      (fl fl' : Flash) (k j : Bytes) (v : ℕ)
      → set_u8 fl k v ≡ (nvs_ok, fl')
      → k ≢ j
      → get_blob fl' j ≡ get_blob fl j
  pub get_blob-set_blob :
      (fl fl' : Flash) (k : Bytes) (x : Item)
      → set_blob fl k x ≡ (nvs_ok, fl')
      → get_blob fl' k ≡ some x
  pub get_blob-set_blob_ne :
      (fl fl' : Flash) (k j : Bytes) (x : Item)
      → set_blob fl k x ≡ (nvs_ok, fl')
      → k ≢ j
      → get_blob fl' j ≡ get_blob fl j
  pub get_u8-set_blob_ne :
      (fl fl' : Flash) (k j : Bytes) (x : Item)
      → set_blob fl k x ≡ (nvs_ok, fl')
      → k ≢ j
      → get_u8 fl' j ≡ get_u8 fl j
  pub get_blob-commit :
      (fl fl' : Flash) (k : Bytes) → commit fl ≡ (nvs_ok, fl') → get_blob fl' k ≡ get_blob fl k
  pub get_u8-commit :
      (fl fl' : Flash) (k : Bytes) → commit fl ≡ (nvs_ok, fl') → get_u8 fl' k ≡ get_u8 fl k
  -- What was committed stands in a namespace that exists.
  pub open_readonly-commit :
      (fl fl' : Flash) → commit fl ≡ (nvs_ok, fl') → open_readonly fl' ≡ nvs_ok
  pub get_u8-erase_all :
      (fl fl' : Flash) (k : Bytes) → erase_all fl ≡ (nvs_ok, fl') → (get_u8 fl' k).0 ≡ nvs_not_found
