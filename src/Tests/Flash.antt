-- ===== src/Tests/Flash.antt =====
-- A flash that keeps what is written to it: an instance of what the library relies on of NVS.
use esp_wifi_config.Common.{
  ℕ, ◌≡◌, ◌≢◌, refl, sym, ap, ◌∙◌, Option, none, some, false, if◌then◌else◌, arith,
}
use esp_wifi_config.Common.Bytes.{Bytes, str_eq, str_eq_iff, str_eq_self}
use esp_wifi_config.Nvs.Driver.{NvsErr, nvs_ok, nvs_not_found, NvsDriver}

abbrev pub put : {A : Type 0} → Bytes → A → (Bytes → Option A) → Bytes → Option A
put k x m j = if str_eq k j then some x else m j

pub put_same : {A : Type 0} (k : Bytes) (x : A) (m : Bytes → Option A) → put k x m k ≡ some x
put_same k x m = rw (str_eq_self k) refl

str_eq_ne : (k j : Bytes) → k ≢ j → str_eq k j ≡ false
str_eq_ne k j ne = ground (arith, str_eq_iff k j)

pub put_other :
    {A : Type 0} (k j : Bytes) (x : A) (m : Bytes → Option A) → k ≢ j → put k x m j ≡ m j
put_other k j x m ne = rw (str_eq_ne k j ne) refl

-- The bytes and the blobs that stand under each key.
pub record Memory (Item : Type 0) : Type 0 where
  pub bytes : Bytes → Option ℕ
  pub blobs : Bytes → Option Item

abbrev pub blank : {Item : Type 0} → Memory Item
blank = record { bytes = λ k. none; blobs = λ k. none }

abbrev pub read_u8 : Option ℕ → NvsErr × ℕ
read_u8 none = (nvs_not_found, 0)
read_u8 (some v) = (nvs_ok, v)

abbrev pub memory : (Item : Type 0) → NvsDriver Item
memory Item = record {
  Flash = Memory Item;
  open_readonly = λ fl. nvs_ok;
  open_readwrite = λ fl. nvs_ok;
  get_u8 = λ fl k. read_u8 (fl.bytes k);
  set_u8 = λ fl k v. (nvs_ok, record fl { bytes = put k v fl.bytes });
  get_blob = λ fl k. fl.blobs k;
  set_blob = λ fl k x. (nvs_ok, record fl { blobs = put k x fl.blobs });
  commit = λ fl. (nvs_ok, fl);
  erase_all = λ fl. (nvs_ok, blank);
  get_u8-set_u8 = λ fl fl' k v e.
      ap (λ (p : NvsErr × Memory Item). read_u8 (p.1.bytes k)) (sym e)
      ∙ ap read_u8 (put_same k v fl.bytes);
  get_u8-set_u8_ne = λ fl fl' k j v e ne.
      ap (λ (p : NvsErr × Memory Item). read_u8 (p.1.bytes j)) (sym e)
      ∙ ap read_u8 (put_other k j v fl.bytes ne);
  get_blob-set_u8_ne = λ fl fl' k j v e ne. ap (λ (p : NvsErr × Memory Item). p.1.blobs j) (sym e);
  get_blob-set_blob = λ fl fl' k x e.
      ap (λ (p : NvsErr × Memory Item). p.1.blobs k) (sym e) ∙ put_same k x fl.blobs;
  get_blob-set_blob_ne = λ fl fl' k j x e ne.
      ap (λ (p : NvsErr × Memory Item). p.1.blobs j) (sym e) ∙ put_other k j x fl.blobs ne;
  get_u8-set_blob_ne =
      λ fl fl' k j x e ne. ap (λ (p : NvsErr × Memory Item). read_u8 (p.1.bytes j)) (sym e);
  get_blob-commit = λ fl fl' k e. ap (λ (p : NvsErr × Memory Item). p.1.blobs k) (sym e);
  get_u8-commit = λ fl fl' k e. ap (λ (p : NvsErr × Memory Item). read_u8 (p.1.bytes k)) (sym e);
  open_readonly-commit = λ fl fl' e. refl;
  get_u8-erase_all =
      λ fl fl' k e. ap (λ (p : NvsErr × Memory Item). (read_u8 (p.1.bytes k)).0) (sym e);
}
