-- ===== src/SoftAp/Normal.antt =====
-- The defaults of the access point, and the way of its configuration to flash and back.
use esp_wifi_config.Common.{
  ℕ, ◌≡◌, ◌≢◌, refl, sym, ap, ◌∙◌, [], ◌∷◌, some, ◌==◌, if◌then◌else◌, arith,
}
use esp_wifi_config.Common.Bytes.{Bytes, codes}
use esp_wifi_config.Nvs.Driver.{NvsErr, nvs_ok, nvs_not_found, nvs_failed, NvsDriver}
use esp_wifi_config.Nvs.Shared.{
  Layout, seen, read_as, Agree, Agree-trans, set_blob-Agree, commit-Agree,
}
use esp_wifi_config.Nvs.RoundTrip.{then_write-eq-ok}
use esp_wifi_config.SoftAp.{
  ApConfig, or_blank, default_ip, normalize_ap_config, nvs_load_ap_config, nvs_save_ap_config,
}

-- Every field has a value that the documentation gives a default for.
pub record IsComplete (c : ApConfig) : Type 0 where
  pub ssid_set : c.ssid ≢ []
  pub connections_set : c.max_connections ≢ 0
  pub ip_set : c.ip ≢ []
  pub netmask_set : c.netmask ≢ []
  pub gateway_set : c.gateway ≢ []
  pub start_set : c.dhcp_start ≢ []
  pub end_set : c.dhcp_end ≢ []

or_blank-ne-nil : (default s : Bytes) → default ≢ [] → or_blank default s ≢ []
or_blank-ne-nil default [] h = h
or_blank-ne-nil default (c ∷ s) h = cc

or_blank-set : (default s : Bytes) → s ≢ [] → or_blank default s ≡ s
or_blank-set default [] h = absurd (h refl)
or_blank-set default (c ∷ s) h = refl

pub normalize-IsComplete : (c : ApConfig) → IsComplete (normalize_ap_config c)
unfolding normalize_ap_config
normalize-IsComplete c = record {
  ssid_set = or_blank-ne-nil _ c.ssid (λ e. cc);
  connections_set = ground arith;
  ip_set = or_blank-ne-nil default_ip c.ip (λ e. cc);
  netmask_set = or_blank-ne-nil _ c.netmask (λ e. cc);
  gateway_set = or_blank-ne-nil _ c.gateway (or_blank-ne-nil default_ip c.ip (λ e. cc));
  start_set = or_blank-ne-nil _ c.dhcp_start (λ e. cc);
  end_set = or_blank-ne-nil _ c.dhcp_end (λ e. cc);
}

count_set : (n : ℕ) → n ≢ 0 → (if n == 0 then 4 else n) ≡ n
count_set n h = ground arith

normalize-complete_same : (c : ApConfig) → IsComplete c → normalize_ap_config c ≡ c
unfolding normalize_ap_config
normalize-complete_same c h = λ i. record c {
  ssid = or_blank-set (codes "ESP32-Config") c.ssid h.ssid_set i;
  max_connections = count_set c.max_connections h.connections_set i;
  ip = or_blank-set default_ip c.ip h.ip_set i;
  netmask = or_blank-set (codes "255.255.255.0") c.netmask h.netmask_set i;
  gateway = or_blank-set (or_blank default_ip c.ip) c.gateway h.gateway_set i;
  dhcp_start = or_blank-set (codes "192.168.4.2") c.dhcp_start h.start_set i;
  dhcp_end = or_blank-set (codes "192.168.4.20") c.dhcp_end h.end_set i;
}

pub normalize_idempotent :
    (c : ApConfig) → normalize_ap_config (normalize_ap_config c) ≡ normalize_ap_config c
normalize_idempotent c = normalize-complete_same (normalize_ap_config c) (normalize-IsComplete c)

module _ (drv : NvsDriver ApConfig) where
  open drv use {
    Flash, open_readonly, open_readwrite, get_blob, set_blob, commit, get_blob-set_blob,
    get_blob-commit, open_readonly-commit,
  }

  pub saved_if_open :
      (opened : NvsErr) (w : NvsErr × Flash) (fl fl' : Flash)
      → elim opened as (λ _. NvsErr × Flash) [
        | nvs_ok ↦ w
        | nvs_not_found ↦ (nvs_not_found, fl)
        | nvs_failed ↦ (nvs_failed, fl)
      ]
        ≡ (nvs_ok, fl')
      → w ≡ (nvs_ok, fl')
  saved_if_open nvs_ok w fl fl' h = h
  saved_if_open nvs_not_found w fl fl' h = absurd (ground arith)
  saved_if_open nvs_failed w fl fl' h = absurd (ground arith)

  pub read_if_open :
      (fl : Flash)
      → open_readonly fl ≡ nvs_ok
      → nvs_load_ap_config drv fl ≡ get_blob fl (codes "ap_config")
  unfolding nvs_load_ap_config
  read_if_open fl h = rw (h, nvs_load_ap_config) refl

  -- What was saved is loaded.
  pub nvs_load-nvs_save :
      (c : ApConfig) (fl fl' : Flash)
      → nvs_save_ap_config drv c fl ≡ (nvs_ok, fl')
      → nvs_load_ap_config drv fl' ≡ some c
  unfolding nvs_save_ap_config
  nvs_load-nvs_save c fl fl' h =
      let (fl1, written, committed) =
        then_write-eq-ok drv (set_blob fl (codes "ap_config") c) commit
          (saved_if_open (open_readwrite fl) _ fl fl' h) in
      read_if_open fl' (open_readonly-commit fl1 fl' committed)
      ∙ get_blob-commit fl1 fl' (codes "ap_config") committed
      ∙ get_blob-set_blob fl fl1 (codes "ap_config") c written

-- A save of the access point leaves the items of the other kinds, and the namespace there; what is
-- loaded for it does not change with them.
module _ {Blob : Type 0} (drv : NvsDriver Blob) (lay : Layout ApConfig Blob) where
  open drv use {Flash, open_readonly, open_readwrite, commit, open_readonly-commit}

  pub nvs_save_ap_config-Agree :
      (c : ℕ) (x : ApConfig) (fl fl' : Flash)
      → 97 ≢ c
      → nvs_save_ap_config (seen drv lay) x fl ≡ (nvs_ok, fl')
      → Agree drv c fl fl' × (open_readonly fl' ≡ nvs_ok)
  unfolding nvs_save_ap_config
  nvs_save_ap_config-Agree c x fl fl' ne h =
      let (fl1, written, committed) =
        then_write-eq-ok (seen drv lay) ((seen drv lay).set_blob fl (codes "ap_config") x) commit
          (saved_if_open (seen drv lay) (open_readwrite fl) _ fl fl' h) in
      (
        Agree-trans drv c fl fl1 fl'
            (set_blob-Agree drv c 97 (codes "ap_config") (lay.as_blob x) fl fl1 ne refl written)
            (commit-Agree drv c fl1 fl' committed),
        open_readonly-commit fl1 fl' committed,
      )

  pub nvs_load_ap_config-Agree :
      (fl fl' : Flash)
      → open_readonly fl ≡ nvs_ok
      → open_readonly fl' ≡ nvs_ok
      → Agree drv 97 fl fl'
      → nvs_load_ap_config (seen drv lay) fl' ≡ nvs_load_ap_config (seen drv lay) fl
  nvs_load_ap_config-Agree fl fl' opened opened' same =
      read_if_open (seen drv lay) fl' opened'
      ∙ ap (read_as drv lay) (same.blobs_same (codes "ap_config") refl)
      ∙ sym (read_if_open (seen drv lay) fl opened)
