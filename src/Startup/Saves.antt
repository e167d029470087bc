-- ===== src/Startup/Saves.antt =====
-- Saves of networks, variables and the access point in any order on the one namespace of
-- src/esp_wifi_config_nvs.c, and what they leave to be loaded.
use mathlib.Core.Path.{subst}
use esp_wifi_config.Common.{
  ℕ, ◌≡◌, ◌≢◌, ◌≤◌, refl, ap, ◌∙◌, List, [], ◌∷◌, Option, none, some, length, All, arith,
}
use esp_wifi_config.Common.Bytes.{codes}
use esp_wifi_config.Network.Types.{Network, max_networks}
use esp_wifi_config.Nvs.Driver.{NvsErr, nvs_ok, NvsDriver}
use esp_wifi_config.Nvs.{
  then_write, wifi_cfg_nvs_save_networks, wifi_cfg_nvs_load_networks, wifi_cfg_nvs_save_vars,
  wifi_cfg_nvs_load_vars,
}
use esp_wifi_config.Nvs.Shared.{Layout, seen, Agree, nvs_save_blobs-Agree, nvs_load_blobs-Agree}
use esp_wifi_config.Nvs.RoundTrip.{
  then_write-eq-ok, load_networks-save_networks, load_vars-save_vars,
}
use esp_wifi_config.Vars.{Var, max_vars}
use esp_wifi_config.SoftAp.{ApConfig, nvs_save_ap_config, nvs_load_ap_config}
use esp_wifi_config.SoftAp.Normal.{
  nvs_load-nvs_save, nvs_save_ap_config-Agree, nvs_load_ap_config-Agree,
}

pub data Save : Type 0 where
  saved_networks : List Network → Save
  saved_vars : List Var → Save
  saved_ap : ApConfig → Save

-- No list is longer than the context has room for.
abbrev pub FitsRoom : Save → Type 0
FitsRoom (saved_networks ns) = length ns ≤ max_networks
FitsRoom (saved_vars vs) = length vs ≤ max_vars
FitsRoom (saved_ap c) = Unit

-- The last save of each kind.
pub record Last : Type 0 where
  pub last_networks : Option (List Network)
  pub last_vars : Option (List Var)
  pub last_ap : Option ApConfig

abbrev pub no_save : Last
no_save = record { last_networks = none; last_vars = none; last_ap = none }

abbrev pub remember : Save → Last → Last
remember (saved_networks ns) l = record l { last_networks = some ns }
remember (saved_vars vs) l = record l { last_vars = some vs }
remember (saved_ap c) l = record l { last_ap = some c }

abbrev pub last_of : List Save → Last → Last
last_of [] l = l
last_of (s ∷ ss) l = last_of ss (remember s l)

module _ {Blob : Type 0} (drv : NvsDriver Blob) (net_lay : Layout Network Blob)
    (var_lay : Layout Var Blob) (ap_lay : Layout ApConfig Blob) where
  open drv use {Flash, open_readonly}

  abbrev pub store : Save → Flash → NvsErr × Flash
  store (saved_networks ns) fl = wifi_cfg_nvs_save_networks (seen drv net_lay) ns fl
  store (saved_vars vs) fl = wifi_cfg_nvs_save_vars (seen drv var_lay) vs fl
  store (saved_ap c) fl = nvs_save_ap_config (seen drv ap_lay) c fl

  -- One save after the other, up to the first that fails.
  abbrev pub store_all : List Save → Flash → NvsErr × Flash
  store_all [] fl = (nvs_ok, fl)
  store_all (s ∷ ss) fl = then_write drv (store s fl) (λ fl'. store_all ss fl')

  abbrev pub Loads : {A : Type 0} → (Flash → A → Type 0) → Option A → Flash → Type 0
  Loads P none fl = Unit
  Loads P (some x) fl = (open_readonly fl ≡ nvs_ok) × P fl x

  abbrev pub LoadsNetworks : Flash → List Network → Type 0
  LoadsNetworks fl ns =
      wifi_cfg_nvs_load_networks (seen drv net_lay) max_networks fl ≡ (nvs_ok, some ns)

  abbrev pub LoadsVars : Flash → List Var → Type 0
  LoadsVars fl vs = wifi_cfg_nvs_load_vars (seen drv var_lay) max_vars fl ≡ (nvs_ok, some vs)

  abbrev pub LoadsAp : Flash → ApConfig → Type 0
  LoadsAp fl c = nvs_load_ap_config (seen drv ap_lay) fl ≡ some c

  pub record IsStored (l : Last) (fl : Flash) : Type 0 where
    pub networks_stored : Loads LoadsNetworks l.last_networks fl
    pub vars_stored : Loads LoadsVars l.last_vars fl
    pub ap_stored : Loads LoadsAp l.last_ap fl

  abbrev Left : ℕ → Flash → Flash → Type 0
  Left c fl fl' = Agree drv c fl fl' × (open_readonly fl' ≡ nvs_ok)

  networks-Left :
      (o : Option (List Network)) (fl fl' : Flash)
      → Left 110 fl fl'
      → Loads LoadsNetworks o fl
      → Loads LoadsNetworks o fl'
  unfolding wifi_cfg_nvs_load_networks
  networks-Left none fl fl' left h = tt
  networks-Left (some ns) fl fl' left h = (
    left.1,
    nvs_load_blobs-Agree drv net_lay 110 max_networks (codes "net_count") (codes "net_") fl fl' refl
          refl h.0 left.1 left.0
        ∙ h.1,
  )

  vars-Left :
      (o : Option (List Var)) (fl fl' : Flash)
      → Left 118 fl fl'
      → Loads LoadsVars o fl
      → Loads LoadsVars o fl'
  unfolding wifi_cfg_nvs_load_vars
  vars-Left none fl fl' left h = tt
  vars-Left (some vs) fl fl' left h = (
    left.1,
    nvs_load_blobs-Agree drv var_lay 118 max_vars (codes "var_count") (codes "var_") fl fl' refl
          refl h.0 left.1 left.0
        ∙ h.1,
  )

  ap-Left :
      (o : Option ApConfig) (fl fl' : Flash)
      → Left 97 fl fl'
      → Loads LoadsAp o fl
      → Loads LoadsAp o fl'
  ap-Left none fl fl' left h = tt
  ap-Left (some c) fl fl' left h =
      (left.1, nvs_load_ap_config-Agree drv ap_lay fl fl' h.0 left.1 left.0 ∙ h.1)

  save_networks-Left :
      (c : ℕ) (ns : List Network) (fl fl' : Flash)
      → 110 ≢ c
      → wifi_cfg_nvs_save_networks (seen drv net_lay) ns fl ≡ (nvs_ok, fl')
      → Left c fl fl'
  unfolding wifi_cfg_nvs_save_networks
  save_networks-Left c ns fl fl' ne e =
      nvs_save_blobs-Agree drv net_lay c 110 (codes "net_count") (codes "net_") ns fl fl' ne refl
        refl e

  save_vars-Left :
      (c : ℕ) (vs : List Var) (fl fl' : Flash)
      → 118 ≢ c
      → wifi_cfg_nvs_save_vars (seen drv var_lay) vs fl ≡ (nvs_ok, fl')
      → Left c fl fl'
  unfolding wifi_cfg_nvs_save_vars
  save_vars-Left c vs fl fl' ne e =
      nvs_save_blobs-Agree drv var_lay c 118 (codes "var_count") (codes "var_") vs fl fl' ne refl
        refl e

  store-IsStored :
      (s : Save) (l : Last) (fl fl' : Flash)
      → FitsRoom s
      → store s fl ≡ (nvs_ok, fl')
      → IsStored l fl
      → IsStored (remember s l) fl'
  store-IsStored (saved_networks ns) l fl fl' fits e h = record {
    networks_stored = (
      (save_networks-Left 0 ns fl fl' (omega arith) e).1,
      load_networks-save_networks (seen drv net_lay) ns max_networks fl fl' (omega arith) fits e,
    );
    vars_stored =
        vars-Left l.last_vars fl fl' (save_networks-Left 118 ns fl fl' (omega arith) e)
          h.vars_stored;
    ap_stored =
        ap-Left l.last_ap fl fl' (save_networks-Left 97 ns fl fl' (omega arith) e) h.ap_stored;
  }
  store-IsStored (saved_vars vs) l fl fl' fits e h = record {
    networks_stored =
        networks-Left l.last_networks fl fl' (save_vars-Left 110 vs fl fl' (omega arith) e)
          h.networks_stored;
    vars_stored = (
      (save_vars-Left 0 vs fl fl' (omega arith) e).1,
      load_vars-save_vars (seen drv var_lay) vs max_vars fl fl' (omega arith) fits e,
    );
    ap_stored = ap-Left l.last_ap fl fl' (save_vars-Left 97 vs fl fl' (omega arith) e) h.ap_stored;
  }
  store-IsStored (saved_ap c) l fl fl' fits e h = record {
    networks_stored =
        networks-Left l.last_networks fl fl'
          (nvs_save_ap_config-Agree drv ap_lay 110 c fl fl' (omega arith) e) h.networks_stored;
    vars_stored =
        vars-Left l.last_vars fl fl'
          (nvs_save_ap_config-Agree drv ap_lay 118 c fl fl' (omega arith) e) h.vars_stored;
    ap_stored = (
      (nvs_save_ap_config-Agree drv ap_lay 0 c fl fl' (omega arith) e).1,
      nvs_load-nvs_save (seen drv ap_lay) c fl fl' e,
    );
  }

  -- After saves in any order that all went through, the last of each kind is what is loaded.
  pub store_all-IsStored :
      (ss : List Save) (l : Last) (fl fl' : Flash)
      → All FitsRoom ss
      → store_all ss fl ≡ (nvs_ok, fl')
      → IsStored l fl
      → IsStored (last_of ss l) fl'
  store_all-IsStored [] l fl fl' fits e h =
      subst (λ f. IsStored l f) (ap (λ (p : NvsErr × Flash). p.1) e) h
  store_all-IsStored (s ∷ ss) l fl fl' fits e h =
      let (mid, first, rest) = then_write-eq-ok drv (store s fl) _ e in
      store_all-IsStored ss (remember s l) mid fl' fits.1 rest
        (store-IsStored s l fl mid fits.0 first h)

  pub no_save-IsStored : (fl : Flash) → IsStored no_save fl
  no_save-IsStored fl = record { networks_stored = tt; vars_stored = tt; ap_stored = tt }
