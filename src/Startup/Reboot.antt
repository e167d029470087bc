-- ===== src/Startup/Reboot.antt =====
-- A device that starts again finds what it saved.
use mathlib.Core.Path.{subst}
use esp_wifi_config.Common.{
  ℕ, ◌≡◌, ◌≢◌, refl, ap, ◌∙◌, List, [], ◌∷◌, Option, some, Bool, true, false, ◌||◌, ◌==◌, All,
  if◌then◌else◌, arith,
}
use esp_wifi_config.Common.Bytes.{Bytes}
use esp_wifi_config.Network.Types.{Network, esp_ok, max_networks}
use esp_wifi_config.Nvs.Driver.{NvsErr, nvs_ok, NvsDriver}
use esp_wifi_config.Nvs.{
  wifi_cfg_nvs_save_networks, wifi_cfg_nvs_load_networks, wifi_cfg_nvs_save_vars,
  wifi_cfg_nvs_load_vars,
}
use esp_wifi_config.Nvs.Shared.{Layout, seen}
use esp_wifi_config.Vars.{Var, max_vars}
use esp_wifi_config.SoftAp.{ApConfig, normalize_ap_config, nvs_load_ap_config}
use esp_wifi_config.Startup.{
  SecurityBuild, InitConfig, InitErr, init_ok, prov_validate, ap_choice, initial_ap_config,
  loaded_or, networks_of, vars_of, need_http, Context, load_networks, load_vars, loaded_context,
  validated, wifi_cfg_init,
}
use esp_wifi_config.Startup.Saves.{
  Save, FitsRoom, no_save, last_of, store_all, IsStored, store_all-IsStored, no_save-IsStored,
}

if-false : {A : Type 0} (b : Bool) (x y : A) → b ≡ false → (if b then x else y) ≡ y
if-false b x y h = rw h

found_kept :
    {A F : Type 0} (xs : List A) (fl : F) (defaults : Option (List A))
    (save : List A → F → NvsErr × F) (n : ℕ)
    → xs ≢ []
    → loaded_or xs fl defaults save n ≡ (xs, fl)
found_kept [] fl defaults save n h = absurd (h refl)
found_kept (x ∷ xs) fl defaults save n h = refl

-- A configuration that is fit to start with.
pub record Fit (build : SecurityBuild) (cfg : InitConfig) : Type 0 where
  pub interval : cfg.retry_interval_ms ≢ 0
  pub max_interval : cfg.retry_max_interval_ms ≢ 0
  pub secure : prov_validate build cfg.prov_ble ≡ init_ok

ap_choice-saved :
    (cfg : InitConfig) (c : ApConfig)
    → cfg.always_use_ap_defaults ≡ false
    → ap_choice (some cfg) (some c) ≡ c
ap_choice-saved cfg c h = by_ssid cfg.default_ap.ssid
  where
    by_ssid :
        (ssid : Bytes)
        → elim ssid as (λ _. ApConfig) [
          | [] ↦ c
          | _ ∷ _ ↦ if cfg.always_use_ap_defaults then cfg.default_ap else c
        ]
          ≡ c
    by_ssid [] = refl
    by_ssid (b ∷ ssid) = if-false cfg.always_use_ap_defaults cfg.default_ap c h

module _ {Blob : Type 0} (drv : NvsDriver Blob) (net_lay : Layout Network Blob)
    (var_lay : Layout Var Blob) (ap_lay : Layout ApConfig Blob) where
  open drv use {Flash}

  load_networks-stored :
      (c : Option InitConfig) (ns : List Network) (fl : Flash)
      → ns ≢ []
      → wifi_cfg_nvs_load_networks (seen drv net_lay) max_networks fl ≡ (nvs_ok, some ns)
      → load_networks drv net_lay var_lay ap_lay c fl ≡ (ns, fl)
  unfolding load_networks
  load_networks-stored c ns fl some_net stored = rw stored (
      found_kept ns fl (networks_of c) (wifi_cfg_nvs_save_networks (seen drv net_lay)) max_networks
        some_net)

  load_vars-stored :
      (c : Option InitConfig) (vs : List Var) (fl : Flash)
      → vs ≢ []
      → wifi_cfg_nvs_load_vars (seen drv var_lay) max_vars fl ≡ (nvs_ok, some vs)
      → load_vars drv net_lay var_lay ap_lay c fl ≡ (vs, fl)
  unfolding load_vars
  load_vars-stored c vs fl some_var stored =
      rw stored
        (found_kept vs fl (vars_of c) (wifi_cfg_nvs_save_vars (seen drv var_lay)) max_vars some_var)

  init_checked :
      (build : SecurityBuild) (defaults cfg : InitConfig) (fl : Flash)
      → Fit build cfg
      → wifi_cfg_init drv net_lay var_lay ap_lay build defaults false true esp_ok esp_ok
          (some cfg)
          fl
        ≡ (init_ok, some (loaded_context drv net_lay var_lay ap_lay (some cfg) fl))
  unfolding wifi_cfg_init
  init_checked build defaults cfg fl fit =
      let usable : (cfg.retry_interval_ms == 0 || cfg.retry_max_interval_ms == 0) ≡ false =
        ground (arith, fit.interval, fit.max_interval) in
      if-false (cfg.retry_interval_ms == 0 || cfg.retry_max_interval_ms == 0) _ _ usable
      ∙ ap
          (λ (e : InitErr).
            validated drv net_lay var_lay ap_lay e
              (init_ok, some (loaded_context drv net_lay var_lay ap_lay (some cfg) fl)))
          fit.secure

  loaded_context-stored :
      (cfg : InitConfig) (ns : List Network) (vs : List Var) (c : ApConfig) (fl : Flash)
      → cfg.always_use_ap_defaults ≡ false
      → ns ≢ []
      → vs ≢ []
      → wifi_cfg_nvs_load_networks (seen drv net_lay) max_networks fl ≡ (nvs_ok, some ns)
      → wifi_cfg_nvs_load_vars (seen drv var_lay) max_vars fl ≡ (nvs_ok, some vs)
      → nvs_load_ap_config (seen drv ap_lay) fl ≡ some c
      → loaded_context drv net_lay var_lay ap_lay (some cfg) fl ≡ record {
        networks = ns;
        vars = vs;
        ap_config = normalize_ap_config c;
        flash = fl;
        http_wanted = need_http (some cfg);
      }
  unfolding loaded_context initial_ap_config normalize_ap_config
  loaded_context-stored cfg ns vs c fl own some_net some_var nets vars config =
      let chosen : ap_choice (some cfg) (nvs_load_ap_config (seen drv ap_lay) fl) ≡ c =
        ap (ap_choice (some cfg)) config ∙ ap_choice-saved cfg c own in
      rw (load_networks-stored (some cfg) ns fl some_net nets)
        (rw (load_vars-stored (some cfg) vs fl some_var vars) (rw chosen refl))

  -- A start with a fit configuration, on flash whose one namespace was written by any saves of
  -- networks, variables and the access point's configuration, in any order and on whatever it held
  -- before, which all went through, comes up with exactly what was saved last of each of the three,
  -- whatever its defaults are, and leaves the flash as it was; the access point's blank fields have
  -- their documented values. Each list has as many entries as there is room for at most, each of
  -- the three was saved, the last networks and the last variables are not empty, and the
  -- configuration does not ask for the defaults of the access point always.
  pub wifi_cfg_init-reboot :
      (build : SecurityBuild) (defaults cfg : InitConfig) (saves : List Save) (ns : List Network)
      (vs : List Var) (c : ApConfig) (old fl : Flash)
      → Fit build cfg
      → cfg.always_use_ap_defaults ≡ false
      → All FitsRoom saves
      → store_all drv net_lay var_lay ap_lay saves old ≡ (nvs_ok, fl)
      → last_of saves no_save
        ≡ record { last_networks = some ns; last_vars = some vs; last_ap = some c }
      → ns ≢ []
      → vs ≢ []
      → wifi_cfg_init drv net_lay var_lay ap_lay build defaults false true esp_ok esp_ok
          (some cfg)
          fl
        ≡ (
          init_ok,
          some (record {
            networks = ns;
            vars = vs;
            ap_config = normalize_ap_config c;
            flash = fl;
            http_wanted = need_http (some cfg);
          }),
        )
  wifi_cfg_init-reboot build defaults cfg saves ns vs c old fl fit own room saved last some_net
        some_var =
      let held =
        store_all-IsStored drv net_lay var_lay ap_lay saves no_save old fl room saved
          (no_save-IsStored drv net_lay var_lay ap_lay old) in
      let stored = subst (λ l. IsStored drv net_lay var_lay ap_lay l fl) last held in
      init_checked build defaults cfg fl fit
      ∙ ap (λ (x : Context drv net_lay var_lay ap_lay). (init_ok, some x))
          (loaded_context-stored cfg ns vs c fl own some_net some_var stored.networks_stored.1
            stored.vars_stored.1 stored.ap_stored.1)
