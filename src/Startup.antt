-- ===== src/Startup.antt =====
-- `wifi_cfg_init` of src/esp_wifi_config.c up to the platform's own bring-up: the checks of the
-- configuration, and what is loaded from flash or taken from the defaults; and
-- `wifi_cfg_prov_validate` of src/esp_wifi_config_prov_ble.c.
pub mod Saves
pub mod Reboot
use esp_wifi_config.Common.{
  ℕ, List, [], ◌∷◌, Option, none, some, Bool, true, false, ◌&&◌, ◌||◌, not, take, ltb, ◌==◌,
  if◌then◌else◌,
}
use esp_wifi_config.Common.Bytes.{Bytes}
use esp_wifi_config.Network.Types.{
  Network, EspErr, esp_ok, invalid_arg, invalid_state, no_mem, max_networks,
}
use esp_wifi_config.Nvs.Driver.{NvsErr, NvsDriver}
use esp_wifi_config.Nvs.{
  wifi_cfg_nvs_load_networks, wifi_cfg_nvs_save_networks, wifi_cfg_nvs_load_vars,
  wifi_cfg_nvs_save_vars,
}
use esp_wifi_config.Nvs.Shared.{Layout, seen}
use esp_wifi_config.Vars.{Var, max_vars}
use esp_wifi_config.SoftAp.{ApConfig, normalize_ap_config, nvs_load_ap_config}
use esp_wifi_config.Provisioning.{HttpMode, http_disabled}

-- `wifi_cfg_prov_security_t`
pub data Security : Type 0 where
  security_default security_0 security_1 security_2 : Security

-- Which versions the platform's build has. The provisioning manager is that of ESP-IDF.
pub record SecurityBuild : Type 0 where
  pub has_0 : Bool
  pub has_1 : Bool
  pub has_2 : Bool

-- The fields that are validated; a pointer is whether it is set.
pub record ProvSettings : Type 0 where
  pub security : Security
  pub security2_salt : Bool
  pub security2_salt_len : ℕ
  pub security2_verifier : Bool
  pub security2_verifier_len : ℕ
  pub manufacturer_data_len : ℕ

-- ESP_ERR_NOT_SUPPORTED besides the codes of the library.
pub data InitErr : Type 0 where
  init_ok not_supported : InitErr
  init_failed : EspErr → InitErr

abbrev pub is_supported : SecurityBuild → Security → Bool
is_supported b security_default = b.has_1
is_supported b security_0 = b.has_0
is_supported b security_1 = b.has_1
is_supported b security_2 = b.has_2

abbrev pub lacks_keys : ProvSettings → Security → Bool
lacks_keys p security_2 =
    not (p.security2_salt && ltb 0 p.security2_salt_len)
    || not (p.security2_verifier && ltb 0 p.security2_verifier_len)
lacks_keys p _ = false

unfoldable pub prov_validate : SecurityBuild → ProvSettings → InitErr
prov_validate b p =
    if not (is_supported b p.security)
    then not_supported
    else if lacks_keys p p.security
    then init_failed invalid_arg
    else if ltb 25 p.manufacturer_data_len
    then init_failed invalid_arg
    else init_ok

-- `wifi_cfg_config_t`, as far as it decides here; the arrays are `none` for a null pointer, and hold
-- the given number of entries.
pub record InitConfig : Type 0 where
  pub default_networks : Option (List Network)
  pub default_vars : Option (List Var)
  pub retry_interval_ms : ℕ
  pub retry_max_interval_ms : ℕ
  pub http_post_prov_mode : HttpMode
  pub default_ap : ApConfig
  pub always_use_ap_defaults : Bool
  pub enable_ap : Bool
  pub user_httpd : Bool
  pub prov_ble : ProvSettings

-- A zeroed `wifi_cfg_ap_config_t`
abbrev pub blank_ap : ApConfig
blank_ap = record {
  ssid = [];
  password = [];
  channel = 0;
  max_connections = 0;
  hidden = false;
  ip = [];
  netmask = [];
  gateway = [];
  dhcp_start = [];
  dhcp_end = [];
}

abbrev pub serves : HttpMode → Bool
serves http_disabled = false
serves _ = true

-- Whether a server is set up: the default configuration does not stand in for a null pointer here.
unfoldable pub need_http : Option InitConfig → Bool
need_http none = false
need_http (some c) = c.enable_ap || serves c.http_post_prov_mode || c.user_httpd

abbrev pub or_loaded : ApConfig → Option ApConfig → ApConfig
or_loaded c none = c
or_loaded c (some loaded) = loaded

-- A default with an SSID is preferred to the built-in one, and to what is on flash if it is always to
-- be used. The built-in one is blank: its password is the empty text.
abbrev pub ap_choice : Option InitConfig → Option ApConfig → ApConfig
ap_choice none loaded = or_loaded blank_ap loaded
ap_choice (some c) loaded = elim c.default_ap.ssid [
  | [] ↦ or_loaded blank_ap loaded
  | _ ∷ _ ↦ if c.always_use_ap_defaults then c.default_ap else or_loaded c.default_ap loaded
]

unfoldable pub initial_ap_config : Option InitConfig → Option ApConfig → ApConfig
initial_ap_config c loaded = normalize_ap_config (ap_choice c loaded)

-- The entries that are loaded, or the defaults, which are saved then.
abbrev pub loaded_or :
    {A F : Type 0} → List A → F → Option (List A) → (List A → F → NvsErr × F) → ℕ → List A × F
loaded_or (x ∷ xs) fl defaults save max_count = (x ∷ xs, fl)
loaded_or [] fl none save max_count = ([], fl)
loaded_or [] fl (some ds) save max_count = (take max_count ds, (save (take max_count ds) fl).1)

abbrev pub found : {A : Type 0} → NvsErr × Option (List A) → List A
found (e, none) = []
found (e, some xs) = xs

abbrev pub networks_of : Option InitConfig → Option (List Network)
networks_of none = none
networks_of (some c) = c.default_networks

abbrev pub vars_of : Option InitConfig → Option (List Var)
vars_of none = none
vars_of (some c) = c.default_vars

-- The configuration in force: WIFI_CFG_DEFAULT_CONFIG() for a null pointer.
abbrev pub in_force : InitConfig → Option InitConfig → InitConfig
in_force defaults none = defaults
in_force defaults (some c) = c

-- One namespace holds the three kinds, each in its own layout.
module _ {Blob : Type 0} (drv : NvsDriver Blob) (net_lay : Layout Network Blob)
    (var_lay : Layout Var Blob) (ap_lay : Layout ApConfig Blob) where
  open drv use {Flash}

  -- `wifi_cfg_ctx_t`, as far as it is filled from the flash and the configuration, and the flash.
  pub record Context : Type 0 where
    pub networks : List Network
    pub vars : List Var
    pub ap_config : ApConfig
    pub flash : Flash
    pub http_wanted : Bool

  unfoldable pub load_networks : Option InitConfig → Flash → List Network × Flash
  load_networks c fl =
      loaded_or (found (wifi_cfg_nvs_load_networks (seen drv net_lay) max_networks fl)) fl
        (networks_of c) (wifi_cfg_nvs_save_networks (seen drv net_lay)) max_networks

  unfoldable pub load_vars : Option InitConfig → Flash → List Var × Flash
  load_vars c fl =
      loaded_or (found (wifi_cfg_nvs_load_vars (seen drv var_lay) max_vars fl)) fl (vars_of c)
        (wifi_cfg_nvs_save_vars (seen drv var_lay)) max_vars

  -- Each of the three is loaded from the flash as the ones before left it.
  unfoldable pub loaded_context : Option InitConfig → Flash → Context
  unfolding load_networks load_vars initial_ap_config need_http
  loaded_context c fl =
      let (ns, fl1) = load_networks c fl in
      let (vs, fl2) = load_vars c fl1 in
      record {
        networks = ns;
        vars = vs;
        ap_config = initial_ap_config c (nvs_load_ap_config (seen drv ap_lay) fl2);
        flash = fl2;
        http_wanted = need_http c;
      }

  -- The context that a start leaves, none if it fails (what it saved of the defaults by then is not
  -- shown); `nvs_ready` is `wifi_cfg_nvs_init`, and
  -- `platform` what comes of the interfaces, the driver and the manager's task.
  abbrev pub brought_up : EspErr → EspErr → Option InitConfig → Flash → InitErr × Option Context
  brought_up esp_ok esp_ok c fl = (init_ok, some (loaded_context c fl))
  brought_up esp_ok e c fl = (init_failed e, none)
  brought_up e platform c fl = (init_failed e, none)

  abbrev pub validated : InitErr → (InitErr × Option Context) → InitErr × Option Context
  validated init_ok go = go
  validated e go = (e, none)

  -- `running` is whether there is a context already, `allocated` whether there is memory for one
  -- with its mutex, semaphore, event group and queue.
  unfoldable pub wifi_cfg_init :
      SecurityBuild
      → InitConfig
      → Bool
      → Bool
      → EspErr
      → EspErr
      → Option InitConfig
      → Flash
      → InitErr × Option Context
  unfolding prov_validate loaded_context
  wifi_cfg_init build defaults running allocated nvs_ready platform c fl =
      let cfg = in_force defaults c in
      if running
      then (init_failed invalid_state, none)
      else if not allocated
      then (init_failed no_mem, none)
      else if cfg.retry_interval_ms == 0 || cfg.retry_max_interval_ms == 0
      then (init_failed invalid_arg, none)
      else validated (prov_validate build cfg.prov_ble) (brought_up nvs_ready platform c fl)
