-- ===== src/SoftAp.antt =====
-- The configuration of the access point: its defaults (src/esp_wifi_config.c), its place on flash
-- (src/esp_wifi_config_nvs.c), and the calls and the name template of src/esp_wifi_config_ap.c.
pub mod Normal
pub mod Template
use esp_wifi_config.Common.{
  ℕ, ◌+◌, ◌-◌, ◌/◌, ◌%◌, List, [], ◌∷◌, ◌++◌, Option, none, some, Bool, true, false, length, take,
  ltb, leb, ◌==◌, if◌then◌else◌,
}
use esp_wifi_config.Common.Bytes.{Bytes, codes}
use esp_wifi_config.Network.Types.{EspErr, esp_ok, invalid_arg}
use esp_wifi_config.Nvs.Driver.{NvsErr, nvs_ok, nvs_not_found, nvs_failed, NvsDriver}
use esp_wifi_config.Nvs.{then_write}

-- `wifi_cfg_ap_config_t`
pub record ApConfig : Type 0 where
  pub ssid : Bytes  -- char[33]
  pub password : Bytes  -- char[64]
  pub channel : ℕ  -- uint8_t
  pub max_connections : ℕ  -- uint8_t
  pub hidden : Bool
  pub ip : Bytes  -- char[16]
  pub netmask : Bytes  -- char[16]
  pub gateway : Bytes  -- char[16]
  pub dhcp_start : Bytes  -- char[16]
  pub dhcp_end : Bytes  -- char[16]

-- A text field that is blank takes its default.
abbrev pub or_blank : Bytes → Bytes → Bytes
or_blank default [] = default
or_blank default (c ∷ s) = c ∷ s

abbrev pub default_ip : Bytes
default_ip = codes "192.168.4.1"

-- The gateway takes the address as it stands by then. The password and the channel are left.
unfoldable pub normalize_ap_config : ApConfig → ApConfig
normalize_ap_config c = record c {
  ssid = or_blank (codes "ESP32-Config") c.ssid;
  max_connections = if c.max_connections == 0 then 4 else c.max_connections;
  ip = or_blank default_ip c.ip;
  netmask = or_blank (codes "255.255.255.0") c.netmask;
  gateway = or_blank (or_blank default_ip c.ip) c.gateway;
  dhcp_start = or_blank (codes "192.168.4.2") c.dhcp_start;
  dhcp_end = or_blank (codes "192.168.4.20") c.dhcp_end;
}

module _ (drv : NvsDriver ApConfig) where
  open drv use {Flash, open_readonly, open_readwrite, get_blob, set_blob, commit}

  -- The configuration that is read; `none` is any error, which leaves the caller's as it was.
  unfoldable pub nvs_load_ap_config : Flash → Option ApConfig
  nvs_load_ap_config fl = elim (open_readonly fl) [
    | nvs_ok ↦ get_blob fl (codes "ap_config")
    | nvs_not_found ↦ none
    | nvs_failed ↦ none
  ]

  unfoldable pub nvs_save_ap_config : ApConfig → Flash → NvsErr × Flash
  nvs_save_ap_config c fl = elim (open_readwrite fl) [
    | nvs_ok ↦ then_write drv (set_blob fl (codes "ap_config") c) commit
    | nvs_not_found ↦ (nvs_not_found, fl)
    | nvs_failed ↦ (nvs_failed, fl)
  ]

  -- The context as these calls use it; `restarts` are the calls of `wifi_cfg_start_ap`.
  pub record ApContext : Type 0 where
    pub ap_config : ApConfig
    pub ap_active : Bool
    pub flash : Flash
    pub restarts : List ApConfig

  abbrev pub restart_if : Bool → ApConfig → ApContext → ApContext
  restart_if true c s = record s { restarts = s.restarts ++ c ∷ [] }
  restart_if false c s = s

  unfoldable pub wifi_cfg_set_ap_config :
      Option ApContext → Option ApConfig → EspErr × Option ApContext
  unfolding nvs_save_ap_config
  wifi_cfg_set_ap_config none c = (invalid_arg, none)
  wifi_cfg_set_ap_config (some s) none = (invalid_arg, some s)
  wifi_cfg_set_ap_config (some s) (some c) = (
    esp_ok,
    some (
        restart_if s.ap_active c
          (record s { ap_config = c; flash = (nvs_save_ap_config c s.flash).1 })),
  )

  unfoldable pub wifi_cfg_get_ap_config : Option ApContext → EspErr × Option ApConfig
  wifi_cfg_get_ap_config none = (invalid_arg, none)
  wifi_cfg_get_ap_config (some s) = (esp_ok, some s.ap_config)

-- `strstr(tmpl, "{id}")`: the texts in front of the placeholder and behind it.
abbrev pub behind_id : Bytes → Option Bytes
behind_id (a ∷ b ∷ c ∷ d ∷ s) =
    if a == b'{'
    then (if b == b'i'
        then (if c == b'd' then (if d == b'}' then some s else none) else none)
        else none)
    else none
behind_id _ = none

unfoldable pub find_id : Bytes → Option (Bytes × Bytes)
find_id [] = none
find_id (c ∷ cs) =
    let later = find_id cs in
    elim (behind_id (c ∷ cs)) [
      | some rest ↦ some ([], rest)
      | none ↦ elim later [ none ↦ none | some (front, rest) ↦ some (c ∷ front, rest) ]
    ]

-- `%02X`
abbrev pub upper_hex : ℕ → ℕ
upper_hex d = if ltb d 10 then b'0' + d else b'A' + (d - 10)

abbrev pub hex_byte : ℕ → Bytes
hex_byte b = upper_hex (b / 16) ∷ upper_hex (b % 16) ∷ []

abbrev pub mac_suffix : ℕ → ℕ → ℕ → Bytes
mac_suffix m3 m4 m5 = hex_byte m3 ++ (hex_byte m4 ++ hex_byte m5)

-- What stands in the buffer behind the prefix: `snprintf` with the room that is left.
abbrev pub expanded : Bytes → ℕ → Option (Bytes × Bytes) → Bytes → Bytes
expanded tmpl max_len none suffix = take (max_len - 1) tmpl
expanded tmpl max_len (some (front, rest)) suffix =
    let prefix_len = if leb max_len (length front) then max_len - 1 else length front in
    take prefix_len tmpl ++ take (max_len - prefix_len - 1) (suffix ++ rest)

-- The last three bytes of the MAC address are given.
unfoldable pub wifi_cfg_expand_template : ℕ → ℕ → ℕ → Bytes → ℕ → Bytes
unfolding find_id
wifi_cfg_expand_template m3 m4 m5 tmpl max_len =
    expanded tmpl max_len (find_id tmpl) (mac_suffix m3 m4 m5)
