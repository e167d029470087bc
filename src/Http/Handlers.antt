-- ===== src/Http/Handlers.antt =====
-- The handlers of src/esp_wifi_config_http.c. What they ask of the manager, the driver and the access
-- point is kept as a list of calls; the answers that they read of these are among the surroundings.
pub mod Networks
pub mod Sends
pub mod Device
pub mod Reads
use esp_wifi_config.Common.{
  ℕ, ◌-◌, ◌%◌, List, [], ◌∷◌, ◌++◌, Option, none, some, Bool, true, false, take, if◌then◌else◌,
}
use esp_wifi_config.Common.Bytes.{Bytes, codes}
use esp_wifi_config.Network.Types.{Network, EspErr, esp_ok, invalid_state, not_found}
use esp_wifi_config.Network.Store.{Store, add_network, update_network, remove_network}
use esp_wifi_config.SoftAp.{ApConfig}
use esp_wifi_config.Vars.{Var, VarStore, set_var, del_var}
use esp_wifi_config.Nvs.Driver.{NvsDriver, NvsErr, nvs_ok, nvs_not_found, nvs_failed}
use esp_wifi_config.Nvs.{wifi_cfg_nvs_factory_reset}
use esp_wifi_config.Http.Body.{Connection, JsonReader, read_json_body}
use esp_wifi_config.Http.Request.{
  Request, Reply, send_ok, send_error, Param, param, bad, uri_path_param,
}
use esp_wifi_config.Wifi.{ScanResult}
use esp_wifi_config.Http.Documents.{Status, ApStatus}
use esp_wifi_config.Http.Access.{AccessConfig, check_api_access}

pub data ManagerCall : Type 0 where
  call_connect : Option Bytes → ManagerCall
  call_start_ap : Option ApConfig → ManagerCall
  call_set_ap_config : ApConfig → ManagerCall
  call_disconnect call_stop_ap call_scan call_factory_reset : ManagerCall

-- What the handlers work on: the saved networks, the variables, the configuration of the access
-- point, and the calls made.
pub record Site (F G : Type 0) : Type 0 where
  pub networks : Store F
  pub vars : VarStore G
  pub ap_config : ApConfig
  pub calls : List ManagerCall

pub record Served (F G : Type 0) : Type 0 where
  pub reply : Reply
  pub site : Site F G
  pub connection : Connection

-- The handlers' surroundings: cJSON, the flash as the two stores use it, the access check with
-- Base64, the validator of variables, the status of the device and of its access point, what a scan
-- finds (`none` if it fails), what `wifi_cfg_factory_reset` returns, and whether there is memory for a
-- copy of the variables.
pub record Surroundings : Type 1 where
  pub reader : JsonReader
  pub network_flash : NvsDriver Network
  pub var_flash : NvsDriver Var
  pub access : AccessConfig
  pub base64_decode : Bytes → Option Bytes
  pub validator : Option (Bytes → Bytes → Bool)
  pub status : Status
  pub ap_status : ApStatus
  pub scanned : Option (List ScanResult)
  pub reset_answer : EspErr
  pub has_snapshot_memory : Bool

-- `json_copy_str` into an array of `size` bytes
abbrev pub json_copy_str : Option Bytes → ℕ → Bytes → Bytes
json_copy_str none size dst = dst
json_copy_str (some s) size dst = take (size - 1) s

abbrev pub as_uint8 : Option ℕ → ℕ → ℕ
as_uint8 none old = old
as_uint8 (some n) old = n % 256

abbrev pub or_bool : Option Bool → Bool → Bool
or_bool none old = old
or_bool (some b) old = b

module _ {F G : Type 0} where
  abbrev pub reply_with : Reply → Site F G → Connection → Served F G
  reply_with r site c = record { reply = r; site = site; connection = c }

  -- A handler's first lines: a request that the access check refuses goes no further.
  abbrev pub granted : Option Reply → Request → Site F G → Served F G → Served F G
  granted (some refusal) req site go = reply_with refusal site req.connection
  granted none req site go = go

  -- The parameter of the path is read next, where the path has one.
  abbrev pub with_param : Param → Request → Site F G → (Bytes → Served F G) → Served F G
  with_param (bad r) req site go = reply_with r site req.connection
  with_param (param text) req site go = go text

  abbrev pub with_json :
      {Json : Type 0}
      → Option Json × Connection
      → Site F G
      → (Json → Connection → Served F G)
      → Served F G
  with_json (none, c) site go = reply_with (send_error 400 (codes "Invalid JSON")) site c
  with_json (some json, c) site go = go json c

module _ (around : Surroundings) where
  open around use {reader, access, base64_decode}
  open reader use {Json}

  abbrev pub body_of : Request → Option Json × Connection
  body_of req = read_json_body reader req.allocated req.content_len req.connection

  abbrev pub checked : Request → Option Reply
  checked req = check_api_access access base64_decode req
