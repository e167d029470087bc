-- ===== src/Http/Handlers/Device.antt =====
-- The handlers of src/esp_wifi_config_http.c that change the variables and the connection: what they
-- ask of the manager and the access point is the list of calls.
use esp_wifi_config.Common.{[], ◌∷◌, ◌++◌, Option, none, some}
use esp_wifi_config.Common.Bytes.{Bytes, codes}
use esp_wifi_config.Network.Types.{EspErr, esp_ok, not_found}
use esp_wifi_config.Vars.{VarStore, set_var, del_var}
use esp_wifi_config.Http.Body.{Connection}
use esp_wifi_config.Http.Request.{Request, Reply, send_ok, send_error, uri_path_param}
use esp_wifi_config.Http.Handlers.{
  Surroundings, Site, Served, ManagerCall, call_connect, call_start_ap, call_set_ap_config,
  call_disconnect, call_stop_ap, reply_with, granted, with_param, with_json, body_of, checked,
  json_copy_str, as_uint8, or_bool,
}
use esp_wifi_config.SoftAp.{ApConfig}

abbrev pub set_reply : EspErr → Reply
set_reply esp_ok = send_ok
set_reply _ = send_error 400 (codes "var_invalid")

abbrev pub deleted_reply : EspErr → Reply
deleted_reply not_found = send_error 404 (codes "Not found")
deleted_reply _ = send_ok

module _ (around : Surroundings) where
  open around use {reader, network_flash, var_flash, validator}
  open reader use {Json, string_item, number_item, bool_item}

  abbrev NetworkFlash : Type 0
  NetworkFlash = network_flash.Flash

  abbrev VarFlash : Type 0
  VarFlash = var_flash.Flash

  abbrev pub reply_vars :
      (EspErr → Reply)
      → EspErr × VarStore VarFlash
      → Site NetworkFlash VarFlash
      → Connection
      → Served NetworkFlash VarFlash
  reply_vars say (r, s) site c = reply_with (say r) (record site { vars = s }) c

  abbrev pub put_value :
      Bytes → Site NetworkFlash VarFlash → Option Bytes → Connection → Served NetworkFlash VarFlash
  put_value key site none c = reply_with (send_error 400 (codes "Missing value")) site c
  put_value key site (some value) c =
      reply_vars set_reply (set_var var_flash validator key value site.vars) site c

  unfoldable pub handler_put_var :
      Request → Site NetworkFlash VarFlash → Served NetworkFlash VarFlash
  handler_put_var req site = granted (checked around req) req site (
      with_param (uri_path_param (codes "key") 32 req.uri) req site (λ key.
        with_json (body_of around req) site
          (λ json c. put_value key site (string_item json (codes "value")) c)))

  unfoldable pub handler_delete_var :
      Request → Site NetworkFlash VarFlash → Served NetworkFlash VarFlash
  handler_delete_var req site = granted (checked around req) req site (
      with_param (uri_path_param (codes "key") 32 req.uri) req site
        (λ key. reply_vars deleted_reply (del_var var_flash key site.vars) site req.connection))

  -- A handler that makes one call and is done.
  abbrev pub done_with :
      ManagerCall → Site NetworkFlash VarFlash → Connection → Served NetworkFlash VarFlash
  done_with call site c = reply_with send_ok (record site { calls = site.calls ++ call ∷ [] }) c

  abbrev pub named_ssid : Option Json → Option Bytes
  named_ssid none = none
  named_ssid (some json) = string_item json (codes "ssid")

  unfoldable pub handler_post_connect :
      Request → Site NetworkFlash VarFlash → Served NetworkFlash VarFlash
  handler_post_connect req site =
      granted (checked around req) req site
        (let (json, c) = body_of around req in done_with (call_connect (named_ssid json)) site c)

  unfoldable pub handler_post_disconnect :
      Request → Site NetworkFlash VarFlash → Served NetworkFlash VarFlash
  handler_post_disconnect req site =
      granted (checked around req) req site (done_with call_disconnect site req.connection)

  -- The settings with what the document carries written over them.
  abbrev pub patched : Json → ApConfig → ApConfig
  patched json ap = record {
    ssid = json_copy_str (string_item json (codes "ssid")) 33 ap.ssid;
    password = json_copy_str (string_item json (codes "password")) 64 ap.password;
    channel = as_uint8 (number_item json (codes "channel")) ap.channel;
    max_connections = as_uint8 (number_item json (codes "max_connections")) ap.max_connections;
    hidden = or_bool (bool_item json (codes "hidden")) ap.hidden;
    ip = json_copy_str (string_item json (codes "ip")) 16 ap.ip;
    netmask = json_copy_str (string_item json (codes "netmask")) 16 ap.netmask;
    gateway = json_copy_str (string_item json (codes "gateway")) 16 ap.gateway;
    dhcp_start = json_copy_str (string_item json (codes "dhcp_start")) 16 ap.dhcp_start;
    dhcp_end = json_copy_str (string_item json (codes "dhcp_end")) 16 ap.dhcp_end;
  }

  unfoldable pub handler_put_ap_config :
      Request → Site NetworkFlash VarFlash → Served NetworkFlash VarFlash
  handler_put_ap_config req site = granted (checked around req) req site (
      with_json (body_of around req) site
        (λ json c. done_with (call_set_ap_config (patched json site.ap_config)) site c))

  abbrev pub start_config : ApConfig → Option Json → Option ApConfig
  start_config ap none = none
  start_config ap (some json) = some (record ap {
    ssid = json_copy_str (string_item json (codes "ssid")) 33 ap.ssid;
    password = json_copy_str (string_item json (codes "password")) 64 ap.password;
  })

  unfoldable pub handler_post_ap_start :
      Request → Site NetworkFlash VarFlash → Served NetworkFlash VarFlash
  handler_post_ap_start req site = granted (checked around req) req site (
      let (json, c) = body_of around req in
      done_with (call_start_ap (start_config site.ap_config json)) site c)

  unfoldable pub handler_post_ap_stop :
      Request → Site NetworkFlash VarFlash → Served NetworkFlash VarFlash
  handler_post_ap_stop req site =
      granted (checked around req) req site (done_with call_stop_ap site req.connection)
