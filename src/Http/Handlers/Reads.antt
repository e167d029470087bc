-- ===== src/Http/Handlers/Reads.antt =====
-- The handlers of src/esp_wifi_config_http.c that send a document, and the one of the factory reset.
-- The server takes every chunk here, and keeps the body.
use esp_wifi_config.Common.{
  [], ◌∷◌, ◌++◌, List, Option, none, some, Bool, true, false, ◌&&◌, not, if◌then◌else◌,
}
use esp_wifi_config.Common.Bytes.{Bytes, codes}
use esp_wifi_config.Network.Types.{EspErr, esp_ok, max_networks}
use esp_wifi_config.Network.Store.{wifi_cfg_list_networks}
use esp_wifi_config.Wifi.{ScanResult}
use esp_wifi_config.Json.{Sink, write_ok}
use esp_wifi_config.Http.Request.{Request, Reply, send_ok, send_error}
use esp_wifi_config.Http.Documents.{
  Content, status_content, scan_content, networks_content, ap_status_content, ap_config_content,
  vars_content, document, json_response,
}
use esp_wifi_config.Http.Handlers.{
  Surroundings, Site, Served, ManagerCall, call_scan, call_factory_reset, reply_with, granted,
  checked,
}

abbrev pub kept_body : Sink Bytes
kept_body body chunk = (write_ok, body ++ chunk)

abbrev pub send_document : Content → Reply
send_document c = record {
  status = 200;
  challenge = false;
  body = (json_response kept_body (document c) []).1;
}

abbrev pub scan_reply : Option (List ScanResult) → Reply
scan_reply none = send_error 500 (codes "Scan failed")
scan_reply (some results) = send_document (scan_content results)

abbrev pub reset_reply : EspErr → Reply
reset_reply esp_ok = send_ok
reset_reply _ = send_error 500 (codes "Reset failed")

abbrev is_empty : {A : Type 0} → List A → Bool
is_empty [] = true
is_empty (x ∷ xs) = false

module _ (around : Surroundings) where
  open around use {
    network_flash, var_flash, status, ap_status, scanned, reset_answer, has_snapshot_memory,
  }

  abbrev pub Here : Type 0
  Here = Site network_flash.Flash var_flash.Flash

  abbrev pub Done : Type 0
  Done = Served network_flash.Flash var_flash.Flash

  abbrev pub called : ManagerCall → Here → Here
  called call site = record site { calls = site.calls ++ call ∷ [] }

  unfoldable pub handler_get_status : Request → Here → Done
  handler_get_status req site =
      granted (checked around req) req site
        (reply_with (send_document (status_content status)) site req.connection)

  -- The scan is a call, and its answer is that of the driver.
  unfoldable pub handler_get_scan : Request → Here → Done
  handler_get_scan req site =
      granted (checked around req) req site
        (reply_with (scan_reply scanned) (called call_scan site) req.connection)

  unfoldable pub handler_get_networks : Request → Here → Done
  unfolding wifi_cfg_list_networks
  handler_get_networks req site = granted (checked around req) req site (
      let (e, listed) = wifi_cfg_list_networks network_flash (some site.networks) max_networks in
      reply_with (send_document (networks_content listed)) site req.connection)

  unfoldable pub handler_get_ap_status : Request → Here → Done
  handler_get_ap_status req site =
      granted (checked around req) req site
        (reply_with (send_document (ap_status_content ap_status)) site req.connection)

  unfoldable pub handler_get_ap_config : Request → Here → Done
  handler_get_ap_config req site =
      granted (checked around req) req site
        (reply_with (send_document (ap_config_content site.ap_config)) site req.connection)

  -- The variables are copied first, if there are any.
  unfoldable pub handler_get_vars : Request → Here → Done
  handler_get_vars req site = granted (checked around req) req site (
      reply_with
        (if not (is_empty site.vars.vars) && not has_snapshot_memory
          then send_error 500 (codes "Out of memory")
          else send_document (vars_content site.vars.vars))
        site req.connection)

  unfoldable pub handler_post_factory_reset : Request → Here → Done
  handler_post_factory_reset req site =
      granted (checked around req) req site
        (reply_with (reset_reply reset_answer) (called call_factory_reset site) req.connection)
