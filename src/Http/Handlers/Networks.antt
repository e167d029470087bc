-- ===== src/Http/Handlers/Networks.antt =====
-- The handlers of src/esp_wifi_config_http.c that change the saved networks.
pub mod Promised
use esp_wifi_config.Common.{ℕ, ◌%◌, [], Option, none, some, take}
use esp_wifi_config.Common.Bytes.{Bytes, codes}
use esp_wifi_config.Network.Types.{Network, EspErr, esp_ok, invalid_state, not_found}
use esp_wifi_config.Network.Store.{Store, add_network, update_network, remove_network}
use esp_wifi_config.Network.Store.Upsert.{upsert}
use esp_wifi_config.Http.Body.{Connection, JsonReader}
use esp_wifi_config.Http.Request.{Request, Reply, send_ok, send_error, uri_path_param}
use esp_wifi_config.Http.Handlers.{
  Surroundings, Site, Served, reply_with, granted, with_param, with_json, body_of, checked,
  json_copy_str, as_uint8,
}

-- What the reply says of a result.
abbrev pub added_reply : EspErr → Reply
added_reply esp_ok = send_ok
added_reply _ = send_error 400 (codes "Failed")

abbrev pub updated_reply : EspErr → Reply
updated_reply esp_ok = send_ok
updated_reply not_found = send_error 404 (codes "Not found")
updated_reply _ = send_error 400 (codes "Failed")

abbrev pub removed_reply : EspErr → Reply
removed_reply not_found = send_error 404 (codes "Not found")
removed_reply _ = send_ok

module _ (around : Surroundings) where
  open around use {reader, network_flash, var_flash}
  open reader use {Json, string_item, number_item}

  abbrev NetworkFlash : Type 0
  NetworkFlash = network_flash.Flash

  abbrev VarFlash : Type 0
  VarFlash = var_flash.Flash

  -- The record that a request is for: it starts as zeros, so a field that the document lacks is
  -- empty.
  abbrev pub network_from : Bytes → Json → Network
  network_from ssid json = record {
    ssid = take 32 ssid;
    password = json_copy_str (string_item json (codes "password")) 64 [];
    priority = as_uint8 (number_item json (codes "priority")) 0;
  }

  abbrev pub reply_networks :
      (EspErr → Reply)
      → EspErr × Store NetworkFlash
      → Site NetworkFlash VarFlash
      → Connection
      → Served NetworkFlash VarFlash
  reply_networks say (r, s) site c = reply_with (say r) (record site { networks = s }) c

  abbrev pub post_json :
      Site NetworkFlash VarFlash → Json → Option Bytes → Connection → Served NetworkFlash VarFlash
  post_json site json none c = reply_with (send_error 400 (codes "Missing ssid")) site c
  post_json site json (some ssid) c =
      reply_networks added_reply (upsert network_flash (network_from ssid json) site.networks) site
        c

  unfoldable pub handler_post_networks :
      Request → Site NetworkFlash VarFlash → Served NetworkFlash VarFlash
  handler_post_networks req site = granted (checked around req) req site (
      with_json (body_of around req) site
        (λ json c. post_json site json (string_item json (codes "ssid")) c))

  unfoldable pub handler_delete_network :
      Request → Site NetworkFlash VarFlash → Served NetworkFlash VarFlash
  handler_delete_network req site = granted (checked around req) req site (
      with_param (uri_path_param (codes "ssid") 33 req.uri) req site (λ ssid.
        reply_networks removed_reply (remove_network network_flash ssid site.networks) site
          req.connection))

  unfoldable pub handler_put_network :
      Request → Site NetworkFlash VarFlash → Served NetworkFlash VarFlash
  handler_put_network req site = granted (checked around req) req site (
      with_param (uri_path_param (codes "ssid") 33 req.uri) req site (λ ssid.
        with_json (body_of around req) site (λ json c.
          reply_networks updated_reply
            (update_network network_flash (network_from ssid json) site.networks) site c)))
