-- ===== src/Http/Handlers/Networks/Promised.antt =====
-- What the handlers of the saved networks come to, for a request that the access check lets through:
-- the finite map of Network.Store.Map behind them changes as the method says.
use esp_wifi_config.Common.{◌≡◌, ◌≢◌, ◌<◌, ap, [], ◌∷◌, ◌++◌, none, some, false, length}
use esp_wifi_config.Common.Bytes.{Bytes, codes, IsCString}
use esp_wifi_config.Network.Types.{EspErr}
use esp_wifi_config.Network.Store.Valid.{IsValid}
use esp_wifi_config.Network.Store.Map.{
  Saved, view, promised, update, forget, update-promised, forget-promised,
}
use esp_wifi_config.Network.Store.Upsert.{upserted, upsert-upserted}
use esp_wifi_config.Uri.Encode.{Encoder, percent_encode}
use esp_wifi_config.Http.Request.{Request, Reply}
use esp_wifi_config.Http.Request.Encoded.{uri_path_param-percent_encode}
use esp_wifi_config.Http.Handlers.{Surroundings, Site, Served, checked}
use esp_wifi_config.Http.Handlers.Sends.{Sends, sent_body, body_of-sent}
use esp_wifi_config.Http.Handlers.Networks.{
  added_reply, updated_reply, removed_reply, network_from, handler_post_networks,
  handler_delete_network, handler_put_network,
}

-- What a reply tells of a result.
abbrev pub told : (EspErr → Reply) → EspErr × Saved → Reply × Saved
told say (r, m) = (say r, m)

module _ (around : Surroundings) where
  open around use {reader, network_flash, var_flash}
  open reader use {Json, string_item}

  abbrev Here : Type 0
  Here = Site network_flash.Flash var_flash.Flash

  -- What a client finds behind a request: the reply, and the networks that are then saved.
  abbrev pub outcome : Served network_flash.Flash var_flash.Flash → Reply × Saved
  outcome r = (r.reply, view r.site.networks)

  -- A client that POSTs to /networks a document with a string "ssid", in pieces of any size, gets
  -- an upsert: a saved network of this name (its first 32 bytes) is replaced, and another one is
  -- added while there is room; a sixth one is refused with 400 and changes nothing. The password
  -- (63 bytes at most) and the priority (mod 256) are those of the document, or empty and 0. The
  -- request is read to its end.
  pub post_networks-upserts :
      (req : Request) (site : Here) (body rest : Bytes) (json : Json) (ssid : Bytes)
      → checked around req ≡ none
      → Sends around req body rest json
      → string_item json (codes "ssid") ≡ some ssid
      → let r = handler_post_networks around req site in
        (outcome r
          ≡ told added_reply (upserted (network_from around ssid json) (view site.networks)))
        × (r.connection.stream ≡ rest)
  unfolding handler_post_networks
  post_networks-upserts req site body rest json ssid pass sent field =
      rw (pass, body_of-sent around sent, field)
        (
          ap (told added_reply)
              (upsert-upserted network_flash (network_from around ssid json) site.networks),
          (sent_body around sent).0,
        )

  -- A client that DELETEs the path of a name, percent-encoded by any encoder that escapes the slash,
  -- removes exactly the network of that name, or is told 404 if there is none and changes nothing:
  -- so for every name of 1 to 32 bytes, if no name stands twice among the saved networks.
  pub delete_network-forgets :
      (e : Encoder) (req : Request) (site : Here) (front ssid : Bytes)
      → e.keep b'/' ≡ false
      → IsCString ssid
      → ssid ≢ []
      → length ssid < 33
      → IsValid site.networks
      → checked around req ≡ none
      → req.uri ≡ front ++ b'/' ∷ percent_encode e ssid
      → outcome (handler_delete_network around req site)
        ≡ told removed_reply (promised (forget ssid) (view site.networks))
  unfolding handler_delete_network
  delete_network-forgets e req site front ssid slash string some_byte fits valid pass path =
      rw
        (
          pass,
          path,
          uri_path_param-percent_encode e slash (codes "ssid") front ssid 33 string some_byte fits,
        )
        (ap (told removed_reply) (forget-promised network_flash ssid site.networks valid))

  -- A client that PUTs a document to the path of a name, percent-encoded by any encoder that escapes
  -- the slash, replaces the network of that name by the document's password and priority, or is told
  -- 404 if there is none and changes nothing. A field that the document lacks is not kept but made
  -- empty, or 0. The request is read to its end.
  pub put_network-updates :
      (e : Encoder) (req : Request) (site : Here) (front ssid body rest : Bytes) (json : Json)
      → e.keep b'/' ≡ false
      → IsCString ssid
      → ssid ≢ []
      → length ssid < 33
      → checked around req ≡ none
      → req.uri ≡ front ++ b'/' ∷ percent_encode e ssid
      → Sends around req body rest json
      → let r = handler_put_network around req site in
        (outcome r
          ≡ told updated_reply
              (promised (update (network_from around ssid json)) (view site.networks)))
        × (r.connection.stream ≡ rest)
  unfolding handler_put_network
  put_network-updates e req site front ssid body rest json slash string some_byte fits pass path
        sent =
      rw
        (
          pass,
          path,
          uri_path_param-percent_encode e slash (codes "ssid") front ssid 33 string some_byte fits,
          body_of-sent around sent,
        )
        (
          ap (told updated_reply)
              (update-promised network_flash (network_from around ssid json) site.networks),
          (sent_body around sent).0,
        )
