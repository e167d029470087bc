-- ===== src/Http/Documents/Delivered.antt =====
-- The documents nest little, and arrive whole.
use esp_wifi_config.Common.{
  ℕ, ◌^◌, ◌<◌, ◌≡◌, ◌∙◌, zero, suc, min, append-nil, List, [], ◌∷◌, ◌++◌, map, none, some, true,
  take, arith, All,
}
use esp_wifi_config.Common.Bytes.{Bytes, codes}
use esp_wifi_config.Network.Types.{Network, max_networks}
use esp_wifi_config.Vars.{Var}
use esp_wifi_config.Wifi.{ScanResult}
use esp_wifi_config.Json.{Sink, write_ok, json_max_depth, json_init, json_finish}
use esp_wifi_config.Json.Raw.{Accepts}
use esp_wifi_config.Json.Document.{Value, print, emit, Writable, WritableMembers, WritableItems}
use esp_wifi_config.Json.Finish.{emit_streamed}
use esp_wifi_config.Http.Documents.{
  Content, status_content, scan_content, networks_content, ap_status_content, ap_config_content,
  vars_content, document, items, listing, scan_item, network_item, client_item, var_item,
  status_document, scan_document, networks_document, ap_status_document, ap_config_document,
  vars_document, json_response, scratch_size,
}

-- The numbers of a content have the widths of their C types.
abbrev pub Sized : Content → Type 0
Sized (status_content s) =
    (s.rssi < 256) × (s.quality < 256) × (s.channel < 256) × (s.uptime_ms < 2 ^ 32)
Sized (scan_content rs) = All (λ (r : ScanResult). r.rssi < 256) rs
Sized (networks_content ns) = All (λ (n : Network). n.priority < 256) ns
Sized (ap_status_content s) = (s.channel < 256) × (s.sta_count < 256)
Sized (ap_config_content c) = (c.channel < 256) × (c.max_connections < 256)
Sized (vars_content vs) = Unit

items-Writable :
    {A : Type 0} (f : A → Value) (P : A → Type 0) (d : ℕ)
    → ((x : A) → P x → Writable d (f x))
    → (xs : List A) → All P xs
    → WritableItems d (items (map f xs))
unfolding WritableItems
items-Writable f P d each [] h = tt
items-Writable f P d each (x ∷ xs) h = (each x h.0, items-Writable f P d each xs h.1)

All-any : {A : Type 0} (xs : List A) → All (λ x. Unit {0}) xs
All-any [] = tt
All-any (x ∷ xs) = (tt, All-any xs)

All-take : {A : Type 0} (P : A → Type 0) (n : ℕ) (xs : List A) → All P xs → All P (take n xs)
All-take P zero xs h = tt
All-take P (suc n) [] h = tt
All-take P (suc n) (x ∷ xs) h = (h.0, All-take P n xs h.1)

listing-Writable :
    {A : Type 0} (key : Bytes) (f : A → Value) (P : A → Type 0)
    → ((x : A) → P x → Writable 6 (f x))
    → (xs : List A) → All P xs
    → Writable json_max_depth (listing key (map f xs))
unfolding Writable WritableMembers
listing-Writable key f P each xs h =
    (omega arith, ((omega arith, items-Writable f P 6 each xs h), tt))

scan_item-Writable : (r : ScanResult) → r.rssi < 256 → Writable 6 (scan_item r)
unfolding Writable WritableMembers
scan_item-Writable r h = ground arith

network_item-Writable : (n : Network) → n.priority < 256 → Writable 6 (network_item n)
unfolding Writable WritableMembers
network_item-Writable n h = ground arith

client_item-Writable : (c : Bytes × Bytes) → Unit {0} → Writable 6 (client_item c)
unfolding Writable WritableMembers
client_item-Writable (mac, ip) h = ground arith

var_item-Writable : (v : Var) → Unit {0} → Writable 6 (var_item v)
unfolding Writable WritableMembers
var_item-Writable v h = ground arith

document-Writable : (c : Content) → Sized c → Writable json_max_depth (document c)
unfolding document status_document scan_document networks_document ap_status_document
    ap_config_document vars_document Writable WritableMembers
document-Writable (status_content s) h = ground arith
document-Writable (scan_content rs) h =
    listing-Writable (codes "networks") scan_item _ scan_item-Writable rs h
document-Writable (networks_content ns) h =
    listing-Writable (codes "networks") network_item _ network_item-Writable (take max_networks ns)
      (All-take _ max_networks ns h)
document-Writable (ap_status_content s) h =
    let written =
      items-Writable client_item _ 6 client_item-Writable (take (min s.sta_count 4) s.clients)
        (All-any _) in
    ground arith
document-Writable (ap_config_content c) h = ground arith
document-Writable (vars_content vs) h =
    listing-Writable (codes "vars") var_item _ var_item-Writable vs (All-any vs)

-- A server that takes every chunk has been given, behind the last one, exactly the JSON text of the
-- document that the GET request asks for, whichever of the six it is and however long, and the
-- handler reports no error.
pub json_response_delivers :
    {Ctx : Type 0} (send_chunk : Sink Ctx) (log : Ctx → Bytes)
    → Accepts (some send_chunk) log
    → (c : Content) (req : Ctx) → Sized c
    → let (r, after) = json_response send_chunk (document c) req in
      (r ≡ write_ok) × (log after ≡ log req ++ print (document c))
unfolding json_response
json_response_delivers send_chunk log accepts c req sized =
    let w =
      json_finish (some send_chunk)
        (emit (some send_chunk) none (document c) (json_init true scratch_size req)) in
    let (fine, whole) =
      emit_streamed send_chunk log accepts (document c) scratch_size req (omega arith)
        (document-Writable c sized) in
    let (sent, last) = accepts w.ctx [] in (rw fine sent, last ∙ append-nil (log w.ctx) ∙ whole)
