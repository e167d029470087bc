-- ===== src/Tests/Web.antt =====
-- Requests to the HTTP server on concrete inputs.
use esp_wifi_config.Common.{
  ℕ, ◌≡◌, ◌↔◌, ◌⊎◌, ◌||◌, not, ltb, leb, ◌==◌, length, if◌then◌else◌, refl, List, [], ◌∷◌, ◌++◌,
  Option, none, some, true, false, arith,
}
use esp_wifi_config.Common.Bytes.{Bytes, codes, str_eq}
use esp_wifi_config.Network.Types.{Network}
use esp_wifi_config.Network.Store.Map.{view, promised, update, forget}
use esp_wifi_config.Network.Store.Upsert.{upserted}
use esp_wifi_config.Network.Store.Valid.{IsValid}
use esp_wifi_config.Table.{find}
use esp_wifi_config.Vars.{Var}
use esp_wifi_config.Json.Document.{print, str_value, array, no_items, item}
use esp_wifi_config.Uri.Encode.{percent_encode}
use esp_wifi_config.Http.Body.{
  http_max_content, max_nesting, Connection, JsonReader, parse_body, read_json_body,
  json_depth_within_limit,
}
use esp_wifi_config.Http.Body.Framing.{IsLively, read_json_body-framing}
use esp_wifi_config.Http.Body.Depth.{nesting, json_depth_within_limit-print}
use esp_wifi_config.Http.Request.{Request, send_error}
use esp_wifi_config.Network.Types.{esp_ok}
use esp_wifi_config.Http.Access.{AccessConfig, check_auth, check_api_access}
use esp_wifi_config.Http.Access.Credentials.{Credentials, check_auth_iff}
use esp_wifi_config.Http.Handlers.{Site, Surroundings, checked, call_factory_reset}
use esp_wifi_config.SoftAp.{ApConfig}
use esp_wifi_config.Http.Handlers.Sends.{Sends}
use esp_wifi_config.Http.Handlers.Networks.{
  added_reply, updated_reply, removed_reply, network_from, handler_post_networks,
  handler_delete_network, handler_put_network,
}
use esp_wifi_config.Http.Handlers.Networks.Promised.{
  told, outcome, post_networks-upserts, delete_network-forgets, put_network-updates,
}
use esp_wifi_config.Http.Routes.{serve, post_factory_reset}
use esp_wifi_config.Http.Handlers.Reads.{handler_post_factory_reset}
use esp_wifi_config.Manager.{wifi_connected}
use esp_wifi_config.Http.Routes.Guard.{serve-unauthorized}
use esp_wifi_config.Http.Documents.{Status, ApStatus}
use esp_wifi_config.Tests.Uris.{client}
use esp_wifi_config.Tests.Flash.{Memory, blank, memory}

abbrev cafe_body : Bytes
cafe_body = codes "{\"ssid\":\"cafe\"}"

-- A reader that knows one document, with a single string.
abbrev reader : JsonReader
reader = record {
  Json = Bytes;
  parse = λ buf. if str_eq buf cafe_body then some (codes "cafe") else none;
  string_item = λ json key. if str_eq key (codes "ssid") then some json else none;
  number_item = λ json key. none;
  bool_item = λ json key. none;
}

abbrev cuts : List ℕ
cuts = 4 ∷ 7 ∷ 9 ∷ 9 ∷ 9 ∷ 9 ∷ 9 ∷ 9 ∷ 9 ∷ 9 ∷ 9 ∷ 9 ∷ 9 ∷ 9 ∷ 9 ∷ []

cuts-IsLively : IsLively 15 cuts
cuts-IsLively = record { some_bytes = ground arith; reads = omega arith }

abbrev sent : Connection
sent = record { stream = cafe_body ++ codes "GET"; cuts = cuts }

read_json_body-framing_example :
    let r = read_json_body reader true (length cafe_body) sent in
    (r.1.stream ≡ codes "GET")
    × (r.0 ≡ (
        if (length cafe_body == 0) || ltb http_max_content (length cafe_body) || not true
        then none
        else parse_body reader cafe_body))
read_json_body-framing_example =
    read_json_body-framing reader true cafe_body (codes "GET") cuts (omega arith) cuts-IsLively

abbrev decode : Bytes → Option Bytes
decode b64 = if str_eq b64 (codes "YTpi") then some (codes "a:b") else none

abbrev open_access : AccessConfig
open_access = record {
  pre_request_hook = none;
  enable_auth = false;
  auth_username = [];
  auth_password = [];
}

abbrev guarded_access : AccessConfig
guarded_access = record {
  pre_request_hook = none;
  enable_auth = true;
  auth_username = codes "a";
  auth_password = codes "b";
}

abbrev status : Status
status = record {
  state = wifi_connected;
  ssid = codes "my home";
  rssi = 200;
  quality = 88;
  channel = 6;
  ip = codes "10.0.0.7";
  netmask = codes "255.0.0.0";
  gateway = codes "10.0.0.1";
  dns = codes "10.0.0.1";
  mac = codes "24:6f:28:00:00:01";
  hostname = codes "esp";
  uptime_ms = 1000;
  ap_active = false;
}

abbrev ap_status : ApStatus
ap_status = record {
  active = false;
  ssid = codes "ESP";
  ip = codes "192.168.4.1";
  channel = 1;
  sta_count = 0;
  clients = [];
}

abbrev surroundings : AccessConfig → Surroundings
surroundings access = record {
  reader = reader;
  network_flash = memory Network;
  var_flash = memory Var;
  access = access;
  base64_decode = decode;
  validator = none;
  status = status;
  ap_status = ap_status;
  scanned = none;
  reset_answer = esp_ok;
  has_snapshot_memory = true;
}

abbrev around : Surroundings
around = surroundings open_access

abbrev guarded_around : Surroundings
guarded_around = surroundings guarded_access

abbrev home : Network
home = record { ssid = codes "my home"; password = codes "secret12"; priority = 10 }

abbrev ap : ApConfig
ap = record {
  ssid = codes "ESP";
  password = [];
  channel = 1;
  max_connections = 4;
  hidden = false;
  ip = [];
  netmask = [];
  gateway = [];
  dhcp_start = [];
  dhcp_end = [];
}

abbrev site : Site (Memory Network) (Memory Var)
site = record {
  networks = record { networks = home ∷ []; flash = blank; posted = [] };
  vars = record { vars = []; flash = blank; posted = [] };
  ap_config = ap;
  calls = [];
}

site-IsValid : IsValid site.networks
unfolding find
site-IsValid = record { unique = (refl, tt); fits = omega arith }

abbrev request : Bytes → Request
request uri = record {
  uri = uri;
  authorization = none;
  content_len = 15;
  allocated = true;
  connection = sent;
}

passes : (uri : Bytes) → checked around (request uri) ≡ none
unfolding check_api_access
passes uri = refl

request-Sends : (uri : Bytes) → Sends around (request uri) cafe_body (codes "GET") (codes "cafe")
unfolding json_depth_within_limit str_eq
request-Sends uri = record {
  counted = refl;
  stream = refl;
  lively = cuts-IsLively;
  memory = refl;
  some_byte = omega arith;
  short = omega arith;
  parsed = refl;
}

post_networks-upserts_example :
    let r = handler_post_networks around (request (codes "/networks")) site in
    (outcome around r
      ≡ told added_reply
          (upserted (network_from around (codes "cafe") (codes "cafe")) (view site.networks)))
    × (r.connection.stream ≡ codes "GET")
unfolding str_eq
post_networks-upserts_example =
    post_networks-upserts around (request (codes "/networks")) site cafe_body (codes "GET")
      (codes "cafe") (codes "cafe") (passes (codes "/networks")) (request-Sends (codes "/networks"))
      refl

abbrev home_path : Bytes
home_path = codes "/networks" ++ b'/' ∷ percent_encode client (codes "my home")

delete_network-forgets_example :
    outcome around (handler_delete_network around (request home_path) site)
    ≡ told removed_reply (promised (forget (codes "my home")) (view site.networks))
delete_network-forgets_example =
    delete_network-forgets around client (request home_path) site (codes "/networks")
      (codes "my home") refl (ground arith) (ground arith) (omega arith) site-IsValid
      (passes home_path) refl

put_network-updates_example :
    let r = handler_put_network around (request home_path) site in
    (outcome around r
      ≡ told updated_reply (
          promised
            (update (network_from around (codes "my home") (codes "cafe")))
            (view site.networks)))
    × (r.connection.stream ≡ codes "GET")
put_network-updates_example =
    put_network-updates around client (request home_path) site (codes "/networks") (codes "my home")
      cafe_body (codes "GET") (codes "cafe") refl (ground arith) (ground arith) (omega arith)
      (passes home_path) refl (request-Sends home_path)

-- The header that the credentials give.
abbrev signed : Request
signed = record (request (codes "/networks")) { authorization = some (codes "Basic YTpi") }

check_auth_iff_example :
    (check_auth guarded_access decode signed ≡ true)
    ↔ Credentials guarded_access decode (some (codes "Basic YTpi"))
check_auth_iff_example = check_auth_iff guarded_access decode (ground arith) signed refl

check_auth_test : check_auth guarded_access decode signed ≡ true
unfolding check_auth str_eq
check_auth_test = refl

serve-unauthorized_example :
    let r = serve guarded_around post_factory_reset (request (codes "/factory_reset")) site in
    (r.site ≡ site)
    × ((r.reply ≡ send_error 401 (codes "Unauthorized"))
        ⊎ (r.reply ≡ send_error 403 (codes "Forbidden")))
serve-unauthorized_example =
    serve-unauthorized guarded_around post_factory_reset (request (codes "/factory_reset")) site
      refl (ground arith) (λ c. cc (c.basic))

-- With the access open, the reset is asked for.
post_factory_reset_test :
    (serve around post_factory_reset (request (codes "/factory_reset")) site).site.calls
    ≡ site.calls ++ call_factory_reset ∷ []
unfolding serve handler_post_factory_reset check_api_access
post_factory_reset_test = refl

json_depth_within_limit-print_example :
    let v = array (item (str_value (codes "[[[")) no_items) in
    json_depth_within_limit (print v) ≡ leb (nesting v) max_nesting
json_depth_within_limit-print_example =
    json_depth_within_limit-print (array (item (str_value (codes "[[[")) no_items))
