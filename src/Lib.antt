-- ===== src/Lib.antt =====
-- Verification of esp_wifi_config, a Wi-Fi provisioning and connection manager for the ESP32.
--
-- The library keeps a list of known networks and of custom variables, both mirrored to flash, tries
-- the networks in order of priority, retries with a growing delay, and serves several provisioning
-- front ends: a captive portal with a REST API, and the Improv protocol over serial and BLE. The
-- front ends call the manager's public functions (include/esp_wifi_config.h); the REST API writes
-- its answers with a streaming JSON writer and decodes path segments; the manager tells the front
-- ends and the application of changes by events and callbacks.
--
-- Parts and files:
--   Common        numbers, lists, byte strings and decimal numerals shared by the parts
--   Table         arrays of records that are searched by a string key, and their laws as maps
--   Dns           src/esp_wifi_config_dns.c: the answer of the responder, the name for the log (Name),
--                 a round of its task, start and stop (Server)
--   Event         the events that the library posts (include/esp_wifi_config.h)
--   Nvs           src/esp_wifi_config_nvs.c; the flash driver of the platform is the record
--                 Nvs.Driver.NvsDriver, whose laws are those of the writes that succeed; Nvs.Shared
--                 has the one namespace in which networks, variables and access point lie side by
--                 side, each in its own layout
--   Network       src/esp_wifi_config_network.c: Network.Store has the calls that add, update,
--                 remove, get and list the saved networks, Network.Sort the sort by priority,
--                 Network.Backoff the delay between attempts, Network.Connect the connect sequence
--                 and `wifi_cfg_connect`, Network.Scan the scan and the merge of its results
--   Manager       the connection part of the manager task of src/esp_wifi_config.c: its messages,
--                 the driver's events behind them and the deadline of a reconnect
--   Provisioning  start and stop of provisioning in src/esp_wifi_config.c, with the access point of
--                 src/esp_wifi_config_ap.c and the routes of src/esp_wifi_config_http.c
--   ProvBle       src/esp_wifi_config_prov_ble.c: the session of the platform's provisioning manager; an
--                 event is heard while the handler is registered, from init to deinit (in the
--                 build without ARDUINO_ARCH_ESP32)
--   Http          src/esp_wifi_config_http.c: Http.Body has the reading of a body, Http.Access the
--                 check of a request, Http.Handlers the handlers, Http.Routes their table, and
--                 Http.Documents the documents that GET requests are answered with
--   SoftAp        the access point's configuration: its defaults and its place on flash, the calls of
--                 src/esp_wifi_config_ap.c and the name template
--   Startup       wifi_cfg_init() of src/esp_wifi_config.c up to the bring-up of the platform;
--                 Startup.Saves has saves in any order on the one namespace
--   Vars          the variables of src/esp_wifi_config_ap.c
--   Wifi          the calls of the manager that a front end makes, as an interface with laws, and
--                 the saved networks as an instance of it
--   Improv        src/esp_wifi_config_improv.c (Core, Settings, Networks, Rpc) and the transports:
--                 the framing of src/esp_wifi_config_improv_serial.c (Serial), and
--                 src/esp_wifi_config_improv_ble.c over NimBLE (Ble)
--   BleHost       the BLE host of the Improv transport: the lifecycle of src/esp_wifi_config_ble.c as a
--                 client of the interface BleHost.Backend, which BleHost.Nimble
--                 (src/esp_wifi_config_ble_nimble.c) and BleHost.Bluedroid
--                 (src/esp_wifi_config_ble_bluedroid.c) fill; BleHost.Advert has the bytes advertised
--   WebUi         src/esp_wifi_config_webui.c: the files of the Web UI
--   Json          src/esp_wifi_config_json.c; Json.Document has the values that a client writes
--   Uri           src/esp_wifi_config_uri.h
--   Tests         runs on concrete inputs, and instances of the theorems
--
-- Conventions. A C string is the list of its bytes before the NUL, an array in use the list of its
-- elements. The state of a module is a record and an operation a function from state to state. Calls
-- of the platform and of the application (flash, sink, validator, scan) are parameters; the events
-- and callbacks that an operation makes are appended to a list in the state. Locks and log output
-- are left out: an operation runs under the mutex or on its own task as a whole. Arithmetic of a
-- fixed width is written out with its wrap-around; a signed integer is its bit pattern where the
-- code converts it. Loops recur on the list they walk over, or on fuel that the theorems show to be
-- enough: `w_raw` gets the length of its input, since each round writes a byte, and `w_int` the
-- twenty digits of its array.
--
-- The stores of networks and of variables each keep the flash as they see it. That the saves of one
-- kind leave those of the other kinds alone on the one namespace is shown in Nvs.Shared, on which
-- Startup stands.
--
-- A connect sequence is a function of what happens in each retry, and a scan of how the driver's
-- scan goes. The merge of the scan results has fuel for each entry, the skipping of a name's labels
-- for each byte of the query.
--
-- A connection is what the client has sent and in which pieces it arrives; the loops over it have
-- fuel for each byte of the body. cJSON, Base64 and the server's matching of paths are the
-- platform's: Http.Body.JsonReader and the other fields of Http.Handlers.Surroundings.
--
-- What a BLE stack answers is a function of the call and of the calls before it, and its callbacks
-- are steps of a run. The stop of the NimBLE backend waits for the fifty delays of the code at most;
-- a file of the Web UI is read with fuel for each of its bytes.
--
-- Not modelled: the pages of the captive portal, the GATT tables, NimBLE and Bluedroid themselves,
-- the endpoints of the provisioning manager, the command line, shutdown, and of the manager task what
-- it does for provisioning behind a new address. They are calls into the platform for the most part.
pub mod BleHost
pub mod Common
pub mod Dns
pub mod Event
pub mod Http
pub mod Improv
pub mod Json
pub mod Manager
pub mod Network
pub mod Nvs
pub mod ProvBle
pub mod Provisioning
pub mod SoftAp
pub mod Startup
pub mod Table
pub mod Tests
pub mod Uri
pub mod Vars
pub mod WebUi
pub mod Wifi
