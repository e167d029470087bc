-- ===== src/Network/Connect.antt =====
-- `wifi_cfg_start_connect_sequence` of src/esp_wifi_config_network.c. What the driver and the other
-- tasks do in each attempt is given by a function of the network's index and of the retry.
pub mod Attempts
pub mod First
pub mod Message
use esp_wifi_config.Common.{
  ℕ, zero, suc, ◌+◌, List, [], ◌∷◌, ◌++◌, Option, none, some, Bool, true, false, ◌&&◌, ◌||◌, not,
  ◌==◌, if◌then◌else◌, take,
}
use esp_wifi_config.Event.{Event, connecting}
use esp_wifi_config.Network.Types.{Network, EspErr, esp_ok, not_found}
use esp_wifi_config.Common.Bytes.{Bytes, str_eq}
use esp_wifi_config.Table.{find}
use esp_wifi_config.Network.Sort.{sort_networks_by_priority}
use esp_wifi_config.Network.Backoff.{calc_backoff_delay}
use esp_wifi_config.Manager.{WifiState, wifi_connecting, wifi_disconnected, wifi_connected, Manager}

-- One round of the retry loop: the stop request that ends it before, the error of
-- `esp_wifi_connect`, the bit that ends the wait (or that the wait times out, `failed`), and a stop
-- request during the delay that follows a failure.
pub data Outcome : Type 0 where
  stop_before connect_error stop_waiting came_up failed stop_delaying : Outcome

-- What is asked of the driver: the SSID and the password that it is to use, and an attempt. `delay`
-- waits, `none` where the delay is undefined, and `queue_start` sends a message to the task.
pub data Action : Type 0 where
  configure : Bytes → Bytes → Action
  attempt queue_start : Action
  delay : Option ℕ → Action

-- How the attempts at one network end, and those at all.
pub data Tried : Type 0 where
  is_up is_stopped given_up : Tried

-- The fields of `wifi_cfg_config_t` that are read here.
pub record Retries : Type 0 where
  pub max_retry_per_network : ℕ
  pub interval : ℕ
  pub max_interval : ℕ

-- The driver's arrays of 32 and 64 bytes get one byte less.
abbrev pub configured : Network → Action
configured n = configure (take 31 n.ssid) (take 63 n.password)

abbrev pub with_action : Action → Tried × List Action → Tried × List Action
with_action a (t, acts) = (t, a ∷ acts)

module _ (cfg : Retries) where
  abbrev pub backoff : ℕ → Option ℕ
  backoff retry = calc_backoff_delay cfg.interval cfg.max_interval retry

  -- A round, with what the later rounds come to.
  abbrev pub round : ℕ → ℕ → Tried × List Action → Outcome → Tried × List Action
  round left retry rest stop_before = (is_stopped, [])
  round left retry rest connect_error = with_action attempt rest
  round left retry rest stop_waiting = (is_stopped, attempt ∷ [])
  round left retry rest came_up = (is_up, attempt ∷ [])
  round left retry rest failed =
      with_action attempt (if left == 0 then rest else with_action (delay (backoff retry)) rest)
  round left retry rest stop_delaying =
      with_action attempt (if left == 0 then rest else (is_stopped, delay (backoff retry) ∷ []))

  -- The retry loop; the first argument is what is left of it.
  unfoldable pub try_retries : (ℕ → Outcome) → ℕ → ℕ → Tried × List Action
  try_retries outcome zero retry = (given_up, [])
  try_retries outcome (suc left) retry =
      let rest = try_retries outcome left (retry + 1) in round left retry rest (outcome retry)

  -- The networks in turn, from the index given: how it ends, with the index at which it does, the
  -- networks tried and the actions.
  pub record Course : Type 0 where
    pub ending : Tried
    pub index : ℕ
    pub tried : List Network
    pub actions : List Action

  abbrev pub goes_on : Network → Tried × List Action → ℕ → Course → Course
  goes_on n (is_up, acts) i rest = record {
    ending = is_up;
    index = i;
    tried = n ∷ [];
    actions = configured n ∷ acts;
  }
  goes_on n (is_stopped, acts) i rest = record {
    ending = is_stopped;
    index = i;
    tried = n ∷ [];
    actions = configured n ∷ acts;
  }
  goes_on n (given_up, acts) i rest = record {
    ending = rest.ending;
    index = rest.index;
    tried = n ∷ rest.tried;
    actions = configured n ∷ acts ++ rest.actions;
  }

  unfoldable pub try_networks : (ℕ → ℕ → Outcome) → ℕ → List Network → Course
  unfolding try_retries
  try_networks outcome i [] = record { ending = given_up; index = i; tried = []; actions = [] }
  try_networks outcome i (n ∷ ns) =
      goes_on n (try_retries (outcome i) cfg.max_retry_per_network 0) i
        (try_networks outcome (i + 1) ns)

-- `wifi_provisioning_mode_t`
pub data ProvisioningMode : Type 0 where
  prov_on_failure prov_when_unprovisioned prov_manual prov_always : ProvisioningMode

-- What the sequence works on; `provisioning_calls` counts the calls of
-- `wifi_cfg_start_provisioning`.
pub record Connecting : Type 0 where
  pub manager : Manager
  pub networks : List Network
  pub provisioning_active : Bool
  pub provisioning_calls : ℕ
  pub actions : List Action

abbrev pub on_failure : ProvisioningMode → Bool
on_failure prov_on_failure = true
on_failure _ = false

abbrev pub when_empty : ProvisioningMode → Bool
when_empty prov_on_failure = true
when_empty prov_when_unprovisioned = true
when_empty _ = false

abbrev pub call_provisioning : Bool → Connecting → Connecting
call_provisioning wanted s =
    if wanted && not s.provisioning_active
    then record s { provisioning_calls = s.provisioning_calls + 1 }
    else s

abbrev pub announce : List Network → List Event
announce [] = []
announce (n ∷ ns) = connecting n.ssid ∷ announce ns

-- How the manager is left; a sequence that is stopped leaves `connecting` set.
abbrev pub leave : (cfg : Retries) → ProvisioningMode → Course cfg → Connecting → Connecting
leave cfg mode c s =
    let s1 = record s {
      manager = record s.manager {
        connecting = true;
        state = wifi_connecting;
        posted = s.manager.posted ++ announce c.tried;
      };
      actions = s.actions ++ c.actions;
    } in
    elim c.ending [
      | is_up ↦ record s1 { manager = record s1.manager { connecting = false; retry_count = 0 } }
      | is_stopped ↦ s1
      | given_up ↦ call_provisioning (on_failure mode) (record s1 {
        manager = record s1.manager { connecting = false; state = wifi_disconnected };
      })
    ]

-- `stopping` is whether the library is being shut down. The list of networks is sorted in place.
unfoldable pub start_connect_sequence :
    Retries → ProvisioningMode → Bool → (ℕ → ℕ → Outcome) → Connecting → Connecting
unfolding try_networks
start_connect_sequence cfg mode stopping outcome s =
    let s1 = record s { manager = record s.manager { reconnect_pending = false } } in
    let s2 = record s1 { networks = sort_networks_by_priority s.networks } in
    let connected = leave cfg mode (try_networks cfg outcome 0 s2.networks) s2 in
    if stopping
    then s
    else elim s.networks [ [] ↦ call_provisioning (when_empty mode) s1 | ◌∷◌ _ _ ↦ connected ]

-- WM_INT_EVT_START in the manager task of src/esp_wifi_config.c: with no network saved, two modes
-- start provisioning and two do nothing.
unfoldable pub start_message :
    Retries → ProvisioningMode → Bool → (ℕ → ℕ → Outcome) → Connecting → Connecting
unfolding start_connect_sequence
start_message cfg mode stopping outcome s =
    let connected = start_connect_sequence cfg mode stopping outcome s in
    elim mode [
      | prov_always ↦ elim s.networks [ [] ↦ s | ◌∷◌ _ _ ↦ connected ]
      | prov_on_failure ↦ elim s.networks [ [] ↦ call_provisioning true s | ◌∷◌ _ _ ↦ connected ]
      | prov_when_unprovisioned ↦ elim s.networks [
        | [] ↦ call_provisioning true s
        | ◌∷◌ _ _ ↦ connected
      ]
      | prov_manual ↦ elim s.networks [ [] ↦ s | ◌∷◌ _ _ ↦ connected ]
    ]

abbrev pub is_connected : WifiState → Bool
is_connected wifi_connected = true
is_connected _ = false

abbrev pub is_on : Option Bytes → Bytes → Bool
is_on none ssid = false
is_on (some b) ssid = str_eq b ssid

-- `wifi_cfg_connect`. `on` is the SSID that the driver is on, if it is on one, and `answer` what
-- `esp_wifi_connect` returns.
unfoldable pub wifi_cfg_connect :
    Option Bytes → Option Bytes → EspErr → Connecting → EspErr × Connecting
unfolding find
wifi_cfg_connect on none answer s = (
  esp_ok,
  record s {
    manager = record s.manager { reconnect_suppressed = false };
    actions = s.actions ++ queue_start ∷ [];
  },
)
wifi_cfg_connect on (some ssid) answer s =
    let s1 = record s { manager = record s.manager { reconnect_suppressed = false } } in
    if is_connected s.manager.state && is_on on ssid
    then (esp_ok, s1)
    else elim (find Network.ssid ssid s.networks) [
      | none ↦ (not_found, s1)
      | some n ↦ (
        answer,
        record s1 {
          manager = record s1.manager {
            state = wifi_connecting;
            posted = s.manager.posted ++ connecting ssid ∷ [];
          };
          actions = s.actions ++ configured n ∷ attempt ∷ [];
        },
      )
    ]
