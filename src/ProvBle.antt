-- ===== src/ProvBle.antt =====
-- The life of a session of the platform's provisioning manager in src/esp_wifi_config_prov_ble.c, in
-- a build for ESP-IDF: its start, its stop, its events, and the disconnects of the BLE client. The
-- manager is the platform's: how its calls go is given, and the calls made are listed.

pub mod Runs
pub mod Forgotten
pub mod Waiting
pub mod Candidate
pub mod Stopping
use esp_wifi_config.Common.{
  ℕ, ◌+◌, ◌%◌, ◌^◌, ◌-◌, List, [], ◌∷◌, ◌++◌, Option, none, some, Bool, true, false, ◌&&◌, ◌||◌,
  not, take, leb, ltb, ◌==◌, if◌then◌else◌,
}
use esp_wifi_config.Common.Bytes.{Bytes, c_string}
use esp_wifi_config.Event.{Event, prov_cred_recv, prov_cred_fail, prov_cred_success}
use esp_wifi_config.Network.Types.{Network, EspErr, esp_ok}
use esp_wifi_config.Nvs.Driver.{NvsDriver}
use esp_wifi_config.Network.Store.{Store}
use esp_wifi_config.Network.Store.Upsert.{upsert}

-- `wifi_cfg_prov_config_t`, as far as it decides here; a callback is whether there is one.
pub record ProvConfig : Type 0 where
  pub disable_reboot_on_provisioning_success : Bool
  pub disable_disconnect_restart : Bool
  pub reset_on_failure : Bool
  pub stop_after_success : Bool
  pub max_failed_attempts : ℕ
  pub reboot_max_wait_ms : ℕ
  pub on_credentials_received : Bool
  pub on_credentials_failed : Bool
  pub on_credentials_success : Bool

-- What is asked of the platform, the application and the manager task.
pub data ProvCall : Type 0 where
  mgr_init mgr_start mgr_stop mgr_deinit mgr_reset_sm : ProvCall
  coex_prefer_bt coex_balance : ProvCall
  reboot_in : ℕ → ProvCall
  tell_received : Bytes → Bytes → ProvCall
  tell_failed : ℕ → ProvCall
  tell_success : ProvCall

-- The static variables, and whether `prov_event_handler` is registered. `restart_messages` are those
-- on their way to the manager task; `restarted` is set once `esp_restart` has been called.
pub record Prov (F : Type 0) : Type 0 where
  pub initialized : Bool
  pub active : Bool
  pub failed_attempts : ℕ
  pub coex_pref_set : Bool
  pub pending_network : Option Network
  pub creds_received : Bool
  pub restart_pending : Bool
  pub explicit_stop : Bool
  pub event_handler_registered : Bool
  pub disconnect_handler_registered : Bool
  pub restart_count : ℕ
  pub reboot_timer : Bool
  pub restart_messages : ℕ
  pub restarted : Bool
  pub store : Store F
  pub calls : List ProvCall

-- How the calls of a start go.
pub record StartRun : Type 0 where
  pub init_result : EspErr
  pub coex_set : Bool
  pub start_result : EspErr
  pub handler_registered : Bool

abbrev pub is_esp_ok : EspErr → Bool
is_esp_ok esp_ok = true
is_esp_ok _ = false

module _ {F : Type 0} where
  abbrev pub asks : ProvCall → Prov F → Prov F
  asks call s = record s { calls = s.calls ++ call ∷ [] }

  abbrev pub asks_if : Bool → ProvCall → Prov F → Prov F
  asks_if true call s = asks call s
  asks_if false call s = s

  abbrev pub posts : Event → Prov F → Prov F
  posts e s = record s { store = record s.store { posted = s.store.posted ++ e ∷ [] } }

  unfoldable pub restore_coex : Prov F → Prov F
  restore_coex s =
      if s.coex_pref_set then asks coex_balance (record s { coex_pref_set = false }) else s

  unfoldable pub queue_pending_restart : Prov F → Prov F
  queue_pending_restart s =
      if s.restart_pending
      then record s {
        restart_pending = false;
        creds_received = false;
        restart_messages = s.restart_messages + 1;
      }
      else s

  -- The last steps of a start, once the manager has started.
  abbrev pub started : StartRun → Prov F → Prov F
  started run s = record s {
    disconnect_handler_registered = s.disconnect_handler_registered || run.handler_registered;
    active = true;
  }

  abbrev pub bias_coex : StartRun → Prov F → Prov F
  bias_coex run s = record (asks coex_prefer_bt s) {
    coex_pref_set = s.coex_pref_set || run.coex_set;
  }

  abbrev pub start_mgr : StartRun → Prov F → EspErr × Prov F
  start_mgr run s =
      if is_esp_ok run.start_result then (esp_ok, started run (asks mgr_start s)) else (
        run.start_result,
        restore_coex (record (asks mgr_deinit (asks mgr_start s)) { initialized = false }),
      )

  -- `registered` is whether the handler of the manager's events could be registered, and `created`
  -- whether the timer could be had; a failure is logged only.
  unfoldable pub prov_init : Bool → Bool → Prov F → Prov F
  prov_init registered created s = if s.initialized then s else record s {
    event_handler_registered = s.event_handler_registered || registered;
    reboot_timer = s.reboot_timer || created;
  }

  -- Behind the check of `g_wifi_cfg`. The endpoints and the advertising are set up on the way.
  unfoldable pub prov_start : StartRun → Prov F → EspErr × Prov F
  unfolding restore_coex
  prov_start run s =
      let fresh = asks mgr_init (record s { explicit_stop = false; creds_received = false }) in
      if s.active
      then (esp_ok, s)
      else if is_esp_ok run.init_result
      then start_mgr run (bias_coex run (record fresh { initialized = true }))
      else (run.init_result, fresh)

  unfoldable pub prov_stop : Prov F → Prov F
  prov_stop s = if not s.active && not s.initialized then s else record (asks mgr_stop s) {
    explicit_stop = true;
    restart_pending = false;
    active = false;
  }

  abbrev pub deinit_mgr : Prov F → Prov F
  deinit_mgr s = if s.initialized then record (asks mgr_deinit s) { initialized = false } else s

  unfoldable pub prov_deinit : Prov F → Prov F
  unfolding prov_stop restore_coex
  prov_deinit s =
      let closed = record s {
        event_handler_registered = false;
        disconnect_handler_registered = false;
        reboot_timer = false;
      } in
      record (restore_coex (deinit_mgr (prov_stop closed))) {
        creds_received = false;
        explicit_stop = false;
        restart_count = 0;
      }

module _ (cfg : ProvConfig) (drv : NvsDriver Network) where
  open drv use {Flash}

  unfoldable pub persist_pending_network : Prov Flash → Prov Flash
  persist_pending_network s = elim s.pending_network [
    | none ↦ s
    | some n ↦ record s { store = (upsert drv n s.store).1; pending_network = none }
  ]

  abbrev pub reboot_on_success : Bool
  reboot_on_success = not cfg.disable_reboot_on_provisioning_success

  -- The reasons to leave a disconnect alone.
  abbrev pub is_ignored : Prov Flash → Bool
  is_ignored s =
      cfg.disable_disconnect_restart || s.explicit_stop || s.creds_received || s.restart_pending

  abbrev pub restart_session : Prov Flash → Prov Flash
  restart_session s = record (asks mgr_stop s) {
    restart_count = (s.restart_count + 1) % 2 ^ 32;
    restart_pending = true;
  }

  unfoldable pub on_protocomm_ble_disconnect : Prov Flash → Prov Flash
  unfolding persist_pending_network
  on_protocomm_ble_disconnect s =
      if not s.active
      then s
      else if s.creds_received && reboot_on_success
      then record (persist_pending_network s) { restarted = true }
      else if is_ignored s
      then s
      else restart_session s

  -- `ssid` is an array of 32 bytes and `password` one of 64, as the manager gives them.
  abbrev pub candidate : Bytes → Bytes → Network
  candidate ssid password = record {
    ssid = c_string (take 32 ssid);
    password = c_string (take 63 password);
    priority = 10;
  }

  unfoldable pub cred_recv : Bytes → Bytes → Prov Flash → Prov Flash
  cred_recv ssid password s =
      let n = candidate ssid password in
      asks_if cfg.on_credentials_received (tell_received n.ssid n.password) (
        posts (prov_cred_recv n.ssid n.password)
          (record s { creds_received = true; pending_network = some n }))

  abbrev pub failure_limit : ℕ
  failure_limit = if cfg.max_failed_attempts == 0 then 3 else cfg.max_failed_attempts

  -- The count of failures, an `int`; the state machine is reset at the limit.
  abbrev pub count_failure : Prov Flash → Prov Flash
  count_failure s =
      let more = record s { failed_attempts = s.failed_attempts + 1 } in
      if cfg.reset_on_failure && leb failure_limit (s.failed_attempts + 1)
      then record (asks mgr_reset_sm more) { failed_attempts = 0 }
      else more

  -- `reason` is the bit pattern of an `int`, -1 without one.
  unfoldable pub cred_fail : ℕ → Prov Flash → Prov Flash
  cred_fail reason s =
      asks_if cfg.on_credentials_failed (tell_failed reason)
        (posts (prov_cred_fail reason) (count_failure (record s { pending_network = none })))

  abbrev pub reboot_wait : ℕ
  reboot_wait = if cfg.reboot_max_wait_ms == 0 then 15000 else cfg.reboot_max_wait_ms

  abbrev pub after_success : Prov Flash → Prov Flash
  after_success s =
      if reboot_on_success
      then asks_if s.reboot_timer (reboot_in reboot_wait) s
      else asks_if cfg.stop_after_success mgr_stop s

  unfoldable pub cred_success : Prov Flash → Prov Flash
  unfolding persist_pending_network
  cred_success s = after_success (
      asks_if cfg.on_credentials_success tell_success
        (posts prov_cred_success (persist_pending_network (record s { failed_attempts = 0 }))))

  unfoldable pub session_started : Prov Flash → Prov Flash
  session_started s = record s { active = true; failed_attempts = 0; pending_network = none }

  unfoldable pub session_ended : Prov Flash → Prov Flash
  unfolding restore_coex queue_pending_restart
  session_ended s =
      queue_pending_restart
        (restore_coex (deinit_mgr (record s { active = false; pending_network = none })))

  -- What happens to a session: the manager's events, the client's disconnects, the application's
  -- calls, the message of a restart on the manager task, and the backstop timer. An event is heard
  -- while its handler is registered.
  pub data Happening : Type 0 where
    received : Bytes → Bytes → Happening
    failed : ℕ → Happening
    succeeded begun ended deinited disconnected : Happening
    init : Bool → Bool → Happening
    start : StartRun → Happening
    stop deinit backstop : Happening
    restart_message : StartRun → Happening

  -- A message is handled once, if there is one.
  abbrev pub handle_restart : StartRun → Prov Flash → Prov Flash
  handle_restart run s =
      if s.restart_messages == 0
      then s
      else (prov_start run (record s { restart_messages = s.restart_messages - 1 })).1

  abbrev pub heard : Prov Flash → Prov Flash → Prov Flash
  heard after s = if s.event_handler_registered then after else s

  unfoldable pub happens : Happening → Prov Flash → Prov Flash
  unfolding cred_recv cred_fail cred_success session_started session_ended
      on_protocomm_ble_disconnect prov_init prov_start prov_stop prov_deinit
  happens (received ssid password) s = heard (cred_recv ssid password s) s
  happens (failed reason) s = heard (cred_fail reason s) s
  happens succeeded s = heard (cred_success s) s
  happens begun s = heard (session_started s) s
  happens ended s = heard (session_ended s) s
  happens deinited s = heard (record s { active = false; initialized = false }) s
  happens disconnected s =
      if s.disconnect_handler_registered then on_protocomm_ble_disconnect s else s
  happens (init registered created) s = prov_init registered created s
  happens (start run) s = (prov_start run s).1
  happens stop s = prov_stop s
  happens deinit s = prov_deinit s
  happens backstop s = record s { restarted = true }
  happens (restart_message run) s = handle_restart run s

  -- Nothing happens once the device restarts.
  unfoldable pub run : List Happening → Prov Flash → Prov Flash
  unfolding happens
  run [] s = s
  run (e ∷ es) s = let rest = run es (happens e s) in if s.restarted then s else rest
