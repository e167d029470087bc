-- ===== src/Manager.antt =====
-- The connection part of the manager task of src/esp_wifi_config.c: the handlers of its messages,
-- the handlers of the Wi-Fi driver's events that set the event group's bits, and the scheduled
-- reconnect. A connect sequence is counted where it is started.
pub mod Deadline
pub mod Reconnect
pub mod Suppressed
use esp_wifi_config.Common.{
  ℕ, ◌+◌, ◌-◌, ◌%◌, ◌^◌, List, [], ◌∷◌, ◌++◌, Option, none, some, Bool, true, false, ◌&&◌, not,
  take, leb, ltb, ◌==◌, if◌then◌else◌,
}
use esp_wifi_config.Common.Bytes.{Bytes, str_eq}
use esp_wifi_config.Event.{Event, connected, disconnected, got_ip, lost_ip}
use esp_wifi_config.Network.Backoff.{calc_backoff_delay}

-- `wifi_state_t`
pub data WifiState : Type 0 where
  wifi_disconnected wifi_connecting wifi_connected : WifiState

-- The fields of `wifi_cfg_config_t` that the reconnect logic reads; `restart_when_exhausted` is
-- whether `on_reconnect_exhausted` is WIFI_ON_RECONNECT_EXHAUSTED_RESTART.
pub record Config : Type 0 where
  pub auto_reconnect : Bool
  pub max_reconnect_attempts : ℕ
  pub restart_when_exhausted : Bool
  pub retry_interval_ms : ℕ
  pub retry_max_interval_ms : ℕ

-- The fields of `wifi_cfg_ctx_t`, the two bits of the event group, the connect sequences started
-- by the task's deadline, and the events posted.
pub record Manager : Type 0 where
  pub state : WifiState
  pub connected_ssid : Bytes  -- char[32]
  pub connected_bit : Bool
  pub fail_bit : Bool
  pub connecting : Bool
  pub reconnect_suppressed : Bool
  pub reconnect_pending : Bool
  pub reconnect_due_tick : ℕ
  pub retry_count : ℕ
  pub reconnect_attempt_count : ℕ  -- uint16_t
  pub sequences : ℕ
  pub posted : List Event

-- What a handler comes to: `undefined` is a shift by 32 or more, which C leaves undefined.
pub data Next : Type 0 where
  running : Manager → Next
  restarted undefined : Next

-- Whether a disconnect is for the network that the device is on.
unfoldable pub is_current : Bytes → Manager → Bool
is_current ssid m = elim m.connected_ssid [
  | [] ↦ not m.connected_bit
  | ◌∷◌ _ _ ↦ str_eq m.connected_ssid ssid
]

-- WIFI_EVENT_STA_DISCONNECTED in `wifi_event_handler`, and IP_EVENT_STA_GOT_IP in
-- `ip_event_handler`; both go on to queue a message.
unfoldable pub driver_disconnected : Bytes → Manager → Manager
driver_disconnected ssid m = record m {
  fail_bit = true;
  connected_bit = if is_current ssid m then false else m.connected_bit;
}

unfoldable pub driver_got_ip : Manager → Manager
driver_got_ip m = record m { connected_bit = true; fail_bit = false }

-- WM_INT_EVT_STA_CONNECTED
unfoldable pub sta_connected : Bytes → Manager → Manager
sta_connected ssid m = record m {
  reconnect_pending = false;
  retry_count = 0;
  connecting = false;
  connected_ssid = take 31 ssid;
}

-- WM_INT_EVT_GOT_IP, up to the teardown of provisioning; `ap` is the SSID that the driver reports.
unfoldable pub sta_got_ip : Bytes → ℕ → Manager → Manager
sta_got_ip ap ip m = record m {
  reconnect_pending = false;
  state = wifi_connected;
  connected_bit = true;
  fail_bit = false;
  reconnect_attempt_count = 0;
  posted = m.posted ++ connected ap ∷ got_ip ip ∷ [];
}

unfoldable pub sta_lost_ip : Manager → Manager
sta_lost_ip m = record m { posted = m.posted ++ lost_ip ∷ [] }

-- `xTaskGetTickCount() - due >= 0` on 32 bits
abbrev pub due_passed : ℕ → ℕ → Bool
due_passed now due = ltb ((now + (2 ^ 32 - due)) % 2 ^ 32) (2 ^ 31)

-- What a disconnect from the current network changes first.
abbrev pub dropped : Bytes → ℕ → Manager → Manager
dropped ssid reason m = record m {
  state = wifi_disconnected;
  connected_ssid = [];
  connected_bit = false;
  fail_bit = true;
  posted = m.posted ++ disconnected ssid reason ∷ [];
}

module _ (cfg : Config) where
  abbrev pub exhausted : ℕ → Bool
  exhausted attempts = ltb 0 cfg.max_reconnect_attempts && leb cfg.max_reconnect_attempts attempts

  abbrev pub wants_reconnect : Manager → Bool
  wants_reconnect m = cfg.auto_reconnect && not m.reconnect_suppressed && not m.connecting

  -- What the task does behind every message and every wait: a deadline that has passed starts a
  -- connect sequence, unless the application asked to stay disconnected.
  unfoldable pub fire_deadline : ℕ → Manager → Manager
  fire_deadline now m =
      if m.reconnect_pending && due_passed now m.reconnect_due_tick
      then record m {
        reconnect_pending = false;
        sequences =
            if cfg.auto_reconnect && not m.reconnect_suppressed
            then m.sequences + 1
            else m.sequences;
      }
      else m

  module _ (ms_to_ticks : ℕ → ℕ) where
    -- The deadline is set.
    pub schedule : ℕ → Manager → Next
    schedule now m =
        elim (calc_backoff_delay cfg.retry_interval_ms cfg.retry_max_interval_ms m.retry_count) [
          | none ↦ undefined
          | some delay ↦ running (record m {
            retry_count = m.retry_count + 1;
            reconnect_due_tick = (now + ms_to_ticks delay) % 2 ^ 32;
            reconnect_pending = true;
          })
        ]

    -- The attempt is counted, in 16 bits; when the attempts are exhausted the device restarts, or
    -- counts from the beginning again.
    unfoldable pub auto_reconnect : ℕ → Manager → Next
    unfolding schedule
    auto_reconnect now m =
        let attempts = (m.reconnect_attempt_count + 1) % 2 ^ 16 in
        let go_on =
          schedule now
            (record m { reconnect_attempt_count = if exhausted attempts then 0 else attempts }) in
        if exhausted attempts && cfg.restart_when_exhausted then restarted else go_on

    -- WM_INT_EVT_STA_DISCONNECTED
    unfoldable pub sta_disconnected : ℕ → Bytes → ℕ → Manager → Next
    unfolding auto_reconnect
    sta_disconnected now ssid reason m =
        let m1 = dropped ssid reason m in
        let after = if wants_reconnect m1 then auto_reconnect now m1 else running m1 in
        if is_current ssid m then after else running m

-- `wifi_cfg_disconnect`, and how `wifi_cfg_connect` begins
unfoldable pub wifi_cfg_disconnect : Manager → Manager
wifi_cfg_disconnect m = record m { reconnect_suppressed = true; connecting = false }

unfoldable pub lift_suppression : Manager → Manager
lift_suppression m = record m { reconnect_suppressed = false }
