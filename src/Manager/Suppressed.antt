-- ===== src/Manager/Suppressed.antt =====
-- A device that was told to stay disconnected.
use esp_wifi_config.Common.{
  ℕ, ◌+◌, ◌≡◌, refl, ◌∙◌, List, [], ◌∷◌, Bool, true, false, ◌&&◌, not, Bool-cases, inl, inr,
  if◌then◌else◌, arith,
}
use esp_wifi_config.Common.Bytes.{Bytes}
use esp_wifi_config.Manager.{
  Config, Manager, Next, running, restarted, undefined, is_current, driver_disconnected,
  driver_got_ip, sta_connected, sta_got_ip, sta_lost_ip, dropped, due_passed, sta_disconnected,
  fire_deadline, wifi_cfg_disconnect,
}

-- What can happen to the connection, short of the start message and the calls that ask to connect.
pub data Input : Type 0 where
  driver_drops : Bytes → Input
  driver_gets_ip : Input
  message_connected : Bytes → Input
  message_disconnected : ℕ → Bytes → ℕ → Input
  message_got_ip : Bytes → ℕ → Input
  message_lost_ip : Input
  deadline : ℕ → Input
  call_disconnect : Input

not_counted : (a s : Bool) (n : ℕ) → s ≡ true → (if a && not s then n + 1 else n) ≡ n
not_counted a s n h = ground arith

unwanted : (a s c : Bool) → s ≡ true → (a && not s && not c) ≡ false
unwanted a s c h = ground arith

module _ (cfg : Config) (ms_to_ticks : ℕ → ℕ) where
  abbrev pub step : Input → Manager → Next
  step (driver_drops ssid) m = running (driver_disconnected ssid m)
  step driver_gets_ip m = running (driver_got_ip m)
  step (message_connected ssid) m = running (sta_connected ssid m)
  step (message_disconnected now ssid reason) m = sta_disconnected cfg ms_to_ticks now ssid reason m
  step (message_got_ip access_point ip) m = running (sta_got_ip access_point ip m)
  step message_lost_ip m = running (sta_lost_ip m)
  step (deadline now) m = running (fire_deadline cfg now m)
  step call_disconnect m = running (wifi_cfg_disconnect m)

  abbrev pub and_run : (Manager → Next) → Next → Next
  and_run f (running m) = f m
  and_run f restarted = restarted
  and_run f undefined = undefined

  abbrev pub run : List Input → Manager → Next
  run [] m = running m
  run (i ∷ is) m = and_run (run is) (step i m)

  -- The same number of connect sequences, and still suppressed.
  pub record Quiet (m m' : Manager) : Type 0 where
    pub still : m'.reconnect_suppressed ≡ true
    pub no_sequence : m'.sequences ≡ m.sequences

  fire_deadline-Quiet :
      (now : ℕ) (m : Manager) → m.reconnect_suppressed ≡ true → Quiet m (fire_deadline cfg now m)
  unfolding fire_deadline
  fire_deadline-Quiet now m h =
      elim (Bool-cases (m.reconnect_pending && due_passed now m.reconnect_due_tick)) [
        | inl due ↦ rw due (record {
          still = h;
          no_sequence = not_counted cfg.auto_reconnect m.reconnect_suppressed m.sequences h;
        })
        | inr wait ↦ rw wait (record { still = h; no_sequence = refl })
      ]

  sta_disconnected-suppressed :
      (now : ℕ) (ssid : Bytes) (reason : ℕ) (m : Manager)
      → is_current ssid m ≡ true
      → m.reconnect_suppressed ≡ true
      → sta_disconnected cfg ms_to_ticks now ssid reason m ≡ running (dropped ssid reason m)
  unfolding sta_disconnected
  sta_disconnected-suppressed now ssid reason m current h =
      rw (current, sta_disconnected)
        (rw (unwanted cfg.auto_reconnect m.reconnect_suppressed m.connecting h) refl)

  step-Quiet :
      (i : Input) (m : Manager)
      → m.reconnect_suppressed ≡ true
      → (m' : Manager) × (step i m ≡ running m') × Quiet m m'
  unfolding driver_disconnected driver_got_ip sta_connected sta_disconnected sta_got_ip sta_lost_ip
      fire_deadline wifi_cfg_disconnect
  step-Quiet (driver_drops ssid) m h = (_, refl, record { still = h; no_sequence = refl })
  step-Quiet driver_gets_ip m h = (_, refl, record { still = h; no_sequence = refl })
  step-Quiet (message_connected ssid) m h = (_, refl, record { still = h; no_sequence = refl })
  step-Quiet (message_got_ip access_point ip) m h =
      (_, refl, record { still = h; no_sequence = refl })
  step-Quiet message_lost_ip m h = (_, refl, record { still = h; no_sequence = refl })
  step-Quiet call_disconnect m h = (_, refl, record { still = refl; no_sequence = refl })
  step-Quiet (deadline now) m h = (fire_deadline cfg now m, refl, fire_deadline-Quiet now m h)
  step-Quiet (message_disconnected now ssid reason) m h = elim (Bool-cases (is_current ssid m)) [
    | inl current ↦ (
      dropped ssid reason m,
      sta_disconnected-suppressed now ssid reason m current h,
      record { still = h; no_sequence = refl },
    )
    | inr stale ↦ (m, rw (stale, sta_disconnected) refl, record { still = h; no_sequence = refl })
  ]

  -- After a call that asks to stay disconnected, no report of the driver on the connection, no
  -- queued message on it (connected, disconnected, address got or lost) and no deadline that passes
  -- makes the manager start a connect sequence, in any order of these: it goes on running, without
  -- restarting the device, and stays suppressed. The start message, which asks to connect, is not
  -- among them.
  pub run-suppressed :
      (is : List Input) (m : Manager)
      → m.reconnect_suppressed ≡ true
      → (m' : Manager) × (run is m ≡ running m') × Quiet m m'
  run-suppressed [] m h = (m, refl, record { still = h; no_sequence = refl })
  run-suppressed (i ∷ is) m h =
      let (m1, stepped, quiet) = step-Quiet i m h in
      let (m2, ran, quiet2) = run-suppressed is m1 quiet.still in
      (
        m2,
        rw stepped ran,
        record { still = quiet2.still; no_sequence = quiet2.no_sequence ∙ quiet.no_sequence },
      )
