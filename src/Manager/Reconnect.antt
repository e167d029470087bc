-- ===== src/Manager/Reconnect.antt =====
-- Reconnecting while the network stays away.
use mathlib.Core.Path.{subst}
use native.Mathlib.Nat as Nat
use esp_wifi_config.Common.{
  ltb, ltb→lt, ◌⊎◌, ℕ, ◌+◌, ◌%◌, ◌^◌, ◌≤◌, ◌<◌, ◌≡◌, refl, ap, ◌∙◌, List, [], ◌∷◌, Option-cases,
  true, false, Bool-cases, inl, inr, length, arith,
}
use esp_wifi_config.Common.Bytes.{Bytes}
use esp_wifi_config.Network.Backoff.{calc_backoff_delay}
use esp_wifi_config.Network.Backoff.Saturating.{calc_backoff_delay_defined}
use esp_wifi_config.Manager.{
  Config, Manager, Next, running, undefined, is_current, dropped, wants_reconnect, exhausted,
  schedule, auto_reconnect, sta_disconnected,
}
use esp_wifi_config.Manager.Suppressed.{and_run}

-- The device is off the air, tries to come back, and has made `r` attempts.
pub record Away (r : ℕ) (m : Manager) : Type 0 where
  pub no_ssid : m.connected_ssid ≡ []
  pub no_bit : m.connected_bit ≡ false
  pub allowed : m.reconnect_suppressed ≡ false
  pub idle : m.connecting ≡ false
  pub attempts : m.retry_count ≡ r

-- A report that the device is disconnected: the tick, the SSID and the reason.
pub record Report : Type 0 where
  pub at : ℕ
  pub ssid : Bytes
  pub reason : ℕ

module _ (cfg : Config) (ms_to_ticks : ℕ → ℕ) where
  abbrev pub run_reports : List Report → Manager → Next
  run_reports [] m = running m
  run_reports (r ∷ rs) m =
      and_run cfg ms_to_ticks (run_reports rs)
        (sta_disconnected cfg ms_to_ticks r.at r.ssid r.reason m)

  -- The reconnect is wanted, and never exhausted.
  pub record Persistent : Type 0 where
    pub automatic : cfg.auto_reconnect ≡ true
    pub unlimited : cfg.max_reconnect_attempts ≡ 0

  abbrev scheduled : Report → Manager → Manager
  scheduled r m = record (dropped r.ssid r.reason m) {
    reconnect_attempt_count = (m.reconnect_attempt_count + 1) % 2 ^ 16;
  }

  Away-is_current : (n : ℕ) (ssid : Bytes) (m : Manager) → Away n m → is_current ssid m ≡ true
  unfolding is_current
  Away-is_current n ssid m away = rw (away.no_ssid, is_current) (rw (away.no_bit) refl)

  Away-wants_reconnect :
      (n : ℕ) (m : Manager) → Persistent → Away n m → wants_reconnect cfg m ≡ true
  Away-wants_reconnect n m persistent away =
      rw (persistent.automatic, away.allowed, away.idle, wants_reconnect) refl

  never_exhausted : (attempts : ℕ) → Persistent → exhausted cfg attempts ≡ false
  never_exhausted attempts persistent = rw (persistent.unlimited, exhausted) refl

  report_lem :
      (r : Report) (n : ℕ) (m : Manager)
      → Persistent
      → Away n m
      → sta_disconnected cfg ms_to_ticks r.at r.ssid r.reason m
        ≡ schedule cfg ms_to_ticks r.at (scheduled r m)
  unfolding sta_disconnected auto_reconnect
  report_lem r n m persistent away =
      rw (Away-is_current n r.ssid m away, sta_disconnected)
        (rw (Away-wants_reconnect n m persistent away) (
          rw (never_exhausted ((m.reconnect_attempt_count + 1) % 2 ^ 16) persistent, auto_reconnect)
            refl))

  -- The manager is away, with the next attempt scheduled.
  pub record Waiting (r : ℕ) (m : Manager) : Type 0 where
    pub away : Away r m
    pub pending : m.reconnect_pending ≡ true

  abbrev put_off : Report → ℕ → Manager → Manager
  put_off r delay m = record (scheduled r m) {
    retry_count = m.retry_count + 1;
    reconnect_due_tick = (r.at + ms_to_ticks delay) % 2 ^ 32;
    reconnect_pending = true;
  }

  -- A report while fewer than 32 attempts were made schedules the next one.
  report_scheduled :
      (r : Report) (n : ℕ) (m : Manager)
      → Persistent
      → Away n m
      → n < 32
      → (m' : Manager) × (sta_disconnected cfg ms_to_ticks r.at r.ssid r.reason m ≡ running m')
        × Waiting (n + 1) m'
  unfolding schedule
  report_scheduled r n m persistent away few =
      elim (Option-cases
        (calc_backoff_delay cfg.retry_interval_ms cfg.retry_max_interval_ms m.retry_count)) [
          | inl none_left ↦ absurd (
              omega (
                arith,
                (calc_backoff_delay_defined cfg.retry_interval_ms cfg.retry_max_interval_ms
                      m.retry_count).0
                    none_left,
                away.attempts,
              ))
          | inr (delay, computed) ↦ (
            put_off r delay m,
            report_lem r n m persistent away ∙ rw (computed, schedule) refl,
            record {
              away = record {
                no_ssid = refl;
                no_bit = refl;
                allowed = away.allowed;
                idle = away.idle;
                attempts = ap (λ (k : ℕ). k + 1) away.attempts;
              };
              pending = refl;
            },
          )
        ]

  report_undefined :
      (r : Report) (n : ℕ) (m : Manager)
      → Persistent
      → Away n m
      → 32 ≤ n
      → sta_disconnected cfg ms_to_ticks r.at r.ssid r.reason m ≡ undefined
  unfolding schedule
  report_undefined r n m persistent away many =
      report_lem r n m persistent away
      ∙ rw
          (
            (calc_backoff_delay_defined cfg.retry_interval_ms cfg.retry_max_interval_ms
                  m.retry_count).1
                (omega (arith, away.attempts)),
            schedule,
          )
          refl

  -- While a device that may retry for ever is off the air and gets no address, each report of a
  -- failed attempt schedules the next attempt, up to the thirty-second; one report more and the
  -- delay is computed by a shift that C leaves undefined. From `r` attempts on, a run of reports is
  -- undefined exactly if it takes the count above 32, and else it ends with an attempt scheduled.
  pub run_reports-undefined :
      (rs : List Report) (r : ℕ) (m : Manager)
      → Persistent
      → Waiting r m
      → r ≤ 32
      → ((32 < r + length rs) × (run_reports rs m ≡ undefined))
        ⊎ ((r + length rs ≤ 32)
            × ((m' : Manager) × (run_reports rs m ≡ running m') × Waiting (r + length rs) m'))
  run_reports-undefined [] r m persistent waiting bound =
      inr (omega arith, (m, refl, rw (Nat.add-zero r) waiting))
  run_reports-undefined (x ∷ xs) r m persistent waiting bound = elim (Bool-cases (ltb r 32)) [
    | inl few ↦
        let (m1, ran, waiting1) =
          report_scheduled x r m persistent waiting.away (ltb→lt r 32 few) in
        elim (run_reports-undefined xs (r + 1) m1 persistent waiting1 (ground arith)) [
          | inl (more, undef) ↦ inl (omega arith, rw ran undef)
          | inr (less, (m', later, last)) ↦
              inr (
                omega arith,
                (m', rw ran later, subst (λ (k : ℕ). Waiting k m') (omega arith) last),
              )
        ]
    | inr many ↦
        inl (ground arith, rw (report_undefined x r m persistent waiting.away (ground arith)) refl)
  ]
