-- ===== src/BleHost/Nimble/Armed.antt =====
-- The NimBLE backend advertises in whichever order it is started and synchronised, and again at the
-- end of each link.
use esp_wifi_config.Common.{
  ℕ, ◌≡◌, refl, sym, List, [], ◌∷◌, ◌++◌, map, Bool, true, false, ◌&&◌, ◌==◌,
}
use mathlib.Core.Path.{subst}
use esp_wifi_config.BleHost.Nimble.{
  Call, adv_start, Host, start_advertising, GapEvent, disconnect, gap_event_handler, gap_events,
  ble_on_sync, backend_start, Happening, start, sync, gap, happens, run,
}
use esp_wifi_config.BleHost.Nimble.Keeps.{Keeps, pick, pick_yes, gap_events-keeps}

-- The latest call is that which starts advertising.
pub record EndsStarted (s : Host) : Type 0 where
  pub before : List Call
  pub ends : s.calls ≡ before ++ adv_start ∷ []

abbrev Desired : Host → Type 0
Desired s = s.advertising_desired ≡ true

abbrev Synced : Host → Type 0
Synced s = s.synced ≡ true

both_true : (a b : Bool) → a ≡ true → b ≡ true → (a && b) ≡ true
both_true true b h k = k
both_true false b h k = absurd (cc)

zero_test : (n : ℕ) → n ≡ 0 → (n == 0) ≡ true
zero_test n h = rw h refl

module _ (answer : Call → List Call → ℕ) where
  abbrev pub Accepts : Type 0
  Accepts = (c : Call) (cs : List Call) → answer c cs ≡ 0

  start_advertising-EndsStarted :
      (s : Host)
      → Accepts
      → s.synced ≡ true
      → s.advertising_desired ≡ true
      → EndsStarted (start_advertising answer s)
  unfolding start_advertising
  start_advertising-EndsStarted s accepts synced desired =
      pick_yes EndsStarted (s.synced && s.advertising_desired) _ s (both_true _ _ synced desired) (
        pick_yes EndsStarted (answer _ s.calls == 0) _ _ (zero_test _ (accepts _ s.calls))
          (record { before = _; ends = refl }))

  advertising-Desired : (s : Host) → Desired s → Desired (start_advertising answer s)
  unfolding start_advertising
  advertising-Desired s q =
      pick Desired (s.synced && s.advertising_desired) _ s (pick Desired _ _ _ q q) q

  advertising-Synced : (s : Host) → Synced s → Synced (start_advertising answer s)
  unfolding start_advertising
  advertising-Synced s q =
      pick Synced (s.synced && s.advertising_desired) _ s (pick Synced _ _ _ q q) q

  Desired-Keeps : Keeps answer Desired
  Desired-Keeps = record {
    issues = λ c s plain q. q;
    advertises = advertising-Desired;
    links = λ h s q. q;
    syncs = λ s q. q;
    reports = λ st caps s q. q;
  }

  Synced-Keeps : Keeps answer Synced
  Synced-Keeps = record {
    issues = λ c s plain q. q;
    advertises = advertising-Synced;
    links = λ h s q. q;
    syncs = λ s q. refl;
    reports = λ st caps s q. q;
  }

  run-gap_events :
      (es : List GapEvent) (fs : List Happening) (s : Host)
      → run answer (map gap es ++ fs) s ≡ run answer fs (gap_events answer es s)
  unfolding run happens gap_events
  run-gap_events [] fs s = refl
  run-gap_events (e ∷ es) fs s = run-gap_events es fs (gap_event_handler answer e s)

  ble_on_sync-EndsStarted : (s : Host) → Accepts → Desired s → EndsStarted (ble_on_sync answer s)
  unfolding ble_on_sync
  ble_on_sync-EndsStarted s accepts desired =
      pick_yes EndsStarted (answer _ s.calls == 0) _ _ (zero_test _ (accepts _ s.calls))
        (start_advertising-EndsStarted _ accepts refl desired)

  ble_on_sync-Synced : (s : Host) → Accepts → Synced (ble_on_sync answer s)
  unfolding ble_on_sync
  ble_on_sync-Synced s accepts =
      pick_yes Synced (answer _ s.calls == 0) _ _ (zero_test _ (accepts _ s.calls))
        (advertising-Synced _ refl)

  disconnect-EndsStarted :
      (s : Host)
      → Accepts
      → Synced s
      → Desired s
      → EndsStarted (gap_event_handler answer disconnect s)
  unfolding gap_event_handler
  disconnect-EndsStarted s accepts synced desired =
      pick_yes EndsStarted s.advertising_desired _ _ desired
        (start_advertising-EndsStarted _ accepts synced desired)

  -- NimBLE accepts every call. Whether the application starts the backend and the host synchronises
  -- later or the other way round, whatever links, pairings and advertisements come and go in
  -- between, the last of the two starts advertising.
  pub run-either_order :
      (es : List GapEvent) (s : Host)
      → Accepts
      → EndsStarted (run answer (start ∷ map gap es ++ sync ∷ []) s)
        × EndsStarted (run answer (sync ∷ map gap es ++ start ∷ []) s)
  unfolding run happens backend_start
  run-either_order es s accepts =
      let begun = start_advertising answer (record s { advertising_desired = true }) in
      let desired =
        gap_events-keeps answer Desired Desired-Keeps es begun
          (advertising-Desired (record s { advertising_desired = true }) refl) in
      let synced =
        gap_events-keeps answer Synced Synced-Keeps es (ble_on_sync answer s)
          (ble_on_sync-Synced s accepts) in
      (
        subst EndsStarted (sym (run-gap_events es (sync ∷ []) begun))
            (ble_on_sync-EndsStarted _ accepts desired),
        subst EndsStarted (sym (run-gap_events es (start ∷ []) (ble_on_sync answer s)))
            (start_advertising-EndsStarted _ accepts synced refl),
      )

  -- NimBLE accepts every call. While the backend is started and synchronised, whatever events come
  -- before, the end of a link starts advertising again.
  pub run-rearmed :
      (es : List GapEvent) (s : Host)
      → Accepts
      → s.synced ≡ true
      → s.advertising_desired ≡ true
      → EndsStarted (run answer (map gap es ++ gap disconnect ∷ []) s)
  unfolding run happens
  run-rearmed es s accepts synced desired =
      subst EndsStarted (sym (run-gap_events es (gap disconnect ∷ []) s)) (
        disconnect-EndsStarted _ accepts (gap_events-keeps answer Synced Synced-Keeps es s synced)
          (gap_events-keeps answer Desired Desired-Keeps es s desired))
