-- ===== src/BleHost/Bluedroid/Chain.antt =====
-- How far a stop of the Bluedroid backend reaches.
use esp_wifi_config.Common.{
  ℕ, ◌+◌, ◌≡◌, refl, ap, ◌∙◌, List, [], ◌∷◌, ◌++◌, Bool, true, false, All, arith, if◌then◌else◌,
}
use esp_wifi_config.BleHost.Bluedroid.{
  Call, start_adv, stop_adv, gap_disconnect, config_scan_rsp, profile, controller_deinit,
  controller_disable, bluedroid_deinit, bluedroid_disable, stop_stack, adv_data_set_complete,
  scan_rsp_data_set_complete, gap_other, GattsEvent, gatts_connect, gatts_disconnect, gatts_other,
  Host, issue, gap_event_handler, gatts_dispatch_handler, track, backend_start, backend_stop,
  backend_deinit, Happening, start, stop, deinit, gap, gatts, improv, happens, run,
}
use esp_wifi_config.BleHost.Nimble.Keeps.{pick, pick_no}

abbrev pub is_start_adv : Call → Bool
is_start_adv start_adv = true
is_start_adv _ = false

-- How often advertising was started.
unfoldable pub adv_starts : List Call → ℕ
adv_starts [] = 0
adv_starts (c ∷ cs) = (if is_start_adv c then 1 else 0) + adv_starts cs

adv_starts-other :
    (c : Call) (cs : List Call) → is_start_adv c ≡ false → adv_starts (cs ++ c ∷ []) ≡ adv_starts cs
unfolding adv_starts
adv_starts-other c [] plain = rw plain refl
adv_starts-other c (d ∷ cs) plain =
    ap (λ (n : ℕ). (if is_start_adv d then 1 else 0) + n) (adv_starts-other c cs plain)

adv_starts-again : (cs : List Call) → adv_starts (cs ++ start_adv ∷ []) ≡ adv_starts cs + 1
unfolding adv_starts
adv_starts-again [] = refl
adv_starts-again (c ∷ cs) = omega (arith, adv_starts-again cs)

-- The events that go on with advertising by themselves: a start, and the end of the second step of
-- the configuration.
abbrev pub goes_on : Happening → Bool
goes_on start = true
goes_on (gap scan_rsp_data_set_complete) = true
goes_on _ = false

-- Advertising is not wanted, and was started so many times.
record Quiet (n : ℕ) (s : Host) : Type 0 where
  pub unwanted : s.advertising_desired ≡ false
  pub counted : adv_starts s.calls ≡ n

other : (c : Call) (n : ℕ) (s : Host) → is_start_adv c ≡ false → Quiet n s → Quiet n (issue c s)
other c n s plain q = record {
  unwanted = q.unwanted;
  counted = adv_starts-other c s.calls plain ∙ q.counted;
}

track-Quiet : (e : GattsEvent) (n : ℕ) (s : Host) → Quiet n s → Quiet n (track e s)
track-Quiet (gatts_connect bda) n s q = record { unwanted = q.unwanted; counted = q.counted }
track-Quiet gatts_disconnect n s q =
    pick_no (Quiet n) s.advertising_desired _ _ q.unwanted
      (record { unwanted = q.unwanted; counted = q.counted })
track-Quiet gatts_other n s q = q

backend_stop-Quiet : (n : ℕ) (s : Host) → adv_starts s.calls ≡ n → Quiet n (backend_stop s).1
unfolding backend_stop
backend_stop-Quiet n s counted =
    let s1 = record s { advertising_desired = false } in
    let unwanted : Quiet n s1 = record { unwanted = refl; counted = counted } in
    other stop_adv n _ refl (
      pick (Quiet n) s.connected (issue (gap_disconnect s.remote_bda) s1) s1
        (other (gap_disconnect s.remote_bda) n s1 refl unwanted) unwanted)

stop_stack-Quiet : (n : ℕ) (s : Host) → Quiet n s → Quiet n (stop_stack s)
stop_stack-Quiet n s q =
    pick (Quiet n) s.stack_owned _ s
      (other controller_deinit n _ refl (
        other controller_disable n _ refl
          (other bluedroid_deinit n _ refl (other bluedroid_disable n s refl q))))
      q

happens-Quiet :
    (e : Happening) (n : ℕ) (s : Host) → goes_on e ≡ false → Quiet n s → Quiet n (happens e s)
unfolding happens gap_event_handler gatts_dispatch_handler backend_deinit
happens-Quiet start n s h q = absurd (cc)
happens-Quiet stop n s h q = backend_stop-Quiet n s q.counted
happens-Quiet deinit n s h q =
    let down = stop_stack-Quiet n (backend_stop s).1 (backend_stop-Quiet n s q.counted) in
    record { unwanted = down.unwanted; counted = down.counted }
happens-Quiet (gap adv_data_set_complete) n s h q = other config_scan_rsp n s refl q
happens-Quiet (gap scan_rsp_data_set_complete) n s h q = absurd (cc)
happens-Quiet (gap gap_other) n s h q = q
happens-Quiet (gatts e) n s h q = other (profile e) n (track e s) refl (track-Quiet e n s q)
happens-Quiet (improv st caps) n s h q = record { unwanted = q.unwanted; counted = q.counted }

run-Quiet :
    (es : List Happening) (n : ℕ) (s : Host)
    → All (λ e. goes_on e ≡ false) es
    → Quiet n s
    → Quiet n (run es s)
unfolding run
run-Quiet [] n s h q = q
run-Quiet (e ∷ es) n s h q = run-Quiet es n (happens e s) h.1 (happens-Quiet e n s h.0 q)

-- After a stop, as long as neither a start nor the end of the scan response's configuration follows,
-- advertising is started as often as before it: the end of the link that the stop closes does not
-- start it again.
pub run-stop_holds :
    (es : List Happening) (s : Host)
    → All (λ e. goes_on e ≡ false) es
    → adv_starts (run (stop ∷ es) s).calls ≡ adv_starts s.calls
unfolding run happens
run-stop_holds es s h =
    (run-Quiet es (adv_starts s.calls) _ h (backend_stop-Quiet (adv_starts s.calls) s refl)).counted

-- A stop that comes before the steps of the configuration that a start began have ended is outrun
-- by them: advertising is started once more although it is not wanted any more.
pub run-stop_outrun :
    (s : Host)
    → let s' =
        run (start ∷ stop ∷ gap adv_data_set_complete ∷ gap scan_rsp_data_set_complete ∷ []) s in
      (adv_starts s'.calls ≡ adv_starts s.calls + 1) × (s'.advertising_desired ≡ false)
unfolding run happens backend_start gap_event_handler
run-stop_outrun s =
    let begun = (backend_start s).1 in
    let told =
      other config_scan_rsp _ _ refl (backend_stop-Quiet (adv_starts begun.calls) begun refl) in
    (
      adv_starts-again _ ∙ ap (λ (n : ℕ). n + 1) (told.counted ∙ adv_starts-other _ s.calls refl),
      told.unwanted,
    )
