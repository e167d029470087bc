-- ===== src/BleHost/Nimble/Quiet.antt =====
-- A stop of the NimBLE backend is final.
use esp_wifi_config.Common.{
  ℕ, ◌≡◌, refl, ap, ◌∙◌, List, [], ◌∷◌, ◌++◌, Bool, true, false, ◌||◌, ◌&&◌, ◌+◌, All,
  if◌then◌else◌,
}
use esp_wifi_config.BleHost.Nimble.{
  Call, Host, start_advertising, GapEvent, Happening, is_start, stop, happens, run, backend_stop,
}
use esp_wifi_config.BleHost.Nimble.Keeps.{
  is_adv_start, Keeps, KeepsCycle, Starts, pick_no, backend_stop-keeps, run-keeps,
}

-- How often advertising was started.
unfoldable pub adv_starts : List Call → ℕ
adv_starts [] = 0
adv_starts (c ∷ cs) = (if is_adv_start c then 1 else 0) + adv_starts cs

or_false : (a b : Bool) → (a || b) ≡ false → a ≡ false
or_false false b h = refl
or_false true b h = h

adv_starts-other :
    (c : Call) (cs : List Call) → is_adv_start c ≡ false → adv_starts (cs ++ c ∷ []) ≡ adv_starts cs
unfolding adv_starts
adv_starts-other c [] other = rw other refl
adv_starts-other c (d ∷ cs) other =
    ap (λ (n : ℕ). (if is_adv_start d then 1 else 0) + n) (adv_starts-other c cs other)

-- Advertising is not wanted, and was started so many times.
record Quiet (n : ℕ) (s : Host) : Type 0 where
  pub unwanted : s.advertising_desired ≡ false
  pub counted : adv_starts s.calls ≡ n

and_false : (b : Bool) → (b && false) ≡ false
and_false true = refl
and_false false = refl

start_advertising-Quiet :
    (answer : Call → List Call → ℕ) (n : ℕ) (s : Host)
    → Quiet n s
    → Quiet n (start_advertising answer s)
unfolding start_advertising
start_advertising-Quiet answer n s q =
    pick_no (Quiet n) (s.synced && s.advertising_desired) _ s
      (ap (λ (b : Bool). s.synced && b) q.unwanted ∙ and_false s.synced) q

module _ (answer : Call → List Call → ℕ) (n : ℕ) where
  Quiet-Keeps : Keeps answer (Quiet n)
  Quiet-Keeps = record {
    issues = λ c s plain q. record {
      unwanted = q.unwanted;
      counted = adv_starts-other c s.calls (or_false _ _ plain) ∙ q.counted;
    };
    advertises = start_advertising-Quiet answer n;
    links = λ h s q. record { unwanted = q.unwanted; counted = q.counted };
    syncs = λ s q. record { unwanted = q.unwanted; counted = q.counted };
    reports = λ st caps s q. record { unwanted = q.unwanted; counted = q.counted };
  }

  Quiet-KeepsCycle : KeepsCycle answer (Quiet n)
  Quiet-KeepsCycle = record {
    keeps = Quiet-Keeps;
    names = λ name owned s q. record { unwanted = q.unwanted; counted = q.counted };
    stops = λ s q. record { unwanted = refl; counted = q.counted };
    ends = λ s q. record { unwanted = q.unwanted; counted = q.counted };
  }

others-Starts :
    (answer : Call → List Call → ℕ) (n : ℕ) (es : List Happening)
    → All (λ e. is_start e ≡ false) es
    → All (Starts answer (Quiet n) (Quiet-KeepsCycle answer n)) es
others-Starts answer n [] others = others
others-Starts answer n (e ∷ es) others = (λ starts. absurd (cc), others-Starts answer n es others.1)

-- Once the backend is stopped, nothing but its start puts an advertisement on the air: not the end
-- of the link while the stop waits for it or later, not a failed connection, the end of an
-- advertisement, a late synchronisation, an initialisation or a teardown. Whatever NimBLE answers,
-- advertising is started as often as it was before the stop.
pub run-stop_quiet :
    (answer : Call → List Call → ℕ) (ess : List (List GapEvent)) (es : List Happening) (s : Host)
    → All (λ e. is_start e ≡ false) es
    → adv_starts (run answer (stop ess ∷ es) s).calls ≡ adv_starts s.calls
unfolding run happens backend_stop
run-stop_quiet answer ess es s others =
    let cycle = Quiet-KeepsCycle answer (adv_starts s.calls) in
    let unwanted : Quiet (adv_starts s.calls) (record s { advertising_desired = false }) = record {
      unwanted = refl;
      counted = refl;
    } in
    let stopped =
      backend_stop-keeps answer (Quiet (adv_starts s.calls)) cycle ess
        (record s { advertising_desired = false }) unwanted in
    (run-keeps answer (Quiet (adv_starts s.calls)) cycle es
      (others-Starts answer (adv_starts s.calls) es others) _ stopped).counted
