-- ===== src/Provisioning/Budget.antt =====
-- How often the access point is put back in a session, and in none.
use esp_wifi_config.Common.{
  ℕ, ◌+◌, ◌≤◌, ◌≡◌, refl, sym, List, [], ◌∷◌, ◌++◌, Bool, true, false, ◌||◌, not, Bool-cases, inl,
  inr, leb, if◌then◌else◌, arith,
}
use mathlib.Core.Path.{subst}
use esp_wifi_config.Event.{Event, ap_start, ap_stop, provisioning_stopped}
use esp_wifi_config.Provisioning.{
  WifiMode, Settings, Device, has_ap, start_ap, stop_ap, ap_reassert, ap_down, session_down,
  stop_provisioning, ap_started, ap_stopped, stop_http, reconnect_constraint,
}

-- What can happen between the start of one session and that of the next: the driver's mode is
-- changed by anything, or cannot be read, the driver's messages, the end of the session and of the
-- server, and what the application, a REST client or the console asks of the access point:
-- `wifi_cfg_start_ap`, `wifi_cfg_stop_ap` and `wifi_cfg_set_ap_config`.
pub data Happening : Type 0 where
  mode_set : WifiMode → Happening
  mode_reads : Bool → Happening
  message_ap_started message_ap_stopped call_stop call_stop_http : Happening
  call_start_ap call_stop_ap call_set_ap_config : Happening

abbrev pub is_ap_start : Event → Bool
is_ap_start ap_start = true
is_ap_start _ = false

-- How often the access point was started.
unfoldable pub ap_starts : List Event → ℕ
ap_starts [] = 0
ap_starts (e ∷ es) = if is_ap_start e then ap_starts es + 1 else ap_starts es

ap_starts-append : (es fs : List Event) → ap_starts (es ++ fs) ≡ ap_starts es + ap_starts fs
unfolding ap_starts
ap_starts-append [] fs = omega arith
ap_starts-append (e ∷ es) fs = grind (arith, ap_starts-append es fs)

module _ (cfg : Settings) where
  abbrev pub happen : Happening → Device → Device
  happen (mode_set m) d = record d { mode = m }
  happen message_ap_started d = ap_started cfg d
  happen message_ap_stopped d = ap_stopped cfg d
  happen call_stop d = stop_provisioning cfg d
  happen call_stop_http d = (stop_http cfg d).1
  happen (mode_reads b) d = record d { mode_read = b }
  happen call_start_ap d = start_ap d
  happen call_stop_ap d = stop_ap d
  happen call_set_ap_config d = if d.ap_active then start_ap d else d

  -- The starts that are asked for: new settings restart an access point that is up.
  abbrev pub asks : Happening → Device → ℕ
  asks call_start_ap d = 1
  asks call_set_ap_config d = if d.ap_active then 1 else 0
  asks _ d = 0

  unfoldable pub asked : List Happening → Device → ℕ
  asked [] d = 0
  asked (h ∷ hs) d = asks h d + asked hs (happen h d)

  unfoldable pub happenings : List Happening → Device → Device
  happenings [] d = d
  happenings (h ∷ hs) d = happenings hs (happen h d)

  -- Each start of the access point but the `n` that are asked for is paid for from the budget, and
  -- there is none out of a session.
  record Paid (n : ℕ) (d d' : Device) : Type 0 where
    counted :
        ap_starts d'.posted + d.ap_reassert_count ≡ ap_starts d.posted + d'.ap_reassert_count + n
    bounded : d.ap_reassert_count ≤ 3 → d'.ap_reassert_count ≤ 3
    ended :
        d.provisioning_active ≡ false
        → (d'.provisioning_active ≡ false) × (ap_starts d'.posted ≡ ap_starts d.posted + n)

  Paid-same :
      (n : ℕ) (d d' : Device)
      → ap_starts d'.posted ≡ ap_starts d.posted + n
      → d'.ap_reassert_count ≡ d.ap_reassert_count
      → (d.provisioning_active ≡ false → d'.provisioning_active ≡ false)
      → Paid n d d'
  Paid-same n d d' starts count off = record {
    counted = omega (arith, starts, count);
    bounded = λ h. omega (arith, count, h);
    ended = λ h. (off h, starts);
  }

  -- Nothing is asked for.
  Paid-none :
      (d d' : Device)
      → ap_starts d'.posted ≡ ap_starts d.posted
      → d'.ap_reassert_count ≡ d.ap_reassert_count
      → (d.provisioning_active ≡ false → d'.provisioning_active ≡ false)
      → Paid 0 d d'
  Paid-none d d' starts = Paid-same 0 d d' (omega (arith, starts))

  Paid-trans : (m n : ℕ) (a b c : Device) → Paid m a b → Paid n b c → Paid (m + n) a c
  Paid-trans m n a b c p q = record {
    counted = omega (arith, p.counted, q.counted);
    bounded = λ h. q.bounded (p.bounded h);
    ended = λ h.
        let (off, same) = p.ended h in
        let (off', same') = q.ended off in (off', omega (arith, same, same'));
  }

  Paid-if :
      (n : ℕ) (t : Bool) (d a b : Device)
      → (t ≡ true → Paid n d a)
      → (t ≡ false → Paid n d b)
      → Paid n d (if t then a else b)
  Paid-if n true d a b p q = p refl
  Paid-if n false d a b p q = q refl

  Paid-self : (d : Device) → Paid 0 d d
  Paid-self d = Paid-none d d refl refl (λ h. h)

  restart-Paid :
      (d : Device)
      → (not cfg.enable_ap || not d.provisioning_active) ≡ false
      → leb 3 d.ap_reassert_count ≡ false
      → Paid 0 d (start_ap (record d { ap_reassert_count = d.ap_reassert_count + 1 }))
  unfolding start_ap ap_starts
  restart-Paid d wanted left = record {
    counted = omega (arith, ap_starts-append d.posted (ap_start ∷ []));
    bounded = λ h. ground arith;
    ended = λ h. absurd (ground arith);
  }

  ap_reassert-Paid : (d : Device) → Paid 0 d (ap_reassert cfg d).1
  unfolding ap_reassert
  ap_reassert-Paid d = elim (Bool-cases (not cfg.enable_ap || not d.provisioning_active)) [
    | inl idle ↦ rw (idle, ap_reassert) (Paid-self d)
    | inr wanted ↦ elim (Bool-cases (not d.mode_read || has_ap d.mode)) [
      | inl up ↦ rw (wanted, ap_reassert) (rw up (Paid-self d))
      | inr gone ↦ elim (Bool-cases (leb 3 d.ap_reassert_count)) [
        | inl spent ↦ rw (wanted, ap_reassert) (rw gone (rw spent (Paid-self d)))
        | inr left ↦ rw (wanted, ap_reassert) (rw gone (rw left (restart-Paid d wanted left)))
      ]
    ]
  ]

  ap_stopped-Paid : (d : Device) → Paid 0 d (ap_stopped cfg d)
  unfolding ap_stopped
  ap_stopped-Paid d =
      let d1 : Device = record d { ap_active = false } in
      let same : Paid 0 d d1 = Paid-none d d1 refl refl (λ h. h) in
      Paid-if 0 d.ap_active d _ d1
        (λ theirs. Paid-trans 0 0 d d1 (ap_reassert cfg d1).1 same (ap_reassert-Paid d1))
        (λ ours. same)

  start_ap-Paid : (d : Device) → Paid 1 d (start_ap d)
  unfolding start_ap ap_starts
  start_ap-Paid d = Paid-same 1 d _ (ap_starts-append d.posted (ap_start ∷ [])) refl (λ h. h)

  -- The events of a stop and of a session's end are no starts.
  stop_ap-Paid : (d : Device) → Paid 0 d (stop_ap d)
  unfolding stop_ap ap_starts
  stop_ap-Paid d =
      Paid-none d _ (omega (arith, ap_starts-append d.posted (ap_stop ∷ []))) refl (λ h. h)

  ap_down-Paid : (d : Device) → Paid 0 d (ap_down cfg d)
  ap_down-Paid d =
      Paid-if 0 d.ap_active d (stop_ap d) d (λ up. stop_ap-Paid d) (λ down. Paid-self d)

  session_down-Paid : (d : Device) → Paid 0 d (session_down cfg d)
  unfolding ap_starts
  session_down-Paid d =
      Paid-none d _ (omega (arith, ap_starts-append d.posted (provisioning_stopped ∷ []))) refl
        (λ h. refl)

  stop_provisioning-Paid : (d : Device) → Paid 0 d (stop_provisioning cfg d)
  unfolding stop_provisioning
  stop_provisioning-Paid d =
      Paid-if 0 d.provisioning_active d _ d
        (λ on.
          Paid-trans 0 0 d (ap_down cfg d) _ (ap_down-Paid d) (session_down-Paid (ap_down cfg d)))
        (λ off. Paid-self d)

  stop_http-Paid : (d : Device) → Paid 0 d (stop_http cfg d).1
  unfolding stop_http
  stop_http-Paid d =
      elim (Bool-cases
        (not d.httpd || d.provisioning_active || reconnect_constraint cfg || not d.httpd_owned)) [
          | inl refused ↦ rw (refused, stop_http) (Paid-self d)
          | inr stopped ↦ rw (stopped, stop_http) (Paid-none d _ refl refl (λ h. h))
        ]

  set_ap_config-Paid :
      (d : Device) → Paid (if d.ap_active then 1 else 0) d (if d.ap_active then start_ap d else d)
  set_ap_config-Paid d = elim (Bool-cases d.ap_active) [
    | inl up ↦
        subst (λ (b : Bool). Paid (if b then 1 else 0) d (if b then start_ap d else d)) (sym up)
          (start_ap-Paid d)
    | inr down ↦
        subst (λ (b : Bool). Paid (if b then 1 else 0) d (if b then start_ap d else d)) (sym down)
          (Paid-self d)
  ]

  happen-Paid : (h : Happening) (d : Device) → Paid (asks h d) d (happen h d)
  unfolding ap_started
  happen-Paid (mode_set m) d = Paid-none d _ refl refl (λ h. h)
  happen-Paid (mode_reads b) d = Paid-none d _ refl refl (λ h. h)
  happen-Paid message_ap_started d = Paid-none d _ refl refl (λ h. h)
  happen-Paid message_ap_stopped d = ap_stopped-Paid d
  happen-Paid call_stop d = stop_provisioning-Paid d
  happen-Paid call_stop_http d = stop_http-Paid d
  happen-Paid call_start_ap d = start_ap-Paid d
  happen-Paid call_stop_ap d = stop_ap-Paid d
  happen-Paid call_set_ap_config d = set_ap_config-Paid d

  happenings-Paid : (hs : List Happening) (d : Device) → Paid (asked hs d) d (happenings hs d)
  unfolding happenings asked
  happenings-Paid [] d = Paid-self d
  happenings-Paid (h ∷ hs) d =
      Paid-trans (asks h d) (asked hs (happen h d)) d (happen h d) (happenings hs (happen h d))
        (happen-Paid h d) (happenings-Paid hs (happen h d))

  -- Until the next session is started, the access point is started three times at most beyond the
  -- times that this is asked for (by a start of the access point, or by new settings for one that is
  -- up), whatever takes it down and however often, counting what the session spent before. Without a
  -- session it is started exactly as often as it is asked for.
  pub happenings-budget :
      (hs : List Happening) (d : Device)
      → d.ap_reassert_count ≤ 3
      → let d' = happenings hs d in
        (ap_starts d'.posted + d.ap_reassert_count ≤ ap_starts d.posted + asked hs d + 3)
        × (d.provisioning_active ≡ false → ap_starts d'.posted ≡ ap_starts d.posted + asked hs d)
  happenings-budget hs d within =
      let paid = happenings-Paid hs d in
      (omega (arith, paid.counted, paid.bounded within), λ off. (paid.ended off).1)
