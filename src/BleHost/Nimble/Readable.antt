-- ===== src/BleHost/Nimble/Readable.antt =====
-- What the NimBLE backend hands to the stack to be advertised.
use esp_wifi_config.Common.{
  ℕ, ◌≡◌, ◌≤◌, refl, sym, List, [], ◌∷◌, Option, none, some, Bool, true, false, ◌||◌, ◌&&◌, ◌==◌,
  All, All-append, length, take, arith,
}
use esp_wifi_config.Common.Bytes.{Bytes}
use esp_wifi_config.Improv.Core.{ImprovState}
use esp_wifi_config.BleHost.Advert.{
  improv_uuid_le, service_data, adv_buf, name_len, rsp_buf, read_ads, read_ads-adv_buf,
  length-adv_buf, length-rsp_buf, read_ads-rsp_buf,
}
use esp_wifi_config.BleHost.Nimble.{
  Call, adv_start, adv_set_data, adv_rsp_set_data, Host, issue, start_advertising, put_advert,
  Happening, run,
}
use esp_wifi_config.BleHost.Nimble.Keeps.{
  adv_payload, rsp_payload, is_given, is_advert, KeepsCycle, Starts, pick, run-keeps,
}
use mathlib.Core.Path.{subst}

-- Three structures: the flags, the UUID of the service, and its data with some state.
pub record IsAdvert (bs : Bytes) : Type 0 where
  pub state : ImprovState
  pub caps : ℕ
  pub fits : length bs ≤ 31
  pub read :
      read_ads bs
      ≡ some ((0x01, 0x06 ∷ []) ∷ (0x07, improv_uuid_le) ∷ (0x16, service_data state caps) ∷ [])

-- One structure, a name.
pub record IsNamed (bs : Bytes) : Type 0 where
  pub name : Bytes
  pub fits : length bs ≤ 31
  pub read : read_ads bs ≡ some ((0x09, name) ∷ [])

abbrev pub IsGiven : (Bytes → Type 0) → Option Bytes → Type 0
IsGiven P none = Unit
IsGiven P (some bs) = P bs

-- What a call hands to the stack, if anything, is read back by a central.
abbrev pub IsReadable : Call → Type 0
IsReadable c = IsGiven IsAdvert (adv_payload c) × IsGiven IsNamed (rsp_payload c)

not-IsGiven : (P : Bytes → Type 0) (o : Option Bytes) → is_given o ≡ false → IsGiven P o
not-IsGiven P none h = tt
not-IsGiven P (some bs) h = absurd (cc)

or_parts : (a b c : Bool) → (a || (b || c)) ≡ false → (b ≡ false) × (c ≡ false)
or_parts false false c h = (refl, h)
or_parts false true c h = absurd (cc)
or_parts true b c h = absurd (cc)

abbrev Told : Host → Type 0
Told s = All IsReadable s.calls

tell : (c : Call) (s : Host) → IsReadable c → Told s → Told (issue c s)
tell c s r p = All-append IsReadable s.calls (c ∷ []) p (r, tt)

plain-IsReadable : (c : Call) → is_advert c ≡ false → IsReadable c
plain-IsReadable c plain =
    let parts = or_parts _ _ _ plain in
    (not-IsGiven IsAdvert _ parts.0, not-IsGiven IsNamed _ parts.1)

module _ (answer : Call → List Call → ℕ) where
  put_advert-Told : (s : Host) → Told s → Told (put_advert answer s)
  put_advert-Told s p =
      let st = s.improv_state in
      let advert : IsAdvert (adv_buf st s.capabilities) = record {
        state = st;
        caps = s.capabilities;
        fits = omega (arith, length-adv_buf st s.capabilities);
        read = read_ads-adv_buf st s.capabilities;
      } in
      let named : IsNamed (rsp_buf s.device_name) = record {
        name = take (name_len s.device_name) s.device_name;
        fits = length-rsp_buf s.device_name;
        read = read_ads-rsp_buf s.device_name;
      } in
      let s1 = issue (adv_set_data (adv_buf st s.capabilities)) s in
      let s2 = issue (adv_rsp_set_data (rsp_buf s.device_name)) s1 in
      let data_set = tell (adv_set_data (adv_buf st s.capabilities)) s (advert, tt) p in
      let both_set = tell (adv_rsp_set_data (rsp_buf s.device_name)) s1 (tt, named) data_set in
      pick Told (answer (adv_set_data (adv_buf st s.capabilities)) s.calls == 0)
        (issue adv_start s2) s1 (tell adv_start s2 (tt, tt) both_set) data_set

  start_advertising-Told : (s : Host) → Told s → Told (start_advertising answer s)
  unfolding start_advertising
  start_advertising-Told s p =
      pick Told (s.synced && s.advertising_desired) _ s (put_advert-Told s p) p

  Told-KeepsCycle : KeepsCycle answer Told
  Told-KeepsCycle = record {
    keeps = record {
      issues = λ c s plain p. tell c s (plain-IsReadable c plain) p;
      advertises = start_advertising-Told;
      links = λ h s p. p;
      syncs = λ s p. p;
      reports = λ st caps s p. p;
    };
    names = λ name owned s p. p;
    stops = λ s p. p;
    ends = λ s p. p;
  }

  any-Starts : (es : List Happening) → All (Starts answer Told Told-KeepsCycle) es
  any-Starts [] = tt
  any-Starts (e ∷ es) = (λ starts s p. p, any-Starts es)

  -- From a state in which no call was made, whatever happens to the backend and whatever NimBLE
  -- answers, the advertising data handed to it is at most 31 bytes that a central reads as the flags,
  -- the UUID of the Improv service and the service data with a state and capabilities, and the scan
  -- response at most 31 bytes that it reads as one complete name, however long the device's name is.
  pub run-IsReadable :
      (es : List Happening) (s : Host) → s.calls ≡ [] → All IsReadable (run answer es s).calls
  run-IsReadable es s none_yet =
      run-keeps answer Told Told-KeepsCycle es (any-Starts es) s
        (subst (λ (cs : List Call). All IsReadable cs) (sym none_yet) tt)
