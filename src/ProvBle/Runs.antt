-- ===== src/ProvBle/Runs.antt =====
-- The first step of a run of happenings.
use esp_wifi_config.Common.{◌≡◌, ap, ◌∙◌, List, ◌∷◌, Bool, true, false, if◌then◌else◌}
use esp_wifi_config.Network.Types.{Network}
use esp_wifi_config.Nvs.Driver.{NvsDriver}
use esp_wifi_config.ProvBle.{ProvConfig, Prov, Happening, heard, happens, run}

if-true : {A : Type 0} (b : Bool) (x y : A) → b ≡ true → (if b then x else y) ≡ x
if-true b x y h = rw h

if-false : {A : Type 0} (b : Bool) (x y : A) → b ≡ false → (if b then x else y) ≡ y
if-false b x y h = rw h

module _ (cfg : ProvConfig) (drv : NvsDriver Network) where
  open drv use {Flash}

  pub heard-on :
      (after s : Prov Flash) → s.event_handler_registered ≡ true → heard cfg drv after s ≡ after
  heard-on after s hears = if-true s.event_handler_registered after s hears

  module _ (e : Happening cfg drv) (es : List (Happening cfg drv)) (s : Prov Flash) where
    pub run-over : s.restarted ≡ true → run cfg drv (e ∷ es) s ≡ s
    unfolding run
    run-over h = if-true s.restarted s (run cfg drv es (happens cfg drv e s)) h

    pub run-on : s.restarted ≡ false → run cfg drv (e ∷ es) s ≡ run cfg drv es (happens cfg drv e s)
    unfolding run
    run-on h = if-false s.restarted s (run cfg drv es (happens cfg drv e s)) h

    -- An event that is heard.
    pub run-heard :
        (after : Prov Flash)
        → s.restarted ≡ false
        → s.event_handler_registered ≡ true
        → happens cfg drv e s ≡ heard cfg drv after s
        → run cfg drv (e ∷ es) s ≡ run cfg drv es after
    run-heard after on hears handled =
        run-on on ∙ ap (run cfg drv es) (handled ∙ heard-on after s hears)
