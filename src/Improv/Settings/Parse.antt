-- ===== src/Improv/Settings/Parse.antt =====
-- The parser of the settings against the layout that it reads.
use esp_wifi_config.Common.{
  ℕ, ◌≤◌, ◌≡◌, ◌↔◌, refl, ap, ◌∙◌, [], ◌∷◌, ◌++◌, some, inl, inr, arith, false, Bool-cases, length,
  take, drop, length-append, length-take, take-append-drop, take_prefix, drop_prefix, ltb,
}
use esp_wifi_config.Common.Bytes.{Bytes}
use esp_wifi_config.Improv.Settings.{second_field, parse_settings}

-- The layout: each text behind its length.
abbrev pub settings_layout : Bytes → Bytes → Bytes → Bytes
settings_layout ssid password tail = length ssid ∷ (ssid ++ length password ∷ (password ++ tail))

not_less : (m n : ℕ) → n ≤ m → ltb m n ≡ false
not_less m n h = ground arith

-- A row that begins with the length of what follows, cut there.
cut :
    (n : ℕ) (rest : Bytes)
    → (ltb (length rest) n ≡ false)
    → n ∷ rest ≡ length (take n rest) ∷ (take n rest ++ drop n rest)
cut n rest enough =
    let len : length (take n rest) ≡ n = ground (arith, length-take n rest) in
    rw (take-append-drop n rest, len) refl

second_field_lem :
    (ssid payload s p : Bytes)
    → second_field ssid payload ≡ some (s, p)
    → (ssid ≡ s) × ((tail : Bytes) × (payload ≡ length p ∷ (p ++ tail)))
second_field_lem ssid [] s p e = absurd (ground arith)
second_field_lem ssid (n ∷ rest) s p e = elim (Bool-cases (ltb (length rest) n)) [
  | inl short ↦ absurd (ground arith)
  | inr enough ↦
      let parts : (ssid ≡ s) × (take n rest ≡ p) = ground arith in
      (
        parts.0,
        (
          drop n rest,
          cut n rest enough ∙ ap (λ (u : Bytes). length u ∷ (u ++ drop n rest)) parts.1,
        ),
      )
]

parse_settings_sound :
    (payload ssid password : Bytes)
    → parse_settings payload ≡ some (ssid, password)
    → (tail : Bytes) × (payload ≡ settings_layout ssid password tail)
unfolding parse_settings
parse_settings_sound [] ssid password e = absurd (ground arith)
parse_settings_sound (n ∷ rest) ssid password e = elim (Bool-cases (ltb (length rest) n)) [
  | inl short ↦ absurd (ground arith)
  | inr enough ↦
      let second : second_field (take n rest) (drop n rest) ≡ some (ssid, password) =
        rw enough at e in
      let (same, (tail, laid_out)) =
        second_field_lem (take n rest) (drop n rest) ssid password second in
      (
        tail,
        cut n rest enough
            ∙ ap (λ (u : Bytes). length u ∷ (u ++ drop n rest)) same
            ∙ ap (λ (u : Bytes). length ssid ∷ (ssid ++ u)) laid_out,
      )
]

parse_settings_complete :
    (ssid password tail : Bytes)
    → parse_settings (settings_layout ssid password tail) ≡ some (ssid, password)
unfolding parse_settings
parse_settings_complete ssid password tail =
    rw
      (
        not_less (length (ssid ++ length password ∷ (password ++ tail))) (length ssid)
            (omega (arith, length-append ssid (length password ∷ (password ++ tail)))),
        take_prefix ssid (length password ∷ (password ++ tail)),
        drop_prefix ssid (length password ∷ (password ++ tail)),
        not_less (length (password ++ tail)) (length password)
            (omega (arith, length-append password tail)),
        take_prefix password tail,
      )
      refl

-- The parser finds an SSID and a password exactly in the messages that are the two texts, each
-- behind a byte with its length, and possibly more bytes that it passes over.
pub parse_settings_iff :
    (payload ssid password : Bytes)
    → (parse_settings payload ≡ some (ssid, password))
      ↔ ((tail : Bytes) × (payload ≡ settings_layout ssid password tail))
parse_settings_iff payload ssid password = (
  parse_settings_sound payload ssid password,
  λ (tail, e). ap parse_settings e ∙ parse_settings_complete ssid password tail,
)
