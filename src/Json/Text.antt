-- ===== src/Json/Text.antt =====
-- Strings: what `w_escaped` writes for a text, and that a reader of the escapes gets the text back.
use esp_wifi_config.Common.{
  ◌&&◌, ◌||◌, not, true, false, all_below, all_below_lem, ℕ, ◌≤◌, ◌<◌, ◌≢◌, ◌≡◌, refl, sym, ap, ◌∙◌,
  [], ◌∷◌, ◌++◌, Option, none, some, Bool, inl, inr, arith, append-nil, append_assoc, Option-cases,
  ◌==◌, leb, if◌then◌else◌,
}
use esp_wifi_config.Common.Bytes.{Bytes, IsChar, IsCString}
use esp_wifi_config.Uri.{uri_hexval, escape_byte}
use esp_wifi_config.Json.{Sink, escape_of, w_run, w_escaped_loop, w_escaped}
use esp_wifi_config.Json.Raw.{Accepts, Writes, Writes-nothing, Writes-eq, Writes-then, w_raw-Writes}

-- A text with every special character replaced by its escape.
abbrev pub escaped : ℕ → Bytes
escaped c = elim (escape_of c) [ some esc ↦ esc | none ↦ c ∷ [] ]

unfoldable pub escape_text : Bytes → Bytes
escape_text [] = []
escape_text (c ∷ s) = escaped c ++ escape_text s

escaped-plain : (c : ℕ) → escape_of c ≡ none → escaped c ≡ c ∷ []
escaped-plain c e = rw (e, escaped) refl

escaped-special : (c : ℕ) {esc : Bytes} → escape_of c ≡ some esc → escaped c ≡ esc
escaped-special c e = rw (e, escaped) refl

module _ {Ctx : Type 0} (log : Ctx → Bytes) (sink : Option (Sink Ctx))
    (accepts : Accepts sink log) where
  w_run-Writes : (run : Bytes) → Writes log sink run (w_run sink run)
  unfolding w_run
  w_run-Writes [] = Writes-nothing log sink accepts
  w_run-Writes (c ∷ run) = w_raw-Writes log sink accepts (c ∷ run)

  -- What is written is the run that is still to come, and then the rest of the text.
  w_escaped_loop-Writes :
      (run p : Bytes) → Writes log sink (run ++ escape_text p) (w_escaped_loop sink run p)
  unfolding w_escaped_loop escape_text
  w_escaped_loop-Writes run [] =
      Writes-eq log sink (sym (append-nil run)) (λ w. refl) (w_run-Writes run)
  w_escaped_loop-Writes run (c ∷ p) = elim (Option-cases (escape_of c)) [
    | inl plain ↦
        Writes-eq log sink
          (append_assoc run (c ∷ []) (escape_text p)
            ∙ ap (λ (u : Bytes). run ++ (u ++ escape_text p)) (sym (escaped-plain c plain)))
          (λ w. rw (plain, w_escaped_loop) refl) (w_escaped_loop-Writes (run ++ c ∷ []) p)
    | inr (esc, special) ↦
        Writes-eq log sink
          (ap (λ (u : Bytes). run ++ (u ++ escape_text p)) (sym (escaped-special c special)))
          (λ w. rw (special, w_escaped_loop) refl)
          (Writes-then log sink accepts (w_run-Writes run) (
            Writes-then log sink accepts (w_raw-Writes log sink accepts esc)
              (w_escaped_loop-Writes [] p)))
  ]

  pub w_escaped-Writes : (s : Bytes) → Writes log sink (escape_text s) (w_escaped sink (some s))
  unfolding w_escaped
  w_escaped-Writes s = w_escaped_loop-Writes [] s

-- The byte that an escape of JSON stands for; of the `\u` escapes those of a single byte are read.
unfoldable pub read_escape : Bytes → Option ℕ
read_escape (b ∷ d ∷ []) =
    if not (b == 92)
    then none
    else if d == 34
    then some 34
    else if d == 92
    then some 92
    else if d == b'/'
    then some 47
    else if d == b'b'
    then some 8
    else if d == b'f'
    then some 12
    else if d == b'n'
    then some 10
    else if d == b'r'
    then some 13
    else if d == b't'
    then some 9
    else none
read_escape (b ∷ u ∷ z1 ∷ z2 ∷ h ∷ l ∷ []) =
    if (b == 92) && (u == b'u') && (z1 == b'0') && (z2 == b'0')
    then escape_byte (uri_hexval h) (uri_hexval l)
    else none
read_escape _ = none

-- The contents of a JSON string, and the text that it stands for: control characters, quotes and
-- backslashes occur in escapes only.
pub data Reads : Bytes → Bytes → Type 0 where
  done : Reads [] []
  plain : {c : ℕ} {e s : Bytes} → 32 ≤ c → c ≢ 34 → c ≢ 92 → Reads e s → Reads (c ∷ e) (c ∷ s)
  escape :
      (esc : Bytes) {c : ℕ} {e s : Bytes}
      → read_escape esc ≡ some c
      → Reads e s
      → Reads (esc ++ e) (c ∷ s)

-- What a byte is written as is read back, or may stand for itself.
abbrev faithful : ℕ → Option Bytes → Bool
faithful c none = leb 32 c && not (c == 34) && not (c == 92)
faithful c (some esc) = elim (read_escape esc) [ some d ↦ d == c | none ↦ false ]

faithful_all : (c : ℕ) → c < 256 → (c == 0) || faithful c (escape_of c) ≡ true
unfolding escape_of read_escape uri_hexval all_below
faithful_all = all_below_lem (λ c. (c == 0) || faithful c (escape_of c)) 256 refl

faithful-plain : (c : ℕ) → faithful c none ≡ true → (32 ≤ c) × (c ≢ 34) × (c ≢ 92)
faithful-plain c e = ground arith

faithful-escape : (c : ℕ) (esc : Bytes) → faithful c (some esc) ≡ true → read_escape esc ≡ some c
faithful-escape c esc e = elim (Option-cases (read_escape esc)) [
  | inl unread ↦ ground arith
  | inr (d, read) ↦ ground arith
]

escape_of-faithful : (c : ℕ) → IsChar c → faithful c (escape_of c) ≡ true
escape_of-faithful c h = let all = faithful_all c h.1 in ground arith

escaped-Reads : (c : ℕ) {e s : Bytes} → IsChar c → Reads e s → Reads (escaped c ++ e) (c ∷ s)
escaped-Reads c {e} {s} h r = elim (Option-cases (escape_of c)) [
  | inl none_of ↦
      let (low, quote, back) = faithful-plain c (rw none_of at (escape_of-faithful c h)) in
      rw (none_of, escaped) (plain low quote back r)
  | inr (esc, special) ↦
      rw (special, escaped)
        (escape esc (faithful-escape c esc (rw special at (escape_of-faithful c h))) r)
]

-- Every C string is written as the contents of a JSON string that reads back as itself: it has no
-- bare control character, quote or backslash, and each escape stands for the byte it replaced.
pub escape_text-Reads : (s : Bytes) → IsCString s → Reads (escape_text s) s
unfolding escape_text
escape_text-Reads [] h = done
escape_text-Reads (c ∷ s) h = escaped-Reads c h.0 (escape_text-Reads s h.1)
