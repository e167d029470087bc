-- ===== src/Uri/Encode.antt =====
-- Texts as a client sends them: whatever the client leaves unescaped, the decoder gives the text
-- back; and what it gives back is a C string.
use esp_wifi_config.Common.{
  ℕ, ◌/◌, ◌%◌, ◌<◌, ◌≡◌, ◌≢◌, refl, [], ◌∷◌, Option, none, some, Bool, true, false, length,
  if◌then◌else◌, arith, Bool-cases, inl, inr,
}
use esp_wifi_config.Common.Bytes.{Bytes, IsCString, IsChar}
use esp_wifi_config.Uri.{decode_ok, uri_hexval, escape_byte, uri_decode}
use esp_wifi_config.Uri.Unescape.{Unescapes, done, plain, escape, uri_decode_iff}

-- A client's encoder: `keep` tells which bytes it sends as they are, `digit` how it writes a
-- hexadecimal digit. A per cent sign is always escaped.
pub record Encoder : Type 0 where
  pub keep : ℕ → Bool
  pub digit : ℕ → ℕ
  pub escapes_percent : keep b'%' ≡ false
  pub digit_value : (d : ℕ) → d < 16 → uri_hexval (digit d) ≡ some d

module _ (e : Encoder) where
  unfoldable pub percent_encode : Bytes → Bytes
  percent_encode [] = []
  percent_encode (c ∷ s) =
      let rest = percent_encode s in
      if e.keep c then c ∷ rest else b'%' ∷ e.digit (c / 16) ∷ e.digit (c % 16) ∷ rest

  kept-ne_percent : (c : ℕ) → e.keep c ≡ true → c ≢ b'%'
  kept-ne_percent c k same = cc (e.escapes_percent)

  escape_byte-digits :
      (c : ℕ)
      → IsChar c
      → escape_byte (uri_hexval (e.digit (c / 16))) (uri_hexval (e.digit (c % 16))) ≡ some c
  escape_byte-digits c h =
      rw (e.digit_value (c / 16) (omega arith), e.digit_value (c % 16) (omega arith)) (ground arith)

  percent_encode-Unescapes : (s : Bytes) → IsCString s → Unescapes (percent_encode s) s
  unfolding percent_encode
  percent_encode-Unescapes [] h = done
  percent_encode-Unescapes (c ∷ s) h = elim (Bool-cases (e.keep c)) [
    | inl kept ↦ rw kept (plain (kept-ne_percent c kept) (percent_encode-Unescapes s h.1))
    | inr escaped ↦
        rw escaped (escape refl (escape_byte-digits c h.0) (percent_encode-Unescapes s h.1))
  ]

  -- Every non-empty C string that fits the buffer comes back from its encoding, whichever bytes
  -- besides the per cent sign the client chose to escape and in whichever case it wrote the digits.
  pub uri_decode-percent_encode :
      (s : Bytes) (size : ℕ)
      → IsCString s
      → s ≢ []
      → length s < size
      → uri_decode (percent_encode s) size ≡ (decode_ok, s)
  uri_decode-percent_encode s size h some_byte room =
      (uri_decode_iff (percent_encode s) s size).1 (percent_encode-Unescapes s h, some_byte, room)

escape_byte-IsChar :
    (hi lo : Option ℕ) (b : ℕ)
    → ((d : ℕ) → hi ≡ some d → d < 16)
    → ((d : ℕ) → lo ≡ some d → d < 16)
    → escape_byte hi lo ≡ some b
    → IsChar b
escape_byte-IsChar none lo b hh hl e = cc
escape_byte-IsChar (some hi) none b hh hl e = cc
escape_byte-IsChar (some hi) (some lo) b hh hl e = ground (arith, hh hi refl, hl lo refl)

uri_hexval-lt : (c d : ℕ) → uri_hexval c ≡ some d → d < 16
unfolding uri_hexval
uri_hexval-lt c d e = ground arith

Unescapes-IsCString : {src out : Bytes} → Unescapes src out → IsCString src → IsCString out
Unescapes-IsCString done h = tt
Unescapes-IsCString (plain ne u) h = (h.0, Unescapes-IsCString u h.1)
Unescapes-IsCString (escape {h = hi} {l = lo} {b = b} p e u) h = (
  escape_byte-IsChar (uri_hexval hi) (uri_hexval lo) b (uri_hexval-lt hi) (uri_hexval-lt lo) e,
  Unescapes-IsCString u h.1.1.1,
)

-- What is decoded holds no NUL, so the C string in the buffer is the whole decoded text.
pub uri_decode-IsCString :
    (src out : Bytes) (size : ℕ)
    → IsCString src
    → uri_decode src size ≡ (decode_ok, out)
    → IsCString out
uri_decode-IsCString src out size h e = Unescapes-IsCString ((uri_decode_iff src out size).0 e).0 h
