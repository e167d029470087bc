-- ===== src/Tests/Uris.antt =====
-- Decoding of URI segments on concrete inputs.
use esp_wifi_config.Common.{
  ℕ, ◌≡◌, ◌≢◌, ◌↔◌, ◌<◌, ◌+◌, refl, [], some, ltb, if◌then◌else◌, arith, length,
}
use esp_wifi_config.Common.Bytes.{Bytes, codes}
use esp_wifi_config.Uri.{decode_ok, uri_decode, uri_hexval}
use esp_wifi_config.Uri.Unescape.{Unescapes, uri_decode_iff}
use esp_wifi_config.Uri.Encode.{Encoder}

abbrev my_wifi : Bytes
my_wifi = codes "My%20WiFi"

uri_decode_iff_example : (uri_decode my_wifi 33 ≡ (decode_ok, codes "My WiFi")) ↔ (
    Unescapes my_wifi (codes "My WiFi") × (codes "My WiFi" ≢ []) × (length (codes "My WiFi") < 33))
uri_decode_iff_example = uri_decode_iff my_wifi (codes "My WiFi") 33

-- A client that escapes what is no letter and no digit in its view, and writes capital digits.
abbrev pub upper_digit : ℕ → ℕ
upper_digit d = if ltb d 10 then 48 + d else 55 + d

pub upper_digit_value : (d : ℕ) → d < 16 → uri_hexval (upper_digit d) ≡ some d
unfolding uri_hexval
upper_digit_value d h = ground arith

abbrev pub client : Encoder
client = record {
  keep = λ c. ltb 47 c;
  digit = upper_digit;
  escapes_percent = refl;
  digit_value = upper_digit_value;
}
