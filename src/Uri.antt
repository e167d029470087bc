-- ===== src/Uri.antt =====
-- src/esp_wifi_config_uri.h: percent-decoding of one URI path segment into a fixed buffer.
pub mod Unescape
pub mod Encode
use esp_wifi_config.Common.{
  ℕ, ◌+◌, ◌-◌, ◌*◌, List, [], ◌∷◌, ◌++◌, Option, none, some, Bool, true, false, ◌&&◌, ◌||◌, length,
  leb, ◌==◌, if◌then◌else◌,
}
use esp_wifi_config.Common.Bytes.{Bytes}

-- `wcfg_uri_decode_result_t`
pub data DecodeResult : Type 0 where
  decode_ok empty malformed too_long : DecodeResult

-- `none` is -1.
unfoldable pub uri_hexval : ℕ → Option ℕ
uri_hexval c =
    if leb b'0' c && leb c b'9'
    then some (c - b'0')
    else if leb b'a' c && leb c b'f'
    then some (c - b'a' + 10)
    else if leb b'A' c && leb c b'F'
    then some (c - b'A' + 10)
    else none

-- The byte of an escape: `(hi << 4) | lo` of two hexadecimal digits, but not zero.
abbrev pub escape_byte : Option ℕ → Option ℕ → Option ℕ
escape_byte none lo = none
escape_byte (some hi) none = none
escape_byte (some hi) (some lo) = if hi == 0 && lo == 0 then none else some (hi * 16 + lo)

abbrev fail_with : DecodeResult → DecodeResult × Bytes
fail_with r = (r, [])

-- The loop from `p` on; `out` is what has been written. Where the text ends, `p[1]` and `p[2]` are
-- the terminating NUL, which is no hexadecimal digit. A byte is stored if the terminator still
-- fits behind it; the rest of the loop is `more`.
abbrev store : ℕ → Bytes → DecodeResult × Bytes → DecodeResult × Bytes
store cap out more = if leb cap (length out + 1) then fail_with too_long else more

abbrev finish : Bytes → DecodeResult × Bytes
finish [] = (empty, [])
finish (c ∷ out) = (decode_ok, c ∷ out)

decode_from : ℕ → Bytes → Bytes → DecodeResult × Bytes
decode_from cap out [] = finish out
decode_from cap out (c ∷ []) =
    if c == b'%' then fail_with malformed else store cap out (finish (out ++ c ∷ []))
decode_from cap out (c ∷ h ∷ []) =
    let more = decode_from cap (out ++ c ∷ []) (h ∷ []) in
    if c == b'%' then fail_with malformed else store cap out more
decode_from cap out (c ∷ h ∷ l ∷ p) =
    let more = decode_from cap (out ++ c ∷ []) (h ∷ l ∷ p) in
    let escaped = λ (b : ℕ). decode_from cap (out ++ b ∷ []) p in
    if c == b'%'
    then elim (escape_byte (uri_hexval h) (uri_hexval l)) [
      | none ↦ fail_with malformed
      | some b ↦ store cap out (escaped b)
    ]
    else store cap out more

-- The result and the C string in `out`. A buffer of no bytes is not written to.
unfoldable pub uri_decode : Bytes → ℕ → DecodeResult × Bytes
unfolding decode_from uri_hexval
uri_decode src cap = if cap == 0 then fail_with too_long else decode_from cap [] src
