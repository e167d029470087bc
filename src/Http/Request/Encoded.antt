-- ===== src/Http/Request/Encoded.antt =====
-- The path parameter of a request, as a client that percent-encodes it sends it.
use esp_wifi_config.Common.{
  ℕ, ◌/◌, ◌%◌, ◌<◌, ◌≡◌, ◌≢◌, refl, ap, [], ◌∷◌, ◌++◌, none, some, Bool, true, false, length, arith,
  if◌then◌else◌, All,
}
use esp_wifi_config.Common.Bytes.{Bytes, IsCString, IsChar}
use esp_wifi_config.Uri.{uri_hexval}
use esp_wifi_config.Uri.Encode.{Encoder, percent_encode, uri_decode-percent_encode}
use esp_wifi_config.Http.Request.{param, behind_slash, uri_path_param}

abbrev NotSlash : ℕ → Type 0
NotSlash c = c ≢ b'/'

behind_slash-eq-none : (s : Bytes) → All NotSlash s → behind_slash s ≡ none
unfolding behind_slash
behind_slash-eq-none [] h = refl
behind_slash-eq-none (c ∷ s) h = ground (arith, behind_slash-eq-none s h.1)

behind_slash-append : (front s : Bytes) → All NotSlash s → behind_slash (front ++ b'/' ∷ s) ≡ some s
unfolding behind_slash
behind_slash-append [] s h = rw (behind_slash-eq-none s h)
behind_slash-append (c ∷ front) s h = rw (behind_slash-append front s h)

module _ (e : Encoder) (escapes_slash : e.keep b'/' ≡ false) where
  digit-NotSlash : (d : ℕ) → d < 16 → NotSlash (e.digit d)
  unfolding uri_hexval
  digit-NotSlash d h same =
      let unread : uri_hexval (e.digit d) ≡ none = ap uri_hexval same in
      cc (unread, e.digit_value d h)

  percent-NotSlash : NotSlash b'%'
  percent-NotSlash same = cc

  written-NotSlash :
      (kept : Bool) (c : ℕ) (rest : Bytes)
      → IsChar c
      → (kept ≡ true → NotSlash c)
      → All NotSlash rest
      → All NotSlash (if kept then c ∷ rest else b'%' ∷ e.digit (c / 16) ∷ e.digit (c % 16) ∷ rest)
  written-NotSlash true c rest h keep_lem r = (keep_lem refl, r)
  written-NotSlash false c rest h keep_lem r = (
    percent-NotSlash,
    (digit-NotSlash (c / 16) (omega arith), (digit-NotSlash (c % 16) (omega arith), r)),
  )

  kept-NotSlash : (c : ℕ) → e.keep c ≡ true → NotSlash c
  kept-NotSlash c kept same = cc (escapes_slash)

  percent_encode-NotSlash : (s : Bytes) → IsCString s → All NotSlash (percent_encode e s)
  unfolding percent_encode
  percent_encode-NotSlash [] h = tt
  percent_encode-NotSlash (c ∷ s) h =
      written-NotSlash (e.keep c) c (percent_encode e s) h.0 (kept-NotSlash c)
        (percent_encode-NotSlash s h.1)

  -- A parameter that a client percent-encodes, the slash included, is read back whatever stands in
  -- front of the last slash, if it is a non-empty C string that fits the buffer.
  pub uri_path_param-percent_encode :
      (what front s : Bytes) (size : ℕ)
      → IsCString s
      → s ≢ []
      → length s < size
      → uri_path_param what size (front ++ b'/' ∷ percent_encode e s) ≡ param s
  unfolding uri_path_param
  uri_path_param-percent_encode what front s size h some_byte room = rw (
    behind_slash-append front (percent_encode e s) (percent_encode-NotSlash s h),
    uri_decode-percent_encode e s size h some_byte room,
  )
