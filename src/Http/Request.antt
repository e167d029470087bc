-- ===== src/Http/Request.antt =====
-- Requests and replies of src/esp_wifi_config_http.c, and the parameter in a request's path.
pub mod Encoded
use esp_wifi_config.Common.{
  ℕ, ◌+◌, List, [], ◌∷◌, ◌++◌, Option, none, some, Bool, true, false, take, ◌==◌, if◌then◌else◌,
}
use esp_wifi_config.Common.Bytes.{Bytes, codes}
use esp_wifi_config.Uri.{DecodeResult, decode_ok, empty, malformed, too_long, uri_decode}
use esp_wifi_config.Http.Body.{Connection}

-- `httpd_req_t`: `authorization` is the header as it fits 256 bytes, `none` if it is missing or too
-- long; `allocated` tells whether there is memory for the body.
pub record Request : Type 0 where
  pub uri : Bytes
  pub authorization : Option Bytes
  pub content_len : ℕ
  pub allocated : Bool
  pub connection : Connection

-- A reply in one piece; `challenge` is the header WWW-Authenticate.
pub record Reply : Type 0 where
  pub status : ℕ
  pub challenge : Bool
  pub body : Bytes

-- A JSON object with one string that needs no escapes.
abbrev pub one_string : Bytes → Bytes → Bytes
one_string key val = b'{' ∷ 34 ∷ (key ++ 34 ∷ b':' ∷ 34 ∷ (val ++ 34 ∷ b'}' ∷ []))

unfoldable pub send_ok : Reply
send_ok = record {
  status = 200;
  challenge = false;
  body = one_string (codes "status") (codes "ok");
}

abbrev pub status_of : ℕ → ℕ
status_of code =
    if code == 401
    then 401
    else if code == 403
    then 403
    else if code == 404
    then 404
    else if code == 500
    then 500
    else 400

-- `char buf[128]`
unfoldable pub send_error : ℕ → Bytes → Reply
send_error code msg = record {
  status = status_of code;
  challenge = code == 401;
  body = take 127 (one_string (codes "error") msg);
}

-- What stands behind the last slash, if there is one.
unfoldable pub behind_slash : Bytes → Option Bytes
behind_slash [] = none
behind_slash (c ∷ cs) = elim (behind_slash cs) [
  | some s ↦ some s
  | none ↦ if c == b'/' then some cs else none
]

abbrev pub last_segment : Option Bytes → Bytes
last_segment none = []
last_segment (some s) = s

-- The decoded parameter, or the reply that was sent instead.
pub data Param : Type 0 where
  param : Bytes → Param
  bad : Reply → Param

abbrev pub decoded_param : Bytes → DecodeResult × Bytes → Param
decoded_param what (decode_ok, out) = param out
decoded_param what (empty, out) = bad (send_error 400 (codes "Missing " ++ what))
decoded_param what (malformed, out) =
    bad (send_error 400 (codes "Malformed " ++ (what ++ codes " encoding")))
decoded_param what (too_long, out) = bad (send_error 400 (what ++ codes " too long"))

unfoldable pub uri_path_param : Bytes → ℕ → Bytes → Param
unfolding behind_slash
uri_path_param what size uri =
    decoded_param what (uri_decode (last_segment (behind_slash uri)) size)
