-- ===== src/Http/Access.antt =====
-- The access check of src/esp_wifi_config_http.c: the application's hook and Basic authentication.
-- Base64 is the platform's.
pub mod Credentials
use esp_wifi_config.Common.{
  ℕ, [], ◌∷◌, ◌++◌, Option, none, some, Bool, true, false, ◌&&◌, not, ◌==◌, if◌then◌else◌, ◌≡◌, ◌≢◌,
  ◌↔◌, refl, sym, ap, ◌∙◌, arith, Option-cases, Bool-cases, inl, inr, append_assoc,
}
use esp_wifi_config.Common.Bytes.{Bytes, codes, str_eq, str_eq_iff, str_eq_self, c_string}
use esp_wifi_config.Http.Request.{Request, Reply, send_error}

-- The fields of `http` in the configuration and the credentials of the context. The hook is the
-- application's: whether it lets a request pass.
pub record AccessConfig : Type 0 where
  pub pre_request_hook : Option (Request → Bool)
  pub enable_auth : Bool
  pub auth_username : Bytes
  pub auth_password : Bytes

-- The text behind a prefix.
unfoldable pub behind_prefix : Bytes → Bytes → Option Bytes
behind_prefix [] s = some s
behind_prefix (p ∷ ps) [] = none
behind_prefix (p ∷ ps) (c ∷ cs) = if p == c then behind_prefix ps cs else none

-- The texts in front of the first colon and behind it.
unfoldable pub split_colon : Bytes → Option (Bytes × Bytes)
split_colon [] = none
split_colon (c ∷ cs) =
    let rest = split_colon cs in
    if c == b':' then some ([], cs) else elim rest [ none ↦ none | some (a, b) ↦ some (c ∷ a, b) ]

module _ (cfg : AccessConfig) (base64_decode : Bytes → Option Bytes) where
  abbrev pub verify : Option (Bytes × Bytes) → Bool
  verify none = false
  verify (some (user, pass)) = str_eq user cfg.auth_username && str_eq pass cfg.auth_password

  -- The decoded bytes are read as a C string; `base64_decode` gives at most 127 of them.
  abbrev pub verify_decoded : Option Bytes → Bool
  verify_decoded none = false
  verify_decoded (some []) = false
  verify_decoded (some (b ∷ bs)) = verify (split_colon (c_string (b ∷ bs)))

  abbrev pub verify_basic : Option Bytes → Bool
  verify_basic none = false
  verify_basic (some b64) = verify_decoded (base64_decode b64)

  abbrev pub verify_header : Option Bytes → Bool
  verify_header none = false
  verify_header (some header) = verify_basic (behind_prefix (codes "Basic ") header)

  unfoldable pub check_auth : Request → Bool
  unfolding behind_prefix split_colon c_string
  check_auth req = if cfg.enable_auth then verify_header req.authorization else true

  abbrev pub hook_passes : Option (Request → Bool) → Request → Bool
  hook_passes none req = true
  hook_passes (some hook) req = hook req

  -- The reply that refuses a request, or `none` to go on.
  unfoldable pub check_api_access : Request → Option Reply
  unfolding check_auth
  check_api_access req =
      if not (hook_passes cfg.pre_request_hook req)
      then some (send_error 403 (codes "Forbidden"))
      else if check_auth req
      then none
      else some (send_error 401 (codes "Unauthorized"))
