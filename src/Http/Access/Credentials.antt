-- ===== src/Http/Access/Credentials.antt =====
-- Whom the access check lets through.
use mathlib.Core.Option.{some-injective}
use esp_wifi_config.Common.{
  [], ◌∷◌, ◌++◌, Option, none, some, Bool, true, if◌then◌else◌, ◌≡◌, ◌≢◌, ◌↔◌, sym, ap, ◌∙◌, arith,
  Option-cases, inl, inr, All,
}
use esp_wifi_config.Common.Bytes.{Bytes, codes, str_eq_iff, str_eq_self, c_string}
use esp_wifi_config.Http.Request.{Request}
use esp_wifi_config.Http.Access.{
  AccessConfig, behind_prefix, split_colon, verify, verify_decoded, verify_header, check_auth,
}

behind_prefix_iff : (p s t : Bytes) → (behind_prefix p s ≡ some t) ↔ (s ≡ p ++ t)
unfolding behind_prefix
behind_prefix_iff [] s t = ground arith
behind_prefix_iff (x ∷ p) [] t = ground arith
behind_prefix_iff (x ∷ p) (c ∷ s) t = ground (arith, behind_prefix_iff p s t)

-- The text is cut at its first colon.
split_colon_iff :
    (s user pass : Bytes)
    → All (λ c. c ≢ b':') user
    → (split_colon s ≡ some (user, pass)) ↔ (s ≡ user ++ b':' ∷ pass)
unfolding split_colon
split_colon_iff [] [] pass plain = ground arith
split_colon_iff [] (u ∷ user) pass plain = ground arith
split_colon_iff (c ∷ s) [] pass plain = ground arith
split_colon_iff (c ∷ s) (u ∷ user) pass plain = ground (arith, split_colon_iff s user pass plain.1)

when_on : (b x : Bool) → b ≡ true → (if b then x else true) ≡ x
when_on b x on = rw on

module _ (cfg : AccessConfig) (base64_decode : Bytes → Option Bytes) where
  -- The header that a client with the credentials sends: its Base64 text decodes to the user name,
  -- a colon and the password, up to the first NUL.
  pub record Credentials (header : Option Bytes) : Type 0 where
    pub encoded : Bytes
    pub decoded : Bytes
    pub basic : header ≡ some (codes "Basic " ++ encoded)
    pub decodes : base64_decode encoded ≡ some decoded
    pub named : c_string decoded ≡ cfg.auth_username ++ b':' ∷ cfg.auth_password

  module _ (plain : All (λ c. c ≢ b':') cfg.auth_username) where
    verify-eq-true :
        (o : Option (Bytes × Bytes))
        → verify cfg base64_decode o ≡ true
        → o ≡ some (cfg.auth_username, cfg.auth_password)
    verify-eq-true none h = cc
    verify-eq-true (some (u, w)) h =
        ground (arith, str_eq_iff u cfg.auth_username, str_eq_iff w cfg.auth_password)

    verify_iff :
        (s : Bytes)
        → (verify cfg base64_decode (split_colon s) ≡ true)
          ↔ (s ≡ cfg.auth_username ++ b':' ∷ cfg.auth_password)
    verify_iff s =
        let split = split_colon_iff s cfg.auth_username cfg.auth_password plain in
        (
          (λ h. split.0 (verify-eq-true (split_colon s) h)),
          (λ e. rw (split.1 e) (rw (str_eq_self cfg.auth_username, str_eq_self cfg.auth_password))),
        )

    some_colon : (user rest : Bytes) → user ++ b':' ∷ rest ≢ []
    some_colon [] rest h = cc
    some_colon (u ∷ user) rest h = cc

    verify_decoded_iff :
        (raw : Bytes)
        → (verify_decoded cfg base64_decode (some raw) ≡ true)
          ↔ (c_string raw ≡ cfg.auth_username ++ b':' ∷ cfg.auth_password)
    unfolding c_string
    verify_decoded_iff [] =
        ((λ h. cc), (λ e. absurd (some_colon cfg.auth_username cfg.auth_password (sym e))))
    verify_decoded_iff (b ∷ bs) = verify_iff (c_string (b ∷ bs))

    header_decoded :
        (header b64 : Bytes) {raw : Option Bytes}
        → behind_prefix (codes "Basic ") header ≡ some b64
        → base64_decode b64 ≡ raw
        → verify_header cfg base64_decode (some header) ≡ verify_decoded cfg base64_decode raw
    header_decoded header b64 basic decodes = rw (basic) (rw decodes)

    verify_header-Credentials :
        (header : Bytes)
        → verify_header cfg base64_decode (some header) ≡ true
        → Credentials (some header)
    verify_header-Credentials header h =
        elim (Option-cases (behind_prefix (codes "Basic ") header)) [
          | inl other ↦ absurd (cc (rw other at h))
          | inr (b64, basic) ↦ elim (Option-cases (base64_decode b64)) [
            | inl failed ↦ absurd (cc (header_decoded header b64 basic failed, h))
            | inr (raw, decodes) ↦ record {
              encoded = b64;
              decoded = raw;
              basic =
                  ap (λ (x : Bytes). some x)
                    ((behind_prefix_iff (codes "Basic ") header b64).0 basic);
              decodes = decodes;
              named =
                  (verify_decoded_iff raw).0 (sym (header_decoded header b64 basic decodes) ∙ h);
            }
          ]
        ]

    verify_header_iff :
        (header : Option Bytes)
        → (verify_header cfg base64_decode header ≡ true) ↔ Credentials header
    verify_header_iff none = ((λ h. cc), (λ c. absurd (cc (c.basic))))
    verify_header_iff (some header) = (
      verify_header-Credentials header,
      λ c.
          header_decoded header c.encoded
            ((behind_prefix_iff (codes "Basic ") header c.encoded).1 (some-injective _ _ c.basic))
            c.decodes
          ∙ (verify_decoded_iff c.decoded).1 c.named,
    )

    -- With authentication on, and no colon in the configured user name, a request passes exactly if
    -- it carries the header of Basic authentication with the credentials.
    pub check_auth_iff :
        (req : Request)
        → cfg.enable_auth ≡ true
        → (check_auth cfg base64_decode req ≡ true) ↔ Credentials req.authorization
    unfolding check_auth
    check_auth_iff req on =
        rw (when_on cfg.enable_auth (verify_header cfg base64_decode req.authorization) on)
          (verify_header_iff req.authorization)
