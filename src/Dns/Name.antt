-- ===== src/Dns/Name.antt =====
-- `dns_parse_name` of src/esp_wifi_config_dns.c: the name in a query, for the log.
use esp_wifi_config.Common.{
  ℕ, zero, suc, ◌-◌, ◌≤◌, ◌≡◌, ◌≢◌, refl, [], ◌∷◌, ◌++◌, Option, none, some, Bool, true, false,
  ◌&&◌, length, take, drop, min, ltb, ◌==◌, if◌then◌else◌, arith, All, length-append, length-take,
  Bool-cases, ◌⊎◌, inl, inr, ==_false,
}
use mathlib.Core.Path.{subst}
use esp_wifi_config.Common.Bytes.{Bytes}

-- The dot in front of each label but the first, while there is room.
abbrev pub separated : ℕ → Bytes → Bytes
separated max_len name =
    if ltb 0 (length name) && ltb (length name) (max_len - 1) then name ++ b'.' ∷ [] else name

-- How much of a label is copied.
abbrev pub label_part : ℕ → ℕ → Bytes → ℕ
label_part max_len len name = min len (max_len - 1 - length (separated max_len name))

-- From the bytes of the buffer behind the offset; `none` is a read behind the buffer, which C leaves
-- undefined. A label that is cut leaves the offset within it. Each round reads a byte, so the number
-- of bytes is fuel enough.
unfoldable pub parse_labels : ℕ → ℕ → Bytes → Bytes → Option Bytes
parse_labels zero max_len name bs = none
parse_labels (suc fuel) max_len name [] = none
parse_labels (suc fuel) max_len name (len ∷ bs) =
    let k = label_part max_len len name in
    let later = parse_labels fuel max_len (separated max_len name ++ take k bs) (drop k bs) in
    if len == 0 then some name else if ltb (length bs) k then none else later

-- The buffer and the offset.
unfoldable pub dns_parse_name : Bytes → ℕ → ℕ → Option Bytes
unfolding parse_labels
dns_parse_name data_bytes offset max_len =
    parse_labels (length (drop offset data_bytes)) max_len [] (drop offset data_bytes)

separated-le :
    (max_len : ℕ) (name : Bytes)
    → length name ≤ max_len - 1
    → length (separated max_len name) ≤ max_len - 1
separated-le max_len name h =
    elim (Bool-cases (ltb 0 (length name) && ltb (length name) (max_len - 1))) [
      | inl room ↦ rw room (ground (arith, length-append name (b'.' ∷ [])))
      | inr full ↦ rw full h
    ]

copy-le :
    (max_len len : ℕ) (name bs : Bytes)
    → length name ≤ max_len - 1
    → length (separated max_len name ++ take (label_part max_len len name) bs) ≤ max_len - 1
copy-le max_len len name bs h = omega (
  arith,
  separated-le max_len name h,
  length-append (separated max_len name) (take (label_part max_len len name) bs),
  length-take (label_part max_len len name) bs,
)

if_some :
    (b : Bool) (x y : Option Bytes) (s : Bytes)
    → (if b then x else y) ≡ some s
    → (x ≡ some s) ⊎ (y ≡ some s)
if_some true x y s e = inl e
if_some false x y s e = inr e

some_injective : (s t : Bytes) → some s ≡ some t → s ≡ t
some_injective s t e = cc

parse_labels-le :
    (fuel max_len : ℕ) (name bs parsed : Bytes)
    → length name ≤ max_len - 1
    → parse_labels fuel max_len name bs ≡ some parsed
    → length parsed ≤ max_len - 1
unfolding parse_labels
parse_labels-le zero max_len name bs parsed h e = absurd (cc)
parse_labels-le (suc fuel) max_len name [] parsed h e = absurd (cc)
parse_labels-le (suc fuel) max_len name (len ∷ bs) parsed h e =
    elim (if_some (len == 0) (some name) _ parsed e) [
      | inl here ↦ subst (λ (s : Bytes). length s ≤ max_len - 1) (some_injective name parsed here) h
      | inr on ↦ elim (if_some (ltb (length bs) (label_part max_len len name)) none _ parsed on) [
        | inl behind ↦ absurd (cc)
        | inr later ↦ parse_labels-le fuel max_len _ _ parsed (copy-le max_len len name bs h) later
      ]
    ]

-- The name fits its buffer with its end, whatever the query is.
pub length-dns_parse_name :
    (data_bytes parsed : Bytes) (offset max_len : ℕ)
    → dns_parse_name data_bytes offset max_len ≡ some parsed
    → length parsed ≤ max_len - 1
unfolding dns_parse_name
length-dns_parse_name data_bytes parsed offset max_len e =
    parse_labels-le _ max_len [] (drop offset data_bytes) parsed (omega arith) e

All-drop : (P : ℕ → Type 0) (n : ℕ) (s : Bytes) → All P s → All P (drop n s)
All-drop P zero s h = h
All-drop P (suc n) [] h = h
All-drop P (suc n) (c ∷ s) h = All-drop P n s h.1

parse_labels-eq-none :
    (fuel max_len : ℕ) (name bs : Bytes)
    → All (λ b. b ≢ 0) bs
    → parse_labels fuel max_len name bs ≡ none
unfolding parse_labels
parse_labels-eq-none zero max_len name bs h = refl
parse_labels-eq-none (suc fuel) max_len name [] h = refl
parse_labels-eq-none (suc fuel) max_len name (len ∷ bs) h = rw (==_false len 0 h.0) (
    none_either (ltb (length bs) (label_part max_len len name)) _ (
      parse_labels-eq-none fuel max_len _ _
        (All-drop (λ b. b ≢ 0) (label_part max_len len name) bs h.1)))
  where
    none_either : (b : Bool) (x : Option Bytes) → x ≡ none → (if b then none else x) ≡ none
    none_either true x e = refl
    none_either false x e = e

-- A buffer without a zero byte behind the offset is read past its end.
pub dns_parse_name-eq-none :
    (data_bytes : Bytes) (offset max_len : ℕ)
    → All (λ b. b ≢ 0) (drop offset data_bytes)
    → dns_parse_name data_bytes offset max_len ≡ none
unfolding dns_parse_name
dns_parse_name-eq-none data_bytes offset max_len h = parse_labels-eq-none _ max_len [] _ h
