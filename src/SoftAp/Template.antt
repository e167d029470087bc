-- ===== src/SoftAp/Template.antt =====
-- The name template.
use esp_wifi_config.Common.{
  ℕ, zero, suc, ◌+◌, ◌-◌, ◌≡◌, ◌≢◌, ◌<◌, ◌≤◌, refl, ap, sym, ◌∙◌, [], ◌∷◌, ◌++◌, none, some, length,
  take, leb, arith, All, take_prefix, append-nil, Bool-cases, inl, inr,
}
use esp_wifi_config.Common.Bytes.{Bytes, codes}
use esp_wifi_config.SoftAp.{behind_id, find_id, mac_suffix, wifi_cfg_expand_template}

behind_id-ne : (c : ℕ) (s : Bytes) → c ≢ b'{' → behind_id (c ∷ s) ≡ none
behind_id-ne c [] h = refl
behind_id-ne c (d ∷ []) h = refl
behind_id-ne c (d ∷ e ∷ []) h = refl
behind_id-ne c (d ∷ e ∷ f ∷ s) h = ground arith

find_id-first :
    (front rest : Bytes)
    → All (λ c. c ≢ b'{') front
    → find_id (front ++ (codes "{id}" ++ rest)) ≡ some (front, rest)
unfolding find_id
find_id-first [] rest h = refl
find_id-first (c ∷ front) rest h =
    rw (behind_id-ne c (front ++ (codes "{id}" ++ rest)) h.0, find_id)
      (rw (find_id-first front rest h.1) refl)

find_id-eq-none : (s : Bytes) → All (λ c. c ≢ b'{') s → find_id s ≡ none
unfolding find_id
find_id-eq-none [] h = refl
find_id-eq-none (c ∷ s) h = rw (behind_id-ne c s h.0, find_id) (rw (find_id-eq-none s h.1) refl)

-- A cut within the first part does not see the second.
take_front : (p : ℕ) (xs ys zs : Bytes) → p ≤ length xs → take p (xs ++ ys) ≡ take p (xs ++ zs)
take_front zero xs ys zs h = refl
take_front (suc p) [] ys zs h = absurd (omega arith)
take_front (suc p) (x ∷ xs) ys zs h = ap (◌∷◌ x) (take_front p xs ys zs (omega arith))

take_past : (xs ys : Bytes) (k : ℕ) → take (length xs + k) (xs ++ ys) ≡ xs ++ take k ys
take_past [] ys k = ap (λ (n : ℕ). take n ys) (zero_plus k)
  where
    zero_plus : (n : ℕ) → 0 + n ≡ n
    zero_plus n = omega arith
take_past (x ∷ xs) ys k =
    ap (λ (n : ℕ). take n (x ∷ (xs ++ ys))) (suc_plus (length xs)) ∙ ap (◌∷◌ x) (take_past xs ys k)
  where
    suc_plus : (n : ℕ) → suc n + k ≡ suc (n + k)
    suc_plus n = omega arith

cut_short :
    (n k : ℕ) (xs ys zs : Bytes)
    → n ≤ length xs
    → k ≡ 0
    → take n (xs ++ ys) ++ take k zs ≡ take n (xs ++ zs)
cut_short n k xs ys zs h none_left =
    rw none_left (append-nil (take n (xs ++ ys)) ∙ take_front n xs ys zs h)

cut_long :
    (n k : ℕ) (xs ys zs : Bytes)
    → length xs + k ≡ n
    → take (length xs) (xs ++ ys) ++ take k zs ≡ take n (xs ++ zs)
cut_long n k xs ys zs h =
    ap (λ (s : Bytes). s ++ take k zs) (take_prefix xs ys)
    ∙ sym (take_past xs zs k)
    ∙ ap (λ (m : ℕ). take m (xs ++ zs)) h

module _ (m3 m4 m5 : ℕ) where
  -- The first placeholder of a template is replaced by the last three bytes of the MAC address, and
  -- the text is cut to what the buffer holds, wherever the cut falls; a template without one is only
  -- cut. So for templates with no other opening brace in front of the placeholder.
  pub expand_template-id :
      (front rest : Bytes) (max_len : ℕ)
      → All (λ c. c ≢ b'{') front
      → 0 < max_len
      → wifi_cfg_expand_template m3 m4 m5 (front ++ (codes "{id}" ++ rest)) max_len
        ≡ take (max_len - 1) (front ++ (mac_suffix m3 m4 m5 ++ rest))
  unfolding wifi_cfg_expand_template
  expand_template-id front rest max_len plain room =
      rw (find_id-first front rest plain) (elim (Bool-cases (leb max_len (length front))) [
        | inl short ↦ rw short (
            cut_short (max_len - 1) (max_len - (max_len - 1) - 1) front _ _ (ground arith)
              (omega arith))
        | inr whole ↦
            rw whole (cut_long (max_len - 1) (max_len - length front - 1) front _ _ (ground arith))
      ])
