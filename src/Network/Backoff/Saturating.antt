-- ===== src/Network/Backoff/Saturating.antt =====
-- The backoff delay is the base doubled once for each retry, and capped: what the wrap-around of
-- `base << retry` could do to that, and from which retry on the shift is undefined.
use native.Mathlib.Decide.{dec_le, dec_lt}
use native.Mathlib.Nat.{
  pow-suc, pow-zero, add-suc, add-zero, mul_assoc, mod-eq_of_lt, one-le-pow, mod-mod_of_dvd,
  dvd-mul_left, mul-mod_left, lt_of_mul-lt-mul_left,
}
use esp_wifi_config.Common.{
  ℕ, zero, suc, ◌+◌, ◌-◌, ◌*◌, ◌%◌, ◌^◌, ◌≤◌, ◌<◌, min, ◌≡◌, sym, ◌∙◌, ap, none, some, ◌⊎◌, ◌↔◌,
  inl, inr, arith, ltb, lt→ltb, if◌then◌else◌,
}
use esp_wifi_config.Network.Backoff.{cap_delay, calc_backoff_delay}

pow_add : (m n : ℕ) → 2 ^ (m + n) ≡ 2 ^ m * 2 ^ n
pow_add m zero = rw (add-zero, pow-zero) (omega arith)
pow_add m (suc n) =
    rw (add-suc, pow-suc, pow-suc)
      (omega (arith, pow_add m n, mul_assoc (2 ^ m) (2 ^ n) 2, ap (λ (t : ℕ). t * 2) (pow_add m n)))

-- What wraps is a multiple of `p`: nothing is left, or at least `p`.
wrapped_multiple : (x p q : ℕ) → (x * p % (q * p) ≡ 0) ⊎ (p ≤ x * p % (q * p))
wrapped_multiple x p q = elim (dec_le p r) [
  | yes h ↦ inr h
  | no h ↦ inl (sym (mod-eq_of_lt (omega arith)) ∙ divisible)
]
  where
    r : ℕ
    r = x * p % (q * p)

    divisible : r % p ≡ 0
    divisible = mod-mod_of_dvd p (x * p) (dvd-mul_left p q) ∙ mul-mod_left x p

cap_delay_wrapped :
    (base max_delay d p : ℕ)
    → 0 < base
    → max_delay < p
    → (d ≡ 0) ⊎ (p ≤ d)
    → cap_delay base max_delay d ≡ max_delay
unfolding cap_delay
cap_delay_wrapped base max_delay d p hb hm h = ground arith

cap_delay_exact :
    (base max_delay p : ℕ) → 0 < p → cap_delay base max_delay (base * p) ≡ min (base * p) max_delay
unfolding cap_delay
cap_delay_exact base max_delay p h = grind arith

two_pow_pos : (k : ℕ) → 0 < 2 ^ k
two_pow_pos k = one-le-pow k 2 (omega arith)

split_width : (k : ℕ) → k < 32 → 4294967296 ≡ 2 ^ (32 - k) * 2 ^ k
split_width k h =
    let back : 32 - k + k ≡ 32 = omega arith in
    sym (ap (λ (t : ℕ). 2 ^ t) back) ∙ pow_add (32 - k) k

cap_delay_modular :
    (base max_delay p q : ℕ)
    → 0 < p
    → 0 < base
    → base * max_delay < q * p
    → cap_delay base max_delay (base * p % (q * p)) ≡ min (base * p) max_delay
cap_delay_modular base max_delay p q hp hb hm = elim (dec_lt (base * p) (q * p)) [
  | yes fits ↦ rw (mod-eq_of_lt fits) (cap_delay_exact base max_delay p hp)
  | no wraps ↦
      let short : max_delay < p = lt_of_mul-lt-mul_left base (omega arith) in
      cap_delay_wrapped base max_delay _ p hb short (wrapped_multiple base p q) ∙ grind arith
]

calc_backoff_delay_lem :
    (base max_delay retry : ℕ)
    → calc_backoff_delay base max_delay retry ≡ (
        if ltb retry 32
        then some (cap_delay base max_delay (base * 2 ^ retry % 4294967296))
        else none)
unfolding calc_backoff_delay
calc_backoff_delay_lem base max_delay retry = ground arith

-- While the base times the maximum stays below 2^32 and fewer than 32 retries have been made, the
-- delay is exactly the base doubled once for each retry, or the maximum where that is less: the
-- wrap-around of the shift is always noticed.
pub calc_backoff_delay-saturates :
    (base max_delay retry : ℕ)
    → 0 < base
    → base * max_delay < 4294967296
    → retry < 32
    → calc_backoff_delay base max_delay retry ≡ some (min (base * 2 ^ retry) max_delay)
calc_backoff_delay-saturates base max_delay retry hb hm hr =
    let width = split_width retry hr in
    rw (calc_backoff_delay_lem, lt→ltb retry 32 hr)
      (ap some (
        rw width (
          cap_delay_modular base max_delay (2 ^ retry) (2 ^ (32 - retry)) (two_pow_pos retry) hb
            (rw width at hm))))

-- A delay is computed exactly for the retries below 32. From the 32nd on the shift is undefined.
pub calc_backoff_delay_defined :
    (base max_delay retry : ℕ) → (calc_backoff_delay base max_delay retry ≡ none) ↔ (32 ≤ retry)
unfolding calc_backoff_delay
calc_backoff_delay_defined base max_delay retry = ground arith

-- Whatever the configuration, a delay that is computed is at most the maximum.
pub calc_backoff_delay-le :
    (base max_delay retry : ℕ) {d : ℕ}
    → calc_backoff_delay base max_delay retry ≡ some d
    → d ≤ max_delay
unfolding calc_backoff_delay
calc_backoff_delay-le base max_delay retry h = ground arith
