-- ===== src/Json/Number.antt =====
-- Integers: `w_int` writes the decimal numeral of every `int64_t`, and the digits fit its array.
use native.Mathlib.Nat.{pow-suc}
use esp_wifi_config.Common.{
  ℕ, zero, suc, ◌/◌, ◌^◌, ◌<◌, ◌≡◌, refl, [], ◌++◌, Option, some, Bool-cases, ==_iff, ◌==◌, inl,
  inr, arith,
}
use esp_wifi_config.Common.Bytes.{Bytes}
use esp_wifi_config.Common.Decimal.{decimal, decimal_onto}
use esp_wifi_config.Json.{Sink, push_digits, magnitude, sign, w_int}
use esp_wifi_config.Json.Raw.{Accepts, Writes, Writes-eq, w_raw-Writes}

-- With room for `d` digits, a number below ten to the power of `d` is written out.
push_digits-decimal_onto :
    (d f u : ℕ) (rest : Bytes)
    → u < 10 ^ suc d
    → u < f
    → push_digits (suc d) u rest ≡ some (decimal_onto f u rest)
unfolding push_digits decimal_onto
push_digits-decimal_onto d zero u rest few h = absurd (omega arith)
push_digits-decimal_onto zero (suc f) u rest few h = elim (Bool-cases (u / 10 == 0)) [
  | inl last ↦ rw last refl
  | inr more ↦ absurd (grind (arith, ==_iff (u / 10) 0))
]
push_digits-decimal_onto (suc d) (suc f) u rest few h = elim (Bool-cases (u / 10 == 0)) [
  | inl last ↦ rw last refl
  | inr more ↦
      let fewer : u / 10 < 10 ^ suc d = omega (arith, pow-suc 10 (suc d)) in
      let less : u / 10 < f = grind (arith, ==_iff (u / 10) 0) in
      rw more (push_digits-decimal_onto d f (u / 10) _ fewer less)
]

-- The numeral of an `int64_t`, given by its bit pattern.
abbrev pub numeral : ℕ → Bytes
numeral val = sign val ++ decimal (magnitude val)

magnitude-lt : (val : ℕ) → val < 2 ^ 64 → magnitude val < 10 ^ 20
magnitude-lt val h = ground arith

push_digits-decimal :
    (val : ℕ) → val < 2 ^ 64 → push_digits 20 (magnitude val) [] ≡ some (decimal (magnitude val))
unfolding decimal
push_digits-decimal val h =
    push_digits-decimal_onto 19 (suc (magnitude val)) (magnitude val) [] (magnitude-lt val h)
      (omega arith)

module _ {Ctx : Type 0} (log : Ctx → Bytes) (sink : Option (Sink Ctx))
    (accepts : Accepts sink log) where
  pub w_int-Writes : (val : ℕ) → val < 2 ^ 64 → Writes log sink (numeral val) (w_int sink val)
  unfolding w_int
  w_int-Writes val h =
      Writes-eq log sink refl (λ w. rw (push_digits-decimal val h, w_int) refl)
        (w_raw-Writes log sink accepts (numeral val))
