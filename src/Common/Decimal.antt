-- ===== src/Common/Decimal.antt =====
-- Decimal numerals, as `%d` and `%u` of the C library print them, and their value.
use mathlib.Core.Path.{◌≡◌, ap, sym, ◌∙◌}
use mathlib.Core.List.{[], ◌∷◌}
use Prim.Native.Nat.{ℕ, zero, suc, ◌+◌, ◌-◌, ◌*◌, ◌/◌, ◌%◌, ◌<◌}
use mathlib.Core.Logic.{inl, inr}
use native.Mathlib.Nat.{pow-suc}
use native.Mathlib.Omega.{arith}
use esp_wifi_config.Common.Tests.{◌==◌, if◌then◌else◌, Bool-cases}
use esp_wifi_config.Common.Lists.{length}
use Prim.Native.Nat.{◌^◌, ◌≤◌}
use esp_wifi_config.Common.Bytes.{Bytes, IsCString}

-- The digits of `u` in front of `rest`; `f` bounds the number of divisions.
unfoldable pub decimal_onto : ℕ → ℕ → Bytes → Bytes
decimal_onto zero u rest = rest
decimal_onto (suc f) u rest =
    let digit : ℕ = 48 + u % 10 in
    let more = decimal_onto f (u / 10) (digit ∷ rest) in if u / 10 == 0 then digit ∷ rest else more

unfoldable pub decimal : ℕ → Bytes
unfolding decimal_onto
decimal n = decimal_onto (suc n) n []

-- The value of a row of digits, behind digits of the value given.
unfoldable pub read_decimal : ℕ → Bytes → ℕ
read_decimal acc [] = acc
read_decimal acc (c ∷ cs) = read_decimal (acc * 10 + (c - 48)) cs

pub read_decimal-decimal_onto :
    (f u : ℕ) (rest : Bytes) → u < f → read_decimal 0 (decimal_onto f u rest) ≡ read_decimal u rest
unfolding decimal_onto
read_decimal-decimal_onto zero u rest h = absurd (omega arith)
read_decimal-decimal_onto (suc f) u rest h = elim (Bool-cases (u / 10 == 0)) [
  | inl last ↦ rw last (unfold read_decimal in ap (λ (t : ℕ). read_decimal t rest) (ground arith))
  | inr more ↦ rw more (
      read_decimal-decimal_onto f (u / 10) ((48 + u % 10) ∷ rest) (ground arith)
      ∙ unfold read_decimal in ap (λ (t : ℕ). read_decimal t rest) (omega arith))
]

pub read_decimal-decimal : (n : ℕ) → read_decimal 0 (decimal n) ≡ n
unfolding decimal read_decimal
read_decimal-decimal n = read_decimal-decimal_onto (suc n) n [] (omega arith)

pub decimal-injective : (m n : ℕ) → decimal m ≡ decimal n → m ≡ n
decimal-injective m n h =
    sym (read_decimal-decimal m) ∙ ap (read_decimal 0) h ∙ read_decimal-decimal n

pub decimal_onto-IsCString :
    (f u : ℕ) (rest : Bytes) → IsCString rest → IsCString (decimal_onto f u rest)
unfolding decimal_onto
decimal_onto-IsCString zero u rest h = h
decimal_onto-IsCString (suc f) u rest h = elim (Bool-cases (u / 10 == 0)) [
  | inl last ↦ rw last ((omega arith, omega arith), h)
  | inr more ↦
      rw more
        (decimal_onto-IsCString f (u / 10) ((48 + u % 10) ∷ rest) ((omega arith, omega arith), h))
]

pub decimal-IsCString : (n : ℕ) → IsCString (decimal n)
unfolding decimal
decimal-IsCString n = decimal_onto-IsCString (suc n) n [] tt

-- A number below 10 ^ (d + 1) has at most d + 1 digits.
pub length-decimal_onto :
    (f u d : ℕ) (rest : Bytes)
    → u < 10 ^ suc d
    → length (decimal_onto f u rest) ≤ suc d + length rest
unfolding decimal_onto
length-decimal_onto zero u d rest h = omega arith
length-decimal_onto (suc f) u zero rest h = ground arith
length-decimal_onto (suc f) u (suc d) rest h = elim (Bool-cases (u / 10 == 0)) [
  | inl last ↦ rw last (omega arith)
  | inr more ↦
      let fewer : u / 10 < 10 ^ suc d = omega (arith, pow-suc 10 (suc d)) in
      rw more (omega (arith, length-decimal_onto f (u / 10) d ((48 + u % 10) ∷ rest) fewer))
]

pub length-decimal : (n d : ℕ) → n < 10 ^ suc d → length (decimal n) ≤ suc d
unfolding decimal
length-decimal n d h = omega (arith, length-decimal_onto (suc n) n d [] h)
