-- ===== src/Http/Body/Scan.antt =====
-- The check of the nesting on strings, numerals and other texts without brackets.
use esp_wifi_config.Common.{
  ℕ, zero, suc, ◌+◌, ◌/◌, ◌%◌, ◌≤◌, ◌<◌, ◌≡◌, ◌≢◌, refl, ap, ◌∙◌, [], ◌∷◌, ◌++◌, Option, none, some,
  Bool, true, false, ◌&&◌, not, ltb, ◌==◌, ==_false, if◌then◌else◌, arith, All, append_assoc,
  Bool-cases, inl, inr, all_below, all_below_lem,
}
use esp_wifi_config.Common.Bytes.{Bytes, codes}
use esp_wifi_config.Common.Decimal.{decimal, decimal_onto}
use esp_wifi_config.Json.{escape_of, hex_digit, is_negative, sign, magnitude}
use esp_wifi_config.Json.Text.{escaped, escape_text}
use esp_wifi_config.Json.Number.{numeral}
use esp_wifi_config.Json.Step.{comma}
use esp_wifi_config.Http.Body.{
  Mode, outside, inside, escaping, next_mode, next_depth, is_open, is_close, depth_scan,
}

-- The scan goes over a text in a mode, and stands in the mode and at the depth of before.
abbrev Skips : Mode → ℕ → Bytes → Type 0
Skips mode d s = (rest : Bytes) → depth_scan mode d (s ++ rest) ≡ depth_scan mode d rest

abbrev IsInside : ℕ → Type 0
IsInside c = (c ≢ 92) × (c ≢ 34)

pub Skips-append :
    (mode : Mode) (d : ℕ) (s t : Bytes) → Skips mode d s → Skips mode d t → Skips mode d (s ++ t)
Skips-append mode d s t p q rest =
    ap (depth_scan mode d) (append_assoc s t rest) ∙ p (t ++ rest) ∙ q rest

-- A byte that leaves the depth where it is only changes the mode.
scan_byte :
    (mode : Mode) (d c : ℕ) (rest : Bytes)
    → d ≤ 16
    → next_depth mode c d ≡ d
    → depth_scan mode d (c ∷ rest) ≡ depth_scan (next_mode mode c) d rest
unfolding depth_scan
scan_byte mode d c rest h same =
    let fine : ltb 16 d ≡ false = ground arith in rw same (rw fine refl)

scan_inside :
    (d c : ℕ) (rest : Bytes)
    → d ≤ 16
    → IsInside c
    → depth_scan inside d (c ∷ rest) ≡ depth_scan inside d rest
scan_inside d c rest h (a, b) =
    scan_byte inside d c rest h refl ∙ rw (==_false c 92 a) (rw (==_false c 34 b) refl)

-- A backslash takes the byte behind it along.
scan_escape :
    (d c : ℕ) (rest : Bytes)
    → d ≤ 16
    → depth_scan inside d (92 ∷ c ∷ rest) ≡ depth_scan inside d rest
scan_escape d c rest h =
    scan_byte inside d 92 (c ∷ rest) h refl ∙ scan_byte escaping d c rest h refl

-- The hexadecimal digits, checked one by one.
is_inside : ℕ → Bool
is_inside c = not (c == 92) && not (c == 34)

is_inside-IsInside : (c : ℕ) → is_inside c ≡ true → IsInside c
unfolding is_inside
is_inside-IsInside c h = (λ e. cc (h, e), λ e. cc (h, e))

hex_digits_inside : all_below (λ k. is_inside (hex_digit k)) 16 ≡ true
unfolding is_inside all_below
hex_digits_inside = refl

hex_digit-IsInside : (k : ℕ) → k < 16 → IsInside (hex_digit k)
hex_digit-IsInside k h =
    is_inside-IsInside (hex_digit k)
      (all_below_lem (λ k. is_inside (hex_digit k)) 16 hex_digits_inside k h)

-- What `escape_of` gives for a byte is skipped inside of a string; a byte that has none is ordinary.
abbrev Fine : ℕ → ℕ → Option Bytes → Type 0
Fine d c none = IsInside c
Fine d c (some esc) = Skips inside d esc

Fine-if :
    (d c : ℕ) (t : Bool) (x y : Option Bytes)
    → Fine d c x
    → (t ≡ false → Fine d c y)
    → Fine d c (if t then x else y)
Fine-if d c true x y p q = p
Fine-if d c false x y p q = q refl

escape_of-Fine : (d c : ℕ) → d ≤ 16 → Fine d c (escape_of c)
unfolding escape_of
escape_of-Fine d c h = Fine-if d c (c == 92) _ _ (two 92) (λ n1.
    Fine-if d c (c == 34) _ _ (two 34) (λ n2. Fine-if d c (c == 8) _ _ (two b'b') (λ n3.
      Fine-if d c (c == 12) _ _ (two b'f') (λ n4. Fine-if d c (c == 10) _ _ (two b'n') (λ n5.
        Fine-if d c (c == 13) _ _ (two b'r') (λ n6.
          Fine-if d c (c == 9) _ _ (two b't')
            (λ n7. Fine-if d c (ltb c 32) _ _ six (λ n8. (ground arith, ground arith)))))))))
  where
    two : (e : ℕ) → Skips inside d (92 ∷ e ∷ [])
    two e rest = scan_escape d e rest h

    zero_inside : IsInside b'0'
    zero_inside = (ground arith, ground arith)

    six :
        Skips inside d (92 ∷ b'u' ∷ b'0' ∷ b'0' ∷ hex_digit (c / 16 % 16) ∷ hex_digit (c % 16) ∷ [])
    six rest =
        scan_escape d b'u' _ h
        ∙ scan_inside d b'0' _ h zero_inside
        ∙ scan_inside d b'0' _ h zero_inside
        ∙ scan_inside d (hex_digit (c / 16 % 16)) _ h
            (hex_digit-IsInside (c / 16 % 16) (omega arith))
        ∙ scan_inside d (hex_digit (c % 16)) rest h (hex_digit-IsInside (c % 16) (omega arith))

escaped-Skips : (d c : ℕ) → d ≤ 16 → Skips inside d (escaped c)
escaped-Skips d c h = of_option (escape_of c) (escape_of-Fine d c h)
  where
    of_option :
        (o : Option Bytes)
        → Fine d c o
        → Skips inside d (elim o as (λ _. Bytes) [ some esc ↦ esc | none ↦ c ∷ [] ])
    of_option (some esc) fine rest = fine rest
    of_option none fine rest = scan_inside d c rest h fine

escape_text-Skips : (d : ℕ) (s : Bytes) → d ≤ 16 → Skips inside d (escape_text s)
unfolding escape_text
escape_text-Skips d [] h rest = refl
escape_text-Skips d (c ∷ s) h rest =
    Skips-append inside d (escaped c) (escape_text s) (escaped-Skips d c h)
      (escape_text-Skips d s h) rest

-- A string in its quotes, with what stands behind it at once.
pub quoted_scan :
    (d : ℕ) (s behind : Bytes)
    → d ≤ 16
    → Skips outside d behind
    → Skips outside d (34 ∷ [] ++ (escape_text s ++ 34 ∷ behind))
quoted_scan d s behind h after rest =
    scan_byte outside d 34 _ h refl
    ∙ ap (depth_scan inside d) (append_assoc (escape_text s) (34 ∷ behind) rest)
    ∙ escape_text-Skips d s h (34 ∷ behind ++ rest)
    ∙ scan_byte inside d 34 (behind ++ rest) h refl
    ∙ after rest

-- A byte that means nothing outside of strings.
abbrev IsPlain : ℕ → Type 0
IsPlain c = (c ≢ 34) × (is_open c ≡ false) × (is_close c ≡ false)

scan_plain :
    (d c : ℕ) (rest : Bytes)
    → d ≤ 16
    → IsPlain c
    → depth_scan outside d (c ∷ rest) ≡ depth_scan outside d rest
scan_plain d c rest h (a, b, e) =
    scan_byte outside d c rest h (rw b (rw e refl)) ∙ rw (==_false c 34 a) refl

pub plain-Skips : (d : ℕ) (s : Bytes) → d ≤ 16 → All IsPlain s → Skips outside d s
plain-Skips d [] h plain rest = refl
plain-Skips d (c ∷ s) h (p, plain) rest =
    scan_plain d c (s ++ rest) h p ∙ plain-Skips d s h plain rest

decimal_onto-IsPlain :
    (f n : ℕ) (out : Bytes) → All IsPlain out → All IsPlain (decimal_onto f n out)
unfolding decimal_onto
decimal_onto-IsPlain zero n out plain = plain
decimal_onto-IsPlain (suc f) n out plain =
    let digit : IsPlain (48 + n % 10) = (ground arith, ground arith, ground arith) in
    elim (Bool-cases (n / 10 == 0)) [
      | inl last ↦ rw last (digit, plain)
      | inr more ↦ rw more (decimal_onto-IsPlain f (n / 10) ((48 + n % 10) ∷ out) (digit, plain))
    ]

pub numeral-Skips : (d n : ℕ) → d ≤ 16 → Skips outside d (numeral n)
unfolding decimal
numeral-Skips d n h =
    Skips-append outside d (sign n) (decimal (magnitude n)) (signed (is_negative n))
      (plain-Skips d _ h (decimal_onto-IsPlain (suc (magnitude n)) (magnitude n) [] tt))
  where
    signed : (b : Bool) → Skips outside d (if b then b'-' ∷ [] else [])
    signed true rest = plain-Skips d (b'-' ∷ []) h ((ground arith, refl, refl), tt) rest
    signed false rest = refl

pub comma-Skips : (d : ℕ) (c : Bool) → d ≤ 16 → Skips outside d (comma c)
comma-Skips d true h rest = plain-Skips d (b',' ∷ []) h ((ground arith, refl, refl), tt) rest
comma-Skips d false h rest = refl

is_plain : Bytes → Bool
is_plain [] = true
is_plain (c ∷ s) = not (c == 34) && not (is_open c) && not (is_close c) && is_plain s

is_plain-IsPlain : (s : Bytes) → is_plain s ≡ true → All IsPlain s
unfolding is_plain
is_plain-IsPlain [] h = tt
is_plain-IsPlain (c ∷ s) h = ground (arith, is_plain-IsPlain s)

pub letters-Skips :
    (d : ℕ) (b : Bool) → d ≤ 16 → Skips outside d (if b then codes "true" else codes "false")
unfolding is_plain
letters-Skips d true h = plain-Skips d (codes "true") h (is_plain-IsPlain (codes "true") refl)
letters-Skips d false h = plain-Skips d (codes "false") h (is_plain-IsPlain (codes "false") refl)
