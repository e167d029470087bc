-- ===== src/Improv/Ble/Frame.antt =====
-- The check of a frame against the layout that the specification gives.
use esp_wifi_config.Common.{
  ℕ, zero, suc, ◌+◌, ◌-◌, ◌≡◌, ◌↔◌, refl, sym, ap, ◌∙◌, [], ◌∷◌, ◌++◌, some, true, false, length,
  length-append, get_elem?, take_prefix, ltb, ◌==◌, ==_iff, arith,
}
use esp_wifi_config.Common.Bytes.{Bytes}
use esp_wifi_config.Improv.Serial.{improv_checksum}
use esp_wifi_config.Improv.Ble.{improv_ble_frame_valid, checksum_holds, with_checksum}

-- A command and its payload as a client frames them.
abbrev pub framed : ℕ → Bytes → Bytes
framed cmd payload = with_checksum (cmd ∷ length payload ∷ payload)

get_last : (s : Bytes) (b : ℕ) → get_elem? (s ++ b ∷ []) (length s) ≡ some b
get_last [] b = refl
get_last (c ∷ s) b = get_last s b

length-snoc : (s : Bytes) (b : ℕ) → length (s ++ b ∷ []) - 1 ≡ length s
length-snoc s b = omega (arith, length-append s (b ∷ []))

-- What the check of the checksum says of bytes with one behind them.
checksum_holds-snoc : (s : Bytes) (b : ℕ) → checksum_holds (s ++ b ∷ []) ≡ (improv_checksum s == b)
checksum_holds-snoc s b =
    rw (length-snoc s b, checksum_holds)
      (rw (get_last s b, length-snoc s b, take_prefix s (b ∷ [])) refl)

-- Bytes as those before the last one and the last one.
record Ends (n : ℕ) (s : Bytes) : Type 0 where
  pub front : Bytes
  pub last : ℕ
  pub whole : s ≡ front ++ last ∷ []
  pub counted : length front ≡ n

split-Ends : (n : ℕ) (s : Bytes) → length s ≡ n + 1 → Ends n s
split-Ends n [] h = absurd (omega arith)
split-Ends zero (b ∷ []) h = record { front = []; last = b; whole = refl; counted = refl }
split-Ends zero (b ∷ c ∷ s) h = absurd (omega arith)
split-Ends (suc n) (b ∷ s) h =
    let e = split-Ends n s (omega arith) in
    record {
      front = b ∷ e.front;
      last = e.last;
      whole = ap (◌∷◌ b) e.whole;
      counted = ap suc e.counted;
    }

valid_length :
    (cmd n : ℕ) (rest : Bytes)
    → improv_ble_frame_valid (cmd ∷ n ∷ rest) ≡ true
    → length rest ≡ n + 1
unfolding improv_ble_frame_valid
valid_length cmd n rest h = ground arith

-- A frame whose length byte fits is judged by its checksum.
valid-framed :
    (cmd : ℕ) (payload : Bytes) (b : ℕ)
    → improv_ble_frame_valid (cmd ∷ length payload ∷ (payload ++ b ∷ []))
      ≡ (improv_checksum (cmd ∷ length payload ∷ payload) == b)
unfolding improv_ble_frame_valid
valid-framed cmd payload b =
    let n = length (payload ++ b ∷ []) in
    let counted : n ≡ length payload + 1 = length-append payload (b ∷ []) in
    let long : ltb (n + 2) 3 ≡ false = ground arith in
    let fits : (length payload + 3 == n + 2) ≡ true = ground arith in
    rw (long, improv_ble_frame_valid)
      (rw (fits, improv_ble_frame_valid) (checksum_holds-snoc (cmd ∷ length payload ∷ payload) b))

pub framed-valid : (cmd : ℕ) (payload : Bytes) → improv_ble_frame_valid (framed cmd payload) ≡ true
framed-valid cmd payload =
    valid-framed cmd payload (improv_checksum (cmd ∷ length payload ∷ payload))
    ∙ (==_iff _ _).1 refl

valid-is_framed :
    (frame : Bytes)
    → improv_ble_frame_valid frame ≡ true
    → (cmd : ℕ) × (payload : Bytes) × (frame ≡ framed cmd payload)
unfolding improv_ble_frame_valid
valid-is_framed [] h = absurd (cc)
valid-is_framed (cmd ∷ []) h = absurd (cc)
valid-is_framed (cmd ∷ n ∷ rest) h =
    let e = split-Ends n rest (valid_length cmd n rest h) in
    let split : (cmd ∷ n ∷ rest) ≡ cmd ∷ length e.front ∷ (e.front ++ e.last ∷ []) =
      λ i. cmd ∷ sym e.counted i ∷ e.whole i in
    let sum : improv_checksum (cmd ∷ length e.front ∷ e.front) ≡ e.last =
      (==_iff _ _).0
        (sym (valid-framed cmd e.front e.last) ∙ ap improv_ble_frame_valid (sym split) ∙ h) in
    (cmd, e.front, split ∙ ap (λ (b : ℕ). (cmd ∷ length e.front ∷ e.front) ++ b ∷ []) (sym sum))

-- A frame is taken exactly if it is a command byte, a length byte, as many bytes of payload, and the
-- sum of all these modulo 256: a frame without its checksum, with bytes missing or with bytes behind
-- it is not.
pub improv_ble_frame_valid_iff :
    (frame : Bytes)
    → (improv_ble_frame_valid frame ≡ true)
      ↔ ((cmd : ℕ) × (payload : Bytes) × (frame ≡ framed cmd payload))
improv_ble_frame_valid_iff frame =
    (valid-is_framed frame, λ f. ap improv_ble_frame_valid f.2 ∙ framed-valid f.0 f.1)
