-- ===== src/Improv/Serial/Corruption.antt =====
-- A byte that is changed on the line.
use esp_wifi_config.Common.{
  ℕ, ◌+◌, ◌%◌, ◌<◌, ◌≡◌, ◌≢◌, refl, sym, ◌∙◌, [], ◌∷◌, ◌++◌, arith, ==_false, length-append,
}
use esp_wifi_config.Common.Bytes.{Bytes}
use esp_wifi_config.Improv.Serial.{checksum_from, improv_checksum, frame_body, Rx, rx_run}
use esp_wifi_config.Improv.Serial.Frames.{Idle, rx_run_frame}

checksum_from-append :
    (s t : Bytes) (sum : ℕ) → checksum_from sum (s ++ t) ≡ checksum_from (checksum_from sum s) t
unfolding checksum_from
checksum_from-append [] t sum = refl
checksum_from-append (b ∷ s) t sum = checksum_from-append s t ((sum + b) % 256)

-- Different sums stay different.
checksum_from-injective :
    (s : Bytes) (m n : ℕ) → m < 256 → n < 256 → checksum_from m s ≡ checksum_from n s → m ≡ n
unfolding checksum_from
checksum_from-injective [] m n hm hn e = e
checksum_from-injective (b ∷ s) m n hm hn e =
    let same =
      checksum_from-injective s ((m + b) % 256) ((n + b) % 256) (omega arith) (omega arith) e in
    omega arith

checksum_from-differs :
    (p q : Bytes) (x y sum : ℕ)
    → x < 256
    → y < 256
    → x ≢ y
    → checksum_from sum (p ++ x ∷ q) ≢ checksum_from sum (p ++ y ∷ q)
unfolding checksum_from
checksum_from-differs p q x y sum hx hy ne e =
    let start = checksum_from sum p in
    let same : checksum_from ((start + x) % 256) q ≡ checksum_from ((start + y) % 256) q =
      sym (checksum_from-append p (x ∷ q) sum) ∙ e ∙ checksum_from-append p (y ∷ q) sum in
    let parts =
      checksum_from-injective q ((start + x) % 256) ((start + y) % 256) (omega arith) (omega arith)
        same in
    absurd (ne (omega arith))

frame_body-differs :
    (pkt_type : ℕ) (p q : Bytes) (x y : ℕ)
    → x < 256
    → y < 256
    → x ≢ y
    → improv_checksum (frame_body pkt_type (p ++ x ∷ q))
      ≢ improv_checksum (frame_body pkt_type (p ++ y ∷ q))
unfolding checksum_from
frame_body-differs pkt_type p q x y hx hy ne =
    rw (length-append p (x ∷ q), length-append p (y ∷ q)) (checksum_from-differs p q x y _ hx hy ne)

-- A frame in which one byte of the data was changed on the line is never served: the parser reads
-- it to its end, stands before the next frame, and asks for nothing.
pub rx_run-changed_byte :
    (rx : Rx) (pkt_type : ℕ) (p q : Bytes) (sent received : ℕ)
    → Idle rx
    → sent < 256
    → received < 256
    → sent ≢ received
    → let r =
        rx_run
          (frame_body pkt_type (p ++ received ∷ q)
            ++ improv_checksum (frame_body pkt_type (p ++ sent ∷ q)) ∷ [])
          rx in
      Idle r.0 × (r.1 ≡ [])
rx_run-changed_byte rx pkt_type p q sent received idle hs hr ne =
    let wrong = ==_false _ _ (frame_body-differs pkt_type p q sent received hs hr ne) in
    let (waiting, requests) =
      rx_run_frame rx pkt_type (p ++ received ∷ q)
        (improv_checksum (frame_body pkt_type (p ++ sent ∷ q))) idle in
    (waiting, requests ∙ rw wrong refl)
