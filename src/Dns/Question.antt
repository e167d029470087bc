-- ===== src/Dns/Question.antt =====
-- The answer to a question.
use esp_wifi_config.Common.{
  ℕ, zero, suc, ◌+◌, ◌≤◌, ◌<◌, ◌≡◌, refl, ap, sym, ◌∙◌, List, [], ◌∷◌, ◌++◌, append_assoc, Bool,
  true, false, All, length, take, drop, length-append, take_prefix, drop_prefix, ltb, ◌==◌,
  if◌then◌else◌, arith,
}
use esp_wifi_config.Common.Bytes.{Bytes}
use esp_wifi_config.Dns.{
  skip_labels, answer_header, answer_record, answer_offset, Response, too_short, overrun, reply,
  build_response,
}

-- Labels in the layout of a name, without the zero byte that ends it.
unfoldable pub labels_of : List Bytes → Bytes
labels_of [] = []
labels_of (l ∷ ls) = (length l ∷ l) ++ labels_of ls

abbrev pub IsLabel : Bytes → Type 0
IsLabel l = 0 < length l

skip_labels-labels_of :
    (fuel : ℕ) (ls : List Bytes) (rest : Bytes)
    → All IsLabel ls
    → length (labels_of ls) < fuel
    → skip_labels fuel (labels_of ls ++ 0 ∷ rest) ≡ length (labels_of ls)
unfolding skip_labels labels_of
skip_labels-labels_of zero ls rest good enough = absurd (omega arith)
skip_labels-labels_of (suc fuel) [] rest good enough = refl
skip_labels-labels_of (suc fuel) (l ∷ ls) rest (good, more) enough =
    let long : (length l == 0) ≡ false = ground arith in
    let behind : drop (length l) (l ++ labels_of ls ++ 0 ∷ rest) ≡ labels_of ls ++ 0 ∷ rest =
      ap (drop (length l)) (append_assoc l (labels_of ls) (0 ∷ rest))
      ∙ drop_prefix l (labels_of ls ++ 0 ∷ rest) in
    let later =
      skip_labels-labels_of fuel ls rest more (omega (arith, length-append l (labels_of ls))) in
    rw (long, behind, later) (omega (arith, length-append l (labels_of ls)))

-- `dns_header_t`, byte by byte.
pub record Header : Type 0 where
  pub id_high : ℕ
  pub id_low : ℕ
  pub flags_high : ℕ
  pub flags_low : ℕ
  pub qdcount_high : ℕ
  pub qdcount_low : ℕ
  pub ancount_high : ℕ
  pub ancount_low : ℕ
  pub nscount_high : ℕ
  pub nscount_low : ℕ
  pub arcount_high : ℕ
  pub arcount_low : ℕ

abbrev pub bytes_of : Header → Bytes
bytes_of h =
    h.id_high ∷ h.id_low ∷ h.flags_high ∷ h.flags_low ∷ h.qdcount_high ∷ h.qdcount_low
    ∷ h.ancount_high ∷ h.ancount_low ∷ h.nscount_high ∷ h.nscount_low ∷ h.arcount_high
    ∷ h.arcount_low ∷ []

-- The header of the answer.
abbrev pub answered : Header → Header
answered h = record h { flags_high = 129; flags_low = 128; ancount_high = 0; ancount_low = 1 }

-- A header with a question, its name, type and class.
abbrev pub question_of : Header → List Bytes → Bytes → Bytes
question_of h ls kind = bytes_of h ++ (labels_of ls ++ 0 ∷ kind)

length-question_of :
    (h : Header) (ls : List Bytes) (kind : Bytes)
    → length kind ≡ 4
    → length (question_of h ls kind) ≡ 12 + length (labels_of ls) + 5
length-question_of h ls kind four = omega (arith, length-append (labels_of ls) (0 ∷ kind), four)

answer_offset-question_of :
    (h : Header) (ls : List Bytes) (kind more : Bytes)
    → All IsLabel ls
    → length kind ≡ 4
    → answer_offset (question_of h ls kind ++ more) ≡ length (question_of h ls kind)
answer_offset-question_of h ls kind more good four =
    let q = question_of h ls kind ++ more in
    let name : skip_labels (length q) (labels_of ls ++ 0 ∷ kind ++ more) ≡ length (labels_of ls) =
      ap (skip_labels (length q)) (append_assoc (labels_of ls) (0 ∷ kind) more)
      ∙ skip_labels-labels_of (length q) ls (kind ++ more) good (
          omega (
            arith,
            length-append (question_of h ls kind) more,
            length-question_of h ls kind four,
          )) in
    ap (λ (k : ℕ). 12 + k + 5) name ∙ sym (length-question_of h ls kind four)

chosen :
    (short over : Bool) (r : Response)
    → short ≡ false
    → (if short then too_short else if over then overrun else r) ≡ (if over then overrun else r)
chosen true over r h = absurd (ground arith)
chosen false over r h = refl

answer_kept :
    (h : Header) (ls : List Bytes) (kind more stale : Bytes)
    → take (length (question_of h ls kind)) (answer_header (question_of h ls kind ++ more) ++ stale)
      ≡ question_of (answered h) ls kind
answer_kept h ls kind more stale =
    let asked = labels_of ls ++ 0 ∷ kind in
    ap (λ (xs : Bytes). bytes_of (answered h) ++ xs)
      (ap (take (length asked)) (append_assoc asked more stale) ∙ take_prefix asked (more ++ stale))

-- The answer to a well-formed question is the question under the header of an answer, with the
-- answer record behind it; what followed the question, and what the buffer held, is dropped. It is
-- given exactly if it fits into the buffer of 512 bytes; else the record is written behind it.
pub build_response-question :
    (buffer : Bytes) (h : Header) (ls : List Bytes) (kind more : Bytes) (ip : ℕ)
    → All IsLabel ls
    → length kind ≡ 4
    → let response = build_response buffer (question_of h ls kind ++ more) ip in
      (length (labels_of ls) ≤ 479
        → response ≡ reply (question_of (answered h) ls kind ++ answer_record ip))
      × (479 < length (labels_of ls) → response ≡ overrun)
unfolding build_response
build_response-question buffer h ls kind more ip good four =
    let q = question_of h ls kind ++ more in
    let stale = drop (length q) buffer in
    let whole = take (answer_offset q) (answer_header q ++ stale) ++ answer_record ip in
    let offset = answer_offset-question_of h ls kind more good four in
    let size = length-question_of h ls kind four in
    let long : ltb (length q) 12 ≡ false =
      ground (arith, length-append (question_of h ls kind) more, size) in
    let answer : whole ≡ question_of (answered h) ls kind ++ answer_record ip =
      ap (λ (n : ℕ). take n (answer_header q ++ stale) ++ answer_record ip) offset
      ∙ ap (λ (b : Bytes). b ++ answer_record ip) (answer_kept h ls kind more stale) in
    (
      λ small.
          let fits : ltb 512 (answer_offset q + 16) ≡ false = ground (arith, offset, size) in
          chosen _ (ltb 512 (answer_offset q + 16)) (reply whole) long ∙ rw fits (ap reply answer),
      λ large.
          let over : ltb 512 (answer_offset q + 16) ≡ true = ground (arith, offset, size) in
          chosen _ (ltb 512 (answer_offset q + 16)) (reply whole) long ∙ rw over refl,
    )
