-- ===== src/Http/Body/Framing.antt =====
-- Where the reading of a body leaves the connection.
use mathlib.Core.Option.{some-injective}
use esp_wifi_config.Common.{
  ℕ, zero, suc, ◌-◌, ◌^◌, ◌≤◌, ◌<◌, ◌≡◌, refl, sym, ap, ◌∙◌, List, [], ◌∷◌, ◌++◌, Option, none,
  some, Bool, true, false, ◌||◌, not, length, take, drop, min, ltb, leb, ◌==◌, if◌then◌else◌, arith,
  All, append_assoc, append-nil, take-append-drop, length-take, length-drop, Bool-cases, inl, inr,
}
use esp_wifi_config.Common.Bytes.{Bytes}
use esp_wifi_config.Http.Body.{
  Connection, recv, drain_loop, drain_body, receive_loop, JsonReader, parse_body, parse_received,
  read_json_body, http_max_content,
}

-- The client goes on sending: each of the next `n` reads yields something.
pub record IsLively (n : ℕ) (cuts : List ℕ) : Type 0 where
  pub some_bytes : All (λ c. 0 < c) cuts
  pub reads : n ≤ length cuts

take_front : (k : ℕ) (xs ys : Bytes) → k ≤ length xs → take k (xs ++ ys) ≡ take k xs
take_front zero xs ys h = refl
take_front (suc k) [] ys h = absurd (omega arith)
take_front (suc k) (x ∷ xs) ys h = ap (◌∷◌ x) (take_front k xs ys (omega arith))

drop_front : (k : ℕ) (xs ys : Bytes) → k ≤ length xs → drop k (xs ++ ys) ≡ drop k xs ++ ys
drop_front zero xs ys h = refl
drop_front (suc k) [] ys h = absurd (omega arith)
drop_front (suc k) (x ∷ xs) ys h = drop_front k xs ys (omega arith)

-- A read while the body lasts.
recv-body :
    (want c : ℕ) (cs : List ℕ) (body rest : Bytes)
    → want ≤ length body
    → recv want (record { stream = body ++ rest; cuts = c ∷ cs })
      ≡ (take (min c want) body, record { stream = drop (min c want) body ++ rest; cuts = cs })
unfolding recv
recv-body want c cs body rest h =
    rw
      (
        take_front (min c want) body rest (omega arith),
        drop_front (min c want) body rest (omega arith),
      )
      refl

-- A round of either loop that reads something.
receive_loop-round :
    (fuel left : ℕ) (buf got : Bytes) (c c1 : Connection)
    → recv left c ≡ (got, c1)
    → (left == 0) ≡ false
    → (length got == 0) ≡ false
    → receive_loop (suc fuel) left buf c ≡ receive_loop fuel (left - length got) (buf ++ got) c1
unfolding receive_loop
receive_loop-round fuel left buf got c c1 read some_left some_got =
    rw some_left (rw read (rw some_got refl))

drain_loop-round :
    (fuel left : ℕ) (got : Bytes) (c c1 : Connection)
    → recv (min left 128) c ≡ (got, c1)
    → (left == 0) ≡ false
    → (length got == 0) ≡ false
    → drain_loop (suc fuel) left c ≡ drain_loop fuel (left - length got) c1
unfolding drain_loop
drain_loop-round fuel left got c c1 read some_left some_got =
    rw some_left (rw read (rw some_got refl))

receive_loop-end :
    (fuel : ℕ) (buf : Bytes) (c : Connection) → receive_loop fuel 0 buf c ≡ (some buf, c)
unfolding receive_loop
receive_loop-end zero buf c = refl
receive_loop-end (suc fuel) buf c = refl

drain_loop-end : (fuel : ℕ) (c : Connection) → drain_loop fuel 0 c ≡ c
unfolding drain_loop
drain_loop-end zero c = refl
drain_loop-end (suc fuel) c = refl

-- What is left to do behind a read of up to `want` bytes.
record Progress (want left fuel c : ℕ) (cs : List ℕ) (body : Bytes) : Type 0 where
  got : length (take (min c want) body) ≡ min c want
  some_got : (length (take (min c want) body) == 0) ≡ false
  left_over : length (drop (min c want) body) ≡ left - length (take (min c want) body)
  enough : left - length (take (min c want) body) ≤ fuel
  lively : IsLively (left - length (take (min c want) body)) cs

progress :
    (want left fuel c : ℕ) (cs : List ℕ) (body : Bytes)
    → 0 < want
    → want ≤ left
    → length body ≡ left
    → left ≤ suc fuel
    → IsLively left (c ∷ cs)
    → Progress want left fuel c cs body
progress want left fuel c cs body h1 h2 h3 h4 lively =
    let taken : length (take (min c want) body) ≡ min c want =
      omega (arith, length-take (min c want) body) in
    let positive = lively.some_bytes.0 in
    let least : 0 < min c want = omega arith in
    record {
      got = taken;
      some_got = ground arith;
      left_over = omega (arith, length-drop (min c want) body);
      enough = omega arith;
      lively = record { some_bytes = lively.some_bytes.1; reads = omega (arith, lively.reads) };
    }

-- The connection behind the body.
abbrev Behind : Bytes → Connection → Type 0
Behind rest c = c.stream ≡ rest

receive_loop-body :
    (fuel left : ℕ) (buf body rest : Bytes) (cuts : List ℕ)
    → length body ≡ left
    → left ≤ fuel
    → IsLively left cuts
    → let r = receive_loop fuel left buf (record { stream = body ++ rest; cuts = cuts }) in
      (r.0 ≡ some (buf ++ body)) × Behind rest r.1
receive_loop-body fuel left buf [] rest cuts len enough lively =
    rw (← len, receive_loop-end fuel buf (record { stream = rest; cuts = cuts }))
      (ap some (sym (append-nil buf)), refl)
receive_loop-body zero left buf (b ∷ bs) rest cuts len enough lively = absurd (omega arith)
receive_loop-body (suc fuel) left buf (b ∷ bs) rest [] len enough lively =
    absurd (omega (arith, lively.reads))
receive_loop-body (suc fuel) left buf (b ∷ bs) rest (c ∷ cs) len enough lively =
    let body = b ∷ bs in
    let k = min c left in
    let p = progress left left fuel c cs body (omega arith) (omega arith) len enough lively in
    let (whole, behind) =
      receive_loop-body fuel (left - length (take k body)) (buf ++ take k body) (drop k body) rest
        cs p.left_over p.enough p.lively in
    rw
      (receive_loop-round fuel left buf (take k body)
        (record { stream = body ++ rest; cuts = c ∷ cs }) _
        (recv-body left c cs body rest (omega arith)) (ground arith) p.some_got)
      (
        whole
            ∙ ap some (
                append_assoc buf (take k body) (drop k body)
                ∙ ap (λ (u : Bytes). buf ++ u) (take-append-drop k body)),
        behind,
      )

drain_loop-body :
    (fuel left : ℕ) (body rest : Bytes) (cuts : List ℕ)
    → length body ≡ left
    → left ≤ fuel
    → IsLively left cuts
    → Behind rest (drain_loop fuel left (record { stream = body ++ rest; cuts = cuts }))
drain_loop-body fuel left [] rest cuts len enough lively =
    rw (← len, drain_loop-end fuel (record { stream = rest; cuts = cuts })) refl
drain_loop-body zero left (b ∷ bs) rest cuts len enough lively = absurd (omega arith)
drain_loop-body (suc fuel) left (b ∷ bs) rest [] len enough lively =
    absurd (omega (arith, lively.reads))
drain_loop-body (suc fuel) left (b ∷ bs) rest (c ∷ cs) len enough lively =
    let body = b ∷ bs in
    let want = min left 128 in
    let k = min c want in
    let p = progress want left fuel c cs body (omega arith) (omega arith) len enough lively in
    rw
      (drain_loop-round fuel left (take k body) (record { stream = body ++ rest; cuts = c ∷ cs }) _
        (recv-body want c cs body rest (omega arith)) (ground arith) p.some_got)
      (drain_loop-body fuel (left - length (take k body)) (drop k body) rest cs p.left_over p.enough
        p.lively)

module _ (reader : JsonReader) where
  open reader use {Json}

  parse_received-eq :
      (r : Option Bytes × Connection) (body : Bytes)
      → r.0 ≡ some body
      → ((parse_received reader r).0 ≡ parse_body reader body) × ((parse_received reader r).1 ≡ r.1)
  parse_received-eq (some buf, c) body e = (ap (parse_body reader) (some-injective _ _ e), refl)
  parse_received-eq (none, c) body e = absurd (ground arith)

  whole_body :
      (body rest : Bytes) (cuts : List ℕ)
      → IsLively (length body) cuts
      → let r = parse_received reader (
          receive_loop
            (length body)
            (length body)
            []
            (record { stream = body ++ rest; cuts = cuts })) in
        (r.1.stream ≡ rest) × (r.0 ≡ parse_body reader body)
  whole_body body rest cuts lively =
      let n = length body in
      let (whole, behind) = receive_loop-body n n [] body rest cuts refl (omega arith) lively in
      let (parsed, kept) =
        parse_received-eq (receive_loop n n [] (record { stream = body ++ rest; cuts = cuts })) body
          whole in
      (ap (λ (c : Connection). c.stream) kept ∙ behind, parsed)

  -- While the client goes on sending, in pieces of any size, a body of less than 2^31 bytes is read
  -- off the connection to its last byte, whether it is parsed or refused, so that the next request
  -- begins where it should; the parser is given exactly the body, unless it is empty, too long,
  -- without memory or too deeply nested.
  pub read_json_body-framing :
      (allocated : Bool) (body rest : Bytes) (cuts : List ℕ)
      → length body < 2 ^ 31
      → IsLively (length body) cuts
      → let r =
          read_json_body reader allocated
            (length body)
            (record { stream = body ++ rest; cuts = cuts }) in
        (r.1.stream ≡ rest)
        × (r.0 ≡ (
            if (length body == 0) || ltb http_max_content (length body) || not allocated
            then none
            else parse_body reader body))
  unfolding read_json_body drain_body
  read_json_body-framing allocated [] rest cuts short lively = (refl, refl)
  read_json_body-framing allocated (b ∷ bs) rest cuts short lively =
      let body = b ∷ bs in
      let n = length body in
      let c : Connection = record { stream = body ++ rest; cuts = cuts } in
      let wanted : ((n == 0) || leb (2 ^ 31) n) ≡ false = ground arith in
      elim (Bool-cases (ltb http_max_content n || not allocated)) [
        | inl refused ↦
            let told : ((n == 0) || ltb http_max_content n || not allocated) ≡ true =
              ground arith in
            rw (wanted, read_json_body)
              (rw refused
                (rw told (drain_loop-body n n body rest cuts refl (omega arith) lively, refl)))
        | inr read ↦
            let told : ((n == 0) || ltb http_max_content n || not allocated) ≡ false =
              ground arith in
            rw (wanted, read_json_body) (rw read (rw told (whole_body body rest cuts lively)))
      ]
