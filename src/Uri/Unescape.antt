-- ===== src/Uri/Unescape.antt =====
-- What a decoded segment is, with no buffer: the reference that the decoder is compared with.
use esp_wifi_config.Common.{
  ℕ, zero, ◌↔◌, suc, ◌+◌, ◌<◌, ◌≡◌, ◌≢◌, refl, sym, ap, ◌∙◌, [], ◌∷◌, ◌++◌, some, true, false,
  length, ◌==◌, arith, Bool-cases, Option-cases, inl, inr, append_assoc, append-nil, length-append,
}
use esp_wifi_config.Common.Bytes.{Bytes}
use esp_wifi_config.Uri.{
  DecodeResult, decode_ok, uri_hexval, escape_byte, decode_from, uri_decode, finish, store,
}

-- One byte of the decoded text, as it is written in the segment: a byte that is no per cent sign
-- stands for itself, and `%XX` for the byte that the digits name, which is not zero.
pub data Unescapes : Bytes → Bytes → Type 0 where
  done : Unescapes [] []
  plain : {c : ℕ} {src out : Bytes} → c ≢ b'%' → Unescapes src out → Unescapes (c ∷ src) (c ∷ out)
  escape :
      {p h l b : ℕ} {src out : Bytes}
      → p ≡ b'%'
      → escape_byte (uri_hexval h) (uri_hexval l) ≡ some b
      → Unescapes src out
      → Unescapes (p ∷ h ∷ l ∷ src) (b ∷ out)

decode_from_plain :
    (cap c : ℕ) (out src : Bytes)
    → (c == b'%') ≡ false
    → decode_from cap out (c ∷ src) ≡ store cap out (decode_from cap (out ++ c ∷ []) src)
unfolding decode_from
decode_from_plain cap c out [] h = rw h
decode_from_plain cap c out (x ∷ []) h = rw h
decode_from_plain cap c out (x ∷ y ∷ p) h = rw h

decode_from_escape :
    (cap c h l b : ℕ) (out src : Bytes)
    → (c == b'%') ≡ true
    → escape_byte (uri_hexval h) (uri_hexval l) ≡ some b
    → decode_from cap out (c ∷ h ∷ l ∷ src) ≡ store cap out (decode_from cap (out ++ b ∷ []) src)
unfolding decode_from
decode_from_escape cap c h l b out src e d = rw e (rw (d, decode_from))

store_fits :
    (size : ℕ) (out : Bytes) (more : DecodeResult × Bytes)
    → length out + 1 < size
    → store size out more ≡ more
store_fits size out more h = ground arith

-- A text that unescapes is decoded, if the buffer has room.
decode_from-Unescapes :
    {src tail : Bytes} (size : ℕ) (out : Bytes)
    → Unescapes src tail
    → length (out ++ tail) < size
    → decode_from size out src ≡ finish (out ++ tail)
decode_from-Unescapes size out done room = rw append-nil (unfold decode_from in refl)
decode_from-Unescapes size out (plain {c} {src} {out = tail} h u) room =
    decode_from_plain size c out src (ground arith)
    ∙ store_fits size out _ (omega (arith, length-append out (c ∷ tail)))
    ∙ decode_from-Unescapes size (out ++ c ∷ []) u (rw (append_assoc out (c ∷ []) tail) room)
    ∙ ap finish (append_assoc out (c ∷ []) tail)
decode_from-Unescapes size out (escape {p} {h} {l} {b} {src} {out = tail} e d u) room =
    decode_from_escape size p h l b out src (ground arith) d
    ∙ store_fits size out _ (omega (arith, length-append out (b ∷ tail)))
    ∙ decode_from-Unescapes size (out ++ b ∷ []) u (rw (append_assoc out (b ∷ []) tail) room)
    ∙ ap finish (append_assoc out (b ∷ []) tail)

-- What a loop that ended well has done: it wrote `res` behind what it began with.
record Decodes (size : ℕ) (out src res : Bytes) : Type 0 where
  tail : Bytes
  unescapes : Unescapes src tail
  written : res ≡ out ++ tail
  fits : length res < size
  some_byte : res ≢ []

store-eq-ok :
    (size : ℕ) (out res : Bytes) (more : DecodeResult × Bytes)
    → store size out more ≡ (decode_ok, res)
    → (more ≡ (decode_ok, res)) × (length out + 1 < size)
store-eq-ok size out res more e = ground arith

-- One byte `b` stored, and the rest decoded.
Decodes-store :
    (size b : ℕ) (out res src src' : Bytes)
    → ((tail : Bytes) → Unescapes src' tail → Unescapes src (b ∷ tail))
    → Decodes size (out ++ b ∷ []) src' res
    → Decodes size out src res
Decodes-store size b out res src src' wrap d = record {
  tail = b ∷ d.tail;
  unescapes = wrap d.tail d.unescapes;
  written = d.written ∙ append_assoc out (b ∷ []) d.tail;
  fits = d.fits;
  some_byte = d.some_byte;
}

finish-Decodes :
    (size : ℕ) (out res : Bytes)
    → length out < size
    → finish out ≡ (decode_ok, res)
    → Decodes size out [] res
finish-Decodes size [] res room e = cc
finish-Decodes size (c ∷ out) res room e =
    let same : c ∷ out ≡ res = cc in
    record {
      tail = [];
      unescapes = done;
      written = sym same ∙ ap (◌∷◌ c) (sym (append-nil out));
      fits = omega (arith, ap (λ (t : Bytes). length t) same);
      some_byte = λ none_left. cc;
    }

plain-Decodes :
    (size c : ℕ) (out res src : Bytes)
    → (c == b'%') ≡ false
    → Decodes size (out ++ c ∷ []) src res
    → Decodes size out (c ∷ src) res
plain-Decodes size c out res src h =
    Decodes-store size c out res (c ∷ src) src (λ tail u. plain (ground arith) u)

decode_from-ok :
    (size : ℕ) (out src res : Bytes)
    → length out < size
    → decode_from size out src ≡ (decode_ok, res)
    → Decodes size out src res
unfolding decode_from
decode_from-ok size out [] res room e = finish-Decodes size out res room e
decode_from-ok size out (c ∷ []) res room e = elim (Bool-cases (c == b'%')) [
  | inl mark ↦ absurd (ground arith)
  | inr other ↦
      let (more, fits) = store-eq-ok size out res _ (rw other at e) in
      plain-Decodes size c out res [] other
        (finish-Decodes size (out ++ c ∷ []) res (omega (arith, length-append out (c ∷ []))) more)
]
decode_from-ok size out (c ∷ h ∷ []) res room e = elim (Bool-cases (c == b'%')) [
  | inl mark ↦ absurd (ground arith)
  | inr other ↦
      let (more, fits) = store-eq-ok size out res _ (rw other at e) in
      plain-Decodes size c out res (h ∷ []) other (
        decode_from-ok size (out ++ c ∷ []) (h ∷ []) res (omega (arith, length-append out (c ∷ [])))
          more)
]
decode_from-ok size out (c ∷ h ∷ l ∷ p) res room e = elim (Bool-cases (c == b'%')) [
  | inr other ↦
      let (more, fits) = store-eq-ok size out res _ (rw other at e) in
      plain-Decodes size c out res (h ∷ l ∷ p) other (
        decode_from-ok size (out ++ c ∷ []) (h ∷ l ∷ p) res
          (omega (arith, length-append out (c ∷ []))) more)
  | inl mark ↦ elim (Option-cases (escape_byte (uri_hexval h) (uri_hexval l))) [
    | inl bad ↦ absurd (ground arith)
    | inr (b, good) ↦
        let (more, fits) =
          store-eq-ok size out res _ (sym (decode_from_escape size c h l b out p mark good) ∙ e) in
        Decodes-store size b out res (c ∷ h ∷ l ∷ p) p (λ tail u. escape (ground arith) good u)
          (decode_from-ok size (out ++ b ∷ []) p res (omega (arith, length-append out (b ∷ [])))
            more)
  ]
]

finish_some : (out : Bytes) → out ≢ [] → finish out ≡ (decode_ok, out)
finish_some [] h = absurd (h refl)
finish_some (c ∷ out) h = refl

uri_decode_some_room :
    (src : Bytes) (size : ℕ) → 0 < size → uri_decode src size ≡ decode_from size [] src
unfolding uri_decode
uri_decode_some_room src size h =
    let some_room : (size == 0) ≡ false = ground arith in rw (some_room, uri_decode)

uri_decode_no_room : (src out : Bytes) → uri_decode src 0 ≢ (decode_ok, out)
unfolding uri_decode
uri_decode_no_room src out e = cc

uri_decode-ok :
    (src out : Bytes) (size : ℕ)
    → uri_decode src size ≡ (decode_ok, out)
    → Unescapes src out × (out ≢ []) × (length out < size)
uri_decode-ok src out zero e = absurd (uri_decode_no_room src out e)
uri_decode-ok src out (suc size) e =
    let d =
      decode_from-ok (suc size) [] src out (omega arith)
        (sym (uri_decode_some_room src (suc size) (omega arith)) ∙ e) in
    (rw d.written d.unescapes, d.some_byte, d.fits)

-- The decoder succeeds exactly on the segments that unescape to a non-empty text which, with its
-- terminator, fits the buffer, and then it writes that text: nothing is cut short.
pub uri_decode_iff :
    (src out : Bytes) (size : ℕ)
    → (uri_decode src size ≡ (decode_ok, out))
      ↔ (Unescapes src out × (out ≢ []) × (length out < size))
uri_decode_iff src out size = (
  uri_decode-ok src out size,
  λ (u, some_byte, room).
      uri_decode_some_room src size (omega arith)
      ∙ decode_from-Unescapes size [] u room
      ∙ finish_some out some_byte,
)
