-- ===== src/Json.antt =====
-- src/esp_wifi_config_json.c and .h: the streaming JSON writer.
pub mod Raw
pub mod Text
pub mod Step
pub mod Number
pub mod Document
pub mod Emit
pub mod Finish
use esp_wifi_config.Common.{
  ℕ, zero, suc, ◌+◌, ◌-◌, ◌*◌, ◌/◌, ◌%◌, ◌^◌, List, [], ◌∷◌, ◌++◌, Option, none, some, Bool, true,
  false, ◌&&◌, not, length, take, drop, get_elem?, ltb, leb, ◌==◌, if◌then◌else◌,
}
use esp_wifi_config.Common.Bytes.{Bytes, codes}

-- The codes that the writer makes, and any that a sink returns.
pub data WriteErr : Type 0 where
  write_ok write_no_mem write_invalid_state write_invalid_arg : WriteErr
  sink_failed : ℕ → WriteErr

-- WCFG_JSON_MAX_DEPTH
abbrev pub json_max_depth : ℕ
json_max_depth = 8

-- A sink takes a run of bytes and changes its context; it is the caller's code.
abbrev pub Sink : Type 0 → Type 0
Sink Ctx = Ctx → Bytes → WriteErr × Ctx

-- `wcfg_json_w`: `buf` holds the first `len` bytes of the buffer. The sink is `none` in buffer mode.
pub record Writer (Ctx : Type 0) : Type 0 where
  pub ctx : Ctx
  pub buf : Bytes
  pub cap : ℕ
  pub need_comma : Bool
  pub depth : ℕ
  pub err : WriteErr

abbrev pub is_ok : WriteErr → Bool
is_ok write_ok = true
is_ok _ = false

module _ {Ctx : Type 0} where
  -- What becomes of a full buffer: an error in buffer mode, and a call of the sink with one.
  flush_full : Option (Sink Ctx) → Writer Ctx → Writer Ctx
  flush_full none w = record w { err = write_no_mem }
  flush_full (some f) w =
      let (e, c) = f w.ctx w.buf in
      if is_ok e then record w { ctx = c; buf = [] } else record w { ctx = c; err = e }

  -- Room is made if there is none, and as much is copied as fits.
  copy_some : Bytes → Writer Ctx → Writer Ctx
  copy_some s w = record w { buf = w.buf ++ take (w.cap - length w.buf) s }

module _ {Ctx : Type 0} (sink : Option (Sink Ctx)) where
  -- The loop of `w_raw`, on fuel: a round with no error left writes at least one byte.
  w_raw_loop : ℕ → Bytes → Writer Ctx → Writer Ctx
  w_raw_loop zero s w = w
  w_raw_loop (suc fuel) [] w = w
  w_raw_loop (suc fuel) (b ∷ s) w =
      let w1 = if w.cap - length w.buf == 0 then flush_full sink w else w in
      let rest = w_raw_loop fuel (drop (w1.cap - length w1.buf) (b ∷ s)) (copy_some (b ∷ s) w1) in
      if is_ok w1.err then rest else w1

  pub w_raw : Bytes → Writer Ctx → Writer Ctx
  unfolding w_raw_loop flush_full copy_some
  w_raw s w = if is_ok w.err then w_raw_loop (length s) s w else w

-- The escapes of a byte: seven of two characters, `\u00xx` for the other control characters.
abbrev hex_digits : Bytes
hex_digits = codes "0123456789abcdef"

abbrev pub hex_digit : ℕ → ℕ
hex_digit d = elim (get_elem? hex_digits d) [ some c ↦ c | none ↦ 0 ]

unfoldable pub escape_of : ℕ → Option Bytes
escape_of c =
    if c == 92
    then some (92 ∷ 92 ∷ [])
    else if c == 34
    then some (92 ∷ 34 ∷ [])
    else if c == 8
    then some (92 ∷ b'b' ∷ [])
    else if c == 12
    then some (92 ∷ b'f' ∷ [])
    else if c == 10
    then some (92 ∷ b'n' ∷ [])
    else if c == 13
    then some (92 ∷ b'r' ∷ [])
    else if c == 9
    then some (92 ∷ b't' ∷ [])
    else if ltb c 0x20
    then some (92 ∷ b'u' ∷ b'0' ∷ b'0' ∷ hex_digit (c / 16 % 16) ∷ hex_digit (c % 16) ∷ [])
    else none

-- `digits[n++] = '0' + u % 10` until `u` is 0; the last digit pushed comes first. The fuel is the
-- room left in `digits[20]`, and `none` a write behind its end.
pub push_digits : ℕ → ℕ → Bytes → Option Bytes
push_digits zero u digits = none
push_digits (suc room) u digits =
    let more = push_digits room (u / 10) ((b'0' + u % 10) ∷ digits) in
    if u / 10 == 0 then some ((b'0' + u % 10) ∷ digits) else more

-- An `int64_t` is its bit pattern, below 2 ^ 64.
abbrev pub is_negative : ℕ → Bool
is_negative val = leb (2 ^ 63) val

-- `neg ? ~(uint64_t)val + 1u : (uint64_t)val`
abbrev pub magnitude : ℕ → ℕ
magnitude val = if is_negative val then (2 ^ 64 - 1 - val + 1) % 2 ^ 64 else val

abbrev pub sign : ℕ → Bytes
sign val = if is_negative val then b'-' ∷ [] else []

module _ {Ctx : Type 0} where
  -- What `wcfg_json_finish` does with the buffer when nothing went wrong; in buffer mode the terminator needs a free byte.
  pub finish_flush : Option (Sink Ctx) → Writer Ctx → Writer Ctx
  finish_flush none w = if ltb (length w.buf) w.cap then w else record w { err = write_no_mem }
  finish_flush (some f) w =
      let (e, c) = f w.ctx w.buf in
      if length w.buf == 0 then w else record w { ctx = c; buf = []; err = e }

module _ {Ctx : Type 0} (sink : Option (Sink Ctx)) where
  -- The run of ordinary characters since the last escape is written before the next one.
  pub w_run : Bytes → Writer Ctx → Writer Ctx
  w_run [] w = w
  w_run (c ∷ run) w = w_raw sink (c ∷ run) w

  pub w_escaped_loop : Bytes → Bytes → Writer Ctx → Writer Ctx
  w_escaped_loop run [] w = w_run run w
  w_escaped_loop run (c ∷ p) w = elim (escape_of c) [
    | some esc ↦ w_escaped_loop [] p (w_raw sink esc (w_run run w))
    | none ↦ w_escaped_loop (run ++ c ∷ []) p w
  ]

  -- A null string is the empty one.
  pub w_escaped : Option Bytes → Writer Ctx → Writer Ctx
  unfolding w_escaped_loop w_run
  w_escaped none w = w_escaped_loop [] [] w
  w_escaped (some s) w = w_escaped_loop [] s w

  pub w_int : ℕ → Writer Ctx → Writer Ctx
  unfolding push_digits
  w_int val w = elim (push_digits 20 (magnitude val) []) [
    | some digits ↦ w_raw sink (sign val ++ digits) w
    | none ↦ w
  ]

  pub w_key : Option Bytes → Writer Ctx → Writer Ctx
  w_key none w = w
  w_key (some key) w = w_raw sink (34 ∷ b':' ∷ []) (w_escaped (some key) (w_raw sink (34 ∷ []) w))

  pub w_pre : Option Bytes → Writer Ctx → Writer Ctx
  unfolding w_key
  w_pre key w = record (w_key key (if w.need_comma then w_raw sink (b',' ∷ []) w else w)) {
    need_comma = true;
  }

  abbrev pub unbalanced : Writer Ctx → Writer Ctx
  unbalanced w = if is_ok w.err then record w { err = write_invalid_state } else w

  abbrev pub enter : Writer Ctx → Writer Ctx
  enter w = record w { depth = w.depth + 1; need_comma = false }

  abbrev pub leave : Writer Ctx → Writer Ctx
  leave w = record w { depth = w.depth - 1; need_comma = true }

  pub w_open : Option Bytes → ℕ → Writer Ctx → Writer Ctx
  unfolding w_pre
  w_open key brace w =
      if leb json_max_depth w.depth
      then unbalanced w
      else enter (w_raw sink (brace ∷ []) (w_pre key w))

  pub w_close : ℕ → Writer Ctx → Writer Ctx
  w_close brace w = if w.depth == 0 then unbalanced w else leave (w_raw sink (brace ∷ []) w)

  unfoldable pub json_obj_open : Option Bytes → Writer Ctx → Writer Ctx
  unfolding w_open
  json_obj_open key = w_open key b'{'

  unfoldable pub json_obj_close : Writer Ctx → Writer Ctx
  unfolding w_close
  json_obj_close = w_close b'}'

  unfoldable pub json_arr_open : Option Bytes → Writer Ctx → Writer Ctx
  unfolding w_open
  json_arr_open key = w_open key b'['

  unfoldable pub json_arr_close : Writer Ctx → Writer Ctx
  unfolding w_close
  json_arr_close = w_close b']'

  unfoldable pub json_str : Option Bytes → Option Bytes → Writer Ctx → Writer Ctx
  unfolding w_pre w_escaped w_raw
  json_str key val w = w_raw sink (34 ∷ []) (w_escaped val (w_raw sink (34 ∷ []) (w_pre key w)))

  unfoldable pub json_int : Option Bytes → ℕ → Writer Ctx → Writer Ctx
  unfolding w_pre w_int
  json_int key val w = w_int val (w_pre key w)

  unfoldable pub json_bool : Option Bytes → Bool → Writer Ctx → Writer Ctx
  unfolding w_pre w_raw
  json_bool key val w = w_raw sink (if val then codes "true" else codes "false") (w_pre key w)

  unfoldable pub json_finish : Writer Ctx → Writer Ctx
  unfolding finish_flush
  json_finish w =
      let w1 = if not (w.depth == 0) then unbalanced w else w in
      if is_ok w1.err then finish_flush sink w1 else w1

-- `buf` is false for a null buffer.
unfoldable pub json_init : {Ctx : Type 0} → Bool → ℕ → Ctx → Writer Ctx
json_init buf cap ctx = record {
  ctx = ctx;
  buf = [];
  cap = cap;
  need_comma = false;
  depth = 0;
  err = if buf && not (cap == 0) then write_ok else write_invalid_arg;
}
