-- ===== src/Http/Body.antt =====
-- Reading the body of a request in src/esp_wifi_config_http.c: `drain_body`, `read_json_body` and the
-- check of the nesting. The connection is what the client has sent and not yet been read, with what
-- each read of it yields.
pub mod Framing
pub mod Scan
pub mod Depth
use esp_wifi_config.Common.{
  ℕ, zero, suc, ◌+◌, ◌-◌, ◌^◌, List, [], ◌∷◌, ◌++◌, Option, none, some, Bool, true, false, ◌&&◌,
  ◌||◌, not, length, take, drop, min, ltb, leb, ◌==◌, if◌then◌else◌,
}
use esp_wifi_config.Common.Bytes.{Bytes}

-- WIFI_CFG_HTTP_MAX_CONTENT at the value that a build without Kconfig uses, and
-- WIFI_CFG_JSON_MAX_DEPTH.
abbrev pub http_max_content : ℕ
http_max_content = 2048

abbrev pub max_nesting : ℕ
max_nesting = 16

-- A read yields at most as many bytes as its entry in `cuts` says; 0, or no entry, is a timeout or
-- a client that went away.
pub record Connection : Type 0 where
  pub stream : Bytes
  pub cuts : List ℕ

-- `httpd_req_recv`
abbrev pub recv_cut : ℕ → Bytes → List ℕ → Bytes × Connection
recv_cut want stream [] = ([], record { stream = stream; cuts = [] })
recv_cut want stream (c ∷ cuts) =
    (take (min c want) stream, record { stream = drop (min c want) stream; cuts = cuts })

unfoldable pub recv : ℕ → Connection → Bytes × Connection
recv want c = recv_cut want c.stream c.cuts

-- The loop of `drain_body`, on fuel: each round that goes on has read a byte. `char sink[128]`.
unfoldable pub drain_loop : ℕ → ℕ → Connection → Connection
drain_loop zero remaining c = c
drain_loop (suc fuel) remaining c =
    let (got, c1) = recv (min remaining 128) c in
    let rest = drain_loop fuel (remaining - length got) c1 in
    if remaining == 0 then c else if length got == 0 then c1 else rest

pub drain_body : ℕ → Connection → Connection
unfolding drain_loop
drain_body n c = drain_loop n n c

-- The loop of `read_json_body`: `left` bytes are still to come. `none` is a read that failed.
unfoldable pub receive_loop : ℕ → ℕ → Bytes → Connection → Option Bytes × Connection
receive_loop zero left buf c = (some buf, c)
receive_loop (suc fuel) left buf c =
    let (got, c1) = recv left c in
    let rest = receive_loop fuel (left - length got) (buf ++ got) c1 in
    if left == 0 then (some buf, c) else if length got == 0 then (none, c1) else rest

-- Where the scan of the nesting stands: outside of strings, in one, or behind a backslash in one.
pub data Mode : Type 0 where
  outside inside escaping : Mode

abbrev pub next_mode : Mode → ℕ → Mode
next_mode outside c = if c == 34 then inside else outside
next_mode inside c = if c == 92 then escaping else if c == 34 then outside else inside
next_mode escaping c = inside

abbrev pub is_open : ℕ → Bool
is_open c = c == b'[' || c == b'{'

abbrev pub is_close : ℕ → Bool
is_close c = c == b']' || c == b'}'

-- The depth behind a byte.
abbrev pub next_depth : Mode → ℕ → ℕ → ℕ
next_depth outside c depth =
    if is_open c then depth + 1 else if is_close c then depth - 1 else depth
next_depth _ c depth = depth

unfoldable pub depth_scan : Mode → ℕ → Bytes → Bool
depth_scan mode depth [] = true
depth_scan mode depth (c ∷ cs) =
    let rest = depth_scan (next_mode mode c) (next_depth mode c depth) cs in
    if ltb max_nesting (next_depth mode c depth) then false else rest

unfoldable pub json_depth_within_limit : Bytes → Bool
unfolding depth_scan
json_depth_within_limit buf = depth_scan outside 0 buf

-- cJSON, by the calls that the handlers make: `cJSON_Parse`, and `cJSON_GetObjectItem` with the test
-- of the item's type. A number is the bit pattern of its `valueint`.
pub record JsonReader : Type 1 where
  pub Json : Type 0
  pub parse : Bytes → Option Json
  pub string_item : Json → Bytes → Option Bytes
  pub number_item : Json → Bytes → Option ℕ
  pub bool_item : Json → Bytes → Option Bool

module _ (reader : JsonReader) where
  open reader use {Json, parse}

  abbrev pub parse_body : Bytes → Option Json
  parse_body buf = if json_depth_within_limit buf then parse buf else none

  abbrev pub parse_received : Option Bytes × Connection → Option Json × Connection
  parse_received (none, c) = (none, c)
  parse_received (some buf, c) = (parse_body buf, c)

  -- The content length comes as 32 bits and is read as an `int`. `allocated` is whether there is
  -- memory for the body.
  unfoldable pub read_json_body : Bool → ℕ → Connection → Option Json × Connection
  unfolding drain_body receive_loop json_depth_within_limit
  read_json_body allocated content_len c =
      if content_len == 0 || leb (2 ^ 31) content_len
      then (none, c)
      else if ltb http_max_content content_len || not allocated
      then (none, drain_body content_len c)
      else parse_received (receive_loop content_len content_len [] c)
