-- ===== src/Http/Handlers/Sends.antt =====
-- A request whose body arrives: what the handlers are given of it.
use esp_wifi_config.Common.{
  ◌≡◌, ◌≤◌, ◌<◌, ap, ◌∙◌, ◌++◌, Option, some, true, false, ◌||◌, length, arith, ltb, ◌==◌,
}
use esp_wifi_config.Common.Bytes.{Bytes}
use esp_wifi_config.Http.Body.{http_max_content, parse_body}
use esp_wifi_config.Http.Body.Framing.{IsLively, read_json_body-framing}
use esp_wifi_config.Http.Request.{Request}
use esp_wifi_config.Http.Handlers.{Surroundings, body_of}

module _ (around : Surroundings) where
  open around use {reader}
  open reader use {Json}

  -- The client sends `body`, which is short enough and holds the document, in pieces that keep
  -- coming, and then `rest`.
  pub record Sends (req : Request) (body rest : Bytes) (json : Json) : Type 0 where
    pub counted : req.content_len ≡ length body
    pub stream : req.connection.stream ≡ body ++ rest
    pub lively : IsLively (length body) req.connection.cuts
    pub memory : req.allocated ≡ true
    pub some_byte : 0 < length body
    pub short : length body ≤ http_max_content
    pub parsed : parse_body reader body ≡ some json

  module _ {req : Request} {body rest : Bytes} {json : Json} (s : Sends req body rest json) where
    pub sent_body : ((body_of around req).1.stream ≡ rest) × ((body_of around req).0 ≡ some json)
    sent_body =
        let connected : req.connection
            ≡ record { stream = body ++ rest; cuts = req.connection.cuts } =
          λ i. record { stream = s.stream i; cuts = req.connection.cuts } in
        let framed =
          read_json_body-framing reader true body rest req.connection.cuts (ground (arith, s.short))
            s.lively in
        let wanted : ((length body == 0) || ltb http_max_content (length body) || false) ≡ false =
          ground (arith, s.short, s.some_byte) in
        rw (s.memory, s.counted, connected) (framed.0, framed.1 ∙ rw wanted s.parsed)

    -- The body as the handlers split on it.
    pub body_of-sent : body_of around req ≡ (some json, (body_of around req).1)
    body_of-sent = ap (λ (x : Option Json). (x, (body_of around req).1)) (sent_body.1)
