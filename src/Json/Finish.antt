-- ===== src/Json/Finish.antt =====
-- A document from `wcfg_json_init` to `wcfg_json_finish`, streamed and in a buffer.
use esp_wifi_config.Common.{
  ℕ, ◌<◌, ◌≡◌, refl, sym, ap, ◌∙◌, [], ◌∷◌, ◌++◌, Option, none, some, true, false, arith,
  append-nil, length, ◌==◌, inl, inr, Bool-cases, ==_iff, lt→ltb,
}
use esp_wifi_config.Common.Bytes.{Bytes}
use esp_wifi_config.Json.{
  Writer, Sink, write_ok, json_max_depth, finish_flush, json_finish, json_init,
}
use esp_wifi_config.Json.Raw.{if-is_ok, Accepts, Live, out}
use esp_wifi_config.Json.Document.{Value, print, Writable, emit}
use esp_wifi_config.Json.Emit.{emit-Step}

length-zero : (s : Bytes) → length s ≡ 0 → s ≡ []
length-zero [] e = refl
length-zero (b ∷ s) e = absurd (omega arith)

module _ {Ctx : Type 0} where
  finish_flush-streamed :
      (f : Sink Ctx) (log : Ctx → Bytes) (accepts : Accepts (some f) log) (w : Writer Ctx)
      → w.err ≡ write_ok
      → ((finish_flush (some f) w).err ≡ write_ok) × (log (finish_flush (some f) w).ctx ≡ out log w)
  unfolding finish_flush
  finish_flush-streamed f log accepts w fine = elim (Bool-cases (length w.buf == 0)) [
    | inl nothing ↦ rw nothing (
      fine,
      sym (
          ap (λ (u : Bytes). log w.ctx ++ u) (length-zero w.buf ((==_iff _ _).0 nothing))
          ∙ append-nil (log w.ctx)),
    )
    | inr something ↦ rw something (accepts w.ctx w.buf)
  ]

  json_finish-balanced :
      (sink : Option (Sink Ctx)) (w : Writer Ctx)
      → w.depth ≡ 0
      → w.err ≡ write_ok
      → json_finish sink w ≡ finish_flush sink w
  unfolding json_finish
  json_finish-balanced sink w level fine = simp (level, json_finish) (if-is_ok fine _ _)

  json_init-Live : (cap : ℕ) (ctx : Ctx) → 0 < cap → Live (json_init true cap ctx)
  unfolding json_init
  json_init-Live cap ctx h = record { fine = ground arith; within = omega arith; some_cap = h }

  -- Streamed through a sink that takes what it is given, a value that nests at most eight deep is
  -- written completely and without error, whatever the size of the scratch buffer: the sink gets
  -- exactly the value's JSON text.
  pub emit_streamed :
      (f : Sink Ctx) (log : Ctx → Bytes) (accepts : Accepts (some f) log) (v : Value) (cap : ℕ)
      (ctx : Ctx)
      → 0 < cap
      → Writable json_max_depth v
      → let w = json_finish (some f) (emit (some f) none v (json_init true cap ctx)) in
        (w.err ≡ write_ok) × (log w.ctx ≡ log ctx ++ print v)
  unfolding json_init
  emit_streamed f log accepts v cap ctx some_cap ok =
      let w0 = json_init true cap ctx in
      let (moved, room) =
        emit-Step log (some f) accepts none v false 0 json_max_depth (omega arith) ok w0 0
          (json_init-Live cap ctx some_cap) refl refl tt in
      let w1 = emit (some f) none v w0 in
      let (fine, all) = finish_flush-streamed f log accepts w1 moved.live.fine in
      rw (json_finish-balanced (some f) w1 moved.now_depth moved.live.fine)
        (fine, all ∙ moved.appended ∙ ap (λ (u : Bytes). u ++ print v) (append-nil (log ctx)))

  -- Without a sink, a value whose JSON text is shorter than the buffer is written completely and
  -- without error: the buffer holds exactly the text, with room for the terminator.
  pub emit_buffered :
      (v : Value) (cap : ℕ) (ctx : Ctx)
      → Writable json_max_depth v
      → length (print v) < cap
      → let w = json_finish none (emit none none v (json_init true cap ctx)) in
        (w.err ≡ write_ok) × (w.buf ≡ print v)
  unfolding json_init finish_flush
  emit_buffered v cap ctx ok fits =
      let log : Ctx → Bytes = λ c. [] in
      let w0 = json_init true cap ctx in
      let (moved, room) =
        emit-Step log none tt none v false 0 json_max_depth (omega arith) ok w0 0
          (json_init-Live cap ctx (omega arith)) refl refl (omega arith) in
      let w1 = emit none none v w0 in
      rw (json_finish-balanced none w1 moved.now_depth moved.live.fine, finish_flush)
        (rw
          (lt→ltb (length w1.buf) w1.cap (omega (arith, moved.same_cap, ap length moved.appended)))
          (moved.live.fine, moved.appended))
