-- ===== src/Fasthttp/Handled.antt =====
-- What one request makes of spans and log lines, whether its handler returns or panics.
use tel.Base.{
  ℕ, ◌+◌, ◌<◌, ◌≡◌, refl, Bool, true, false, ◌||◌, ◌&&◌, ◌⊎◌, inl, inr, List, [], ◌∷◌, ◌++◌,
  if◌then◌else◌, leb, length, arith, Bool-cases, ◌==◌,
}
use tel.Base.Int.{ℤ}
use tel.Base.Text.{Text}
use tel.Spans.{end_span_call, record_error, set_status_error, end_span}
use tel.Fasthttp.{
  RequestCtx, ServerError, Call, span_started, span_called, line_logged, panic_logged, Exit,
  returned, panicked, Handler, ServerConfig, default_server_config, apply_options, is_skipped,
  set_context, completed, after_next, server, recovered, after_panic, recover, method_string,
}

module _ {F : Type 0} where
  -- 1 for a call that starts a span
  abbrev pub starts : Call F → ℕ
  starts (span_started name method) = 1
  starts (span_called c) = 0
  starts (line_logged level line) = 0
  starts (panic_logged method path) = 0

  -- 1 for a call that ends one
  abbrev pub ends : Call F → ℕ
  ends (span_started name method) = 0
  ends (span_called (record_error e)) = 0
  ends (span_called (set_status_error text)) = 0
  ends (span_called end_span_call) = 1
  ends (line_logged level line) = 0
  ends (panic_logged method path) = 0

  -- 1 for a request's log line
  abbrev pub logs : Call F → ℕ
  logs (span_started name method) = 0
  logs (span_called c) = 0
  logs (line_logged level line) = 1
  logs (panic_logged method path) = 0

  unfoldable pub count : (Call F → ℕ) → List (Call F) → ℕ
  count f [] = 0
  count f (c ∷ cs) = f c + count f cs

  count-append :
      (f : Call F → ℕ) (xs ys : List (Call F)) → count f (xs ++ ys) ≡ count f xs + count f ys
  unfolding count
  count-append f [] ys = omega arith
  count-append f (x ∷ xs) ys = omega (arith, count-append f xs ys)

recovered_answers :
    {C : Type 0} (ctx : RequestCtx C)
    → ((recovered ctx).status ≡ 500) × (0 < length (recovered ctx).body)
recovered_answers ctx = elim (Bool-cases (length ctx.body == 0)) [
  | inl empty ↦ (simp empty refl, simp empty (omega arith))
  | inr full ↦ (simp full refl, simp full (ground arith))
]

module _ {C F : Type 0} where
  abbrev pub calls_of : Exit C F → List (Call F)
  calls_of (returned ctx calls) = calls
  calls_of (panicked ctx calls) = calls

  abbrev pub ctx_of : Exit C F → RequestCtx C
  ctx_of (returned ctx calls) = ctx
  ctx_of (panicked ctx calls) = ctx

  abbrev pub is_returned : Exit C F → Bool
  is_returned (returned ctx calls) = true
  is_returned (panicked ctx calls) = false

  after_panic-cases :
      (x : Exit C F)
      → let y = after_panic x in
        (is_returned y ≡ true)
        × ((y ≡ x)
            ⊎ ((is_returned x ≡ false)
                × ((ctx_of y).status ≡ 500)
                × (0 < length (ctx_of y).body)
                × (calls_of y
                    ≡ calls_of x ++ (panic_logged (ctx_of x).method (ctx_of x).path ∷ []))))
  after_panic-cases (returned ctx calls) = (refl, inl refl)
  after_panic-cases (panicked ctx calls) =
      let (status, body) = recovered_answers ctx in (refl, inr (refl, status, body, refl))

module _ {C F : Type 0} (extract : (Text → Text) → C) (start_span : C → Text → C) (seconds : ℤ → F)
    (error_text : ServerError → Text) where
  completed-count :
      (cfg : ServerConfig C) (path : Text) (since : ℤ) (ctx : RequestCtx C)
      → let calls = completed extract start_span seconds error_text cfg path since ctx in
        (count starts calls ≡ 0)
        × (count ends calls ≡ 1)
        × (count logs calls ≡ (if cfg.log_success || leb 500 ctx.status then 1 else 0))
  unfolding completed end_span count
  completed-count cfg path since ctx = ground arith

  module _ (next : Handler C F) (opts : List (ServerConfig C → ServerConfig C)) (since : ℤ)
      (ctx : RequestCtx C) where
    abbrev config_of : ServerConfig C
    config_of = apply_options opts default_server_config

    -- the handler's run under Server
    abbrev pub inner_exit : Exit C F
    inner_exit = next (set_context ctx (start_span (extract ctx.header) (config_of.span_name ctx)))

    after_next-count :
        (x : Exit C F) (name method : Text)
        → let y =
            after_next extract start_span seconds error_text config_of ctx.path since
              (span_started name method ∷ [])
              x in
          (count starts (calls_of y) ≡ count starts (calls_of x) + 1)
          × (count ends (calls_of y) ≡ count ends (calls_of x) + (if is_returned x then 1 else 0))
          × (count logs (calls_of y)
              ≡ count logs (calls_of x)
                + (if is_returned x && (config_of.log_success || leb 500 (ctx_of x).status)
                    then 1
                    else 0))
    unfolding count
    after_next-count (panicked ctx' calls) name method = ground arith
    after_next-count (returned ctx' calls) name method =
        let tail = completed extract start_span seconds error_text config_of ctx.path since ctx' in
        let (s, e, l) = completed-count config_of ctx.path since ctx' in
        (
          omega (arith, s, count-append starts calls tail),
          omega (arith, e, count-append ends calls tail),
          omega (arith, l, count-append logs calls tail),
        )

    -- A request that is not skipped starts one span beyond those of its handler. If the handler
    -- returns, that span is ended, and one line is logged when the status is 500 or more or
    -- successes are logged too; if it panics, the span is never ended and no line is logged.
    pub server-count :
        is_skipped config_of.skip ctx.path ≡ false
        → let x = inner_exit in
          let y = server extract start_span seconds error_text next opts since ctx in
          (count starts (calls_of y) ≡ count starts (calls_of x) + 1)
          × (count ends (calls_of y) ≡ count ends (calls_of x) + (if is_returned x then 1 else 0))
          × (count logs (calls_of y)
              ≡ count logs (calls_of x)
                + (if is_returned x && (config_of.log_success || leb 500 (ctx_of x).status)
                    then 1
                    else 0))
    unfolding server
    server-count kept =
        simp kept (after_next-count inner_exit (config_of.span_name ctx) (method_string ctx.method))

  -- Recover around Server always returns. Either the handler returned, and the request is answered
  -- as Server left it, or it panicked, and the answer has status 500 and a body, and the calls made
  -- so far are followed by one line about the panic.
  pub recover-server :
      (next : Handler C F) (opts : List (ServerConfig C → ServerConfig C)) (since : ℤ)
      (ctx : RequestCtx C)
      → let x = server extract start_span seconds error_text next opts since ctx in
        let y = recover (server extract start_span seconds error_text next opts since) ctx in
        (is_returned y ≡ true)
        × ((y ≡ x)
            ⊎ ((is_returned x ≡ false)
                × ((ctx_of y).status ≡ 500)
                × (0 < length (ctx_of y).body)
                × (calls_of y
                    ≡ calls_of x ++ (panic_logged (ctx_of x).method (ctx_of x).path ∷ []))))
  unfolding recover
  recover-server next opts since ctx =
      after_panic-cases (server extract start_span seconds error_text next opts since ctx)
