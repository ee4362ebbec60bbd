-- ===== src/Telemetry/Traced.antt =====
-- trace.go: Tracer and StartSpan, and the logger of the context that StartSpan hands on. The SDK's
-- Start of a tracer is a parameter, and so is what zerolog keeps in a context.
use tel.Base.{Option, none, is_some, not, ◌&&◌, ◌≡◌, refl, inl, inr, Bool-cases, ltb, length}
use tel.Base.Text.{Text}
use tel.Otel.{Otel}
use tel.Instruments.Registry.{Meter}
use tel.CtxFields.{Context, fields_from_ctx}
use tel.Logger.{Zerolog, LogState}
use tel.Logger.Events.{child_logger, ctx_logger, context_with_trace_logger}
use tel.Config.{Config}
use tel.Telemetry.{Provider, Telemetry, new_with_providers}

module _ (o : Otel) (m : Meter) (meter_of : Provider → Text → m.State) where
  -- NewWithTracerProvider
  abbrev pub new_with_tracer_provider : Config → Option Provider → Telemetry o m
  new_with_tracer_provider cfg provider = new_with_providers o m meter_of cfg none provider

  -- Tracer, of a runtime whose trace provider is not nil
  unfoldable pub tracer : Telemetry o m → Text → Provider × Text
  tracer t name = (t.trace_provider, name)

  module _ (z : Zerolog) {R : Type 0} (span_of : Context R → Option (Text × Text))
      (zerolog_ctx : z.Logger → Context R → z.Logger)
      (with_context : z.Logger → Context R → Context R)
      (tracer_start : Provider × Text → Context R → Text → Context R) where
    -- StartSpan, of a runtime whose tracer is not nil: the context that it returns
    unfoldable pub start_span : Telemetry o m → LogState z → Context R → Text → Context R
    start_span t st ctx span_name =
        context_with_trace_logger z span_of zerolog_ctx with_context st
          (tracer_start t.tracer ctx span_name)

    -- zerolog's own Ctx and tel's Ctx give the same logger for a context of StartSpan, where zerolog
    -- finds in a context the logger that it stored there, and storing it changes neither the span
    -- nor the fields.
    pub start_span-ctx_logger :
        (t : Telemetry o m) (st : LogState z) (ctx : Context R) (span_name : Text)
        → ((d l : z.Logger) (c : Context R) → zerolog_ctx d (with_context l c) ≡ l)
        → ((l : z.Logger) (c : Context R) → span_of (with_context l c) ≡ span_of c)
        → ((l : z.Logger) (c : Context R) → (with_context l c).fields ≡ c.fields)
        → let ctx' = start_span t st ctx span_name in
          zerolog_ctx st.default_context_logger ctx'
          ≡ ctx_logger z span_of zerolog_ctx with_context st ctx'
    unfolding start_span ctx_logger context_with_trace_logger child_logger fields_from_ctx
    start_span-ctx_logger t st ctx span_name stored same_span same_fields =
        let c = tracer_start t.tracer ctx span_name in
        let l = child_logger z span_of zerolog_ctx with_context st c in
        let plain = not (is_some (span_of c)) && not (ltb 0 (length (fields_from_ctx c))) in
        elim (Bool-cases plain) [
          | inl on ↦ simp on refl
          | inr off ↦
              simp (off, same_span l c, same_fields l c) (stored st.default_context_logger l c)
        ]
