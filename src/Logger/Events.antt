-- ===== src/Logger/Events.antt =====
-- zlog.go and zlog_fields.go: loggers of a context, fatal events, durations and TraceFunc. An event
-- is the list of the calls of its methods.
use tel.Base.{
  ℕ, ◌/◌, suc, Bool, true, false, not, ◌&&◌, Option, none, some, is_some, List, [], ◌∷◌, ◌++◌, ◌≡◌,
  refl, if◌then◌else◌, inl, inr, Bool-cases, ltb, length,
}
use tel.Base.Int.{ℤ, pos, negsuc, ltb_ℤ, sub_ℕ}
use tel.Base.Text.{Text, trim_space}
use tel.CtxFields.{Context, fields_from_ctx, apply_fields}
use tel.LogSampler.{log_sampler_tick}
use tel.Spans.{SpanCall, end_span}
use tel.Logger.{
  Zerolog, LogState, field_trace_id, field_span_id, field_function, field_duration_ms,
  field_duration_s,
}

-- `F` is float64 and `E` is error.
pub data EventCall (F E : Type 0) : Type 0 where
  event_str : Text → Text → EventCall F E
  event_int64 : Text → ℤ → EventCall F E
  event_float64 : Text → F → EventCall F E
  event_err : E → EventCall F E
  event_msg : Text → EventCall F E

pub data Level : Type 0 where
  debug_level info_level warn_level error_level : Level

-- time.Duration's Milliseconds, which rounds to zero
abbrev pub milliseconds : ℤ → ℤ
milliseconds (pos n) = pos (n / 1_000_000)
milliseconds (negsuc n) = sub_ℕ 0 (suc n / 1_000_000)

-- What TraceFunc returns, does to its span, and logs in one line.
pub record TraceOutcome (F E : Type 0) : Type 0 where
  pub err : Option E
  pub span : List (SpanCall E)
  pub level : Level
  pub line : List (EventCall F E)

module _ {F E : Type 0} (seconds : ℤ → F) where
  -- Func
  abbrev pub func : List (EventCall F E) → Text → List (EventCall F E)
  func e name = e ++ (event_str field_function name ∷ [])

  unfoldable pub duration : List (EventCall F E) → ℤ → List (EventCall F E)
  duration e d =
      if ltb_ℤ d (pos log_sampler_tick)
      then e ++ (event_int64 field_duration_ms (milliseconds d) ∷ [])
      else e ++ (event_float64 field_duration_s (seconds d) ∷ [])

  -- TraceFunc, for what the function returned in the time `since`
  unfoldable pub trace_func : (E → Text) → Text → Option E → ℤ → TraceOutcome F E
  trace_func error_text name err since =
      let begun : Level × List (EventCall F E) = elim err [
        | none ↦ (info_level, [])
        | some x ↦ (error_level, event_err x ∷ [])
      ] in
      let (level, event) = begun in
      record {
        err = err;
        span = end_span error_text true err;
        level = level;
        line = duration (func event name) since ++ (event_msg name ∷ []);
      }

-- FatalEvent: what is sent, and the code that the exit function gets.
pub record Fatal (F E : Type 0) : Type 0 where
  pub sent : List (EventCall F E)
  pub exit_code : Option ℕ

module _ {F E : Type 0} where
  abbrev pub fatal : Fatal F E
  fatal = record { sent = []; exit_code = none }

  abbrev pub fatal_err : Fatal F E → E → Fatal F E
  fatal_err f err = record f { sent = f.sent ++ (event_err err ∷ []) }

  abbrev pub fatal_str : Fatal F E → Text → Text → Fatal F E
  fatal_str f key val = record f { sent = f.sent ++ (event_str key val ∷ []) }

  abbrev pub fatal_msg : Fatal F E → Text → Fatal F E
  fatal_msg f msg = record { sent = f.sent ++ (event_msg msg ∷ []); exit_code = some 1 }

  -- Msgf, for the text that the format and its values make
  abbrev pub fatal_msgf : Fatal F E → Text → Fatal F E
  fatal_msgf f formatted = fatal_msg f formatted

-- The exit function that the process stores, SetExitFunc, and its call after a fatal event.
module _ {R : Type 0} where
  abbrev pub set_exit_fn : (ℕ → R) → (ℕ → R) → ℕ → R
  set_exit_fn fn old = fn

  abbrev pub exit_call : {F E : Type 0} → (ℕ → R) → Fatal F E → Option R
  exit_call fn f = elim f.exit_code [ none ↦ none | some code ↦ some (fn code) ]

-- `span_of` gives the identifiers of a context's span, if it is valid; `zerolog_ctx`, over the default
-- logger of a context, and `with_context` are zerolog's.
module _ (z : Zerolog) {R : Type 0} (span_of : Context R → Option (Text × Text))
    (zerolog_ctx : z.Logger → Context R → z.Logger)
    (with_context : z.Logger → Context R → Context R) where
  abbrev pub span_logger : z.Logger → Option (Text × Text) → z.Logger
  span_logger l none = l
  span_logger l (some (trace, span)) = z.str (z.str l field_trace_id trace) field_span_id span

  unfoldable pub child_logger : LogState z → Context R → z.Logger
  child_logger st ctx =
      apply_fields z.str z.int64 z.bool (span_logger st.logger (span_of ctx)) (fields_from_ctx ctx)

  abbrev plain_ctx : Context R → Bool
  plain_ctx ctx = not (is_some (span_of ctx)) && not (ltb 0 (length (fields_from_ctx ctx)))

  -- Ctx
  unfoldable pub ctx_logger : LogState z → Context R → z.Logger
  ctx_logger st ctx =
      if plain_ctx ctx then zerolog_ctx st.default_context_logger ctx else child_logger st ctx

  unfoldable pub context_with_trace_logger : LogState z → Context R → Context R
  context_with_trace_logger st ctx =
      if plain_ctx ctx then ctx else with_context (child_logger st ctx) ctx

  -- zerolog's logger of the context that StartSpan hands on is the one that Ctx builds for the
  -- context it was given, where zerolog finds in a context the logger that it stored there.
  pub ctx_logger-context_with_trace_logger :
      (st : LogState z) (ctx : Context R)
      → ((d l : z.Logger) (c : Context R) → zerolog_ctx d (with_context l c) ≡ l)
      → zerolog_ctx st.default_context_logger (context_with_trace_logger st ctx) ≡ ctx_logger st ctx
  unfolding ctx_logger context_with_trace_logger
  ctx_logger-context_with_trace_logger st ctx stored = elim (Bool-cases (plain_ctx ctx)) [
    | inl plain ↦ simp plain refl
    | inr other ↦ simp other (stored st.default_context_logger (child_logger st ctx) ctx)
  ]

-- prettyJSONWriter's Write: what is written below, and the count with whether there was no error.
-- `indent` is json.Indent, and `write` the result of the writer below.
unfoldable pub pretty_json_write :
    (Text → Option Text) → (Text → ℕ × Bool) → Text → Text × (ℕ × Bool)
pretty_json_write indent write line = elim (indent (trim_space line)) [
  | none ↦ (line, write line)
  | some buf ↦
      let (n, ok) = write (buf ++ 10 ∷ []) in
      (buf ++ 10 ∷ [], if ok then (length line, true) else (0, false))
]
