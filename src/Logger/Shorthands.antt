-- ===== src/Logger/Shorthands.antt =====
-- zlog.go: the state that the package begins with, and the functions that open an event.
use tel.Base.{ℕ, false, Option, none, List, [], ◌∷◌, ◌≡◌, refl, ◌∙◌, ap}
use tel.Base.Int.{ℤ}
use tel.Base.Text.{Text}
use tel.Config.{Config}
use tel.Environment.{Environ, Outside}
use tel.CtxFields.{Context, fields_from_ctx}
use tel.Logger.{
  Zerolog, LogState, LoggerOptions, stdout, set_logger, init_logger, apply_logger_from_config,
}
use tel.Logger.Events.{Level, debug_level, info_level, warn_level, error_level, ctx_logger}

-- An event that a logger opened at a level.
pub record Opened (z : Zerolog) : Type 0 where
  pub logger : z.Logger
  pub level : Level

-- The colours that applyConsoleLevelColors sets, for the levels of an event.
abbrev pub level_color : Level → ℕ
level_color debug_level = 34
level_color info_level = 32
level_color warn_level = 33
level_color error_level = 31

module _ (z : Zerolog) where
  -- init, where zerolog's global level is as it was
  unfoldable pub initial_state : ℤ → LogState z
  initial_state global_level =
      let default_logger = z.new_logger stdout in
      record {
        global_level = global_level;
        logger = default_logger;
        default_context_logger = default_logger;
        level_colors = false;
      }

  -- Logger and getLogger
  abbrev pub get_logger : LogState z → z.Logger
  get_logger st = st.logger

  -- Debug, Info, Warn and Error
  abbrev pub open_event : Level → LogState z → Opened z
  open_event level st = record { logger = get_logger st; level = level }

  module _ {R : Type 0} (span_of : Context R → Option (Text × Text))
      (zerolog_ctx : z.Logger → Context R → z.Logger) where
    -- DebugCtx, InfoCtx, WarnCtx and ErrorCtx
    abbrev pub open_event_ctx : Level → LogState z → Context R → Opened z
    open_event_ctx level st ctx = record {
      logger = ctx_logger z span_of zerolog_ctx (λ l c. c) st ctx;
      level = level;
    }

  module _ (out : Outside) (e : Environ) where
    -- The calls that set the process's logger.
    pub data LoggerCall : Type 0 where
      inits : LoggerOptions → LoggerCall
      sets : z.Logger → LoggerCall
      configures : Config → LoggerCall

    abbrev pub logger_call : LoggerCall → LogState z → LogState z
    logger_call (inits opts) st = init_logger z opts st
    logger_call (sets l) st = set_logger z l st
    logger_call (configures cfg) st = apply_logger_from_config z out e cfg st

    unfoldable pub logger_calls : List LoggerCall → LogState z → LogState z
    logger_calls [] st = st
    logger_calls (c ∷ cs) st = logger_calls cs (logger_call c st)

    logger_call-same :
        (c : LoggerCall) (st : LogState z)
        → (logger_call c st).default_context_logger ≡ (logger_call c st).logger
    unfolding init_logger set_logger apply_logger_from_config
    logger_call-same (inits opts) st = refl
    logger_call-same (sets l) st = refl
    logger_call-same (configures cfg) st = refl

    logger_calls-same :
        (cs : List LoggerCall) (st : LogState z)
        → st.default_context_logger ≡ st.logger
        → (logger_calls cs st).default_context_logger ≡ (logger_calls cs st).logger
    unfolding logger_calls
    logger_calls-same [] st h = h
    logger_calls-same (c ∷ cs) st h =
        logger_calls-same cs (logger_call c st) (logger_call-same c st)

    -- However the process's logger was set, an event that is opened for a context without a span, fields
    -- or a logger of its own is the one that is opened without a context.
    pub open_event_ctx-open_event :
        {R : Type 0} (span_of : Context R → Option (Text × Text))
        (zerolog_ctx : z.Logger → Context R → z.Logger) (cs : List LoggerCall) (global_level : ℤ)
        (level : Level) (ctx : Context R)
        → span_of ctx ≡ none
        → fields_from_ctx ctx ≡ []
        → ((d : z.Logger) → zerolog_ctx d ctx ≡ d)
        → let st = logger_calls cs (initial_state global_level) in
          open_event_ctx span_of zerolog_ctx level st ctx ≡ open_event level st
    unfolding ctx_logger initial_state
    open_event_ctx-open_event span_of zerolog_ctx cs global_level level ctx spanless bare unset =
        let st = logger_calls cs (initial_state global_level) in
        let same = logger_calls-same cs (initial_state global_level) refl in
        let reused : ctx_logger z span_of zerolog_ctx (λ l c. c) st ctx
            ≡ st.default_context_logger =
          rw (spanless, bare) (unset st.default_context_logger) in
        ap
          (λ (l : z.Logger). let opened : Opened z = record { logger = l; level = level } in opened)
          (reused ∙ same)
