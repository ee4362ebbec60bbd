-- ===== src/Logger.antt =====
-- zlog.go: the process's logger and how a configuration sets it. zerolog is a parameter: its loggers
-- with the methods that the program calls. A logger and the context that With makes of it are one.
pub mod Stack
pub mod Events
pub mod Configured
pub mod Shorthands
use tel.Base.{
  ℕ, Bool, true, false, not, ◌&&◌, ◌||◌, Option, none, some, List, [], ◌∷◌, if◌then◌else◌, get_or,
}
use tel.Base.Int.{ℤ, pos, ltb_ℤ}
use tel.Base.Text.{Text, bytes, text_eq, is_empty, trim_space, to_lower}
use tel.Config.{Config}
use tel.Environment.{Environ, Outside, resolve_pod}
use tel.LogSampler.{RateSampler, new_rate_sampler}
use tel.LogSampler.Limits.{parse_level_message_limits}

-- Where log lines go, all of it to standard output in the end.
pub data Writer : Type 0 where
  stdout console pretty_json : Writer

pub record Zerolog : Type 1 where
  pub Logger : Type 0
  pub new_logger : Writer → Logger
  pub str : Logger → Text → Text → Logger
  pub int64 : Logger → Text → ℤ → Logger
  pub bool : Logger → Text → Bool → Logger
  pub sampled : Logger → RateSampler → Logger
  pub parse_level : Text → Option ℤ
  pub parse_uint : Text → Option ℕ
  -- the levels debug, info and fatal
  pub debug_level : ℤ
  pub info_level : ℤ
  pub fatal_level : ℤ

pub record LoggerOptions : Type 0 where
  pub level : Text
  pub json : Bool
  pub pretty : Bool

-- What the process has: the global level, its logger, zerolog's default logger for a context, and
-- whether the colours of the levels are set.
pub record LogState (z : Zerolog) : Type 0 where
  pub global_level : ℤ
  pub logger : z.Logger
  pub default_context_logger : z.Logger
  pub level_colors : Bool

-- The keys of zlog_fields.go.
abbrev pub field_trace_id : Text
field_trace_id = bytes "trace_id"

abbrev pub field_span_id : Text
field_span_id = bytes "span_id"

abbrev pub field_service : Text
field_service = bytes "service"

abbrev pub field_pod : Text
field_pod = bytes "pod"

abbrev pub field_namespace : Text
field_namespace = bytes "namespace"

abbrev pub field_environment : Text
field_environment = bytes "environment"

abbrev pub field_version : Text
field_version = bytes "version"

abbrev pub field_function : Text
field_function = bytes "function"

abbrev pub field_duration_ms : Text
field_duration_ms = bytes "duration_ms"

abbrev pub field_duration_s : Text
field_duration_s = bytes "duration_s"

module _ (z : Zerolog) where
  unfoldable pub set_logger : z.Logger → LogState z → LogState z
  set_logger l st = record st { logger = l; default_context_logger = l }

  abbrev pub level_of : Text → ℤ
  level_of level = get_or (z.parse_level (trim_space level)) z.info_level

  abbrev pub writer_of : LoggerOptions → Writer
  writer_of opts = if not opts.json then console else if opts.pretty then pretty_json else stdout

  -- InitLogger
  unfoldable pub init_logger : LoggerOptions → LogState z → LogState z
  init_logger opts st = set_logger (z.new_logger (writer_of opts)) (record st {
    global_level = level_of opts.level;
    level_colors = st.level_colors || not opts.json;
  })

  -- the switch on LogEncode
  unfoldable pub logger_options : Config → LoggerOptions
  logger_options cfg =
      let encode = to_lower (trim_space cfg.log_encode) in
      let is = λ (t : Text). text_eq encode t in
      if is (bytes "console") || is (bytes "text")
      then record { level = cfg.log_level; json = false; pretty = false }
      else if is (bytes "pretty") || is (bytes "json_pretty") || is (bytes "json-pretty")
      then record { level = cfg.log_level; json = true; pretty = true }
      else record { level = cfg.log_level; json = true; pretty = false }

  -- `if s != "" { c = c.Str(key, s) }`
  abbrev pub str_unless_empty : z.Logger → Text → Text → z.Logger
  str_unless_empty l key s = if is_empty s then l else z.str l key s

  module _ (out : Outside) (e : Environ) where
    unfoldable pub with_service_fields : z.Logger → Config → z.Logger
    with_service_fields l cfg =
        let l1 = str_unless_empty l field_service (trim_space cfg.service) in
        let l2 = str_unless_empty l1 field_pod (resolve_pod out e cfg) in
        let l3 = str_unless_empty l2 field_namespace (trim_space cfg.namespace) in
        let l4 = str_unless_empty l3 field_environment (trim_space cfg.environment) in
        str_unless_empty l4 field_version (trim_space cfg.version)

    unfoldable pub with_sampler : z.Logger → Config → z.Logger
    with_sampler l cfg =
        let limits =
          parse_level_message_limits z.parse_level z.parse_uint cfg.max_level_messages_per_second in
        if ltb_ℤ (pos 0) cfg.max_messages_per_second
          || not (is_empty (trim_space cfg.max_level_messages_per_second))
        then z.sampled l (
            new_rate_sampler z.debug_level z.fatal_level cfg.max_messages_per_second
              (get_or limits []))
        else l

    -- ConfigureLogger
    unfoldable pub apply_logger_from_config : Config → LogState z → LogState z
    apply_logger_from_config cfg st =
        let st' = init_logger (logger_options cfg) st in
        set_logger (with_sampler (with_service_fields st'.logger cfg) cfg) st'
