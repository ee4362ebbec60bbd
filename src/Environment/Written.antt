-- ===== src/Environment/Written.antt =====
-- How a configuration is written as the variables of an environment.
use tel.Base.{Bool, false, some, [], ◌∷◌, ◌≡◌, ◌⊎◌}
use tel.Base.Int.{ℤ, wrap_int64}
use tel.Base.Text.{Text, bytes, is_empty, trim_space}
use tel.Base.Assoc.{Map, text_Eq, lookup}
use tel.Config.{Config}
use tel.Environment.{Environ, Outside}

-- How values are written.
pub record Printer : Type 0 where
  pub print_bool : Bool → Text
  pub print_int : ℤ → Text
  pub print_duration : ℤ → Text

-- The variables that loadConfig reads, and those that applyNestedEnv reads.
unfoldable pub variables : Printer → Config → Map Text Text
variables p cfg =
    let tel = cfg.tel_config in
    let cd = tel.metrics.cardinality_detector in
    (bytes "MONITOR_ADDR", cfg.monitor_config.monitor_addr)
    ∷ (bytes "MONITOR_ENABLE", p.print_bool cfg.monitor_config.enable)
    ∷ (bytes "TEL_COLLECTOR_GRPC_ADDR", tel.address)
    ∷ (bytes "TEL_COLLECTOR_TLS_SERVER_NAME", tel.server_name)
    ∷ (bytes "TEL_METRIC_PERIODIC_INTERVAL_SEC", p.print_int tel.metrics_periodic_interval_sec)
    ∷ (bytes "TEL_EXPORT_INTERVAL_SEC", p.print_int tel.export_interval_sec)
    ∷ (bytes "TEL_EXPORTER_WITH_INSECURE", p.print_bool tel.with_insecure)
    ∷ (bytes "TEL_ENABLE", p.print_bool tel.enable)
    ∷ (bytes "TEL_ENABLE_COMPRESSION", p.print_bool tel.with_compression)
    ∷ (bytes "TEL_SERVICE_NAME", cfg.service)
    ∷ (bytes "POD_NAME", cfg.pod)
    ∷ (bytes "NAMESPACE", cfg.namespace)
    ∷ (bytes "DEPLOY_ENVIRONMENT", cfg.environment)
    ∷ (bytes "VERSION", cfg.version)
    ∷ (bytes "LOG_LEVEL", cfg.log_level)
    ∷ (bytes "LOG_ENCODE", cfg.log_encode)
    ∷ (bytes "LOGS_MAX_MESSAGES_PER_SECOND", p.print_int cfg.max_messages_per_second)
    ∷ (bytes "LOGS_MAX_LEVEL_MESSAGES_PER_SECOND", cfg.max_level_messages_per_second)
    ∷ (bytes "DEBUG", p.print_bool cfg.debug)
    ∷ (bytes "TEL_TRACES_ENABLE", p.print_bool tel.traces.enable)
    ∷ (bytes "TEL_TRACES_SAMPLER", tel.traces.sampler)
    ∷ (bytes "METRICS_CARDINALITY_DETECTOR_MAX_CARDINALITY", p.print_int cd.max_cardinality)
    ∷ (bytes "METRICS_CARDINALITY_DETECTOR_MAX_INSTRUMENTS", p.print_int cd.max_instruments)
    ∷ (
      bytes "METRICS_CARDINALITY_DETECTOR_DIAGNOSTIC_INTERVAL",
      p.print_duration cd.diagnostic_interval,
    )
    ∷ (bytes "METRICS_CARDINALITY_WARN_UTILIZATION_PCT", p.print_int cd.warn_utilization_pct)
    ∷ (bytes "METRICS_CARDINALITY_DETECTOR_ENABLE", p.print_bool cd.enable)
    ∷ (bytes "METRICS_CARDINALITY_DENY_UNKNOWN", p.print_bool cd.deny_unknown)
    ∷ (bytes "METRICS_ENABLE_RETRY", p.print_bool tel.metrics.enable_retry)
    ∷ (bytes "OTEL_COLLECTOR_TLS_CA_CERT", tel.raw.ca)
    ∷ (bytes "OTEL_COLLECTOR_TLS_CLIENT_CERT", tel.raw.cert)
    ∷ (bytes "OTEL_COLLECTOR_TLS_CLIENT_KEY", tel.raw.key)
    ∷ []

abbrev pub written : Printer → Config → Environ
written p cfg key = lookup (variables p cfg) key

-- A text that package env does not take for empty, and that is not blank.
pub record IsGiven (out : Outside) (s : Text) : Type 0 where
  pub taken : out.env_is_empty s ≡ false
  pub not_blank : is_empty (trim_space s) ≡ false

-- What is printed is read back, by package env and by strconv and time; a number is a machine's int.
pub record ReadsBack (out : Outside) (p : Printer) : Type 0 where
  pub bool_given : (b : Bool) → IsGiven out (p.print_bool b)
  pub bool_env : (b : Bool) → out.env_parse_bool (p.print_bool b) ≡ some b
  pub bool_back : (b : Bool) → out.parse_bool (p.print_bool b) ≡ some b
  pub int_given : (n : ℤ) → IsGiven out (p.print_int n)
  pub int_env : (n : ℤ) → wrap_int64 n ≡ n → out.env_parse_int (p.print_int n) ≡ some n
  pub int_back : (n : ℤ) → wrap_int64 n ≡ n → out.atoi (p.print_int n) ≡ some n
  pub duration_given : (n : ℤ) → IsGiven out (p.print_duration n)
  pub duration_back : (n : ℤ) → wrap_int64 n ≡ n → out.parse_duration (p.print_duration n) ≡ some n

-- A configuration that an environment can give: texts that are set where there is a default, numbers
-- that fit, and no bucket view, which the program alone sets.
pub record IsWritable (out : Outside) (cfg : Config) : Type 0 where
  pub monitor_addr : IsGiven out cfg.monitor_config.monitor_addr
  pub address : IsGiven out cfg.tel_config.address
  pub server_name :
      (out.env_is_empty cfg.tel_config.server_name ≡ false) ⊎ (cfg.tel_config.server_name ≡ [])
  pub service : IsGiven out cfg.service
  pub pod : IsGiven out cfg.pod
  pub namespace : IsGiven out cfg.namespace
  pub environment : IsGiven out cfg.environment
  pub version : IsGiven out cfg.version
  pub log_level : IsGiven out cfg.log_level
  pub log_encode : IsGiven out cfg.log_encode
  pub level_limits :
      (out.env_is_empty cfg.max_level_messages_per_second ≡ false)
      ⊎ (cfg.max_level_messages_per_second ≡ [])
  pub sampler : IsGiven out cfg.tel_config.traces.sampler
  pub periodic :
      wrap_int64 cfg.tel_config.metrics_periodic_interval_sec
      ≡ cfg.tel_config.metrics_periodic_interval_sec
  pub export : wrap_int64 cfg.tel_config.export_interval_sec ≡ cfg.tel_config.export_interval_sec
  pub messages : wrap_int64 cfg.max_messages_per_second ≡ cfg.max_messages_per_second
  pub max_cardinality :
      wrap_int64 cfg.tel_config.metrics.cardinality_detector.max_cardinality
      ≡ cfg.tel_config.metrics.cardinality_detector.max_cardinality
  pub max_instruments :
      wrap_int64 cfg.tel_config.metrics.cardinality_detector.max_instruments
      ≡ cfg.tel_config.metrics.cardinality_detector.max_instruments
  pub interval :
      wrap_int64 cfg.tel_config.metrics.cardinality_detector.diagnostic_interval
      ≡ cfg.tel_config.metrics.cardinality_detector.diagnostic_interval
  pub warn_pct :
      wrap_int64 cfg.tel_config.metrics.cardinality_detector.warn_utilization_pct
      ≡ cfg.tel_config.metrics.cardinality_detector.warn_utilization_pct
  pub buckets : cfg.tel_config.bucket_view ≡ []
