-- ===== src/Environment/RoundTrip.antt =====
-- config_env.go and config_env_gen.go: a configuration that is written as variables is read back.
use tel.Base.{
  Bool, true, false, Option, some, List, [], ◌∷◌, ◌≡◌, refl, sym, ap, ◌⊎◌, inl, inr, arith,
  if◌then◌else◌,
}
use tel.Base.Int.{ℤ, pos, wrap_int64}
use tel.Base.Text.{Text, bytes, is_empty, trim_space, trim_left, text_eq}
use tel.Cardinality.{default_max_cardinality, default_max_instruments, default_diagnostic_interval}
use tel.Sampler.{default_traces_sampler}
use tel.Base.Assoc.{lookup}
use tel.Config.{Config, HistogramOpt}
use tel.Environment.{
  Environ, Outside, not_exist, env_string, env_parsed, env_bool, env_int, apply_nested_env, getenv,
  or_kept,
}
use tel.Environment.Load.{
  config, load_bool, load_int, raw_or, load_parsed, load_dot_env, load_config, name_service,
  name_pod, get_config_from_env,
}
use tel.Environment.Written.{Printer, variables, written, ReadsBack, IsWritable}

blank_kept : (v : Text) → (if is_empty v then [] else v) ≡ v
unfolding is_empty
blank_kept [] = refl
blank_kept (c ∷ v) = refl

module _ (out : Outside) (e : Environ) where
  raw_or_given :
      (key def v : Text) → e key ≡ some v → out.env_is_empty v ≡ false → raw_or out e key def ≡ v
  unfolding raw_or
  raw_or_given key def v found full = rw (found, full, raw_or) refl

  raw_or_optional :
      (key v : Text)
      → e key ≡ some v
      → (out.env_is_empty v ≡ false) ⊎ (v ≡ [])
      → raw_or out e key [] ≡ v
  unfolding raw_or
  raw_or_optional key v found (inl full) = raw_or_given key [] v found full
  raw_or_optional key v found (inr blank) = rw (found, blank, raw_or) (ground arith)

  load_parsed_given :
      {A : Type 0} (parse : Text → Option A) (zero : A) (field_path key def v : Text) (x : A)
      → e key ≡ some v
      → out.env_is_empty v ≡ false
      → parse v ≡ some x
      → load_parsed out e parse zero field_path key def ≡ (x, [])
  unfolding load_parsed
  load_parsed_given {A = A} parse zero field_path key def v x found full back =
      rw (raw_or_given key def v found full, back, load_parsed) refl

  env_string_given :
      (key def v : Text)
      → e key ≡ some v
      → is_empty (trim_space v) ≡ false
      → env_string e key def ≡ v
  unfolding env_string
  env_string_given key def v found full = rw (found, full, env_string) refl

  env_parsed_given :
      {A : Type 0} (parse : Text → Option A) (key v : Text) (def x : A)
      → e key ≡ some v
      → is_empty (trim_space v) ≡ false
      → parse v ≡ some x
      → env_parsed e parse key def ≡ x
  unfolding env_parsed
  env_parsed_given parse key v def x found full back = rw (found, full, back, env_parsed) refl

  or_kept_given : (key v : Text) → e key ≡ some v → or_kept out e (getenv e key) [] ≡ v
  or_kept_given key v found = rw found (blank_kept v)

-- What loadConfig reads of a configuration; the rest is for applyNestedEnv.
unfoldable loaded_config : Config → Config
loaded_config cfg =
    let tel = cfg.tel_config in
    record cfg {
      tel_config = record tel {
        raw = record { ca = []; cert = []; key = [] };
        bucket_view = [];
        metrics = record {
          cardinality_detector = record {
            max_cardinality = pos 0;
            max_instruments = pos 0;
            diagnostic_interval = pos 0;
            warn_utilization_pct = pos 0;
            enable = false;
            deny_unknown = false;
          };
          enable_retry = false;
        };
        traces = record { enable = false; sampler = [] };
      };
    }

abbrev with_buckets : Config → List HistogramOpt → Config
with_buckets cfg buckets =
    let tel = cfg.tel_config in record cfg { tel_config = record tel { bucket_view = buckets } }

module _ (out : Outside) (p : Printer) (cfg : Config) (reads : ReadsBack out p)
    (w : IsWritable out cfg) where
  load_bool_given :
      (field_path key def : Text) (b : Bool)
      → written p cfg key ≡ some (p.print_bool b)
      → load_bool out (written p cfg) field_path key def ≡ (b, [])
  load_bool_given field_path key def b found =
      load_parsed_given out (written p cfg) out.env_parse_bool false field_path key def
        (p.print_bool b) b found (reads.bool_given b).taken (reads.bool_env b)

  load_int_given :
      (field_path key def : Text) (n : ℤ)
      → written p cfg key ≡ some (p.print_int n)
      → wrap_int64 n ≡ n
      → load_int out (written p cfg) field_path key def ≡ (n, [])
  load_int_given field_path key def n found fits =
      load_parsed_given out (written p cfg) out.env_parse_int (pos 0) field_path key def
        (p.print_int n) n found (reads.int_given n).taken (reads.int_env n fits)

  load_config-written : load_config out (written p cfg) ≡ (loaded_config cfg, [])
  unfolding load_config loaded_config variables lookup text_eq
  load_config-written =
      let e = written p cfg in
      let text = raw_or_given out e in
      let optional = raw_or_optional out e in
      let tel = cfg.tel_config in
      rw
        (
          text (bytes "MONITOR_ADDR") (bytes "127.0.0.1:8011") cfg.monitor_config.monitor_addr refl
              w.monitor_addr.taken,
          load_bool_given (bytes "MonitorConfig.Enable") (bytes "MONITOR_ENABLE") (bytes "true")
              cfg.monitor_config.enable refl,
          text (bytes "TEL_COLLECTOR_GRPC_ADDR") (bytes "127.0.0.1:4317") tel.address refl
              w.address.taken,
          optional (bytes "TEL_COLLECTOR_TLS_SERVER_NAME") tel.server_name refl w.server_name,
          load_int_given (bytes "TelConfig.MetricsPeriodicIntervalSec")
              (bytes "TEL_METRIC_PERIODIC_INTERVAL_SEC") (bytes "15")
              tel.metrics_periodic_interval_sec refl w.periodic,
          load_int_given (bytes "TelConfig.ExportIntervalSec") (bytes "TEL_EXPORT_INTERVAL_SEC")
              (bytes "0") tel.export_interval_sec refl w.export,
          load_bool_given (bytes "TelConfig.WithInsecure") (bytes "TEL_EXPORTER_WITH_INSECURE")
              (bytes "true") tel.with_insecure refl,
          load_bool_given (bytes "TelConfig.Enable") (bytes "TEL_ENABLE") (bytes "true") tel.enable
              refl,
          load_bool_given (bytes "TelConfig.WithCompression") (bytes "TEL_ENABLE_COMPRESSION")
              (bytes "true") tel.with_compression refl,
          text (bytes "TEL_SERVICE_NAME") [] cfg.service refl w.service.taken,
          text (bytes "POD_NAME") [] cfg.pod refl w.pod.taken,
          text (bytes "NAMESPACE") (bytes "default") cfg.namespace refl w.namespace.taken,
          text (bytes "DEPLOY_ENVIRONMENT") (bytes "dev") cfg.environment refl w.environment.taken,
          text (bytes "VERSION") (bytes "dev") cfg.version refl w.version.taken,
          text (bytes "LOG_LEVEL") (bytes "info") cfg.log_level refl w.log_level.taken,
          text (bytes "LOG_ENCODE") (bytes "console") cfg.log_encode refl w.log_encode.taken,
          load_int_given (bytes "MaxMessagesPerSecond") (bytes "LOGS_MAX_MESSAGES_PER_SECOND")
              (bytes "0") cfg.max_messages_per_second refl w.messages,
          optional (bytes "LOGS_MAX_LEVEL_MESSAGES_PER_SECOND") cfg.max_level_messages_per_second
              refl w.level_limits,
          load_bool_given (bytes "Debug") (bytes "DEBUG") (bytes "false") cfg.debug refl,
        )
        refl

  env_bool_given :
      (key : Text) (def b : Bool)
      → written p cfg key ≡ some (p.print_bool b)
      → env_bool out (written p cfg) key def ≡ b
  env_bool_given key def b found =
      env_parsed_given out (written p cfg) out.parse_bool key (p.print_bool b) def b found
        (reads.bool_given b).not_blank (reads.bool_back b)

  env_int_given :
      (key : Text) (def n : ℤ)
      → written p cfg key ≡ some (p.print_int n)
      → wrap_int64 n ≡ n
      → env_int out (written p cfg) key def ≡ n
  env_int_given key def n found fits =
      env_parsed_given out (written p cfg) out.atoi key (p.print_int n) def n found
        (reads.int_given n).not_blank (reads.int_back n fits)

  apply_nested_env-written : apply_nested_env out (written p cfg) (loaded_config cfg) ≡ cfg
  unfolding apply_nested_env loaded_config variables lookup text_eq
  apply_nested_env-written =
      let e = written p cfg in
      let tel = cfg.tel_config in
      let cd = tel.metrics.cardinality_detector in
      rw
        (
          env_bool_given (bytes "TEL_TRACES_ENABLE") true tel.traces.enable refl,
          env_string_given out e (bytes "TEL_TRACES_SAMPLER") default_traces_sampler
              tel.traces.sampler refl w.sampler.not_blank,
          env_int_given (bytes "METRICS_CARDINALITY_DETECTOR_MAX_CARDINALITY")
              (pos default_max_cardinality) cd.max_cardinality refl w.max_cardinality,
          env_int_given (bytes "METRICS_CARDINALITY_DETECTOR_MAX_INSTRUMENTS")
              (pos default_max_instruments) cd.max_instruments refl w.max_instruments,
          env_parsed_given out e out.parse_duration
              (bytes "METRICS_CARDINALITY_DETECTOR_DIAGNOSTIC_INTERVAL")
              (p.print_duration cd.diagnostic_interval) (pos default_diagnostic_interval)
              cd.diagnostic_interval refl (reads.duration_given cd.diagnostic_interval).not_blank
              (reads.duration_back cd.diagnostic_interval w.interval),
          env_int_given (bytes "METRICS_CARDINALITY_WARN_UTILIZATION_PCT") (pos 80)
              cd.warn_utilization_pct refl w.warn_pct,
          env_bool_given (bytes "METRICS_CARDINALITY_DETECTOR_ENABLE") true cd.enable refl,
          env_bool_given (bytes "METRICS_CARDINALITY_DENY_UNKNOWN") false cd.deny_unknown refl,
          env_bool_given (bytes "METRICS_ENABLE_RETRY") false tel.metrics.enable_retry refl,
          or_kept_given out e (bytes "OTEL_COLLECTOR_TLS_CA_CERT") tel.raw.ca refl,
          or_kept_given out e (bytes "OTEL_COLLECTOR_TLS_CLIENT_CERT") tel.raw.cert refl,
          or_kept_given out e (bytes "OTEL_COLLECTOR_TLS_CLIENT_KEY") tel.raw.key refl,
        )
        (ap (with_buckets cfg) (sym w.buckets))

  named_written : name_pod out (written p cfg) (name_service out cfg) ≡ cfg
  unfolding name_pod name_service
  named_written = rw (w.service.not_blank, name_service, w.pod.not_blank, name_pod) refl

  load_dot_env-written :
      out.env_load_dot_env (bytes ".env") (written p cfg) ≡ not_exist
      → load_dot_env out (written p cfg) ≡ some (written p cfg)
  unfolding load_dot_env is_empty trim_space trim_left variables lookup text_eq
  load_dot_env-written absent = rw (absent, load_dot_env) refl

  -- A configuration without a bucket view, whose numbers and durations fit in 64 bits, whose addresses,
  -- service, pod, namespace, environment, version, log level, log encoding and sampler are not blank,
  -- and whose server name and level limits are none or not empty, is the one that GetConfigFromEnv
  -- returns from the environment that has it written as its variables, by a printer whose texts the
  -- parsers read back, where there is no .env file.
  pub get_config_from_env-written :
      out.env_load_dot_env (bytes ".env") (written p cfg) ≡ not_exist
      → get_config_from_env out (written p cfg) ≡ config cfg
  unfolding get_config_from_env
  get_config_from_env-written absent =
      rw (load_dot_env-written absent, get_config_from_env, load_config-written)
        (ap config (rw apply_nested_env-written named_written))
