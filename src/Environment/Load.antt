-- ===== src/Environment/Load.antt =====
-- config_env_gen.go: loadConfig over a snapshot of the environment; and GetConfigFromEnv.
use tel.Base.{Bool, false, Option, none, some, List, [], ◌∷◌, ◌++◌, if◌then◌else◌, get_or}
use tel.Base.Int.{ℤ, pos}
use tel.Base.Text.{Text, bytes, is_empty, trim_space, to_lower}
use tel.Base.Parts.{replace_byte}
use tel.Config.{Config}
use tel.Environment.{
  Environ, getenv, loaded, not_exist, failed, Outside, default_service_unknown,
  default_dot_env_path, apply_nested_env, resolve_pod,
}

-- env.FieldError: the field, the key and the text that does not parse.
pub record FieldError : Type 0 where
  pub field_path : Text
  pub key : Text
  pub raw : Text

module _ (out : Outside) (e : Environ) where
  -- The raw text of a key, or the default where it is missing or empty.
  unfoldable pub raw_or : Text → Text → Text
  raw_or key def = elim (e key) [
    | none ↦ def
    | some raw ↦ if out.env_is_empty raw then def else raw
  ]

  -- A block of loadConfig for a field that is parsed: its value, or the zero value and an error.
  unfoldable pub load_parsed {ℓ} :
      {A : Type ℓ} → (Text → Option A) → A → Text → Text → Text → A × List FieldError
  load_parsed parse zero field_path key def =
      let raw = raw_or key def in
      elim (parse raw) [
        | some v ↦ (v, [])
        | none ↦ (zero, record { field_path = field_path; key = key; raw = raw } ∷ [])
      ]

  abbrev pub load_bool : Text → Text → Text → Bool × List FieldError
  load_bool = load_parsed out.env_parse_bool false

  abbrev pub load_int : Text → Text → Text → ℤ × List FieldError
  load_int = load_parsed out.env_parse_int (pos 0)

  -- The configuration, and env.NewError's errors: an error is returned when there is one of them.
  unfoldable pub load_config : Config × List FieldError
  load_config =
      let (monitor_enable, e1) =
        load_bool (bytes "MonitorConfig.Enable") (bytes "MONITOR_ENABLE") (bytes "true") in
      let (periodic, e2) =
        load_int (bytes "TelConfig.MetricsPeriodicIntervalSec")
          (bytes "TEL_METRIC_PERIODIC_INTERVAL_SEC") (bytes "15") in
      let (export, e3) =
        load_int (bytes "TelConfig.ExportIntervalSec") (bytes "TEL_EXPORT_INTERVAL_SEC")
          (bytes "0") in
      let (insecure, e4) =
        load_bool (bytes "TelConfig.WithInsecure") (bytes "TEL_EXPORTER_WITH_INSECURE")
          (bytes "true") in
      let (enable, e5) = load_bool (bytes "TelConfig.Enable") (bytes "TEL_ENABLE") (bytes "true") in
      let (compression, e6) =
        load_bool (bytes "TelConfig.WithCompression") (bytes "TEL_ENABLE_COMPRESSION")
          (bytes "true") in
      let (messages, e7) =
        load_int (bytes "MaxMessagesPerSecond") (bytes "LOGS_MAX_MESSAGES_PER_SECOND")
          (bytes "0") in
      let (debug, e8) = load_bool (bytes "Debug") (bytes "DEBUG") (bytes "false") in
      (
        record {
          monitor_config = record {
            monitor_addr = raw_or (bytes "MONITOR_ADDR") (bytes "127.0.0.1:8011");
            enable = monitor_enable;
          };
          tel_config = record {
            address = raw_or (bytes "TEL_COLLECTOR_GRPC_ADDR") (bytes "127.0.0.1:4317");
            server_name = raw_or (bytes "TEL_COLLECTOR_TLS_SERVER_NAME") [];
            raw = record { ca = []; cert = []; key = [] };
            bucket_view = [];
            metrics = record {
              cardinality_detector = record {
                max_cardinality = pos 0;
                max_instruments = pos 0;
                diagnostic_interval = pos 0;
                warn_utilization_pct = pos 0;
                enable = false;
                deny_unknown = false;
              };
              enable_retry = false;
            };
            metrics_periodic_interval_sec = periodic;
            export_interval_sec = export;
            with_insecure = insecure;
            enable = enable;
            with_compression = compression;
            traces = record { enable = false; sampler = [] };
          };
          service = raw_or (bytes "TEL_SERVICE_NAME") [];
          pod = raw_or (bytes "POD_NAME") [];
          namespace = raw_or (bytes "NAMESPACE") (bytes "default");
          environment = raw_or (bytes "DEPLOY_ENVIRONMENT") (bytes "dev");
          version = raw_or (bytes "VERSION") (bytes "dev");
          log_level = raw_or (bytes "LOG_LEVEL") (bytes "info");
          log_encode = raw_or (bytes "LOG_ENCODE") (bytes "console");
          max_messages_per_second = messages;
          max_level_messages_per_second = raw_or (bytes "LOGS_MAX_LEVEL_MESSAGES_PER_SECOND") [];
          debug = debug;
        },
        e1 ++ (e2 ++ (e3 ++ (e4 ++ (e5 ++ (e6 ++ (e7 ++ e8)))))),
      )

pub data Loaded : Type 0 where
  config : Config → Loaded
  dot_env_failed : Loaded
  fields_failed : List FieldError → Loaded

-- The service of a process on a host, as DefaultConfig and GetConfigFromEnv make it.
abbrev pub host_service : Text → Text
host_service host = to_lower (replace_byte 45 95 host)

module _ (out : Outside) where
  -- `none` for an error that is not that of a missing file.
  unfoldable pub load_dot_env : Environ → Option Environ
  load_dot_env e =
      let path = trim_space (getenv e (bytes "TEL_DOTENV")) in
      elim (out.env_load_dot_env (if is_empty path then default_dot_env_path else path) e) [
        | loaded e' ↦ some e'
        | not_exist ↦ some e
        | failed ↦ none
      ]

  -- the service where it is blank
  unfoldable pub name_service : Config → Config
  name_service cfg =
      let service = host_service (get_or out.hostname []) in
      if is_empty (trim_space cfg.service)
      then record cfg { service = if is_empty service then default_service_unknown else service }
      else cfg

  -- the pod where it is blank
  unfoldable pub name_pod : Environ → Config → Config
  name_pod e cfg =
      if is_empty (trim_space cfg.pod) then record cfg { pod = resolve_pod out e cfg } else cfg

  abbrev pub from_loaded : Environ → Config × List FieldError → Loaded
  from_loaded e (cfg, x ∷ errs) = fields_failed (x ∷ errs)
  from_loaded e (cfg, []) = config (name_pod e (name_service (apply_nested_env out e cfg)))

  unfoldable pub get_config_from_env : Environ → Loaded
  get_config_from_env e = elim (load_dot_env e) [
    | none ↦ dot_env_failed
    | some e' ↦ from_loaded e' (load_config out e')
  ]
