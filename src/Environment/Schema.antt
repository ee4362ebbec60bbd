-- ===== src/Environment/Schema.antt =====
-- config_env_gen.go: configAuditSchema, the list of the variables that package env audits.
use tel.Base.{
  false, Option, none, some, List, [], ◌∷◌, ◌≡◌, refl, ap, if◌then◌else◌, arith, inl, inr,
  Option-cases,
}
use tel.Base.Int.{pos}
use tel.Base.Text.{Text, bytes, text_eq}
use tel.Environment.{Environ, Outside}
use tel.Environment.Load.{FieldError, raw_or, load_parsed, load_config}

-- env.SchemaField: a default where HasDefault is set.
pub record SchemaField : Type 0 where
  pub key : Text
  pub field_path : Text
  pub default : Option Text

abbrev pub with_default : Text → Text → Text → SchemaField
with_default key field_path default = record {
  key = key;
  field_path = field_path;
  default = some default;
}

abbrev pub plain_field : Text → Text → SchemaField
plain_field key field_path = record { key = key; field_path = field_path; default = none }

unfoldable pub config_audit_schema : List SchemaField
config_audit_schema =
    with_default (bytes "MONITOR_ADDR") (bytes "MonitorConfig.MonitorAddr") (bytes "127.0.0.1:8011")
    ∷ with_default (bytes "MONITOR_ENABLE") (bytes "MonitorConfig.Enable") (bytes "true")
    ∷ with_default (bytes "TEL_COLLECTOR_GRPC_ADDR") (bytes "TelConfig.Address")
        (bytes "127.0.0.1:4317")
    ∷ plain_field (bytes "TEL_COLLECTOR_TLS_SERVER_NAME") (bytes "TelConfig.ServerName")
    ∷ with_default (bytes "TEL_METRIC_PERIODIC_INTERVAL_SEC")
        (bytes "TelConfig.MetricsPeriodicIntervalSec") (bytes "15")
    ∷ with_default (bytes "TEL_EXPORT_INTERVAL_SEC") (bytes "TelConfig.ExportIntervalSec")
        (bytes "0")
    ∷ with_default (bytes "TEL_EXPORTER_WITH_INSECURE") (bytes "TelConfig.WithInsecure")
        (bytes "true")
    ∷ with_default (bytes "TEL_ENABLE") (bytes "TelConfig.Enable") (bytes "true")
    ∷ with_default (bytes "TEL_ENABLE_COMPRESSION") (bytes "TelConfig.WithCompression")
        (bytes "true")
    ∷ plain_field (bytes "TEL_SERVICE_NAME") (bytes "Service")
    ∷ plain_field (bytes "POD_NAME") (bytes "Pod")
    ∷ with_default (bytes "NAMESPACE") (bytes "Namespace") (bytes "default")
    ∷ with_default (bytes "DEPLOY_ENVIRONMENT") (bytes "Environment") (bytes "dev")
    ∷ with_default (bytes "VERSION") (bytes "Version") (bytes "dev")
    ∷ with_default (bytes "LOG_LEVEL") (bytes "LogLevel") (bytes "info")
    ∷ with_default (bytes "LOG_ENCODE") (bytes "LogEncode") (bytes "console")
    ∷ with_default (bytes "LOGS_MAX_MESSAGES_PER_SECOND") (bytes "MaxMessagesPerSecond") (bytes "0")
    ∷ plain_field (bytes "LOGS_MAX_LEVEL_MESSAGES_PER_SECOND") (bytes "MaxLevelMessagesPerSecond")
    ∷ with_default (bytes "DEBUG") (bytes "Debug") (bytes "false")
    ∷ []

-- The default of a key in a schema, if it has one.
unfoldable pub default_of : List SchemaField → Text → Option Text
default_of [] key = none
default_of (f ∷ fields) key =
    let rest = default_of fields key in if text_eq f.key key then f.default else rest

module _ (out : Outside) (e : Environ) where
  abbrev filled : Text → Option Text → Option Text
  filled key none = e key
  filled key (some def) = some (raw_or out e key def)

  -- The environment in which what is unset or empty has its default of the schema.
  abbrev pub with_defaults : List SchemaField → Environ
  with_defaults schema key = filled key (default_of schema key)

  raw_or_same :
      (e' : Environ) (key def : Text)
      → e' key ≡ e key
      → raw_or out e' key def ≡ raw_or out e key def
  unfolding raw_or
  raw_or_same e' key def same = rw (same, raw_or) refl

  raw_or_filled :
      (e' : Environ) (key def : Text)
      → e' key ≡ some (raw_or out e key def)
      → raw_or out e' key def ≡ raw_or out e key def
  unfolding raw_or
  raw_or_filled e' key def same = elim (Option-cases (e key)) [
    | inl absent ↦ rw (same, absent, raw_or) (ground arith)
    | inr (raw, present) ↦ rw (same, present, raw_or) (ground arith)
  ]

  -- What a schema with the default of a key, or without one, makes of the text that is read.
  module _ (schema : List SchemaField) where
    with_defaults_raw :
        (key def : Text)
        → default_of schema key ≡ some def
        → raw_or out (with_defaults schema) key def ≡ raw_or out e key def
    with_defaults_raw key def h = raw_or_filled (with_defaults schema) key def (ap (filled key) h)

    without_default_raw :
        (key : Text)
        → default_of schema key ≡ none
        → raw_or out (with_defaults schema) key [] ≡ raw_or out e key []
    without_default_raw key h = raw_or_same (with_defaults schema) key [] (ap (filled key) h)

    with_defaults_parsed :
        {A : Type 0} (parse : Text → Option A) (zero : A) (field_path key def : Text)
        → default_of schema key ≡ some def
        → load_parsed out (with_defaults schema) parse zero field_path key def
          ≡ load_parsed out e parse zero field_path key def
    unfolding load_parsed
    with_defaults_parsed {A = A} parse zero field_path key def h =
        let read : Text → A × List FieldError = λ raw. elim (parse raw) [
          | some v ↦ (v, [])
          | none ↦ (zero, record { field_path = field_path; key = key; raw = raw } ∷ [])
        ] in
        ap read (with_defaults_raw key def h)

  pub load_config-with_defaults :
      load_config out (with_defaults config_audit_schema) ≡ load_config out e
  unfolding load_config config_audit_schema default_of text_eq
  load_config-with_defaults =
      let s = config_audit_schema in
      let bool = with_defaults_parsed s out.env_parse_bool false in
      let int = with_defaults_parsed s out.env_parse_int (pos 0) in
      let text = with_defaults_raw s in
      rw
        (
          text (bytes "MONITOR_ADDR") (bytes "127.0.0.1:8011") refl,
          bool (bytes "MonitorConfig.Enable") (bytes "MONITOR_ENABLE") (bytes "true") refl,
          text (bytes "TEL_COLLECTOR_GRPC_ADDR") (bytes "127.0.0.1:4317") refl,
          without_default_raw s (bytes "TEL_COLLECTOR_TLS_SERVER_NAME") refl,
          int (bytes "TelConfig.MetricsPeriodicIntervalSec")
              (bytes "TEL_METRIC_PERIODIC_INTERVAL_SEC") (bytes "15") refl,
          int (bytes "TelConfig.ExportIntervalSec") (bytes "TEL_EXPORT_INTERVAL_SEC") (bytes "0")
              refl,
          bool (bytes "TelConfig.WithInsecure") (bytes "TEL_EXPORTER_WITH_INSECURE") (bytes "true")
              refl,
          bool (bytes "TelConfig.Enable") (bytes "TEL_ENABLE") (bytes "true") refl,
          bool (bytes "TelConfig.WithCompression") (bytes "TEL_ENABLE_COMPRESSION") (bytes "true")
              refl,
          without_default_raw s (bytes "TEL_SERVICE_NAME") refl,
          without_default_raw s (bytes "POD_NAME") refl,
          text (bytes "NAMESPACE") (bytes "default") refl,
          text (bytes "DEPLOY_ENVIRONMENT") (bytes "dev") refl,
          text (bytes "VERSION") (bytes "dev") refl,
          text (bytes "LOG_LEVEL") (bytes "info") refl,
          text (bytes "LOG_ENCODE") (bytes "console") refl,
          int (bytes "MaxMessagesPerSecond") (bytes "LOGS_MAX_MESSAGES_PER_SECOND") (bytes "0")
              refl,
          without_default_raw s (bytes "LOGS_MAX_LEVEL_MESSAGES_PER_SECOND") refl,
          bool (bytes "Debug") (bytes "DEBUG") (bytes "false") refl,
        )
        refl
