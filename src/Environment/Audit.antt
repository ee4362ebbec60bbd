-- ===== src/Environment/Audit.antt =====
-- config_env_gen.go: configAuditSchema against loadConfig, which were generated from the same tags.
use tel.Base.{Bool, false, Option, none, some, List, [], ◌∷◌, ◌++◌, ◌≡◌, if◌then◌else◌, get_or}
use tel.Base.Int.{ℤ, pos}
use tel.Base.Text.{Text, bytes}
use tel.Config.{Config}
use tel.Environment.{Environ, Outside}
use tel.Environment.Load.{FieldError}
use tel.Environment.Schema.{SchemaField}

-- What a field of the configuration holds.
pub data Value : Type 0 where
  text_value : Text → Value
  bool_value : Bool → Value
  int_value : ℤ → Value

-- The tagged fields of env.Config, by their paths.
abbrev pub tagged_fields : Config → List (Text × Value)
tagged_fields cfg =
    (bytes "MonitorConfig.MonitorAddr", text_value cfg.monitor_config.monitor_addr)
    ∷ (bytes "MonitorConfig.Enable", bool_value cfg.monitor_config.enable)
    ∷ (bytes "TelConfig.Address", text_value cfg.tel_config.address)
    ∷ (bytes "TelConfig.ServerName", text_value cfg.tel_config.server_name)
    ∷ (
      bytes "TelConfig.MetricsPeriodicIntervalSec",
      int_value cfg.tel_config.metrics_periodic_interval_sec,
    )
    ∷ (bytes "TelConfig.ExportIntervalSec", int_value cfg.tel_config.export_interval_sec)
    ∷ (bytes "TelConfig.WithInsecure", bool_value cfg.tel_config.with_insecure)
    ∷ (bytes "TelConfig.Enable", bool_value cfg.tel_config.enable)
    ∷ (bytes "TelConfig.WithCompression", bool_value cfg.tel_config.with_compression)
    ∷ (bytes "Service", text_value cfg.service)
    ∷ (bytes "Pod", text_value cfg.pod)
    ∷ (bytes "Namespace", text_value cfg.namespace)
    ∷ (bytes "Environment", text_value cfg.environment)
    ∷ (bytes "Version", text_value cfg.version)
    ∷ (bytes "LogLevel", text_value cfg.log_level)
    ∷ (bytes "LogEncode", text_value cfg.log_encode)
    ∷ (bytes "MaxMessagesPerSecond", int_value cfg.max_messages_per_second)
    ∷ (bytes "MaxLevelMessagesPerSecond", text_value cfg.max_level_messages_per_second)
    ∷ (bytes "Debug", bool_value cfg.debug)
    ∷ []

module _ (out : Outside) (e : Environ) where
  abbrev given_or : Option Text → Option Text → Text
  given_or none def = get_or def []
  given_or (some raw) def = if out.env_is_empty raw then get_or def [] else raw

  -- The text that a schema's field stands for: the variable's, or where it is unset or empty the
  -- default, or no text.
  abbrev pub audited : SchemaField → Text
  audited f = given_or (e f.key) f.default

  -- What a field holds, read from the variable and the default of its line of the schema.
  abbrev pub Holds : SchemaField → Value → Type 0
  Holds f (text_value s) = s ≡ audited f
  Holds f (bool_value b) = b ≡ get_or (out.env_parse_bool (audited f)) false
  Holds f (int_value n) = n ≡ get_or (out.env_parse_int (audited f)) (pos 0)

  -- A line of the schema for each field, with its path, and no other.
  abbrev pub AllRead : List SchemaField → List (Text × Value) → Type 0
  AllRead [] [] = Unit {0}
  AllRead (f ∷ fs) ((path, v) ∷ vs) = (f.field_path ≡ path) × Holds f v × AllRead fs vs
  AllRead (f ∷ fs) [] = ⊥
  AllRead [] (v ∷ vs) = ⊥

  -- The error of a text that does not parse.
  abbrev failed {ℓ} : {A : Type ℓ} → SchemaField → Option A → List FieldError
  failed f (some v) = []
  failed f none = record { field_path = f.field_path; key = f.key; raw = audited f } ∷ []

  abbrev error_of : SchemaField → Value → List FieldError
  error_of f (text_value s) = []
  error_of f (bool_value b) = failed f (out.env_parse_bool (audited f))
  error_of f (int_value n) = failed f (out.env_parse_int (audited f))

  abbrev pub errors_of : List SchemaField → List (Text × Value) → List FieldError
  errors_of [] vs = []
  errors_of (f ∷ fs) [] = []
  errors_of (f ∷ fs) ((path, v) ∷ vs) = error_of f v ++ errors_of fs vs

  module _ {A : Type 0} (parse : Text → Option A) (zero : A) (f : SchemaField) where
    abbrev parsed : Text → A × List FieldError
    parsed raw = elim (parse raw) [
      | some v ↦ (v, [])
      | none ↦ (zero, record { field_path = f.field_path; key = f.key; raw = raw } ∷ [])
    ]
