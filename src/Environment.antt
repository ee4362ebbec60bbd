-- ===== src/Environment.antt =====
-- config_env.go, config_env_gen.go and resolvePod of zlog.go: the configuration from the process's
-- environment. What os, strconv, time and the package env do is a parameter.
pub mod Load
pub mod Service
pub mod Defaults
pub mod Schema
pub mod Audit
pub mod Written
pub mod RoundTrip
pub mod Reload
use tel.Base.{ℕ, Bool, true, false, Option, none, some, List, [], ◌∷◌, ◌++◌, if◌then◌else◌, get_or}
use tel.Base.Int.{ℤ, pos}
use tel.Base.Text.{Text, bytes, is_empty, trim_space, to_lower}
use tel.Base.Parts.{replace_byte}
use tel.Cardinality.{default_max_cardinality, default_max_instruments, default_diagnostic_interval}
use tel.Sampler.{default_traces_sampler}
use tel.Config.{Config}

-- os.LookupEnv
abbrev pub Environ : Type 0
Environ = Text → Option Text

-- os.Getenv
abbrev pub getenv : Environ → Text → Text
getenv e key = get_or (e key) []

-- What LoadDotEnv does: it adds to the environment, finds no file, or fails.
pub data DotEnv : Type 0 where
  loaded : Environ → DotEnv
  not_exist failed : DotEnv

-- strconv.ParseBool, strconv.Atoi and time.ParseDuration, the like of package env, os.Hostname and
-- env.LoadDotEnv; `none` is an error, and a duration is its nanoseconds.
pub record Outside : Type 0 where
  pub parse_bool : Text → Option Bool
  pub atoi : Text → Option ℤ
  pub parse_duration : Text → Option ℤ
  pub env_is_empty : Text → Bool
  pub env_parse_bool : Text → Option Bool
  pub env_parse_int : Text → Option ℤ
  pub hostname : Option Text
  pub env_load_dot_env : Text → Environ → DotEnv

abbrev pub default_service_unknown : Text
default_service_unknown = bytes "unknown"

abbrev pub default_dot_env_path : Text
default_dot_env_path = bytes ".env"

module _ (e : Environ) where
  unfoldable pub env_string : Text → Text → Text
  env_string key def = elim (e key) [
    | none ↦ def
    | some v ↦ if is_empty (trim_space v) then def else v
  ]

  -- envBool, envInt and envDuration differ in what they parse.
  unfoldable pub env_parsed {ℓ} : {A : Type ℓ} → (Text → Option A) → Text → A → A
  env_parsed parse key def = elim (e key) [
    | none ↦ def
    | some v ↦ if is_empty (trim_space v) then def else get_or (parse v) def
  ]

module _ (out : Outside) (e : Environ) where
  abbrev pub env_bool : Text → Bool → Bool
  env_bool = env_parsed e out.parse_bool

  abbrev pub env_int : Text → ℤ → ℤ
  env_int = env_parsed e out.atoi

  abbrev pub env_duration : Text → ℤ → ℤ
  env_duration = env_parsed e out.parse_duration

  -- `if v := os.Getenv(key); v != "" { … }`
  abbrev or_kept : Text → Text → Text
  or_kept v old = if is_empty v then old else v

  unfoldable pub apply_nested_env : Config → Config
  apply_nested_env cfg =
      let tel = cfg.tel_config in
      let metrics = tel.metrics in
      let raw = tel.raw in
      record cfg {
        tel_config = record tel {
          traces = record {
            enable = env_bool (bytes "TEL_TRACES_ENABLE") true;
            sampler = env_string e (bytes "TEL_TRACES_SAMPLER") default_traces_sampler;
          };
          metrics = record {
            cardinality_detector = record {
              max_cardinality =
                  env_int (bytes "METRICS_CARDINALITY_DETECTOR_MAX_CARDINALITY")
                    (pos default_max_cardinality);
              max_instruments =
                  env_int (bytes "METRICS_CARDINALITY_DETECTOR_MAX_INSTRUMENTS")
                    (pos default_max_instruments);
              diagnostic_interval =
                  env_duration (bytes "METRICS_CARDINALITY_DETECTOR_DIAGNOSTIC_INTERVAL")
                    (pos default_diagnostic_interval);
              warn_utilization_pct =
                  env_int (bytes "METRICS_CARDINALITY_WARN_UTILIZATION_PCT") (pos 80);
              enable = env_bool (bytes "METRICS_CARDINALITY_DETECTOR_ENABLE") true;
              deny_unknown = env_bool (bytes "METRICS_CARDINALITY_DENY_UNKNOWN") false;
            };
            enable_retry = env_bool (bytes "METRICS_ENABLE_RETRY") false;
          };
          raw = record {
            ca = or_kept (getenv e (bytes "OTEL_COLLECTOR_TLS_CA_CERT")) raw.ca;
            cert = or_kept (getenv e (bytes "OTEL_COLLECTOR_TLS_CLIENT_CERT")) raw.cert;
            key = or_kept (getenv e (bytes "OTEL_COLLECTOR_TLS_CLIENT_KEY")) raw.key;
          };
        };
      }

  -- resolvePod
  unfoldable pub resolve_pod : Config → Text
  resolve_pod cfg =
      let pod = trim_space cfg.pod in
      let pod_name = trim_space (getenv e (bytes "POD_NAME")) in
      let host_name = trim_space (getenv e (bytes "HOSTNAME")) in
      if is_empty pod
      then if is_empty pod_name
        then if is_empty host_name
          then elim out.hostname [ none ↦ [] | some host ↦ trim_space host ]
          else host_name
        else pod_name
      else pod
