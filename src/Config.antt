-- ===== src/Config.antt =====
-- model.go: the configuration, and defaults.go and tel.go: its defaults. A PEM text is the list of its
-- bytes, a duration is its nanoseconds, and a float64 is its 64 bits as a number, since the program
-- only hands boundaries on.
use tel.Base.{ℕ, Bool, true, false, List, []}
use tel.Base.Int.{ℤ, pos}
use tel.Base.Text.{Text, bytes}
use tel.Cardinality.{
  CardinalitySettings, default_max_cardinality, default_max_instruments,
  default_diagnostic_interval,
}

pub record MonitorConfig : Type 0 where
  pub monitor_addr : Text
  pub enable : Bool

pub record TlsRawConfig : Type 0 where
  pub ca : Text
  pub cert : Text
  pub key : Text

pub record MetricsConfig : Type 0 where
  -- CardinalityDetectorConfig has the fields of cardinalitySettings, to which it is converted.
  pub cardinality_detector : CardinalitySettings
  pub enable_retry : Bool

pub record TracesConfig : Type 0 where
  pub enable : Bool
  pub sampler : Text

pub record HistogramOpt : Type 0 where
  pub name : Text
  pub boundaries : List ℕ

pub record TelConfig : Type 0 where
  pub address : Text
  pub server_name : Text
  pub raw : TlsRawConfig
  pub bucket_view : List HistogramOpt
  pub metrics : MetricsConfig
  pub metrics_periodic_interval_sec : ℤ
  pub export_interval_sec : ℤ
  pub with_insecure : Bool
  pub enable : Bool
  pub with_compression : Bool
  pub traces : TracesConfig

pub record Config : Type 0 where
  pub monitor_config : MonitorConfig
  pub tel_config : TelConfig
  pub service : Text
  pub pod : Text
  pub namespace : Text
  pub environment : Text
  pub version : Text
  pub log_level : Text
  pub log_encode : Text
  pub max_messages_per_second : ℤ
  pub max_level_messages_per_second : Text
  pub debug : Bool

-- DefaultConfig, for a host name and the service name made of it.
unfoldable pub default_config : Text → Text → Config
default_config host service = record {
  monitor_config = record { monitor_addr = bytes "127.0.0.1:8011"; enable = true };
  tel_config = record {
    address = bytes "127.0.0.1:4317";
    server_name = [];
    raw = record { ca = []; cert = []; key = [] };
    bucket_view = [];
    metrics = record {
      cardinality_detector = record {
        max_cardinality = pos default_max_cardinality;
        max_instruments = pos default_max_instruments;
        diagnostic_interval = pos default_diagnostic_interval;
        warn_utilization_pct = pos 80;
        enable = true;
        deny_unknown = false;
      };
      enable_retry = false;
    };
    metrics_periodic_interval_sec = pos 15;
    export_interval_sec = pos 0;
    with_insecure = true;
    enable = true;
    with_compression = true;
    traces = record { enable = true; sampler = bytes "parentbased_statustraceidratio:0.1" };
  };
  service = service;
  pod = host;
  namespace = bytes "default";
  environment = bytes "dev";
  version = bytes "dev";
  log_level = bytes "info";
  log_encode = bytes "console";
  max_messages_per_second = pos 0;
  max_level_messages_per_second = [];
  debug = false;
}

-- DefaultDebugConfig
unfoldable pub default_debug_config : Text → Text → Config
unfolding default_config
default_debug_config host service =
    let c = default_config host service in
    let monitor = c.monitor_config in
    let tel = c.tel_config in
    let traces = c.tel_config.traces in
    record c {
      debug = true;
      log_level = bytes "debug";
      log_encode = bytes "console";
      monitor_config = record monitor { enable = false };
      tel_config = record tel {
        enable = false;
        traces = record traces { sampler = bytes "always" };
      };
    }
