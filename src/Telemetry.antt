-- ===== src/Telemetry.antt =====
-- tel.go: the runtime that a process holds, and what it holds of the world outside. Providers are
-- noop or one of the SDK, named by a number; a resource is what must be released: an OTLP metric or
-- trace provider with its exporter, a monitor server, or the loop of a detector. `opened` and `closed`
-- list the resources in the order of the calls.
pub mod Start
pub mod Stop
pub mod Balance
pub mod Tracing
pub mod Settled
pub mod Lifecycle
pub mod Epochs
pub mod Progress
pub mod Races
pub mod Concurrent
pub mod Traced
pub mod Stats
pub mod StartedCache
pub mod Watched
pub mod Allowed
use tel.Base.{
  ℕ, ◌+◌, ◌%◌, ◌^◌, Bool, true, false, Option, none, some, List, [], ◌∷◌, ◌++◌, if◌then◌else◌, leb,
  ◌==◌,
}
use tel.Base.Int.{ℤ, pos, or_default}
use tel.Base.Text.{Text, bytes, is_empty}
use tel.Otel.{Otel}
use tel.Cardinality.{default_max_cardinality}
use tel.Metric.{AttrCache, new_attr_cache, allow}
use tel.Instruments.Registry.{Meter, Registry, new_registry_with_cache}
use tel.Config.{Config}

pub data Provider : Type 0 where
  noop : Provider
  sdk : ℕ → Provider

pub data Resource : Type 0 where
  metric_export trace_export monitor_server detector_loop : ℕ → Resource

-- What the process shares: otel's global tracer provider and propagator, and the gzip level.
pub record World : Type 0 where
  pub tracer_provider : Provider
  pub propagator_installed : Bool
  pub best_speed : Bool
  -- the next number of a resource
  pub fresh : ℕ
  pub opened : List Resource
  pub closed : List Resource

-- A shutdown function of a provider: of one with an exporter, or the one that only returns nil.
pub data ShutdownFn : Type 0 where
  closes : Resource → ShutdownFn
  does_nothing : ShutdownFn

-- The detector that `cardinality` points to is the one in the registry's cache; the field names the
-- loop that it runs.
pub record Telemetry (o : Otel) (m : Meter) : Type 0 where
  pub cfg : Config
  pub metric_provider : Provider
  pub trace_provider : Provider
  -- the provider and the name that the tracer was made with
  pub tracer : Provider × Text
  pub registry : Registry o m
  pub cardinality : Option Resource
  pub monitor : Option Resource
  pub shutdown_fn : Option ShutdownFn
  pub trace_shutdown : Option ShutdownFn
  pub allowed_labels : List Text
  pub epoch : ℕ
  pub started : Bool
  pub trace_installed : Bool

abbrev pub max_instruments_from_cfg : Config → ℤ
max_instruments_from_cfg cfg = pos (
    or_default cfg.tel_config.metrics.cardinality_detector.max_instruments
      tel.Cardinality.default_max_instruments)

-- `meter_of p name` is the state of `p.Meter(name)`.
module _ (o : Otel) (m : Meter) (meter_of : Provider → Text → m.State) where
  unfoldable pub refresh_tracer_locked : Telemetry o m → Telemetry o m
  refresh_tracer_locked t = record t { tracer = (t.trace_provider, t.cfg.service) }

  unfoldable pub new_telemetry : Config → Telemetry o m
  unfolding refresh_tracer_locked
  new_telemetry cfg =
      let service = if is_empty cfg.service then bytes "unknown" else cfg.service in
      refresh_tracer_locked (record {
        cfg = cfg;
        metric_provider = noop;
        trace_provider = noop;
        tracer = (noop, []);
        registry =
            new_registry_with_cache o m (meter_of noop service)
              (new_attr_cache o (pos default_max_cardinality)) true 0
              (max_instruments_from_cfg cfg);
        cardinality = none;
        monitor = none;
        shutdown_fn = none;
        trace_shutdown = none;
        allowed_labels = [];
        epoch = 0;
        started = false;
        trace_installed = false;
      })

  -- NewWithProviders; `none` is a nil provider.
  unfoldable pub new_with_providers : Config → Option Provider → Option Provider → Telemetry o m
  unfolding new_telemetry
  new_with_providers cfg mp tp =
      let t = new_telemetry cfg in
      let t1 : Telemetry o m = elim mp [
        | none ↦ t
        | some p ↦ record t {
          metric_provider = p;
          registry =
              new_registry_with_cache o m (meter_of p t.cfg.service)
                (new_attr_cache o (pos default_max_cardinality)) true t.epoch
                (max_instruments_from_cfg t.cfg);
        }
      ] in
      let t2 : Telemetry o m = elim tp [
        | none ↦ t1
        | some p ↦ refresh_tracer_locked (record t1 { trace_provider = p })
      ] in
      record t2 { started = true }

  -- AllowSubjects, on a runtime whose registry is not nil.
  unfoldable pub allow_subjects : Telemetry o m → List Text → Telemetry o m
  allow_subjects t [] = t
  allow_subjects t (l ∷ labels) =
      let r = t.registry in
      record t {
        allowed_labels = t.allowed_labels ++ (l ∷ labels);
        registry = record r { cache = allow o r.cache (l ∷ labels) };
      }
