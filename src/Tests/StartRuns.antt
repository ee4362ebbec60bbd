-- ===== src/Tests/StartRuns.antt =====
-- A Start that succeeds, at concrete inputs, and the snapshot of its runtime.
use tel.Base.{◌+◌, ◌≤◌, ◌≡◌, refl, true, List, [], ◌∷◌, length}
use tel.Base.Int.{pos, or_default}
use tel.Base.Text.{Text, bytes, is_empty}
use tel.Cardinality.{default_max_cardinality}
use tel.Config.{default_config}
use tel.OtlpDial.{
  with_endpoint, with_compressor, with_insecure, uses_tls, otlp_dial_settings,
  otlp_exporter_options,
}
use tel.Metric.Keys.{one, duo}
use tel.Metric.History.{Op, looks_up, denies, run}
use tel.Telemetry.{Telemetry, new_telemetry, refresh_tracer_locked}
use tel.Telemetry.Start.{
  install_propagator, configure_export_compression, new_meter_provider, new_tracer_provider,
  add_tracer, init_providers, rollback_start, start_monitor, prepare, commit, start,
}
use tel.Telemetry.Settled.{empty_world}
use tel.Telemetry.Progress.{IsReachable}
use tel.Telemetry.Stats.{cardinality_stats}
use tel.Telemetry.Watched.{start-cardinality_stats}
use tel.Tests.Setting.{plain, naming, orders, done, late}
use tel.Tests.LifecycleRuns.{meter_of, reachable, cfg}

abbrev stopped : Telemetry plain naming
stopped = new_telemetry plain naming meter_of cfg

module _ (host service : Text) where
  pub default_reachable : IsReachable (reachable true) (default_config host service)
  unfolding otlp_exporter_options otlp_dial_settings uses_tls is_empty default_config
  default_reachable = record {
    opts =
        with_endpoint (bytes "127.0.0.1:4317")
        ∷ with_compressor (bytes "gzip")
        ∷ with_insecure
        ∷ [];
    dials = refl;
    metrics = refl;
    traces = refl;
    listens = refl;
  }

abbrev uses : List Op
uses = looks_up (one orders) ∷ looks_up (duo orders done) ∷ denies true ∷ looks_up (one late) ∷ []

start-cardinality_stats_example :
    let t' = (start plain naming meter_of (reachable true) stopped empty_world).0 in
    let r = t'.registry in
    let limit =
      or_default cfg.tel_config.metrics.cardinality_detector.max_cardinality
        default_max_cardinality in
    let s =
      cardinality_stats plain naming
        (record t' { registry = record r { cache = run plain r.cache uses } }) in
    (s.miss_events ≡ s.cache_entries + s.overflow_events)
    × (s.cache_entries ≤ limit)
    × (s.max_cardinality ≡ pos limit)
    × (length s.subject_names ≡ s.cache_entries)
    × (s.utilization_pct ≤ 100)
unfolding start prepare init_providers start_monitor rollback_start commit new_meter_provider
    new_tracer_provider add_tracer configure_export_compression install_propagator new_telemetry
    refresh_tracer_locked otlp_exporter_options otlp_dial_settings uses_tls is_empty default_config
start-cardinality_stats_example =
    start-cardinality_stats plain naming meter_of (reachable true) stopped empty_world uses refl
      refl refl
