-- ===== src/Telemetry/Stats.antt =====
-- tel.go: CardinalityStats, Registry and Meter, the views of a runtime. The detector that
-- `cardinality` points to is the one of the registry's cache.
use tel.Base.{some, is_some, if◌then◌else◌}
use tel.Base.Int.{pos, pos_part, ltb_ℤ}
use tel.Base.Text.{Text}
use tel.Otel.{Otel}
use tel.Cardinality.Report.{CardinalitySnapshot, snapshot, utilization}
use tel.Metric.Entries.{len, max_entries, subjects}
use tel.Instruments.Registry.{Meter, Registry, instrument_count}
use tel.Config.{Config, default_debug_config}
use tel.Telemetry.{Provider, Telemetry, new_telemetry, max_instruments_from_cfg}

module _ (o : Otel) (m : Meter) where
  unfoldable pub cardinality_stats : Telemetry o m → CardinalitySnapshot
  cardinality_stats t =
      let cache = t.registry.cache in
      let instruments = instrument_count o m t.registry in
      let max_inst = pos_part (max_instruments_from_cfg t.cfg) in
      let entries = len o cache in
      let max_card = pos (max_entries o cache) in
      if is_some t.cardinality
      then snapshot o (some cache) cache.detector instruments max_inst
      else record {
        miss_events = 0;
        overflow_events = 0;
        denied_events = 0;
        subject_names = subjects o cache;
        cache_entries = entries;
        max_cardinality = max_card;
        utilization_pct = if ltb_ℤ (pos 0) max_card then utilization entries max_card else 0;
        warn_utilization_pct = pos 0;
        instruments = instruments;
        max_instruments = max_inst;
        deny_unknown = cache.deny_unknown;
      }

  -- Registry, of a runtime whose registry is not nil
  unfoldable pub registry_of : Telemetry o m → Registry o m
  registry_of t = t.registry

  module _ (meter_of : Provider → Text → m.State) where
    -- Meter
    unfoldable pub meter : Telemetry o m → Text → m.State
    meter t ins = meter_of t.metric_provider ins

    -- NewWithConfig, New, for a host and its service, and copy
    abbrev pub new_with_config : Config → Telemetry o m
    new_with_config cfg = new_telemetry o m meter_of cfg

    abbrev pub new : Text → Text → Telemetry o m
    new host service = new_with_config (default_debug_config host service)

    abbrev pub copy : Telemetry o m → Telemetry o m
    copy t = new_telemetry o m meter_of t.cfg
