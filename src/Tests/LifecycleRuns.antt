-- ===== src/Tests/LifecycleRuns.antt =====
-- The runtime at concrete inputs: the default configuration, an exporter that can be reached, and a
-- monitor that may not get its address.
use tel.Base.{ℕ, ◌+◌, ◌≡◌, refl, Bool, true, false, none, some, is_some, List, [], ◌∷◌, ◌++◌, arith}
use tel.Base.Text.{Text, bytes, is_empty, among}
use tel.Config.{Config, default_config}
use tel.OtlpDial.{
  Dial, Result, ok, listen_failed, uses_tls, otlp_dial_settings, otlp_exporter_options,
}
use tel.Metric.{new_attr_cache, is_allowed}
use tel.Base.Int.{pos}
use tel.Instruments.Fast.{Fast, live, instrument_live, emit}
use tel.Instruments.Recording.{emit_key}
use tel.Metric.Keys.{one}
use tel.Telemetry.{
  Provider, noop, sdk, Resource, metric_export, trace_export, monitor_server, World, Telemetry,
  closes, refresh_tracer_locked, new_telemetry, allow_subjects,
}
use tel.Telemetry.Start.{
  Attempt, Prepared, install_propagator, configure_export_compression, new_meter_provider,
  new_tracer_provider, add_tracer, init_providers, rollback_start, start_monitor, start_cache,
  prepare, commit, start,
}
use tel.Telemetry.Stop.{Answers, shutdown}
use tel.Telemetry.Balance.{weigh, prepared_weight}
use tel.Telemetry.Settled.{Call, start_with, shutdown_with, allow_labels, empty_world, calls}
use tel.Telemetry.Lifecycle.{shutdown-releases, start_fails-releases}
use tel.Telemetry.Epochs.{shutdown-retires}
use tel.Telemetry.Races.{commit_lost}
use tel.Telemetry.Allowed.{commit-allow_subjects}
use tel.Telemetry.StartedCache.{started_cache}
use tel.Metric.Deny.{registered}
use tel.Base.Assoc.{text_Eq, lookup as map_lookup}
use tel.Tests.Setting.{plain, naming, orders, late}

abbrev pub meter_of : Provider → Text → List Text
meter_of p name = []

abbrev pub reachable : Bool → Attempt
reachable listen = record {
  append_certs = λ _. true;
  key_pair = λ _ _. true;
  metric_exporter = λ opts. true;
  trace_exporter = λ opts. true;
  listen = listen;
}

abbrev flushed : Answers
flushed = record { metric_ok = true; trace_ok = false; monitor_ok = true }

abbrev pub cfg : Config
cfg = default_config (bytes "host") orders

abbrev one_each : Resource → ℕ
one_each r = 1

abbrev before : List Call
before =
    allow_labels (orders ∷ [])
    ∷ start_with (reachable true)
    ∷ start_with (reachable true)
    ∷ shutdown_with flushed
    ∷ []

abbrev started_twice : List Call
started_twice = before ++ (start_with (reachable true) ∷ [])

shutdown-releases_example :
    let (t, w) =
      calls plain naming meter_of started_twice
        (new_telemetry plain naming meter_of cfg, empty_world) in
    let (t', w', errors) = shutdown plain naming meter_of flushed t w in
    (weigh one_each w'.opened ≡ weigh one_each w'.closed)
    × (w'.tracer_provider ≡ noop)
    × (t'.started ≡ false)
shutdown-releases_example =
    shutdown-releases plain naming meter_of one_each cfg started_twice flushed

program : Unit {0}
unfolding calls start prepare init_providers start_monitor rollback_start commit new_meter_provider
    new_tracer_provider add_tracer configure_export_compression install_propagator shutdown
    new_telemetry refresh_tracer_locked allow_subjects otlp_exporter_options otlp_dial_settings
    uses_tls is_empty default_config live instrument_live
program = tt

-- The second Start finds the monitor's address taken.
start_fails-releases_example :
    let (t, w) =
      calls plain naming meter_of before (new_telemetry plain naming meter_of cfg, empty_world) in
    let (t', w', result) = start plain naming meter_of (reachable false) t w in
    (weigh one_each w'.opened ≡ weigh one_each w'.closed)
    × (w'.tracer_provider ≡ noop)
    × (t'.started ≡ false)
unfolding program
start_fails-releases_example =
    start_fails-releases plain naming meter_of one_each cfg before (reachable false) listen_failed
      refl

abbrev running : Telemetry plain naming × World
running =
    calls plain naming meter_of (start_with (reachable true) ∷ [])
      (new_telemetry plain naming meter_of cfg, empty_world)

-- An instrument of the first epoch.
abbrev jobs : Fast Text plain.AddOption
jobs = record { handle = orders; opts = []; bound = true; epoch = 1 }

shutdown-retires_example :
    let current =
      (calls plain naming meter_of
        (shutdown_with flushed ∷ start_with (reachable true) ∷ [])
        running).0.epoch in
    (emit_key plain {V = ℕ}
        (λ e. e.add_opts)
        current
        (new_attr_cache plain (pos 2))
        jobs
        1
        (one orders)
      ≡ (new_attr_cache plain (pos 2), []))
    × (emit {V = ℕ} current jobs 1 ≡ [])
unfolding program
shutdown-retires_example =
    shutdown-retires meter_of {V = ℕ} (λ e. e.add_opts) jobs flushed
      (start_with (reachable true) ∷ []) running.0 running.1 (new_attr_cache plain (pos 2)) 1
      (one orders) refl (omega arith) refl refl (omega arith)

-- What a second Start has built while the first one ran.
abbrev rival : Prepared plain
rival = record {
  providers = record {
    metric_provider = sdk 7;
    trace_provider = sdk 8;
    shutdown_fn = some (closes (metric_export 7));
    trace_shutdown = some (closes (trace_export 8));
    trace_installed = true;
  };
  cache = new_attr_cache plain (pos 2);
  monitor = none;
}

commit_lost_example :
    let (t', w') = commit plain naming meter_of rival running.0 running.1 in
    (t' ≡ running.0)
    × (weigh one_each w'.closed
        ≡ weigh one_each running.1.closed + prepared_weight one_each (ok rival))
    × (weigh one_each w'.opened ≡ weigh one_each running.1.opened)
    × (w'.tracer_provider ≡ noop)
    × (t'.trace_installed ≡ true)
unfolding program
commit_lost_example =
    commit_lost plain naming meter_of one_each rival running.0 running.1 refl refl refl

-- The default configuration, which here denies unknown labels.
unfoldable strict : Config
unfolding default_config
strict =
    let tel = cfg.tel_config in
    let metrics = tel.metrics in
    let detector = metrics.cardinality_detector in
    record cfg {
      tel_config = record tel {
        metrics = record metrics { cardinality_detector = record detector { deny_unknown = true } };
      };
    }

abbrev guarded : Telemetry plain naming
guarded = new_telemetry plain naming meter_of strict

abbrev built : Telemetry plain naming × World × Result (Prepared plain)
built = prepare plain naming meter_of (reachable true) guarded empty_world

-- What this Start has prepared.
abbrev own : Prepared plain
own = record {
  providers = record {
    metric_provider = sdk 0;
    trace_provider = sdk 1;
    shutdown_fn = some (closes (metric_export 0));
    trace_shutdown = some (closes (trace_export 1));
    trace_installed = true;
  };
  cache = start_cache plain naming meter_of guarded;
  monitor = some (monitor_server 2);
}

commit-allow_subjects_example :
    let t2 = allow_subjects plain naming meter_of built.0 (late ∷ []) in
    let (t', w') = commit plain naming meter_of own t2 built.1 in
    (t'.started ≡ true)
    × (is_some (map_lookup (registered plain t2.registry.cache) late) ≡ true)
    × (is_some (map_lookup (registered plain (started_cache plain naming meter_of t')) late) ≡ true)
    × (is_allowed plain t'.registry.cache (late ∷ []) ≡ false)
unfolding program strict among
commit-allow_subjects_example =
    commit-allow_subjects plain naming meter_of (reachable true) guarded built.0 empty_world built.1
      own late refl refl refl refl refl

abbrev plain_dial : Dial
plain_dial = record {
  tls_config = none;
  endpoint = bytes "127.0.0.1:4317";
  compress = true;
  insecure = true;
}
