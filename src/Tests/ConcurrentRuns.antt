-- ===== src/Tests/ConcurrentRuns.antt =====
-- Two Starts of one runtime at once: both find it stopped and build, and one commits.
use tel.Base.{ℕ, ◌+◌, ◌≡◌, ◌⊎◌, refl, true, some, arith}
use tel.Base.Text.{is_empty}
use tel.Config.{default_config}
use tel.OtlpDial.{uses_tls, otlp_dial_settings, otlp_exporter_options}
use tel.Telemetry.{
  sdk, Resource, metric_export, trace_export, monitor_server, closes, new_telemetry,
  refresh_tracer_locked,
}
use tel.Telemetry.Start.{
  StartProviders, Prepared, install_propagator, configure_export_compression, new_meter_provider,
  new_tracer_provider, add_tracer, init_providers, rollback_start, start_monitor, start_cache,
  commit,
}
use tel.Telemetry.Balance.{weigh, held_weight}
use tel.Telemetry.Concurrent.{
  Run, Reach, here, next, checks, builds, monitors, commits, idle, checked, move, build, monitor,
  idle_run,
}
use tel.Telemetry.Concurrent.Held.{in_flight, Reach-held}
use tel.Telemetry.Concurrent.Tracer.{Known, Reach-Known}
use tel.Tests.Setting.{plain, naming}
use tel.Tests.LifecycleRuns.{meter_of, reachable, cfg}

abbrev stopped : Run plain naming
stopped = idle_run plain naming meter_of cfg

abbrev first_in : Run plain naming
first_in = move plain naming meter_of stopped 0 checked (stopped.runtime, stopped.world)

abbrev both_in : Run plain naming
both_in = move plain naming meter_of first_in 1 checked (first_in.runtime, first_in.world)

abbrev first_built : Run plain naming
first_built = build plain naming meter_of (reachable true) 0 both_in

abbrev both_built : Run plain naming
both_built = build plain naming meter_of (reachable true) 1 first_built

abbrev first_providers : StartProviders
first_providers = record {
  metric_provider = sdk 0;
  trace_provider = sdk 1;
  shutdown_fn = some (closes (metric_export 0));
  trace_shutdown = some (closes (trace_export 1));
  trace_installed = true;
}

abbrev first_listens : Run plain naming
first_listens = monitor plain naming meter_of (reachable true) 0 first_providers both_built

abbrev first_prepared : Prepared plain
first_prepared = record {
  providers = first_providers;
  cache = start_cache plain naming meter_of both_built.runtime;
  monitor = some (monitor_server 4);
}

abbrev first_started : Run plain naming
first_started =
    move plain naming meter_of first_listens 0 idle
      (commit plain naming meter_of first_prepared first_listens.runtime first_listens.world)

first_start : Reach plain naming meter_of 2 stopped first_started
unfolding init_providers start_monitor rollback_start commit new_meter_provider new_tracer_provider
    add_tracer configure_export_compression install_propagator new_telemetry refresh_tracer_locked
    otlp_exporter_options otlp_dial_settings uses_tls is_empty default_config
first_start =
    let both : Reach plain naming meter_of 2 stopped both_in =
      next (next here (checks 0 (omega arith) refl refl)) (checks 1 (omega arith) refl refl) in
    let built : Reach plain naming meter_of 2 stopped both_built =
      next (next both (builds (reachable true) 0 (omega arith) refl))
        (builds (reachable true) 1 (omega arith) refl) in
    next (next built (monitors (reachable true) 0 first_providers (omega arith) refl refl))
      (commits 0 first_prepared (omega arith) refl refl)

abbrev one_each : Resource → ℕ
one_each r = 1

Reach-held_example :
    let r = first_started in
    (weigh one_each r.world.opened
      ≡ weigh one_each r.world.closed + held_weight one_each r.runtime + in_flight one_each 2 r)
    × ((r.runtime.started ≡ true) ⊎ (held_weight one_each r.runtime ≡ 0))
Reach-held_example = Reach-held meter_of one_each 2 cfg first_start

Reach-Known_example : Known 2 first_started first_started.world.tracer_provider
Reach-Known_example = Reach-Known meter_of 2 cfg first_start
