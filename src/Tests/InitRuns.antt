-- ===== src/Tests/InitRuns.antt =====
-- Init with nothing set in the environment: when its addresses can be reached, and when the monitor's
-- is taken.
use tel.Base.{ℕ, ◌≡◌, refl, true, false, [], get_or}
use tel.Base.Text.{bytes, is_empty}
use tel.Config.{default_config}
use tel.OtlpDial.{listen_failed, uses_tls, otlp_dial_settings, otlp_exporter_options}
use tel.Environment.Load.{load_dot_env, host_service}
use tel.Environment.Defaults.{empty_environ}
use tel.Logger.{apply_logger_from_config}
use tel.Telemetry.{noop, new_telemetry, refresh_tracer_locked, Resource}
use tel.Telemetry.Start.{
  install_propagator, configure_export_compression, new_meter_provider, new_tracer_provider,
  add_tracer, init_providers, rollback_start, start_monitor, prepare, commit, start,
}
use tel.Telemetry.Balance.{weigh}
use tel.Telemetry.Settled.{empty_world}
use tel.Init.{Process, running, start_error, fatal_exit, init}
use tel.Init.Started.{init-running, init_fails-releases}
use tel.Tests.Setting.{plain, naming, orders}
use tel.Tests.Surroundings.{lone_host, listing}
use tel.Tests.EnvironmentRuns.{host, from_nothing, from_nothing_loads}
use tel.Tests.LifecycleRuns.{meter_of, reachable}
use tel.Tests.StartRuns.{default_reachable}
use tel.Tests.LoggerRuns.{unset}

-- The process before Init, with a placeholder as its global runtime.
abbrev pub process : Process listing plain naming
process = record {
  environ = empty_environ;
  log = unset;
  global = new_telemetry plain naming meter_of (default_config [] orders);
  world = empty_world;
}

init-running_example :
    let (p', outcome) = init listing plain naming meter_of lone_host ℕ (reachable true) process in
    (outcome ≡ running p'.global)
    × (p'.global.started ≡ true)
    × (p'.global.cfg ≡ from_nothing)
    × (is_empty p'.global.cfg.service ≡ false)
    × (p'.log
        ≡ apply_logger_from_config listing lone_host
            (get_or (load_dot_env lone_host process.environ) process.environ)
            from_nothing
            process.log)
init-running_example =
    init-running listing plain naming meter_of lone_host ℕ (reachable true) from_nothing process
      from_nothing_loads (default_reachable host (host_service host))

abbrev pub one_each : Resource → ℕ
one_each r = 1

init_fails-releases_example :
    let (p', outcome) = init listing plain naming meter_of lone_host ℕ (reachable false) process in
    (outcome ≡ fatal_exit (start_error listen_failed) (bytes "tel: start"))
    × (weigh one_each p'.world.opened ≡ weigh one_each p'.world.closed)
    × (p'.world.tracer_provider ≡ noop)
    × (p'.global.started ≡ false)
unfolding start prepare init_providers start_monitor rollback_start commit new_meter_provider
    new_tracer_provider add_tracer configure_export_compression install_propagator new_telemetry
    refresh_tracer_locked otlp_exporter_options otlp_dial_settings uses_tls is_empty default_config
init_fails-releases_example =
    init_fails-releases listing plain naming meter_of lone_host ℕ one_each (reachable false)
      from_nothing process listen_failed from_nothing_loads refl refl
