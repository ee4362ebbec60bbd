-- ===== src/Tests/ExampleRuns.antt =====
-- The example program on a host with nothing set: a tick, a signal, and the done context.
use tel.Base.{ℕ, ◌+◌, ◌-◌, ◌≤◌, ◌≡◌, refl, true, false, List, [], ◌∷◌, ◌++◌, length, arith}
use tel.Base.Int.{pos}
use tel.Base.Text.{Text, bytes, is_empty, is_space, text_eq, trim_space, trim_left}
use tel.Config.{Config, default_config}
use tel.OtlpDial.{uses_tls, otlp_dial_settings, otlp_exporter_options}
use tel.Environment.{env_string, env_parsed, apply_nested_env, resolve_pod}
use tel.Environment.Load.{
  config, raw_or, load_parsed, load_dot_env, load_config, name_service, name_pod,
  get_config_from_env,
}
use tel.Environment.Defaults.{empty_environ}
use tel.Metric.{new_attr_cache}
use tel.Metric.Preserve.{new_attr_cache-IsValid}
use tel.Instruments.Fast.{Fast, live, instrument_live}
use tel.Telemetry.{noop, new_telemetry}
use tel.Telemetry.Stop.{Answers, ShutdownError}
use tel.Telemetry.Progress.{IsReachable}
use tel.Telemetry.Balance.{weigh}
use tel.Example.{Units, Turn, interrupted, done, ticked, demo_environ}
use tel.Example.Ticks.{runs, run-expected_ticks}
use tel.Example.Expected.{taken, expected}
use tel.Metric.Refine.{view}
use tel.Instruments.Counter.{FastCounter}
use tel.Instruments.Histogram.{FastHistogram}
use tel.Instruments.Registry.{ok}
use tel.Telemetry.StartedCache.{started_cache}
use tel.Example.Stops.{stops}
use tel.Example.Created.{Gives}
use tel.Example.Main.{main, ended}
use tel.Example.Finished.{main-returns}
use tel.Tests.Setting.{plain, naming}
use tel.Tests.Surroundings.{lone_host, listing, read_bool, read_digits, read_number}
use tel.Tests.EnvironmentRuns.{from_nothing}
use tel.Tests.LifecycleRuns.{meter_of, reachable}
use tel.Tests.InitRuns.{process, one_each}

abbrev whole : Units ℕ Text
whole = record {
  float_seconds = λ d. 0;
  seconds = λ ended began. ended - began;
  zero_seconds = 0;
  error_text = λ e. e;
}

abbrev one_tick : List Turn
one_tick = ticked 50 70 (pos 20) ∷ interrupted ∷ []

abbrev processed : Fast Text plain.AddOption
processed = record { handle = bytes "processed"; opts = []; bound = true; epoch = 3 }

abbrev latency : Fast Text plain.RecordOption
latency = record { handle = bytes "latency"; opts = []; bound = true; epoch = 3 }

run-expected_ticks_example :
    let l = runs plain whole 3 processed latency one_tick (new_attr_cache plain (pos 2)) in
    (l.ticks
      ≡ expected plain whole processed latency
          (view plain (new_attr_cache plain (pos 2)))
          1
          (taken 0 false one_tick))
    × (length l.ticks ≡ l.count)
    × (l.cache.size ≤ (new_attr_cache plain (pos 2)).size + 3)
unfolding new_attr_cache live instrument_live
run-expected_ticks_example =
    run-expected_ticks plain whole 3 processed latency one_tick (new_attr_cache plain (pos 2))
      (new_attr_cache-IsValid plain (pos 2)) refl refl refl (omega arith, tt)

abbrev demo : Config
demo =
    let monitor = from_nothing.monitor_config in
    let tel = from_nothing.tel_config in
    record from_nothing {
      service = bytes "tel-example";
      monitor_config = record monitor { enable = false };
      tel_config = record tel { enable = false };
    }

demo_loads : get_config_from_env lone_host (demo_environ empty_environ) ≡ config demo
unfolding get_config_from_env demo_environ load_dot_env load_config load_parsed raw_or
    apply_nested_env env_string env_parsed resolve_pod name_service name_pod default_config
    read_bool read_digits read_number text_eq is_empty is_space trim_space trim_left
demo_loads = refl

demo-IsReachable : IsReachable (reachable true) demo
unfolding otlp_exporter_options otlp_dial_settings uses_tls is_empty default_config
demo-IsReachable = record { opts = _; dials = refl; metrics = refl; traces = refl; listens = refl }

naming_Gives : Gives naming
naming_Gives = record { counters = λ s name. (name, refl); histograms = λ s name. (name, refl) }

abbrev answers : Answers
answers = record { metric_ok = true; trace_ok = true; monitor_ok = true }

main-returns_example :
    let (p', result) =
      main listing plain naming meter_of lone_host ℕ Text whole
        (reachable true)
        answers
        (one_tick ++ (done ∷ []))
        process in
    (processed : FastCounter plain naming.Counter) × (latency : FastHistogram plain
      naming.Histogram)
    × (errors : List ShutdownError) × ((s : naming.State) × ((naming.int64_counter s
            (bytes "example.processed")
            []).1
          ≡ ok processed.handle)
        × ((naming.float64_histogram
              (naming.int64_counter s (bytes "example.processed") []).0
              (bytes "example.latency_seconds")
              []).1
            ≡ ok latency.handle))
    × (processed.opts ≡ [])
    × (latency.opts ≡ [])
    × (result
        ≡ ended listing plain naming meter_of lone_host ℕ Text whole
            (expected plain whole processed latency
              (view plain
                (started_cache plain naming meter_of (new_telemetry plain naming meter_of demo)))
              1
              (taken 0 false (one_tick ++ (done ∷ []))))
            errors)
    × (weigh one_each p'.world.opened ≡ weigh one_each p'.world.closed)
    × (p'.world.tracer_provider ≡ noop)
    × (p'.global.started ≡ false)
unfolding stops default_config
main-returns_example =
    main-returns listing plain naming meter_of lone_host ℕ Text whole one_each (reachable true)
      answers demo process one_tick [] naming_Gives demo_loads demo-IsReachable refl refl
      (omega arith) refl (omega arith, tt)
