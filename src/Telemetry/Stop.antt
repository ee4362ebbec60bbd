-- ===== src/Telemetry/Stop.antt =====
-- tel.go: Shutdown. Whether each of the three shutdown calls succeeds is an argument.
use tel.Base.{
  ◌+◌, ◌%◌, ◌^◌, Bool, true, false, not, Option, none, some, List, [], ◌∷◌, ◌++◌, if◌then◌else◌,
}
use tel.Base.Int.{pos}
use tel.Base.Text.{Text, bytes}
use tel.Otel.{Otel}
use tel.Cardinality.{default_max_cardinality}
use tel.Metric.{new_attr_cache}
use tel.Instruments.Registry.{Meter, new_registry_with_cache}
use tel.Telemetry.{
  Provider, noop, World, ShutdownFn, Telemetry, max_instruments_from_cfg, refresh_tracer_locked,
}
use tel.Telemetry.Start.{call_shutdown, close_option}

-- One part of the joined error.
pub data ShutdownError : Type 0 where
  metric_shutdown trace_shutdown monitor_shutdown : ShutdownError

-- Whether the calls that are made succeed. The function that only returns nil always does.
pub record Answers : Type 0 where
  pub metric_ok : Bool
  pub trace_ok : Bool
  pub monitor_ok : Bool

abbrev pub failure {ℓ} : {A : Type ℓ} → Option A → Bool → ShutdownError → List ShutdownError
failure none ok e = []
failure (some a) true e = []
failure (some a) false e = e ∷ []

-- A trace shutdown that does nothing returns no error.
abbrev pub trace_failure : Option ShutdownFn → Bool → List ShutdownError
trace_failure (some ShutdownFn.does_nothing) ok = []
trace_failure (some (ShutdownFn.closes r)) ok = failure (some r) ok trace_shutdown
trace_failure none ok = []

module _ (o : Otel) (m : Meter) (meter_of : Provider → Text → m.State) where
  -- the critical section, for a runtime that is started
  abbrev pub stopped : Telemetry o m → Telemetry o m
  stopped t =
      let epoch = (t.epoch + 1) % 2 ^ 64 in
      refresh_tracer_locked o m meter_of (record t {
        started = false;
        epoch = epoch;
        cardinality = none;
        shutdown_fn = none;
        trace_shutdown = none;
        monitor = none;
        trace_installed = false;
        metric_provider = noop;
        trace_provider = noop;
        registry =
            new_registry_with_cache o m (meter_of noop (bytes "noop"))
              (new_attr_cache o (pos default_max_cardinality)) true epoch
              (max_instruments_from_cfg t.cfg);
      })

  -- what follows the lock, for what the runtime held
  unfoldable pub close_held : Telemetry o m → World → World
  close_held t w =
      let w1 = close_option w t.cardinality in
      let w2 = call_shutdown w1 t.shutdown_fn in
      let w3 = call_shutdown w2 t.trace_shutdown in
      let w4 = close_option w3 t.monitor in
      if t.trace_installed then record w4 { tracer_provider = noop } else w4

  unfoldable pub shutdown :
      Answers → Telemetry o m → World → Telemetry o m × World × List ShutdownError
  unfolding close_held
  shutdown a t w = if not t.started then (t, w, []) else (
    stopped t,
    close_held t w,
    failure t.shutdown_fn a.metric_ok metric_shutdown
        ++ (trace_failure t.trace_shutdown a.trace_ok
            ++ failure t.monitor a.monitor_ok monitor_shutdown),
  )
