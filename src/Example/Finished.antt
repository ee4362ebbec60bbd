-- ===== src/Example/Finished.antt =====
-- The example from its start to its end.
use tel.Base.{ℕ, ◌≤◌, ◌≡◌, refl, ap, ◌∙◌, true, false, List, [], ◌∷◌, ◌++◌, arith}
use tel.Base.Int.{ℤ, pos, or_default}
use tel.Cardinality.{default_max_instruments}
use tel.Telemetry.Progress.{IsReachable, start-ok}
use tel.Telemetry.Watched.{start-Watches}
use tel.Init.Started.{new_telemetry_cfg, init-started}
use tel.Telemetry.StartedCache.{started_cache, started_cache-IsValid, started_cache-deny_unknown}
use tel.Base.Text.{Text, bytes}
use tel.Base.Assoc.{text_Eq}
use tel.Otel.{Otel}
use tel.Config.{Config}
use tel.Environment.{Outside}
use tel.Environment.Load.{config, get_config_from_env}
use tel.Logger.{Zerolog}
use tel.Instruments.Counter.{FastCounter}
use tel.Instruments.Histogram.{FastHistogram}
use tel.Instruments.Registry.{Meter, Registry, ok, new_registry_with_cache}
use tel.Telemetry.Balance.{weigh}
use tel.Telemetry.Settled.{IsSettled, empty_world, start-IsSettled, new_telemetry-IsSettled}
use tel.Telemetry.Lifecycle.{settled-releases}
use tel.Telemetry.{
  max_instruments_from_cfg, refresh_tracer_locked, Provider, noop, Resource, World, Telemetry,
  new_telemetry,
}
use tel.Telemetry.Start.{Attempt, start}
use tel.Telemetry.Stop.{Answers, ShutdownError, shutdown}
use tel.Init.{Process, Outcome, init}
use tel.Example.{Units, Turn, done, Tick, demo_environ}
use tel.Example.Main.{Ended, with_runtime, ended, main}
use tel.Example.Created.{Gives}
use tel.Example.Stops.{stops}
use tel.Example.Ticks.{Clocked}
use tel.Example.Expected.{taken, expected}
use tel.Metric.Refine.{view}
use tel.Example.Running.{ShutsDown, with_runtime-Finishes}

module _ (z : Zerolog) (o : Otel) (m : Meter) (meter_of : Provider → Text → m.State) (out : Outside)
    (F E : Type 0) (units : Units F E) where
  registry-IsSettled :
      (t : Telemetry o m) (w : World) (r : Registry o m)
      → IsSettled o m t w
      → IsSettled o m (record t { registry = r }) w
  registry-IsSettled t w r s = record {
    balanced = s.balanced;
    stopped_holds_nothing = s.stopped_holds_nothing;
    stopped_installs_nothing = s.stopped_installs_nothing;
    tracer = s.tracer;
  }

  new_telemetry_off : (cfg : Config) → (new_telemetry o m meter_of cfg).started ≡ false
  unfolding new_telemetry refresh_tracer_locked
  new_telemetry_off cfg = refl

  IsReleased : (Resource → ℕ) → Process z o m → Type 0
  IsReleased f p =
      (weigh f p.world.opened ≡ weigh f p.world.closed)
      × (p.world.tracer_provider ≡ noop)
      × (p.global.started ≡ false)

  ShutsDown-IsReleased :
      (f : Resource → ℕ) (a : Answers) (p : Process z o m) (t : Telemetry o m)
      (ticks : List (Tick o m.Counter m.Histogram F E)) (result : Process z o m × Ended o m F E)
      → IsSettled o m t p.world
      → ShutsDown z o m meter_of out F E units a p t ticks result
      → (errors : List ShutdownError) × (result.1 ≡ ended z o m meter_of out F E units ticks errors)
        × IsReleased f result.0
  unfolding IsReleased
  ShutsDown-IsReleased f a p t ticks result s (r, e) =
      let t1 = record t { registry = r } in
      (
        (shutdown o m meter_of a t1 p.world).2,
        ap (λ (x : Process z o m × Ended o m F E). x.1) e,
        rw e (settled-releases o m meter_of f t1 p.world a (registry-IsSettled t p.world r s)),
      )

  two_fit : (n : ℤ) (d : ℕ) → 2 ≤ or_default n d → 2 ≤ or_default (pos (or_default n d)) d
  two_fit n d h = ground arith

  -- Where the environment that the example makes gives a configuration whose addresses can be reached,
  -- which allows two instruments and denies no label, and the meter gives its instruments: whatever
  -- the turns of the loop are, if a signal or ten ticks come before a turn of the done context, main
  -- returns. The ticks up to that turn, and no others, were recorded in their order, each once by the
  -- counter and once, with the seconds it took, by the histogram that the meter gave for their two
  -- names, with the options of the tick's subject; all that was opened is closed, the process's tracer
  -- provider is noop, and the global runtime is stopped.
  pub main-returns :
      (f : Resource → ℕ) (attempt : Attempt) (a : Answers) (cfg : Config) (p : Process z o m)
      (before after : List Turn)
      → Gives m
      → get_config_from_env out (demo_environ p.environ) ≡ config cfg
      → IsReachable attempt cfg
      → p.world ≡ empty_world
      → cfg.tel_config.metrics.cardinality_detector.deny_unknown ≡ false
      → 2
        ≤ or_default cfg.tel_config.metrics.cardinality_detector.max_instruments
            default_max_instruments
      → stops 0 before ≡ true
      → Clocked (before ++ (done ∷ after))
      → let (p', result) =
          main z o m meter_of out F E units attempt a (before ++ (done ∷ after)) p in
        (processed : FastCounter o m.Counter) × (latency : FastHistogram o m.Histogram)
        × (errors : List ShutdownError) × ((s : m.State) × ((m.int64_counter s
                (bytes "example.processed")
                []).1
              ≡ ok processed.handle)
            × ((m.float64_histogram
                  (m.int64_counter s (bytes "example.processed") []).0
                  (bytes "example.latency_seconds")
                  []).1
                ≡ ok latency.handle))
        × (processed.opts ≡ [])
        × (latency.opts ≡ [])
        × (result
            ≡ ended z o m meter_of out F E units
                (expected o units processed latency
                  (view o (started_cache o m meter_of (new_telemetry o m meter_of cfg)))
                  1
                  (taken 0 false (before ++ (done ∷ after))))
                errors)
        × (weigh f p'.world.opened ≡ weigh f p'.world.closed)
        × (p'.world.tracer_provider ≡ noop)
        × (p'.global.started ≡ false)
  unfolding main new_registry_with_cache IsReleased
  main-returns f attempt a cfg p before after gives loads reachable fresh unguarded room due
        clocked =
      let t0 = new_telemetry o m meter_of cfg in
      let same = new_telemetry_cfg o m meter_of cfg in
      let s = start o m meter_of attempt t0 p.world in
      let p1 = record p { environ = demo_environ p.environ } in
      let (succeeds, _) = start-ok o m meter_of attempt t0 p.world (rw same reachable) in
      let (outcome, world) = init-started z o m meter_of out F attempt cfg p1 loads succeeds in
      let (_, _, _, (meter, registry)) =
        start-Watches o m meter_of attempt t0 p.world (new_telemetry_off cfg) succeeds in
      let (p2, _) = init z o m meter_of out F attempt p1 in
      let turns = before ++ (done ∷ after) in
      let settled : IsSettled o m s.0 p2.world =
        rw (world, fresh)
          (start-IsSettled meter_of attempt t0 empty_world
            (new_telemetry-IsSettled meter_of cfg)) in
      let denied =
        started_cache-deny_unknown o m meter_of t0
        ∙ ap (λ (c : Config). c.tel_config.metrics.cardinality_detector.deny_unknown) same
        ∙ unguarded in
      let (processed, latency, given, plain_counter, plain_histogram, down) =
        with_runtime-Finishes z o m meter_of out F E units a before after p2 s.0 gives meter
          (started_cache o m meter_of t0) (max_instruments_from_cfg t0.cfg) registry
          (rw same (
            two_fit cfg.tel_config.metrics.cardinality_detector.max_instruments
              default_max_instruments room))
          (started_cache-IsValid o m meter_of t0) denied due clocked in
      let ticks =
        expected o units processed latency (view o (started_cache o m meter_of t0)) 1
          (taken 0 false turns) in
      let (errors, ends, (closed, tracer, off)) =
        ShutsDown-IsReleased f a p2 s.0 ticks _ settled down in
      let same_end =
        ap
          (λ (x : Outcome F (Telemetry o m)).
            with_runtime z o m meter_of out F E units a turns (p2, x))
          outcome in
      rw same_end (
        processed, latency, errors, given, plain_counter, plain_histogram, ends, closed, tracer,
        off,
      )
