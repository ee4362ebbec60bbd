-- ===== src/Example/Main.antt =====
-- examples/basic/main.go: main, from Init to the deferred shutdown.
use tel.Base.{List, [], ◌∷◌, if◌then◌else◌}
use tel.Base.Text.{Text, bytes}
use tel.Otel.{Otel}
use tel.Environment.{Outside}
use tel.Logger.{Zerolog}
use tel.Logger.Events.{Fatal, fatal, fatal_err, fatal_msg}
use tel.Instruments.Counter.{FastCounter}
use tel.Instruments.Histogram.{FastHistogram}
use tel.Instruments.Registry.{Meter, RegistryError, Registry, Result, ok, err, counter, histogram}
use tel.Telemetry.{Provider, Telemetry}
use tel.Telemetry.Start.{Attempt}
use tel.Telemetry.Stop.{Answers, ShutdownError, shutdown}
use tel.Init.{Process, InitError, Outcome, running, exited, init}
use tel.Example.{Units, Turn, Tick, Loop, new_loop, run, demo_environ}

-- The process exits in Init or where an instrument is created, without the deferred calls; it returns
-- with the errors of its shutdown; or it has met all its turns and waits for the next.
pub data Ended (o : Otel) (m : Meter) (F E : Type 0) : Type 0 where
  init_failed : Fatal F InitError → Ended o m F E
  create_failed : Fatal F (RegistryError m.Failure) → Ended o m F E
  returned waiting : List (Tick o m.Counter m.Histogram F E) → Ended o m F E
  shutdown_failed :
      List (Tick o m.Counter m.Histogram F E) → ShutdownError → List ShutdownError → Ended o m F E

module _ (z : Zerolog) (o : Otel) (m : Meter) (meter_of : Provider → Text → m.State) (out : Outside)
    (F E : Type 0) (units : Units F E) where
  abbrev pub with_registry : Process z o m → Telemetry o m → Registry o m → Process z o m
  with_registry p t r = record p { global = record t { registry = r } }

  abbrev pub ended : List (Tick o m.Counter m.Histogram F E) → List ShutdownError → Ended o m F E
  ended ticks [] = returned ticks
  ended ticks (e ∷ errors) = shutdown_failed ticks e errors

  -- the deferred function, when the loop has returned
  abbrev pub after_loop :
      Answers
      → Process z o m
      → Telemetry o m
      → Registry o m
      → Loop o m.Counter m.Histogram F E
      → Process z o m × Ended o m F E
  after_loop a p t r l =
      let t1 = record t { registry = record r { cache = l.cache } } in
      let (t2, w, errors) = shutdown o m meter_of a t1 p.world in
      if l.returned
      then (record p { global = t2; world = w }, ended l.ticks errors)
      else (record p { global = t1 }, waiting l.ticks)

  abbrev pub with_histogram :
      Answers
      → List Turn
      → Process z o m
      → Telemetry o m
      → FastCounter o m.Counter
      → Registry o m × Result (RegistryError m.Failure) (FastHistogram o m.Histogram)
      → Process z o m × Ended o m F E
  with_histogram a turns p t processed (r, err e) = (
    with_registry p t r,
    create_failed (fatal_msg (fatal_err fatal e) (bytes "create histogram")),
  )
  with_histogram a turns p t processed (r, ok latency) = after_loop a p t r (
      run o m.Counter m.Histogram F E units t.epoch processed latency turns
        (new_loop o m.Counter m.Histogram F E r.cache))

  abbrev pub with_counter :
      Answers
      → List Turn
      → Process z o m
      → Telemetry o m
      → Registry o m × Result (RegistryError m.Failure) (FastCounter o m.Counter)
      → Process z o m × Ended o m F E
  with_counter a turns p t (r, err e) =
      (with_registry p t r, create_failed (fatal_msg (fatal_err fatal e) (bytes "create counter")))
  with_counter a turns p t (r, ok processed) =
      with_histogram a turns p t processed (histogram o m r (bytes "example.latency_seconds") [])

  abbrev pub with_runtime :
      Answers
      → List Turn
      → Process z o m × Outcome F (Telemetry o m)
      → Process z o m × Ended o m F E
  with_runtime a turns (p, exited f) = (p, init_failed f)
  with_runtime a turns (p, running t) =
      with_counter a turns p t (counter o m t.registry (bytes "example.processed") [])

  -- main, with the answers of Start and of Shutdown and the turns of its loop
  unfoldable pub main :
      Attempt → Answers → List Turn → Process z o m → Process z o m × Ended o m F E
  main start a turns p =
      with_runtime a turns
        (init z o m meter_of out F start (record p { environ = demo_environ p.environ }))
