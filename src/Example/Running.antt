-- ===== src/Example/Running.antt =====
-- The example from the runtime that Init returns to its shutdown.
use tel.Base.{ℕ, ◌≤◌, ◌≡◌, refl, ap, subst, ◌∙◌, true, false, List, [], ◌∷◌, ◌++◌, arith}
use tel.Base.Int.{ℤ}
use tel.Base.Text.{Text, bytes}
use tel.Base.Assoc.{text_Eq, lookup, insert}
use tel.Otel.{Otel}
use tel.Environment.{Outside}
use tel.Logger.{Zerolog}
use tel.Metric.{AttrCache}
use tel.Metric.Invariant.{IsValid}
use tel.Instruments.Fast.{Fast, live, instrument_live}
use tel.Instruments.Counter.{FastCounter}
use tel.Instruments.Histogram.{FastHistogram}
use tel.Instruments.Registry.{
  Meter, Registry, Result, ok, RegistryError, fast_of, new_registry_with_cache, instrument_count,
  made, counter, histogram,
}
use tel.Telemetry.{Provider, Telemetry}
use tel.Telemetry.Stop.{Answers, shutdown}
use tel.Init.{Process, running}
use tel.Example.{Units, Turn, done, Tick, Loop}
use tel.Example.Main.{Ended, with_runtime, with_counter, with_histogram, after_loop, ended}
use tel.Example.Created.{Gives, counter_new, histogram_new}
use tel.Example.Stops.{stops, run_stops}
use tel.Example.Expected.{taken, expected}
use tel.Example.Ticks.{Clocked, runs, run-expected_ticks}
use tel.Metric.Refine.{view}

module _ (z : Zerolog) (o : Otel) (m : Meter) (meter_of : Provider → Text → m.State) (out : Outside)
    (F E : Type 0) (units : Units F E) where
  -- The process is shut down with the runtime as it is, except for its registry.
  abbrev pub ShutsDown :
      Answers
      → Process z o m
      → Telemetry o m
      → List (Tick o m.Counter m.Histogram F E)
      → Process z o m × Ended o m F E
      → Type 0
  ShutsDown a p t ticks result =
      (r : Registry o m) × (let (t', w, errors) =
          shutdown o m meter_of a (record t { registry = r }) p.world in
        result
        ≡ (record p { global = t'; world = w }, ended z o m meter_of out F E units ticks errors))

  after_loop-ShutsDown :
      (a : Answers) (p : Process z o m) (t : Telemetry o m) (r : Registry o m)
      (l : Loop o m.Counter m.Histogram F E)
      → l.returned ≡ true
      → ShutsDown a p t l.ticks (after_loop z o m meter_of out F E units a p t r l)
  after_loop-ShutsDown a p t r l h = (record r { cache = l.cache }, simp h refl)

  live_own : {H O : Type 0} (f : Fast H O) (n : ℕ) → f.epoch ≡ n → live n f ≡ true
  unfolding live instrument_live
  live_own f n h = ground arith

  module _ (a : Answers) (before after : List Turn) (p : Process z o m) (t : Telemetry o m) where
    abbrev pub turns : List Turn
    turns = before ++ (done ∷ after)

    -- The process has recorded each tick with the two instruments that a meter gave it, without
    -- options of their own, and is shut down.
    abbrev pub Finishes : AttrCache o → Process z o m × Ended o m F E → Type 0
    Finishes c result =
        (processed : FastCounter o m.Counter) × (latency : FastHistogram o m.Histogram)
        × ((s : m.State) × ((m.int64_counter s (bytes "example.processed") []).1
              ≡ ok processed.handle)
            × ((m.float64_histogram (m.int64_counter s (bytes "example.processed") []).0
                  (bytes "example.latency_seconds") []).1
                ≡ ok latency.handle))
        × (processed.opts ≡ [])
        × (latency.opts ≡ [])
        × ShutsDown a p t (expected o units processed latency (view o c) 1 (taken 0 false turns))
            result

    -- What stands for the loop: its instruments, and the registry's cache.
    record IsReady (processed : FastCounter o m.Counter) (latency : FastHistogram o m.Histogram)
        (c : AttrCache o) : Type 0 where
      meter : m.State
      counter_given : (m.int64_counter meter (bytes "example.processed") []).1 ≡ ok processed.handle
      histogram_given :
          (m.float64_histogram
            (m.int64_counter meter (bytes "example.processed") []).0
            (bytes "example.latency_seconds")
            []).1
          ≡ ok latency.handle
      counts : processed.epoch ≡ t.epoch
      times : latency.epoch ≡ t.epoch
      plain_counter : processed.opts ≡ []
      plain_histogram : latency.opts ≡ []
      valid : IsValid o c
      unguarded : c.deny_unknown ≡ false

    with_histogram-Finishes :
        (processed : FastCounter o m.Counter) (latency : FastHistogram o m.Histogram)
        (r : Registry o m)
        (x : Registry o m × Result (RegistryError m.Failure) (FastHistogram o m.Histogram))
        → x ≡ (r, ok latency)
        → IsReady processed latency r.cache
        → stops 0 before ≡ true
        → Clocked turns
        → Finishes r.cache (with_histogram z o m meter_of out F E units a turns p t processed x)
    with_histogram-Finishes processed latency r x made ready due clocked =
        let (ticks, _, _) =
          run-expected_ticks o units t.epoch processed latency turns r.cache ready.valid
            ready.unguarded (live_own processed t.epoch ready.counts)
            (live_own latency t.epoch ready.times) clocked in
        let l = runs o units t.epoch processed latency turns r.cache in
        let over = run_stops o units t.epoch processed latency before after r.cache due in
        (
          processed,
          latency,
          (ready.meter, ready.counter_given, ready.histogram_given),
          ready.plain_counter,
          ready.plain_histogram,
          rw made (
              subst
                (λ ticks. ShutsDown a p t ticks (after_loop z o m meter_of out F E units a p t r l))
                ticks (after_loop-ShutsDown a p t r l over)),
        )

    with_counter-Finishes :
        (processed : FastCounter o m.Counter) (r : Registry o m)
        (x : Registry o m × Result (RegistryError m.Failure) (FastCounter o m.Counter))
        → x ≡ (r, ok processed)
        → (latency : FastHistogram o m.Histogram) {r' : Registry o m}
        → histogram o m r (bytes "example.latency_seconds") [] ≡ (r', ok latency)
        → IsReady processed latency r'.cache
        → stops 0 before ≡ true
        → Clocked turns
        → Finishes r'.cache (with_counter z o m meter_of out F E units a turns p t x)
    with_counter-Finishes processed r x made latency {r' = r'} made' ready due clocked = rw made (
        with_histogram-Finishes processed latency r'
          (histogram o m r (bytes "example.latency_seconds") []) made' ready due clocked)

    module _ (gives : Gives m) (s : m.State) (c : AttrCache o) (max : ℤ) where
      abbrev pub new_one : Registry o m
      new_one = new_registry_with_cache o m s c true t.epoch max

      pub with_runtime-Finishes :
          t.registry ≡ new_one
          → 2 ≤ new_one.max_instruments
          → IsValid o c
          → c.deny_unknown ≡ false
          → stops 0 before ≡ true
          → Clocked turns
          → Finishes c (with_runtime z o m meter_of out F E units a turns (p, running t))
      unfolding new_registry_with_cache instrument_count lookup insert
      with_runtime-Finishes fresh room valid unguarded due clocked =
          let (h, given) = gives.counters s (bytes "example.processed") in
          let processed : FastCounter o m.Counter = fast_of o m new_one h in
          let r : Registry o m = record new_one {
            meter = (m.int64_counter s (bytes "example.processed") []).0;
            counters = (bytes "example.processed", processed) ∷ [];
          } in
          let (h', given') = gives.histograms r.meter (bytes "example.latency_seconds") in
          let latency : FastHistogram o m.Histogram = fast_of o m r h' in
          let created =
            counter_new o m new_one (bytes "example.processed") h refl (omega (arith, room))
              given in
          let created' =
            histogram_new o m r (bytes "example.latency_seconds") h' refl (omega (arith, room))
              given' in
          let registered =
            ap (λ (r : Registry o m). counter o m r (bytes "example.processed") []) fresh
            ∙ created in
          with_counter-Finishes processed r (counter o m t.registry (bytes "example.processed") [])
            registered latency created'
            (record {
              meter = s;
              counter_given = given;
              histogram_given = given';
              counts = refl;
              times = refl;
              plain_counter = refl;
              plain_histogram = refl;
              valid = valid;
              unguarded = unguarded;
            })
            due clocked
