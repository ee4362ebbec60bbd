-- ===== src/Example/Expected.antt =====
-- What the example is to record: for each tick that comes before the loop returns, one count and the
-- time that it took, under one of three subjects in turn.
use tel.Base.{ℕ, ◌+◌, ◌%◌, Bool, true, false, ◌||◌, none, List, [], ◌∷◌, ◌++◌, if◌then◌else◌, leb}
use tel.Base.Int.{ℤ}
use tel.Base.Text.{bytes}
use tel.Otel.{Otel}
use tel.Logger.Events.{trace_func}
use tel.Metric.Keys.{one}
use tel.Metric.{SubjectEntry}
use tel.Metric.Refine.{Interner, intern}
use tel.Instruments.Counter.{FastCounter}
use tel.Instruments.Histogram.{FastHistogram}
use tel.Example.{Units, Turn, interrupted, done, ticked, Tick}

abbrev pub Times : Type 0
Times = ℕ × ℕ × ℤ

-- The times of the ticks before the done context is met after a signal or a tenth tick: `n` ticks were
-- met, and `signalled` is whether a signal was.
unfoldable pub taken : ℕ → Bool → List Turn → List Times
taken n signalled [] = []
taken n signalled (interrupted ∷ turns) = taken n true turns
taken n signalled (done ∷ turns) =
    let rest = taken n signalled turns in if signalled || leb 10 n then [] else rest
taken n signalled (ticked began ended took ∷ turns) =
    (began, ended, took) ∷ taken (n + 1) signalled turns

module _ (o : Otel) {C H F E : Type 0} (units : Units F E) (processed : FastCounter o C)
    (latency : FastHistogram o H) where
  -- The record of the i-th tick, with the entry of its subject.
  unfoldable pub expected_tick : SubjectEntry o → ℕ → Times → Tick o C H F E
  expected_tick e i (began, ended, took) = record {
    subject = bytes "demo." ++ ((48 + i % 3) ∷ []);
    counted =
        record { handle = processed.handle; value = 1; opts = processed.opts ++ e.add_opts } ∷ [];
    timed =
        record {
          handle = latency.handle;
          value = units.seconds ended began;
          opts = latency.opts ++ e.record_opts;
        }
        ∷ [];
    traced = trace_func units.float_seconds units.error_text (bytes "example.tick") none took;
    complained = false;
  }

  -- The records of ticks, from the i-th on, over an interner.
  unfoldable pub expected : Interner o → ℕ → List Times → List (Tick o C H F E)
  expected m i [] = []
  expected m i (t ∷ ts) =
      let (m', e) = intern o m (one (bytes "demo." ++ ((48 + i % 3) ∷ []))) in
      expected_tick e i t ∷ expected m' (i + 1) ts
