-- ===== src/Instruments/Timer.antt =====
-- instruments.go: Timer. A time is a number of nanoseconds since the epoch, and `seconds now start`
-- is float64(now - start) / float64(time.Second), a parameter.
use tel.Base.{ℕ, ◌≡◌, ◌≢◌, Option, none, some, List, [], arith, if◌then◌else◌, ◌==◌}
use tel.Base.Text.{Text}
use tel.Otel.{Otel}
use tel.Metric.{AttrCache}
use tel.Instruments.Fast.{Recorded}
use tel.Instruments.Histogram.{FastHistogram, record_value, record_with, record_with2, record_with3}

pub record Timer (o : Otel) (H : Type 0) : Type 0 where
  pub hist : Option (FastHistogram o H)
  pub start : ℕ

module _ (o : Otel) {H : Type 0} where
  unfoldable pub new_timer : Option (FastHistogram o H) → Timer o H
  new_timer hist = record { hist = hist; start = 0 }

  unfoldable pub start : ℕ → Timer o H → Timer o H
  start now t = record t { start = now }

module _ (o : Otel) {H V : Type 0} (seconds : ℕ → ℕ → V) (zero_seconds : V) where
  unfoldable pub elapsed : ℕ → Timer o H → V
  elapsed now t = if t.start == 0 then zero_seconds else seconds now t.start

  -- The body of the four `Stop` methods, over the call of the histogram that each makes.
  unfoldable pub stop_by :
      ℕ
      → AttrCache o
      → Timer o H
      → (FastHistogram o H → V → AttrCache o × List (Recorded H V o.RecordOption))
      → Timer o H × AttrCache o × List (Recorded H V o.RecordOption)
  stop_by now c t recorded = elim t.hist [
    | none ↦ (t, c, [])
    | some hist ↦
        let (c', calls) = recorded hist (elapsed now t) in
        if t.start == 0 then (t, c, []) else (record t { start = 0 }, c', calls)
  ]

  unfoldable pub stop :
      ℕ → ℕ → AttrCache o → Timer o H → Timer o H × AttrCache o × List (Recorded H V o.RecordOption)
  stop current now c t = stop_by now c t (λ hist v. (c, record_value o current hist v))

  unfoldable pub stop_with :
      ℕ
      → ℕ
      → AttrCache o
      → Timer o H
      → Text
      → Timer o H × AttrCache o × List (Recorded H V o.RecordOption)
  stop_with current now c t subject =
      stop_by now c t (λ hist v. record_with o current c hist v subject)

  unfoldable pub stop_with2 :
      ℕ
      → ℕ
      → AttrCache o
      → Timer o H
      → Text
      → Text
      → Timer o H × AttrCache o × List (Recorded H V o.RecordOption)
  stop_with2 current now c t subject status =
      stop_by now c t (λ hist v. record_with2 o current c hist v subject status)

  unfoldable pub stop_with3 :
      ℕ
      → ℕ
      → AttrCache o
      → Timer o H
      → Text
      → Text
      → Text
      → Timer o H × AttrCache o × List (Recorded H V o.RecordOption)
  stop_with3 current now c t subject status consumer =
      stop_by now c t (λ hist v. record_with3 o current c hist v subject status consumer)

  -- A timer with a histogram records the seconds since its last `Start` through it, at its first
  -- stop; any further stop before another `Start` records nothing and leaves the cache alone.
  pub stop_once :
      (current began now later : ℕ) (c d : AttrCache o) (t : Timer o H) (hist : FastHistogram o H)
      (subject subject' : Text)
      → t.hist ≡ some hist
      → began ≢ 0
      → let (t', c', calls) = stop_with current now c (start o began t) subject in
        ((c', calls) ≡ record_with o current c hist (seconds now began) subject)
        × (stop_with current later d t' subject' ≡ (t', d, []))
  unfolding stop_with stop_by elapsed start
  stop_once current began now later c d t hist subject subject' h ne = ground arith
