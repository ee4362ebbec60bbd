-- ===== src/Instruments/Registry.antt =====
-- instruments.go: Registry. The meter is a parameter with a state of its own, so that a theorem can
-- say how often the registry asks it for an instrument. A nil instrument with an error is `err`.
use tel.Base.{ℕ, ◌+◌, Bool, false, Option, none, some, List, [], if◌then◌else◌, leb, length}
use tel.Base.Int.{ℤ, pos, or_default}
use tel.Base.Text.{Text}
use tel.Base.Assoc.{text_Eq, Map, lookup, insert}
use tel.Otel.{Otel}
use tel.Cardinality.{default_max_cardinality, default_max_instruments}
use tel.Metric.{AttrCache, new_attr_cache}
use tel.Instruments.Fast.{Fast}
use tel.Instruments.Counter.{FastCounter}
use tel.Instruments.Histogram.{FastHistogram}
use tel.Instruments.Gauge.{FastGauge}

pub data Result (E A : Type 0) : Type 0 where
  ok : A → Result E A
  err : E → Result E A

-- metric.Meter: what a call returns, and the meter afterwards.
pub record Meter : Type 1 where
  pub State : Type 0
  pub Failure : Type 0
  pub Counter : Type 0
  pub Histogram : Type 0
  pub Gauge : Type 0
  pub CounterOption : Type 0
  pub HistogramOption : Type 0
  pub GaugeOption : Type 0
  pub int64_counter : State → Text → List CounterOption → State × Result Failure Counter
  pub float64_histogram : State → Text → List HistogramOption → State × Result Failure Histogram
  pub int64_gauge : State → Text → List GaugeOption → State × Result Failure Gauge

pub data RegistryError (F : Type 0) : Type 0 where
  max_instruments_exceeded : ℕ → RegistryError F
  meter_failed : F → RegistryError F

pub record Registry (o : Otel) (m : Meter) : Type 0 where
  pub meter : m.State
  pub cache : AttrCache o
  -- false where the epoch pointer is nil
  pub bound : Bool
  pub counters : Map Text (FastCounter o m.Counter)
  pub hists : Map Text (FastHistogram o m.Histogram)
  pub gauges : Map Text (FastGauge o m.Gauge)
  pub epoch : ℕ
  pub max_instruments : ℕ

module _ (o : Otel) (m : Meter) where
  open m use {
    State, Failure, Counter, Histogram, Gauge, CounterOption, HistogramOption, GaugeOption,
    int64_counter, float64_histogram, int64_gauge,
  }

  unfoldable pub new_registry_with_cache : State → AttrCache o → Bool → ℕ → ℤ → Registry o m
  new_registry_with_cache meter cache bound epoch max_instruments = record {
    meter = meter;
    cache = cache;
    bound = bound;
    counters = [];
    hists = [];
    gauges = [];
    epoch = epoch;
    max_instruments = or_default max_instruments default_max_instruments;
  }

  -- newRegistry, whose instruments have no epoch
  abbrev pub new_registry : State → Registry o m
  new_registry meter =
      new_registry_with_cache meter (new_attr_cache o (pos default_max_cardinality)) false 0
        (pos default_max_instruments)

  unfoldable pub instrument_count : Registry o m → ℕ
  instrument_count r = length r.counters + length r.hists + length r.gauges

  -- The part under the write lock: the second lookup, the limit, the creation, the store.
  unfoldable pub create_locked :
      {T : Type 0}
      → Registry o m
      → (Registry o m → Option T)
      → (Registry o m → Registry o m × Result Failure T)
      → (Registry o m → T → Registry o m)
      → Registry o m × Result (RegistryError Failure) T
  create_locked reg lookup create store = elim (lookup reg) [
    | some existing ↦ (reg, ok existing)
    | none ↦
        if leb reg.max_instruments (instrument_count reg)
        then (reg, err (max_instruments_exceeded reg.max_instruments))
        else (let (reg', result) = create reg in
            elim result [
              | err e ↦ (reg', err (meter_failed e))
              | ok created ↦ (store reg' created, ok created)
            ])
  ]

  unfoldable pub get_or_create :
      {T : Type 0}
      → Registry o m
      → (Registry o m → Option T)
      → (Registry o m → Registry o m × Result Failure T)
      → (Registry o m → T → Registry o m)
      → Registry o m × Result (RegistryError Failure) T
  get_or_create reg lookup create store = elim (lookup reg) [
    | some existing ↦ (reg, ok existing)
    | none ↦ create_locked reg lookup create store
  ]

  -- An instrument of the registry: its cache is the registry's, its options are none.
  abbrev pub fast_of : {H O : Type 0} → Registry o m → H → Fast H O
  fast_of r handle = record { handle = handle; opts = []; bound = r.bound; epoch = r.epoch }

  -- `if err != nil { return nil, err }; return &Fast...{...}, nil`, and the meter afterwards
  abbrev pub made :
      {H O : Type 0}
      → Registry o m
      → State × Result Failure H
      → Registry o m × Result Failure (Fast H O)
  made r (meter, err e) = (record r { meter = meter }, err e)
  made r (meter, ok handle) = (record r { meter = meter }, ok (fast_of r handle))

  unfoldable pub counter :
      Registry o m
      → Text
      → List CounterOption
      → Registry o m × Result (RegistryError Failure) (FastCounter o Counter)
  counter r name opts =
      get_or_create r (λ r. lookup r.counters name) (λ r. made r (int64_counter r.meter name opts))
        (λ r fast. record r { counters = insert r.counters name fast })

  unfoldable pub histogram :
      Registry o m
      → Text
      → List HistogramOption
      → Registry o m × Result (RegistryError Failure) (FastHistogram o Histogram)
  histogram r name opts =
      get_or_create r (λ r. lookup r.hists name) (λ r. made r (float64_histogram r.meter name opts))
        (λ r fast. record r { hists = insert r.hists name fast })

  unfoldable pub gauge :
      Registry o m
      → Text
      → List GaugeOption
      → Registry o m × Result (RegistryError Failure) (FastGauge o Gauge)
  gauge r name opts =
      get_or_create r (λ r. lookup r.gauges name) (λ r. made r (int64_gauge r.meter name opts))
        (λ r fast. record r { gauges = insert r.gauges name fast })
