-- ===== src/Instruments/Creation.antt =====
-- The registry creates each instrument once, and no more than its limit.
use tel.Base.{ℕ, ◌+◌, ◌≤◌, ◌≡◌, refl, ◌∙◌, Bool, Option, none, some, List, [], ◌∷◌, arith}
use tel.Base.Int.{ℤ, or_default}
use tel.Base.Text.{Text}
use tel.Base.Assoc.{text_Eq, Map, lookup, insert, lookup-insert, length-insert, beq_refl}
use tel.Otel.{Otel}
use tel.Cardinality.{default_max_instruments}
use tel.Metric.{AttrCache}
use tel.Instruments.Fast.{Fast}
use tel.Instruments.Registry.{
  Registry, Meter, Result, ok, err, new_registry_with_cache, instrument_count, get_or_create,
  create_locked, made, counter, histogram, gauge,
}

lookup-insert_self :
    {V : Type 0} (m : Map Text V) (k : Text) (v : V) → lookup (insert m k v) k ≡ some v
lookup-insert_self m k v = rw (lookup-insert m k v k, beq_refl k)

module _ (o : Otel) (m : Meter) {T : Type 0} (find : Registry o m → Option T)
    (create : Registry o m → Registry o m × Result m.Failure T)
    (store : Registry o m → T → Registry o m) where
  -- What the closures of one kind of instrument do.
  record IsKind : Type 0 where
    found : (r : Registry o m) (t : T) → find (store r t) ≡ some t
    store_counts :
        (r : Registry o m) (t : T)
        → find r ≡ none
        → instrument_count o m (store r t) ≡ instrument_count o m r + 1
    store_limit : (r : Registry o m) (t : T) → (store r t).max_instruments ≡ r.max_instruments
    create_counts : (r : Registry o m) → instrument_count o m (create r).0 ≡ instrument_count o m r
    create_limit : (r : Registry o m) → (create r).0.max_instruments ≡ r.max_instruments
    create_finds : (r : Registry o m) → find (create r).0 ≡ find r

  get_or_create_known :
      (r : Registry o m) (t : T)
      → find r ≡ some t
      → get_or_create o m r find create store ≡ (r, ok t)
  unfolding get_or_create
  get_or_create_known r t h = rw (h, get_or_create)

  -- Whatever was returned is found afterwards.
  get_or_create_found :
      IsKind
      → (r s : Registry o m) (t : T) → get_or_create o m r find create store ≡ (s, ok t)
      → find s ≡ some t
  unfolding get_or_create create_locked
  get_or_create_found kind r s t h = ground (arith, kind.found (create r).0 t)

  get_or_create-bounded :
      IsKind
      → (r : Registry o m) → instrument_count o m r ≤ r.max_instruments
      → let s = (get_or_create o m r find create store).0 in
        (instrument_count o m s ≤ s.max_instruments) × (s.max_instruments ≡ r.max_instruments)
  unfolding get_or_create create_locked
  get_or_create-bounded kind r h = grind (
    arith,
    kind.create_counts r,
    kind.create_limit r,
    kind.create_finds r,
    kind.store_counts (create r).0,
    kind.store_limit (create r).0,
  )

module _ (o : Otel) (m : Meter) where
  -- Only the meter changes when an instrument is made.
  made_meter :
      {H : Type 0} (O : Type 0) (r : Registry o m) (x : m.State × Result m.Failure H)
      → (made o m {H = H} {O = O} r x).0 ≡ record r { meter = x.0 }
  made_meter O r (s, ok h) = refl
  made_meter O r (s, err e) = refl

  counter_kind :
      (name : Text) (opts : List m.CounterOption)
      → IsKind o m
          (λ r. lookup r.counters name)
          (λ r. made o m r (m.int64_counter r.meter name opts))
          (λ r fast. record r { counters = insert r.counters name fast })
  unfolding instrument_count
  counter_kind name opts = record {
    found = λ r t. lookup-insert_self r.counters name t;
    store_counts = λ r t h. omega (arith, length-insert r.counters name t h);
    store_limit = λ r t. refl;
    create_counts = λ r. rw made_meter;
    create_limit = λ r. rw made_meter;
    create_finds = λ r. rw made_meter;
  }

  hist_kind :
      (name : Text) (opts : List m.HistogramOption)
      → IsKind o m
          (λ r. lookup r.hists name)
          (λ r. made o m r (m.float64_histogram r.meter name opts))
          (λ r fast. record r { hists = insert r.hists name fast })
  unfolding instrument_count
  hist_kind name opts = record {
    found = λ r t. lookup-insert_self r.hists name t;
    store_counts = λ r t h. omega (arith, length-insert r.hists name t h);
    store_limit = λ r t. refl;
    create_counts = λ r. rw made_meter;
    create_limit = λ r. rw made_meter;
    create_finds = λ r. rw made_meter;
  }

  gauge_kind :
      (name : Text) (opts : List m.GaugeOption)
      → IsKind o m
          (λ r. lookup r.gauges name)
          (λ r. made o m r (m.int64_gauge r.meter name opts))
          (λ r fast. record r { gauges = insert r.gauges name fast })
  unfolding instrument_count
  gauge_kind name opts = record {
    found = λ r t. lookup-insert_self r.gauges name t;
    store_counts = λ r t h. omega (arith, length-insert r.gauges name t h);
    store_limit = λ r t. refl;
    create_counts = λ r. rw made_meter;
    create_limit = λ r. rw made_meter;
    create_finds = λ r. rw made_meter;
  }

  -- After a call that returned a counter, any call for the same name returns the same counter and
  -- changes nothing: the meter is not asked again.
  pub counter_again :
      (r s : Registry o m) (name : Text) (opts opts' : List m.CounterOption)
      {f : Fast m.Counter o.AddOption}
      → counter o m r name opts ≡ (s, ok f)
      → counter o m s name opts' ≡ (s, ok f)
  unfolding counter
  counter_again r s name opts opts' {f} h =
      get_or_create_known o m _ _ _ s f
        (get_or_create_found o m _ _ _ (counter_kind name opts) r s f h)

  pub histogram_again :
      (r s : Registry o m) (name : Text) (opts opts' : List m.HistogramOption)
      {f : Fast m.Histogram o.RecordOption}
      → histogram o m r name opts ≡ (s, ok f)
      → histogram o m s name opts' ≡ (s, ok f)
  unfolding histogram
  histogram_again r s name opts opts' {f} h =
      get_or_create_known o m _ _ _ s f
        (get_or_create_found o m _ _ _ (hist_kind name opts) r s f h)

  pub gauge_again :
      (r s : Registry o m) (name : Text) (opts opts' : List m.GaugeOption)
      {f : Fast m.Gauge o.RecordOption}
      → gauge o m r name opts ≡ (s, ok f)
      → gauge o m s name opts' ≡ (s, ok f)
  unfolding gauge
  gauge_again r s name opts opts' {f} h =
      get_or_create_known o m _ _ _ s f
        (get_or_create_found o m _ _ _ (gauge_kind name opts) r s f h)

-- A call of the registry.
pub data Request (m : Meter) : Type 0 where
  wants_counter : Text → List m.CounterOption → Request m
  wants_histogram : Text → List m.HistogramOption → Request m
  wants_gauge : Text → List m.GaugeOption → Request m

module _ (o : Otel) (m : Meter) where
  unfoldable pub request : Registry o m → Request m → Registry o m
  request r (wants_counter name opts) = (counter o m r name opts).0
  request r (wants_histogram name opts) = (histogram o m r name opts).0
  request r (wants_gauge name opts) = (gauge o m r name opts).0

  unfoldable pub requests : Registry o m → List (Request m) → Registry o m
  requests r [] = r
  requests r (q ∷ qs) = requests (request r q) qs

  abbrev IsBounded : Registry o m → ℕ → Type 0
  IsBounded r limit = (instrument_count o m r ≤ r.max_instruments) × (r.max_instruments ≡ limit)

  request-IsBounded :
      (r : Registry o m) (q : Request m) (limit : ℕ)
      → IsBounded r limit
      → IsBounded (request r q) limit
  unfolding request counter histogram gauge
  request-IsBounded r (wants_counter name opts) limit h =
      let (fits, same) = get_or_create-bounded o m _ _ _ (counter_kind o m name opts) r h.0 in
      (fits, same ∙ h.1)
  request-IsBounded r (wants_histogram name opts) limit h =
      let (fits, same) = get_or_create-bounded o m _ _ _ (hist_kind o m name opts) r h.0 in
      (fits, same ∙ h.1)
  request-IsBounded r (wants_gauge name opts) limit h =
      let (fits, same) = get_or_create-bounded o m _ _ _ (gauge_kind o m name opts) r h.0 in
      (fits, same ∙ h.1)

  requests-IsBounded :
      (r : Registry o m) (qs : List (Request m)) (limit : ℕ)
      → IsBounded r limit
      → IsBounded (requests r qs) limit
  unfolding requests
  requests-IsBounded r [] limit h = h
  requests-IsBounded r (q ∷ qs) limit h =
      requests-IsBounded (request r q) qs limit (request-IsBounded r q limit h)

  -- Whatever is asked of a new registry, it never holds more instruments, of the three kinds
  -- together, than its limit, or 500 where none is configured.
  pub instrument_count-requests-le :
      (s : m.State) (cache : AttrCache o) (bound : Bool) (epoch : ℕ) (n : ℤ) (qs : List (Request m))
      → instrument_count o m (requests (new_registry_with_cache o m s cache bound epoch n) qs)
        ≤ or_default n default_max_instruments
  unfolding new_registry_with_cache instrument_count
  instrument_count-requests-le s cache bound epoch n qs =
      let r = new_registry_with_cache o m s cache bound epoch n in
      let bounded =
        requests-IsBounded r qs (or_default n default_max_instruments) (omega arith, refl) in
      omega (arith, bounded.0, bounded.1)
