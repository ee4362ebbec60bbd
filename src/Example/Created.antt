-- ===== src/Example/Created.antt =====
-- The instruments that the example makes in a registry.
use tel.Base.{◌<◌, ◌≡◌, Option, none, [], arith}
use tel.Base.Text.{Text}
use tel.Base.Assoc.{text_Eq, lookup, insert}
use tel.Otel.{Otel}
use tel.Instruments.Registry.{
  Meter, Registry, Result, ok, err, fast_of, instrument_count, get_or_create, create_locked, made,
  counter, histogram,
}

-- What the example relies on of a meter: it gives what it is asked for.
pub record Gives (m : Meter) : Type 0 where
  pub counters :
      (s : m.State) (name : Text) → (h : m.Counter) × ((m.int64_counter s name []).1 ≡ ok h)
  pub histograms :
      (s : m.State) (name : Text) → (h : m.Histogram) × ((m.float64_histogram s name []).1 ≡ ok h)

module _ (o : Otel) (m : Meter) where
  get_or_create_new :
      {T : Type 0} (find : Registry o m → Option T)
      (create : Registry o m → Registry o m × Result m.Failure T)
      (store : Registry o m → T → Registry o m) (r r' : Registry o m) (t : T)
      → find r ≡ none
      → instrument_count o m r < r.max_instruments
      → create r ≡ (r', ok t)
      → get_or_create o m r find create store ≡ (store r' t, ok t)
  unfolding get_or_create create_locked
  get_or_create_new find create store r r' t new room makes = ground (arith, new, makes)

  made-ok :
      {H O : Type 0} (r : Registry o m) (x : m.State × Result m.Failure H) (h : H)
      → x.1 ≡ ok h
      → made o m {O = O} r x ≡ (record r { meter = x.0 }, ok (fast_of o m r h))
  made-ok r (s, ok h') h e = ground (arith, e)
  made-ok r (s, err x) h e = ground (arith, e)

  pub counter_new :
      (r : Registry o m) (name : Text) (h : m.Counter)
      → lookup r.counters name ≡ none
      → instrument_count o m r < r.max_instruments
      → (m.int64_counter r.meter name []).1 ≡ ok h
      → counter o m r name [] ≡ (
        record r {
          meter = (m.int64_counter r.meter name []).0;
          counters = insert r.counters name (fast_of o m r h);
        },
        ok (fast_of o m r h),
      )
  unfolding counter
  counter_new r name h new room given =
      get_or_create_new _ _ _ r _ (fast_of o m r h) new room
        (made-ok r (m.int64_counter r.meter name []) h given)

  pub histogram_new :
      (r : Registry o m) (name : Text) (h : m.Histogram)
      → lookup r.hists name ≡ none
      → instrument_count o m r < r.max_instruments
      → (m.float64_histogram r.meter name []).1 ≡ ok h
      → histogram o m r name [] ≡ (
        record r {
          meter = (m.float64_histogram r.meter name []).0;
          hists = insert r.hists name (fast_of o m r h);
        },
        ok (fast_of o m r h),
      )
  unfolding histogram
  histogram_new r name h new room given =
      get_or_create_new _ _ _ r _ (fast_of o m r h) new room
        (made-ok r (m.float64_histogram r.meter name []) h given)
