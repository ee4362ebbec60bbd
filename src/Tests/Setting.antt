-- ===== src/Tests/Setting.antt =====
-- A concrete OpenTelemetry for the runs: a set is its list of pairs, an option is its set, and a
-- meter's state is the names that it was asked for.
use tel.Base.{◌++◌, List, [], ◌∷◌, length}
use tel.Base.Text.{Text, bytes}
use tel.Otel.{Otel}
use tel.Instruments.Registry.{Meter, ok}

abbrev pub plain : Otel
plain = record {
  AttrSet = List (Text × Text);
  new_set = λ kvs. kvs;
  empty_set = [];
  set_len = λ s. length s;
  AddOption = List (Text × Text);
  RecordOption = List (Text × Text);
  with_attribute_set_add = λ s. s;
  with_attribute_set_record = λ s. s;
}

abbrev pub naming : Meter
naming = record {
  State = List Text;
  Failure = Unit {0};
  Counter = Text;
  Histogram = Text;
  Gauge = Text;
  CounterOption = Unit {0};
  HistogramOption = Unit {0};
  GaugeOption = Unit {0};
  int64_counter = λ s name opts. (s ++ name ∷ [], ok name);
  float64_histogram = λ s name opts. (s ++ name ∷ [], ok name);
  int64_gauge = λ s name opts. (s ++ name ∷ [], ok name);
}

abbrev pub orders : Text
orders = bytes "orders"

abbrev pub done : Text
done = bytes "ok"

abbrev pub late : Text
late = bytes "late"
