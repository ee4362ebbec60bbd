-- ===== src/Otel.antt =====
-- What the program uses of go.opentelemetry.io/otel/attribute and otel/metric, which is not under
-- its sources: attribute sets, the options that carry one, and the instruments of a meter. A value
-- of `Otel` is a parameter of every definition that uses it.
use tel.Base.{ℕ, List}
use tel.Base.Text.{Text}

pub record Otel : Type 1 where
  -- attribute.Set, attribute.NewSet over attribute.String pairs, attribute.Set{} and Len
  pub AttrSet : Type 0
  pub new_set : List (Text × Text) → AttrSet
  pub empty_set : AttrSet
  pub set_len : AttrSet → ℕ
  -- metric.AddOption, metric.RecordOption, and metric.WithAttributeSet at each
  pub AddOption : Type 0
  pub RecordOption : Type 0
  pub with_attribute_set_add : AttrSet → AddOption
  pub with_attribute_set_record : AttrSet → RecordOption
