-- ===== src/Instruments/Gauge.antt =====
-- instruments.go: FastGauge. `H` is metric.Int64Gauge, and `V` the type of its values.
use tel.Base.{ℕ, Bool, List}
use tel.Base.Text.{Text}
use tel.Otel.{Otel}
use tel.Metric.{AttrCache, attrs_to_record_opts}
use tel.Instruments.Fast.{
  Fast, Recorded, live as fast_live, emit, emit_with_opts, emit_with, emit_with2, emit_with3,
}

abbrev pub FastGauge : Otel → Type 0 → Type 0
FastGauge o H = Fast H o.RecordOption

module _ (o : Otel) {H : Type 0} where
  open o use {AttrSet, RecordOption}

  unfoldable pub live : ℕ → FastGauge o H → Bool
  live current f = fast_live current f

  -- The given attributes replace those of the receiver.
  unfoldable pub with_attrs : FastGauge o H → AttrSet → FastGauge o H
  with_attrs f attrs = record f { opts = attrs_to_record_opts o attrs }

module _ (o : Otel) {H V : Type 0} where
  open o use {RecordOption}

  unfoldable pub record_value : ℕ → FastGauge o H → V → List (Recorded H V RecordOption)
  record_value current f v = emit current f v

  unfoldable pub record_with_opts :
      FastGauge o H → V → List RecordOption → List (Recorded H V RecordOption)
  record_with_opts f v opts = emit_with_opts f v opts

  unfoldable pub record_with :
      ℕ → AttrCache o → FastGauge o H → V → Text → AttrCache o × List (Recorded H V RecordOption)
  record_with current c f v subject = emit_with o (λ e. e.record_opts) current c f v subject

  unfoldable pub record_with2 :
      ℕ
      → AttrCache o
      → FastGauge o H
      → V
      → Text
      → Text
      → AttrCache o × List (Recorded H V RecordOption)
  record_with2 current c f v subject status =
      emit_with2 o (λ e. e.record_opts) current c f v subject status

  unfoldable pub record_with3 :
      ℕ
      → AttrCache o
      → FastGauge o H
      → V
      → Text
      → Text
      → Text
      → AttrCache o × List (Recorded H V RecordOption)
  record_with3 current c f v subject status consumer =
      emit_with3 o (λ e. e.record_opts) current c f v subject status consumer
