-- ===== src/Instruments/Counter.antt =====
-- instruments.go: FastCounter. `H` is metric.Int64Counter, and `V` the type of its values.
use tel.Base.{ℕ, Bool, List}
use tel.Base.Text.{Text}
use tel.Otel.{Otel}
use tel.Metric.{AttrCache, attrs_to_add_opts}
use tel.Instruments.Fast.{
  Fast, Recorded, live as fast_live, emit, emit_with_opts, emit_with, emit_with2, emit_with3,
}

abbrev pub FastCounter : Otel → Type 0 → Type 0
FastCounter o H = Fast H o.AddOption

module _ (o : Otel) {H : Type 0} where
  open o use {AttrSet, AddOption}

  unfoldable pub live : ℕ → FastCounter o H → Bool
  live current f = fast_live current f

  -- The given attributes replace those of the receiver.
  unfoldable pub with_attrs : FastCounter o H → AttrSet → FastCounter o H
  with_attrs f attrs = record f { opts = attrs_to_add_opts o attrs }

module _ (o : Otel) {H V : Type 0} where
  open o use {AddOption}

  unfoldable pub add : ℕ → FastCounter o H → V → List (Recorded H V AddOption)
  add current f v = emit current f v

  unfoldable pub add_with_opts :
      FastCounter o H → V → List AddOption → List (Recorded H V AddOption)
  add_with_opts f v opts = emit_with_opts f v opts

  unfoldable pub add_with :
      ℕ → AttrCache o → FastCounter o H → V → Text → AttrCache o × List (Recorded H V AddOption)
  add_with current c f v subject = emit_with o (λ e. e.add_opts) current c f v subject

  unfoldable pub add_with2 :
      ℕ
      → AttrCache o
      → FastCounter o H
      → V
      → Text
      → Text
      → AttrCache o × List (Recorded H V AddOption)
  add_with2 current c f v subject status =
      emit_with2 o (λ e. e.add_opts) current c f v subject status

  unfoldable pub add_with3 :
      ℕ
      → AttrCache o
      → FastCounter o H
      → V
      → Text
      → Text
      → Text
      → AttrCache o × List (Recorded H V AddOption)
  add_with3 current c f v subject status consumer =
      emit_with3 o (λ e. e.add_opts) current c f v subject status consumer
