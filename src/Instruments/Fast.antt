-- ===== src/Instruments/Fast.antt =====
-- instruments.go: what FastCounter, FastHistogram and FastGauge do alike. The source writes these
-- bodies three times, over the instrument, the value type and the option type; here they are the
-- parameters `H`, `V` and `O`, and `opts_of` picks the options of an entry.
-- A method returns the calls that it makes of the OpenTelemetry instrument, in order, and those that
-- look up labels also return the attribute cache that the instrument points to.
use tel.Base.{
  ℕ, Bool, not, ◌&&◌, ◌||◌, Option, none, some, List, [], ◌∷◌, ◌++◌, if◌then◌else◌, ◌==◌, ltb,
  length,
}
use tel.Base.Text.{Text, is_empty}
use tel.Otel.{Otel}
use tel.Metric.{AttrCache, SubjectEntry}
use tel.Metric.Entries.{lookup, lookup2, lookup3}

-- `bound` is false where the epoch pointer is nil.
pub record Fast (H O : Type 0) : Type 0 where
  pub handle : H
  pub opts : List O
  pub bound : Bool
  pub epoch : ℕ

-- One call of `Add` or `Record` of an OpenTelemetry instrument, with its options.
pub record Recorded (H V O : Type 0) : Type 0 where
  pub handle : H
  pub value : V
  pub opts : List O

-- `current` is the value that the epoch pointer leads to.
unfoldable pub instrument_live : Bool → ℕ → ℕ → Bool
instrument_live bound current epoch = not bound || (current == epoch)

module _ {H O : Type 0} (current : ℕ) (f : Fast H O) where
  unfoldable pub live : Bool
  unfolding instrument_live
  live = instrument_live f.bound current f.epoch

module _ {H V O : Type 0} where
  unfoldable pub emit : ℕ → Fast H O → V → List (Recorded H V O)
  emit current f v =
      if not (live current f)
      then []
      else if ltb 0 (length f.opts)
      then record { handle = f.handle; value = v; opts = f.opts } ∷ []
      else record { handle = f.handle; value = v; opts = [] } ∷ []

module _ {O : Type 0} where
  -- The instrument's options, then the entry's: none of the first, an array of two, or a slice to
  -- which both are appended.
  unfoldable pub combine : List O → List O → List O
  combine [] opts = opts
  combine (p ∷ []) (q ∷ []) = p ∷ q ∷ []
  combine own opts = ([] ++ own) ++ opts

module _ {H V O : Type 0} where
  unfoldable pub emit_with_opts : Fast H O → V → List O → List (Recorded H V O)
  emit_with_opts f v opts = record { handle = f.handle; value = v; opts = combine f.opts opts } ∷ []

module _ (o : Otel) {H V O : Type 0} (opts_of : SubjectEntry o → List O) where
  -- `entry, ok := cache.lookup(...); if !ok { return }; addWithOpts(..., entry.opts)`
  abbrev pub finish :
      Fast H O → V → AttrCache o × Option (SubjectEntry o) → AttrCache o × List (Recorded H V O)
  finish f v (c, none) = (c, [])
  finish f v (c, some e) = (c, emit_with_opts f v (opts_of e))

  unfoldable pub emit_with :
      ℕ → AttrCache o → Fast H O → V → Text → AttrCache o × List (Recorded H V O)
  emit_with current c f v subject =
      if not (live current f)
      then (c, [])
      else if is_empty subject
      then (c, emit current f v)
      else finish f v (lookup o c subject)

  unfoldable pub emit_with2 :
      ℕ → AttrCache o → Fast H O → V → Text → Text → AttrCache o × List (Recorded H V O)
  emit_with2 current c f v subject status =
      if not (live current f)
      then (c, [])
      else if is_empty subject && is_empty status
      then (c, emit current f v)
      else finish f v (lookup2 o c subject status)

  unfoldable pub emit_with3 :
      ℕ → AttrCache o → Fast H O → V → Text → Text → Text → AttrCache o × List (Recorded H V O)
  emit_with3 current c f v subject status consumer =
      if not (live current f)
      then (c, [])
      else if is_empty subject && is_empty status && is_empty consumer
      then (c, emit current f v)
      else finish f v (lookup3 o c subject status consumer)
