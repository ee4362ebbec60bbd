-- ===== src/Tests/InstrumentRuns.antt =====
-- The instruments, the timer and the registry at concrete inputs.
use tel.Base.{ℕ, ◌≤◌, ◌≡◌, ◌⊎◌, refl, true, false, List, [], ◌∷◌, ◌++◌}
use tel.Base.Int.{pos, or_default}
use tel.Base.Text.{Text, is_empty}
use tel.Base.Assoc.{lookup as map_lookup, insert as map_insert}
use tel.Cardinality.{default_max_instruments}
use tel.Metric.Keys.{duo, labels_of}
use tel.Metric.{AttrCache, new_attr_cache, is_allowed}
use tel.Metric.Preserve.{new_attr_cache-IsValid}
use tel.Metric.Refine.{view, intern}
use tel.Instruments.Fast.{Fast, live, instrument_live}
use tel.Instruments.Registry.{
  Registry, new_registry_with_cache, instrument_count, get_or_create, create_locked, counter,
}
use tel.Instruments.Creation.{
  Request, wants_counter, wants_gauge, requests, instrument_count-requests-le,
}
use tel.Instruments.Recording.{all_empty, emit_key, emit_key-intern}
use tel.Tests.Setting.{plain, naming, orders, done, late}

abbrev cache : AttrCache plain
cache = new_attr_cache plain (pos 2)

-- An instrument of epoch 3.
abbrev processed : Fast Text plain.AddOption
processed = record { handle = orders; opts = []; bound = true; epoch = 3 }

emit_key-intern_example :
    ((is_allowed plain cache (labels_of (duo orders done)) ≡ false)
      × ((emit_key plain {V = ℕ} (λ e. e.add_opts) 3 cache processed 1 (duo orders done)).1 ≡ [])
      × (view plain
            (emit_key plain {V = ℕ} (λ e. e.add_opts) 3 cache processed 1 (duo orders done)).0
          ≡ view plain cache))
    ⊎ ((is_allowed plain cache (labels_of (duo orders done)) ≡ true)
        × ((emit_key plain {V = ℕ} (λ e. e.add_opts) 3 cache processed 1 (duo orders done)).1
            ≡ record {
              handle = orders;
              value = 1;
              opts = [] ++ (intern plain (view plain cache) (duo orders done)).1.add_opts;
            }
              ∷ [])
        × (view plain
              (emit_key plain {V = ℕ} (λ e. e.add_opts) 3 cache processed 1 (duo orders done)).0
            ≡ (intern plain (view plain cache) (duo orders done)).0))
unfolding live instrument_live all_empty is_empty
emit_key-intern_example =
    emit_key-intern plain (λ e. e.add_opts) 3 cache processed 1 (duo orders done)
      (new_attr_cache-IsValid plain (pos 2)) refl refl

-- A started timer over a histogram of the live epoch, with the difference of the times for seconds.
abbrev latency : Fast Text plain.RecordOption
latency = record { handle = late; opts = []; bound = true; epoch = 3 }

abbrev fresh : Registry plain naming
fresh = new_registry_with_cache plain naming [] cache true 3 (pos 1)

abbrev after_orders : Registry plain naming
after_orders = (counter plain naming fresh orders []).0

program : Unit {0}
unfolding new_registry_with_cache instrument_count get_or_create create_locked counter map_lookup
    map_insert
program = tt

abbrev wanted : List (Request naming)
wanted = wants_counter orders [] ∷ wants_gauge orders [] ∷ wants_counter late [] ∷ []

instrument_count-requests-le_example :
    instrument_count plain naming
      (requests plain naming (new_registry_with_cache plain naming [] cache true 3 (pos 1)) wanted)
    ≤ or_default (pos 1) default_max_instruments
instrument_count-requests-le_example =
    instrument_count-requests-le plain naming [] cache true 3 (pos 1) wanted
