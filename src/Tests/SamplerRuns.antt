-- ===== src/Tests/SamplerRuns.antt =====
-- The log sampler and the detector's report at concrete inputs.
use tel.Base.{◌<◌, ◌≤◌, ◌⊎◌, ◌+◌, ◌%◌, ◌^◌, ℕ, ◌≡◌, ◌≢◌, ap, ◌∙◌, [], ◌∷◌, true, false, arith}
use mathlib.Core.Logic.{∥∥₁_elim}
use mathlib.Core.HLevel.{¬_prop}
use mathlib.Core.List.Memᴰ
use mathlib.Core.List.{Pairwise, Pairwise-singleton}
use mathlib.Core.List.Perm
use tel.LogSampler.Order.{new_rate_sampler-permuted}
use tel.Base.Int.{ℤ, pos, negsuc}
use tel.Cardinality.{CardinalityDetector, CardinalitySettings, new_cardinality_detector}
use tel.Metric.{new_attr_cache}
use tel.LogSampler.{RateCounter, inc, new_rate_sampler}
use tel.LogSampler.Race.{Race, Reach, start, passed, done}
use tel.LogSampler.Crowd.{crowd_passes}
use tel.LogSampler.Alone.{inc-Reach}

program : Unit {0}
unfolding new_cardinality_detector new_attr_cache
program = tt

-- Settings with an interval of 0 and a percentage that is too large.
abbrev settings : CardinalitySettings
settings = record {
  max_cardinality = pos 2;
  max_instruments = negsuc 3;
  diagnostic_interval = pos 0;
  warn_utilization_pct = pos 400;
  enable = true;
  deny_unknown = false;
}

abbrev detector : CardinalityDetector
detector = new_cardinality_detector settings

-- A counter whose second is over.
abbrev expired : RateCounter
expired = record { reset_at = 4; count = 9 }

crowd_passes_example : (r : Race) × Reach 5 10 1000 (start expired) r × (passed 2 1000 r ≡ 1000)
crowd_passes_example =
    crowd_passes 5 10 1000 2 expired (omega arith) (omega arith) (omega arith) (omega arith)

inc-Reach_example :
    (r : Race) × Reach 5 10 3 (start expired) r
    × (r.counter ≡ (inc expired 5 10).0)
    × (r.place 1 ≡ done (inc expired 5 10).1)
    × (((5 < expired.reset_at)
          × (r.counter
              ≡ record { reset_at = expired.reset_at; count = (expired.count + 1) % 2 ^ 64 })
          × (r.place 1 ≡ done ((expired.count + 1) % 2 ^ 64)))
        ⊎ ((expired.reset_at ≤ 5)
            × (r.counter ≡ record { reset_at = 5 + 10; count = 1 })
            × (r.place 1 ≡ done 1)))
inc-Reach_example = inc-Reach 5 10 3 1 expired (omega arith)

abbrev quiet_debug : ℤ × ℕ
quiet_debug = (pos 0, 50)

abbrev quiet_info : ℤ × ℕ
quiet_info = (pos 1, 200)

levels_apart : quiet_debug.0 ≢ quiet_info.0
levels_apart = λ e. ground (arith, e)

limits_apart : Pairwise (λ (x : ℤ × ℕ) (y : ℤ × ℕ). x.0 ≢ y.0) (quiet_debug ∷ quiet_info ∷ [])
limits_apart =
    Pairwise.cons
      (λ y m.
        ∥∥₁_elim m ¬_prop
          (λ d e. levels_apart (e ∙ ap (λ (x : ℤ × ℕ). x.0) (Memᴰ.eq_of_singleton d))))
      (Pairwise-singleton _ quiet_info)

new_rate_sampler-permuted_example :
    new_rate_sampler (pos 0) (pos 4) (pos 100) (quiet_debug ∷ quiet_info ∷ [])
    ≡ new_rate_sampler (pos 0) (pos 4) (pos 100) (quiet_info ∷ quiet_debug ∷ [])
new_rate_sampler-permuted_example =
    new_rate_sampler-permuted (pos 0) (pos 4) (pos 100) (Perm.swap quiet_info quiet_debug [])
      limits_apart
