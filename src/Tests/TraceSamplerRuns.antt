-- ===== src/Tests/TraceSamplerRuns.antt =====
-- The trace sampler at concrete inputs, with hundredths for fractions.
use tel.Base.{ℕ, true, none, some, [], ◌∷◌, ◌≡◌, refl, ◌↔◌, ◌⊎◌, ltb, if◌then◌else◌}
use tel.Base.Text.{Text, bytes, text_eq}
use tel.Sampler.{
  Float, SamplingParameters, SamplingResult, drop_span, record_and_sample, error_attribute_key,
  should_sample, parse_trace_sampler,
}
use tel.Sampler.Errors.{HasKey, SomeHasKey, should_sample_iff}
use tel.Sampler.Fraction.{IsBounded, is_nested, parse_trace_sampler-IsBounded}

abbrev hundredths : Float
hundredths = record {
  F = ℕ;
  zero_f = 0;
  tenth = 10;
  one_f = 100;
  below = ltb;
  parse_float = λ t. if text_eq t (bytes "2") then some 200 else none;
}

abbrev failed_link : SamplingParameters ℕ (Unit {0})
failed_link = record {
  attributes = (bytes "user", 1) ∷ [];
  links = [] ∷ ((bytes "error", 2) ∷ []) ∷ [];
  rest = tt;
}

abbrev never : SamplingParameters ℕ (Unit {0}) → SamplingResult ℕ
never params = record { decision = drop_span; state = 9 }

should_sample_iff_example :
    let res = should_sample never failed_link in
    ((res.decision ≡ record_and_sample) ↔ (
      ((never failed_link).decision ≡ record_and_sample)
      ⊎ (HasKey error_attribute_key failed_link.attributes
          ⊎ SomeHasKey error_attribute_key failed_link.links)))
    × (res.state ≡ 9)
    × ((res.decision ≡ record_and_sample) ⊎ (res ≡ never failed_link))
should_sample_iff_example = should_sample_iff never failed_link

abbrev twice : Text
twice = bytes " ParentBased_TraceIdRatio:2"

parse_trace_sampler-IsBounded_example :
    IsBounded hundredths (parse_trace_sampler hundredths twice)
    × (is_nested (parse_trace_sampler hundredths twice) ≡ true)
parse_trace_sampler-IsBounded_example =
    parse_trace_sampler-IsBounded hundredths
      (record {
        zero_zero = refl;
        one_zero = refl;
        one_one = refl;
        tenth_zero = refl;
        one_tenth = refl;
      })
      twice
