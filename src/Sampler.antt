-- ===== src/Sampler.antt =====
-- sampler.go: the sampler of traces. The samplers of the SDK are values here, since the program only
-- builds them, and the one of the program stands over any function for the sampler that it holds.
-- Fractions are float64: the type and what the program does with them are parameters.
pub mod Errors
pub mod Fraction
pub mod Case
use tel.Base.{ℕ, Bool, true, false, ◌||◌, Option, none, some, List, [], ◌∷◌, if◌then◌else◌}
use tel.Base.Text.{
  Text, bytes, text_eq, is_empty, trim_space, to_lower, has_prefix, trim_prefix, cut,
}

-- float64: its constants, `<`, and strconv.ParseFloat, `none` for an error.
pub record Float : Type 1 where
  pub F : Type 0
  pub zero_f : F
  pub tenth : F
  pub one_f : F
  pub below : F → F → Bool
  pub parse_float : Text → Option F

pub data Decision : Type 0 where
  drop_span record_only record_and_sample : Decision

-- sdktrace.SamplingParameters: the attributes of the span and of its links, and the rest.
pub record SamplingParameters (V R : Type 0) : Type 0 where
  pub attributes : List (Text × V)
  pub links : List (List (Text × V))
  pub rest : R

-- sdktrace.SamplingResult: the decision, and the attributes and state that go with it.
pub record SamplingResult (S : Type 0) : Type 0 where
  pub decision : Decision
  pub state : S

abbrev pub error_attribute_key : Text
error_attribute_key = bytes "error"

unfoldable pub has_error_attr {ℓ} : {V : Type ℓ} → List (Text × V) → Bool
has_error_attr [] = false
has_error_attr ((key, v) ∷ attrs) = text_eq key error_attribute_key || has_error_attr attrs

-- the loop over the links
unfoldable pub any_link_error {ℓ} : {V : Type ℓ} → List (List (Text × V)) → Bool
any_link_error [] = false
any_link_error (link ∷ links) = has_error_attr link || any_link_error links

module _ {V R S : Type 0} where
  -- statusTraceIDRatioSampler's ShouldSample
  unfoldable pub should_sample :
      (SamplingParameters V R → SamplingResult S) → SamplingParameters V R → SamplingResult S
  should_sample inner params =
      let res = inner params in
      let sampled = record res { decision = record_and_sample } in
      elim res.decision [
        | record_and_sample ↦ res
        | _ ↦
            if has_error_attr params.attributes
            then sampled
            else if any_link_error params.links
            then sampled
            else res
      ]

-- What the program asks the SDK for; `status_trace_id_ratio` is the program's own, over the SDK's
-- TraceIDRatioBased of the same fraction.
pub data Sampler (F : Type 0) : Type 0 where
  never_sample always_sample : Sampler F
  trace_id_ratio status_trace_id_ratio : F → Sampler F
  parent_based : Sampler F → Sampler F

abbrev pub default_traces_sampler : Text
default_traces_sampler = bytes "parentbased_statustraceidratio:0.1"

module _ (float : Float) where
  open float use {F, zero_f, tenth, one_f, below, parse_float}

  unfoldable pub parse_sampler_fraction : Text → F
  parse_sampler_fraction s = elim (cut s 58) [
    | none ↦ zero_f
    | some (kind, rest) ↦ elim (parse_float (trim_space rest)) [
      | none ↦ zero_f
      | some fraction ↦
          if below fraction zero_f then zero_f else if below one_f fraction then one_f else fraction
    ]
  ]

  unfoldable pub parse_trace_sampler_inner : Text → Sampler F
  parse_trace_sampler_inner spec =
      if text_eq spec (bytes "never")
      then never_sample
      else if text_eq spec (bytes "always")
      then always_sample
      else if has_prefix spec (bytes "statustraceidratio")
      then status_trace_id_ratio (parse_sampler_fraction spec)
      else if has_prefix spec (bytes "traceidratio")
      then trace_id_ratio (parse_sampler_fraction spec)
      else status_trace_id_ratio tenth

  unfoldable pub parse_trace_sampler : Text → Sampler F
  parse_trace_sampler text =
      let trimmed = to_lower (trim_space text) in
      let spec = if is_empty trimmed then default_traces_sampler else trimmed in
      if has_prefix spec (bytes "parentbased_")
      then parent_based (parse_trace_sampler_inner (trim_prefix spec (bytes "parentbased_")))
      else parse_trace_sampler_inner spec
