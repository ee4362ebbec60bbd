-- ===== src/Sampler/Fraction.antt =====
-- The fractions that the sampler's text can set.
use tel.Base.{Bool, true, false, ◌≡◌, refl, arith, if◌then◌else◌}
use tel.Base.Text.{Text, bytes, is_empty, trim_space, to_lower, has_prefix, trim_prefix}
use tel.Sampler.{
  Float, Sampler, never_sample, always_sample, trace_id_ratio, status_trace_id_ratio, parent_based,
  parse_sampler_fraction, parse_trace_sampler_inner, parse_trace_sampler, default_traces_sampler,
}

-- Every fraction of a sampler is neither below 0 nor above 1.
abbrev pub IsBounded : (float : Float) → Sampler float.F → Type 0
IsBounded float never_sample = Unit {0}
IsBounded float always_sample = Unit {0}
IsBounded float (trace_id_ratio f) =
    (float.below f float.zero_f ≡ false) × (float.below float.one_f f ≡ false)
IsBounded float (status_trace_id_ratio f) =
    (float.below f float.zero_f ≡ false) × (float.below float.one_f f ≡ false)
IsBounded float (parent_based s) = IsBounded float s

-- One level of parents at most.
abbrev pub is_flat : {F : Type 0} → Sampler F → Bool
is_flat (parent_based s) = false
is_flat s = true

abbrev pub is_nested : {F : Type 0} → Sampler F → Bool
is_nested (parent_based s) = is_flat s
is_nested s = true

-- What the program relies on of float64's `<` at 0, 0.1 and 1.
pub record OrdersConstants (float : Float) : Type 0 where
  pub zero_zero : float.below float.zero_f float.zero_f ≡ false
  pub one_zero : float.below float.one_f float.zero_f ≡ false
  pub one_one : float.below float.one_f float.one_f ≡ false
  pub tenth_zero : float.below float.tenth float.zero_f ≡ false
  pub one_tenth : float.below float.one_f float.tenth ≡ false

is_nested-is_flat : {F : Type 0} (s : Sampler F) → is_flat s ≡ true → is_nested s ≡ true
is_nested-is_flat (parent_based s) h = ground (arith, h)
is_nested-is_flat never_sample h = refl
is_nested-is_flat always_sample h = refl
is_nested-is_flat (trace_id_ratio f) h = refl
is_nested-is_flat (status_trace_id_ratio f) h = refl

module _ (float : Float) (orders : OrdersConstants float) where
  parse_sampler_fraction_bounds :
      (s : Text)
      → (float.below (parse_sampler_fraction float s) float.zero_f ≡ false)
        × (float.below float.one_f (parse_sampler_fraction float s) ≡ false)
  unfolding parse_sampler_fraction
  parse_sampler_fraction_bounds s = ground (arith, orders)

  parse_trace_sampler_inner-IsBounded :
      (s : Text)
      → IsBounded float (parse_trace_sampler_inner float s)
        × (is_flat (parse_trace_sampler_inner float s) ≡ true)
  unfolding parse_trace_sampler_inner
  parse_trace_sampler_inner-IsBounded s = ground (arith, orders, parse_sampler_fraction_bounds s)

  wrapped-IsBounded :
      (b : Bool) (s s' : Sampler float.F)
      → IsBounded float s × (is_flat s ≡ true)
      → IsBounded float s' × (is_flat s' ≡ true)
      → IsBounded float (if b then parent_based s else s')
        × (is_nested (if b then parent_based s else s') ≡ true)
  wrapped-IsBounded true s s' h h' = h
  wrapped-IsBounded false s s' h (bounded, flat) = (bounded, is_nested-is_flat s' flat)

  -- Whatever the text is, a malformed one included, it gives a sampler whose fraction is neither
  -- below 0 nor above 1, with a parent-based one at most once, outermost.
  pub parse_trace_sampler-IsBounded :
      (text : Text)
      → IsBounded float (parse_trace_sampler float text)
        × (is_nested (parse_trace_sampler float text) ≡ true)
  unfolding parse_trace_sampler
  parse_trace_sampler-IsBounded text =
      let trimmed = to_lower (trim_space text) in
      let spec = if is_empty trimmed then default_traces_sampler else trimmed in
      let prefix = bytes "parentbased_" in
      wrapped-IsBounded (has_prefix spec prefix)
        (parse_trace_sampler_inner float (trim_prefix spec prefix))
        (parse_trace_sampler_inner float spec)
        (parse_trace_sampler_inner-IsBounded (trim_prefix spec prefix))
        (parse_trace_sampler_inner-IsBounded spec)
