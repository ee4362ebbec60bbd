-- ===== src/Sampler/Errors.antt =====
-- Which spans the program's sampler takes.
use tel.Base.{true, List, [], ◌∷◌, ◌≡◌, ◌↔◌, ◌⊎◌, arith}
use tel.Base.Text.{Text, text_eq_iff}
use tel.Sampler.{
  SamplingParameters, SamplingResult, record_and_sample, error_attribute_key, has_error_attr,
  any_link_error, should_sample,
}

-- An attribute list has the key, by recursion and without the program's test.
unfoldable pub HasKey {ℓ} : {V : Type ℓ} → Text → List (Text × V) → Type 0
HasKey k [] = ⊥
HasKey k ((key, v) ∷ attrs) = (key ≡ k) ⊎ HasKey k attrs

unfoldable pub SomeHasKey {ℓ} : {V : Type ℓ} → Text → List (List (Text × V)) → Type 0
SomeHasKey k [] = ⊥
SomeHasKey k (attrs ∷ links) = HasKey k attrs ⊎ SomeHasKey k links

has_error_attr_iff {ℓ} :
    {V : Type ℓ} (attrs : List (Text × V))
    → (has_error_attr attrs ≡ true) ↔ HasKey error_attribute_key attrs
unfolding has_error_attr HasKey
has_error_attr_iff [] = (λ e. ground (arith, e), λ e. absurd e)
has_error_attr_iff ((key, v) ∷ attrs) =
    ground (arith, text_eq_iff key error_attribute_key, has_error_attr_iff attrs)

any_link_error_iff {ℓ} :
    {V : Type ℓ} (links : List (List (Text × V)))
    → (any_link_error links ≡ true) ↔ SomeHasKey error_attribute_key links
unfolding any_link_error SomeHasKey
any_link_error_iff [] = (λ e. ground (arith, e), λ e. absurd e)
any_link_error_iff (attrs ∷ links) =
    ground (arith, has_error_attr_iff attrs, any_link_error_iff links)

module _ {V R S : Type 0} where
  -- A span is sampled exactly when the ratio samples it, an attribute of it has the key "error", or
  -- one of a link has. Whatever is decided, the attributes and the state of the result are the
  -- ratio's, and a span that is not sampled gets the ratio's whole result.
  pub should_sample_iff :
      (inner : SamplingParameters V R → SamplingResult S) (params : SamplingParameters V R)
      → let res = should_sample inner params in
        ((res.decision ≡ record_and_sample) ↔ (
          ((inner params).decision ≡ record_and_sample)
          ⊎ (HasKey error_attribute_key params.attributes
              ⊎ SomeHasKey error_attribute_key params.links)))
        × (res.state ≡ (inner params).state)
        × ((res.decision ≡ record_and_sample) ⊎ (res ≡ inner params))
  unfolding should_sample
  should_sample_iff inner params =
      ground (arith, has_error_attr_iff params.attributes, any_link_error_iff params.links)
