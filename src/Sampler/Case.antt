-- ===== src/Sampler/Case.antt =====
-- The case of the sampler's text.
use tel.Base.{◌≡◌, refl, sym}
use tel.Base.Text.{Text, to_lower, trim_space, trim_space-to_lower}
use tel.Sampler.{Float, parse_trace_sampler}

-- Texts that differ in the case of their letters alone give the same sampler.
pub parse_trace_sampler_case :
    (float : Float) (s t : Text)
    → to_lower s ≡ to_lower t
    → parse_trace_sampler float s ≡ parse_trace_sampler float t
unfolding parse_trace_sampler
parse_trace_sampler_case float s t h =
    let lowered : (u : Text) → to_lower (trim_space u) ≡ trim_space (to_lower u) =
      λ u. sym (trim_space-to_lower u) in
    rw (lowered s, h, ← lowered t) refl
