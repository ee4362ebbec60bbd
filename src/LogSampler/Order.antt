-- ===== src/LogSampler/Order.antt =====
-- log_sampler.go: NewRateSampler ranges over a map, whose order Go leaves open.
use tel.Base.{ℕ, ◌≡◌, ◌≢◌, refl, sym, ap, ◌∙◌, fun_ext, false, List, arith, if◌then◌else◌, update}
use tel.Base.Int.{ℤ, pos, negsuc, pos_part, ltb_ℤ}
use mathlib.Core.Logic.{∥∥₁_elim}
use mathlib.Core.HLevel.{¬_prop}
use native.Mathlib.Nat.{ℕ_set}
use mathlib.Core.List.{Perm, Permᴰ, Pairwise, mem-cons_self}
use mathlib.Core.List.Perm
use tel.LogSampler.{RateSampler, log_sampler_index, set_limits, new_rate_sampler}

module _ (debug fatal : ℤ) where
  abbrev set_limit : (ℕ → ℕ) → ℤ × ℕ → ℕ → ℕ
  set_limit limits (lvl, n) =
      let idx = log_sampler_index debug fatal lvl in
      if ltb_ℤ idx (pos 0) then limits else update limits (pos_part idx) n

  index_injective :
      (a b : ℤ)
      → ltb_ℤ (log_sampler_index debug fatal a) (pos 0) ≡ false
      → ltb_ℤ (log_sampler_index debug fatal b) (pos 0) ≡ false
      → pos_part (log_sampler_index debug fatal a) ≡ pos_part (log_sampler_index debug fatal b)
      → a ≡ b
  unfolding log_sampler_index
  index_injective (pos a) (pos b) ha hb same = ground arith
  index_injective (pos a) (negsuc b) ha hb same = ground arith
  index_injective (negsuc a) (pos b) ha hb same = ground arith
  index_injective (negsuc a) (negsuc b) ha hb same = ground arith

  -- Two limits of different levels can be set in either order.
  set_limit-swap :
      (limits : ℕ → ℕ) (x y : ℤ × ℕ) (i : ℕ)
      → x.0 ≢ y.0
      → set_limit (set_limit limits x) y i ≡ set_limit (set_limit limits y) x i
  set_limit-swap limits (a, n) (b, k) i ne = ground (arith, index_injective a b, ne)

  -- What is set depends on the limits before it only index by index.
  set_limits-same :
      (rest : List (ℤ × ℕ)) (limits limits' : ℕ → ℕ)
      → ((i : ℕ) → limits i ≡ limits' i)
      → (i : ℕ) → set_limits debug fatal limits rest i ≡ set_limits debug fatal limits' rest i
  set_limits-same rest limits limits' same i =
      ap (λ (f : ℕ → ℕ). set_limits debug fatal f rest i) (fun_ext same)

  set_limits-permuted :
      {xs ys : List (ℤ × ℕ)} (limits : ℕ → ℕ) (i : ℕ)
      → Permᴰ xs ys
      → Pairwise (λ x y. x.0 ≢ y.0) xs
      → set_limits debug fatal limits xs i ≡ set_limits debug fatal limits ys i
  unfolding set_limits
  set_limits-permuted limits i Permᴰ.nil apart = refl
  set_limits-permuted limits i (Permᴰ.cons {a = x} {b = y} {l₁ = xs} {l₂ = ys} e d)
        (Pairwise.cons first apart) =
      set_limits-permuted (set_limit limits x) i d apart
      ∙ ap (λ (z : ℤ × ℕ). set_limits debug fatal (set_limit limits z) ys i) e
  set_limits-permuted limits i (Permᴰ.swap {a = x} {b = y} {a' = y'} {b' = x'} {l = rest} e e')
        (Pairwise.cons first apart) =
      set_limits-same rest (set_limit (set_limit limits x) y) (set_limit (set_limit limits y) x)
        (λ j. set_limit-swap limits x y j (first y mem-cons_self)) i
      ∙ ap (λ (z : ℤ × ℕ). set_limits debug fatal (set_limit (set_limit limits z) x) rest i) e'
      ∙ ap (λ (z : ℤ × ℕ). set_limits debug fatal (set_limit (set_limit limits y') z) rest i) e
  set_limits-permuted limits i (Permᴰ.trans d d') apart =
      set_limits-permuted limits i d apart
      ∙ set_limits-permuted limits i d'
          (Perm.pairwise (λ x y. ¬_prop) (λ x y ne e. ne (sym e)) ∣ d ∣₁ apart)

  -- The limits of a map make one sampler, in whichever order the map is ranged over.
  pub new_rate_sampler-permuted :
      {xs ys : List (ℤ × ℕ)} (global_limit : ℤ)
      → Perm xs ys
      → Pairwise (λ x y. x.0 ≢ y.0) xs
      → new_rate_sampler debug fatal global_limit xs ≡ new_rate_sampler debug fatal global_limit ys
  unfolding new_rate_sampler
  new_rate_sampler-permuted {xs = xs} {ys = ys} global_limit p apart =
      let same : (i : ℕ)
          → set_limits debug fatal (λ _. 0) xs i ≡ set_limits debug fatal (λ _. 0) ys i =
        λ i. ∥∥₁_elim p (ℕ_set _ _) (λ d. set_limits-permuted (λ _. 0) i d apart) in
      ap
        (λ (limits : ℕ → ℕ).
          let s : RateSampler = record {
            global_limit = if ltb_ℤ (pos 0) global_limit then pos_part global_limit else 0;
            level_limit = limits;
            global = record { reset_at = 0; count = 0 };
            levels = λ _. record { reset_at = 0; count = 0 };
          } in
          s)
        (fun_ext same)
