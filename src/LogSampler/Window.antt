-- ===== src/LogSampler/Window.antt =====
-- How many messages a RateSampler lets through.
use tel.Base.{
  ℕ, ◌+◌, ◌-◌, ◌*◌, ◌^◌, ◌≤◌, ◌<◌, ◌≡◌, refl, ap, Bool, true, false, not, ◌||◌, ◌⊎◌, List, [], ◌∷◌,
  ltb, if◌then◌else◌, update, arith, inl, inr, Bool-cases, length, lt→ltb,
}
use native.Mathlib.Nat.{mod-eq_of_lt}
use native.Mathlib.Decide.{dec_lt}
use tel.Base.Int.{ℤ, pos, pos_part, leb_ℤ, ltb_ℤ}
use tel.LogSampler.{RateSampler, inc, sample, sample_global, log_sampler_index, log_sampler_tick}

-- A message: its level, and the clock at its level's counter and at the global one.
pub record Message : Type 0 where
  pub level : ℤ
  pub level_now : ℕ
  pub now : ℕ

module _ (debug fatal : ℤ) where
  -- Fatal messages and those below debug are not limited.
  abbrev pub is_limited : ℤ → Bool
  is_limited lvl = not (leb_ℤ fatal lvl || ltb_ℤ (log_sampler_index debug fatal lvl) (pos 0))

  -- How many of the messages are let through.
  unfoldable pub accepted : RateSampler → List Message → ℕ
  accepted s [] = 0
  accepted s (m ∷ ms) =
      let (s', ok) = sample debug fatal s m.level m.level_now m.now in
      (if ok then 1 else 0) + accepted s' ms

  -- Every message is limited, and reaches the global counter in the second that begins at `t`.
  abbrev pub Within : ℕ → List Message → Type 0
  Within t [] = Unit {0}
  Within t (m ∷ ms) =
      (is_limited m.level ≡ true) × (t ≤ m.now) × (m.now < t + log_sampler_tick) × Within t ms

  -- A limited message is dropped by its level's limit, or goes on to the global counter; the part
  -- before leaves that counter alone.
  sample_cases :
      (s : RateSampler) (m : Message)
      → is_limited m.level ≡ true
      → (s' : RateSampler) × (s'.global ≡ s.global)
        × (s'.global_limit ≡ s.global_limit)
        × ((sample debug fatal s m.level m.level_now m.now ≡ (s', false))
            ⊎ (sample debug fatal s m.level m.level_now m.now ≡ sample_global s' m.now))
  unfolding sample
  sample_cases s m h = elim (Bool-cases (ltb 0 (s.level_limit idx))) [
    | inr unlimited ↦ (s, refl, refl, inr (ground arith))
    | inl limited ↦
        elim (Bool-cases
          (ltb (s.level_limit idx) (inc (s.levels idx) m.level_now log_sampler_tick).1)) [
            | inl over ↦ (counted, refl, refl, inl (ground arith))
            | inr under ↦ (counted, refl, refl, inr (ground arith))
          ]
  ]
    where
      idx : ℕ
      idx = pos_part (log_sampler_index debug fatal m.level)

      counted : RateSampler
      counted = record s {
        levels = update s.levels idx (inc (s.levels idx) m.level_now log_sampler_tick).0;
      }

-- The global counter in its second, and at a new one.
module _ (s : RateSampler) (now : ℕ) where
  sample_global_open :
      0 < s.global_limit
      → now < s.global.reset_at
      → s.global.count + 1 < 2 ^ 64
      → sample_global s now ≡ (
        record s { global = record s.global { count = s.global.count + 1 } },
        not (ltb s.global_limit (s.global.count + 1)),
      )
  unfolding sample_global inc
  sample_global_open g h small =
      rw (lt→ltb 0 s.global_limit g, lt→ltb now s.global.reset_at h, mod-eq_of_lt small)

  sample_global_reset :
      0 < s.global_limit
      → s.global.reset_at ≤ now
      → sample_global s now
        ≡ (record s { global = record { reset_at = now + log_sampler_tick; count = 1 } }, true)
  unfolding sample_global inc
  sample_global_reset g h = ground arith

module _ (debug fatal : ℤ) (t : ℕ) where
  accepted_step :
      (s : RateSampler) (m : Message) (ms : List Message) (r : RateSampler × Bool)
      → sample debug fatal s m.level m.level_now m.now ≡ r
      → accepted debug fatal s (m ∷ ms) ≡ (if r.1 then 1 else 0) + accepted debug fatal r.0 ms
  unfolding accepted
  accepted_step s m ms r h = rw h

  -- In a second that lasts to the end of the window, what is left of the limit is let through at most.
  accepted_open :
      (s : RateSampler) (ms : List Message)
      → Within debug fatal t ms
      → 0 < s.global_limit
      → t + log_sampler_tick ≤ s.global.reset_at
      → s.global.count + length ms < 2 ^ 64
      → accepted debug fatal s ms ≤ s.global_limit - s.global.count
  unfolding accepted
  accepted_open s [] w g wide small = omega arith
  accepted_open s (m ∷ ms) w g wide small =
      let (s', same, limit, outcome) = sample_cases debug fatal s m w.0 in
      let resets = ap (λ c. c.reset_at) same in
      let counts = ap (λ c. c.count) same in
      elim outcome [
        | inl dropped ↦
            rw (accepted_step s m ms (s', false) dropped)
              (omega (arith, accepted_open s' ms w.3 (omega arith) (omega arith) (omega arith)))
        | inr passed ↦
            let next = record s' { global = record s'.global { count = s'.global.count + 1 } } in
            let ih : accepted debug fatal next ms ≤ s'.global_limit - (s'.global.count + 1) =
              accepted_open next ms w.3 (omega arith) (omega arith) (omega arith) in
            rw
              (
                accepted_step s m ms (sample_global s' m.now) passed,
                sample_global_open s' m.now (omega arith) (omega arith) (omega arith),
              )
              (ground arith)
      ]

  -- From any state: what is left of the limit, and once the whole limit.
  accepted_any :
      (s : RateSampler) (ms : List Message)
      → Within debug fatal t ms
      → 0 < s.global_limit
      → s.global.count + 1 + length ms < 2 ^ 64
      → accepted debug fatal s ms ≤ s.global_limit - s.global.count + s.global_limit
  unfolding accepted
  accepted_any s [] w g small = omega arith
  accepted_any s (m ∷ ms) w g small =
      let (s', same, limit, outcome) = sample_cases debug fatal s m w.0 in
      let resets = ap (λ c. c.reset_at) same in
      let counts = ap (λ c. c.count) same in
      elim outcome [
        | inl dropped ↦
            rw (accepted_step s m ms (s', false) dropped)
              (omega (arith, accepted_any s' ms w.3 (omega arith) (omega arith)))
        | inr passed ↦ elim (dec_lt m.now s'.global.reset_at) [
          | yes open' ↦
              let next = record s' { global = record s'.global { count = s'.global.count + 1 } } in
              let ih : accepted debug fatal next ms
                  ≤ s'.global_limit - (s'.global.count + 1) + s'.global_limit =
                accepted_any next ms w.3 (omega arith) (omega arith) in
              rw
                (
                  accepted_step s m ms (sample_global s' m.now) passed,
                  sample_global_open s' m.now (omega arith) open' (omega arith),
                )
                (ground arith)
          | no ended ↦
              let next = record s' {
                global = record { reset_at = m.now + log_sampler_tick; count = 1 };
              } in
              let ih : accepted debug fatal next ms ≤ s'.global_limit - 1 =
                accepted_open next ms w.3 (omega arith) (omega arith) (omega arith) in
              rw
                (
                  accepted_step s m ms (sample_global s' m.now) passed,
                  sample_global_reset s' m.now (omega arith) (omega arith),
                )
                (omega arith)
        ]
      ]

  -- Whatever came before, of the limited messages that reach the global counter within one second at
  -- most twice the global limit are let through: the rest of one counted second, and one whole other.
  pub accepted-le :
      (s : RateSampler) (ms : List Message)
      → Within debug fatal t ms
      → 0 < s.global_limit
      → s.global.count + 1 + length ms < 2 ^ 64
      → accepted debug fatal s ms ≤ 2 * s.global_limit
  accepted-le s ms w g small = omega (arith, accepted_any s ms w g small)

  -- In the second that a message opens, the limit holds exactly: no more than the global limit are
  -- let through until the counter is reset.
  pub accepted_fresh-le :
      (s : RateSampler) (ms : List Message)
      → Within debug fatal t ms
      → 0 < s.global_limit
      → s.global ≡ record { reset_at = t + log_sampler_tick; count = 1 }
      → 1 + length ms < 2 ^ 64
      → 1 + accepted debug fatal s ms ≤ s.global_limit
  accepted_fresh-le s ms w g e small =
      let resets = ap (λ c. c.reset_at) e in
      let counts = ap (λ c. c.count) e in
      omega (arith, accepted_open s ms w g (omega arith) (omega arith))
