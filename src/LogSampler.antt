-- ===== src/LogSampler.antt =====
-- log_sampler.go: RateSampler, which caps the log messages of a second. A level is zerolog's integer,
-- the levels `debug` and `fatal` are parameters, and so is every reading of the clock, in nanoseconds.
-- The four operations of `inc` on its two atomics run here with no other caller between them.
pub mod Window
pub mod Limits
pub mod Race
pub mod Crowd
pub mod Alone
pub mod Order
use tel.Base.{
  ℕ, ◌+◌, ◌%◌, ◌^◌, Bool, true, false, ◌||◌, not, List, [], ◌∷◌, ltb, if◌then◌else◌, update,
}
use tel.Base.Int.{ℤ, pos, negsuc, pos_part, neg_part, sub_ℕ, leb_ℤ, ltb_ℤ}

-- time.Second
abbrev pub log_sampler_tick : ℕ
log_sampler_tick = 1_000_000_000

pub record RateCounter : Type 0 where
  pub reset_at : ℕ
  pub count : ℕ

-- The arrays of limits and counters are functions of the index.
pub record RateSampler : Type 0 where
  pub global_limit : ℕ
  pub level_limit : ℕ → ℕ
  pub global : RateCounter
  pub levels : ℕ → RateCounter

-- The counter afterwards, and the number of this message in the counter's second. `count` wraps.
unfoldable pub inc : RateCounter → ℕ → ℕ → RateCounter × ℕ
inc c now tick =
    if ltb now c.reset_at
    then (record c { count = (c.count + 1) % 2 ^ 64 }, (c.count + 1) % 2 ^ 64)
    else (record c { count = 1; reset_at = now + tick }, 1)

-- The second test and increment, of the global counter.
unfoldable pub sample_global : RateSampler → ℕ → RateSampler × Bool
sample_global s now =
    if ltb 0 s.global_limit
    then (let (global, n) = inc s.global now log_sampler_tick in
        (record s { global = global }, not (ltb s.global_limit n)))
    else (s, true)

module _ (debug fatal : ℤ) where
  unfoldable pub log_sampler_index : ℤ → ℤ
  log_sampler_index lvl =
      if ltb_ℤ lvl debug || ltb_ℤ fatal lvl
      then negsuc 0
      else sub_ℕ (pos_part lvl + neg_part debug) (neg_part lvl + pos_part debug)

  -- the loop over the map of limits
  unfoldable pub set_limits : (ℕ → ℕ) → List (ℤ × ℕ) → ℕ → ℕ
  set_limits limits [] = limits
  set_limits limits ((lvl, n) ∷ rest) =
      let idx = log_sampler_index lvl in
      set_limits (if ltb_ℤ idx (pos 0) then limits else update limits (pos_part idx) n) rest

  unfoldable pub new_rate_sampler : ℤ → List (ℤ × ℕ) → RateSampler
  unfolding set_limits log_sampler_index
  new_rate_sampler global_limit level_limits = record {
    global_limit = if ltb_ℤ (pos 0) global_limit then pos_part global_limit else 0;
    level_limit = set_limits (λ _. 0) level_limits;
    global = record { reset_at = 0; count = 0 };
    levels = λ _. record { reset_at = 0; count = 0 };
  }

  -- `level_now` and `now` are the clock at the level's counter and at the global one. One caller at a
  -- time: each `inc` is one step here, and LogSampler.Race has its operations where callers interleave.
  unfoldable pub sample : RateSampler → ℤ → ℕ → ℕ → RateSampler × Bool
  sample s lvl level_now now =
      if leb_ℤ fatal lvl || ltb_ℤ (log_sampler_index lvl) (pos 0)
      then (s, true)
      else (let idx = pos_part (log_sampler_index lvl) in
          let (level, n) = inc (s.levels idx) level_now log_sampler_tick in
          let s' = record s { levels = update s.levels idx level } in
          if ltb 0 (s.level_limit idx)
          then (if ltb (s.level_limit idx) n then (s', false) else sample_global s' now)
          else sample_global s now)
