-- ===== src/LogSampler/Alone.antt =====
-- A caller that no other one interrupts.
use tel.Base.{
  ◌≤◌, ◌⊎◌, inl, inr, ℕ, ◌+◌, ◌%◌, ◌^◌, ◌<◌, ◌≡◌, refl, ◌∙◌, false, arith, ltb, lt→ltb, update,
  update_self,
}
use native.Mathlib.Decide.{dec_lt}
use tel.LogSampler.{RateCounter, inc}
use tel.LogSampler.Race.{
  at_store, at_swap, at_add, done, Race, loads_open, loads_expired, stores, swaps, adds, Reach,
  here, next, start,
}

-- The atomic operations of one caller, with no other's between them, do what `inc` is taken for. In the
-- counter's second the count goes up by one, and that is the message's number; after it the count is
-- 1, the number is 1 and the counter is reset one tick after the time that was read.
pub inc-Reach :
    (now tick n i : ℕ) (c : RateCounter)
    → i < n
    → (r : Race) × Reach now tick n (start c) r
      × (r.counter ≡ (inc c now tick).0)
      × (r.place i ≡ done (inc c now tick).1)
      × (((now < c.reset_at)
            × (r.counter ≡ record { reset_at = c.reset_at; count = (c.count + 1) % 2 ^ 64 })
            × (r.place i ≡ done ((c.count + 1) % 2 ^ 64)))
          ⊎ ((c.reset_at ≤ now)
              × (r.counter ≡ record { reset_at = now + tick; count = 1 })
              × (r.place i ≡ done 1)))
unfolding inc
inc-Reach now tick n i c lt =
    let f = (start c).place in
    elim (dec_lt now c.reset_at) [
      | yes open_still ↦
          let m = (c.count + 1) % 2 ^ 64 in
          let g = update f i at_add in
          (
            record { counter = record c { count = m }; place = update g i (done m) },
            next (next here (loads_open i lt refl open_still)) (adds i lt (update_self f i at_add)),
            simp (lt→ltb now c.reset_at open_still) refl,
            update_self g i (done m) ∙ simp (lt→ltb now c.reset_at open_still) refl,
            inl (open_still, refl, update_self g i (done m)),
          )
      | no expired ↦
          let off : ltb now c.reset_at ≡ false = ground arith in
          let after = c.reset_at in
          let g = update f i (at_store after) in
          let h = update g i (at_swap after) in
          (
            record {
              counter = record { reset_at = now + tick; count = 1 };
              place = update h i (done 1);
            },
            next
                (next (next here (loads_expired i lt refl (omega arith)))
                  (stores i after lt (update_self f i (at_store after))))
                (swaps i after lt (update_self g i (at_swap after)) refl),
            simp off refl,
            update_self h i (done 1) ∙ simp off refl,
            inr (omega arith, refl, update_self h i (done 1)),
          )
    ]
