-- ===== src/LogSampler/Crowd.antt =====
-- How many of the callers that find an expired counter can pass.
use tel.Base.{
  ℕ, zero, suc, ◌+◌, ◌≤◌, ◌<◌, ◌≡◌, ◌≢◌, refl, ap, ◌∙◌, arith, update, update_self, update_ne,
  sum_below, sum_below-suc, sum_below_none,
}
use native.Mathlib.Decide.{ℕ_discrete}
use tel.LogSampler.{RateCounter}
use tel.LogSampler.Race.{
  Place, at_load, at_store, at_swap, at_add, done, Race, loads_expired, stores, swaps, swap_fails,
  adds, Reach, here, next, start, passes, passed,
}

module _ (f : ℕ → Place) (i : ℕ) (a b c : Place) where
  updates_self : update (update (update f i a) i b) i c i ≡ c
  updates_self = update_self (update (update f i a) i b) i c

  updates_ne : (j : ℕ) → j ≢ i → update (update (update f i a) i b) i c j ≡ f j
  updates_ne j ne =
      update_ne (update (update f i a) i b) i c j ne
      ∙ update_ne (update f i a) i b j ne
      ∙ update_ne f i a j ne

sum_below_ones : (n : ℕ) (f : ℕ → ℕ) → ((j : ℕ) → j < n → f j ≡ 1) → sum_below n f ≡ n
sum_below_ones zero f h = sum_below_none f
sum_below_ones (suc n) f h =
    omega
      (arith, sum_below-suc n f, sum_below_ones n f (λ j p. h j (omega arith)), h n (omega arith))

module _ (now tick n limit : ℕ) (c : RateCounter) where
  -- the first `i` callers have read the expired counter, and the others have not begun
  record Loaded (i : ℕ) : Type 0 where
    race : Race
    reached : Reach now tick n (start c) race
    counter : race.counter ≡ c
    loaded : (j : ℕ) → j < i → race.place j ≡ at_store c.reset_at
    waiting : (j : ℕ) → i ≤ j → race.place j ≡ at_load

  load_all : (i : ℕ) → i ≤ n → c.reset_at ≤ now → Loaded i
  load_all zero le expired = record {
    race = start c;
    reached = here;
    counter = refl;
    loaded = λ j p. absurd (omega arith);
    waiting = λ j p. refl;
  }
  load_all (suc i) le expired =
      let s = load_all i (omega arith) expired in
      let after = ap (λ (x : RateCounter). x.reset_at) s.counter in
      record {
        race = record {
          counter = s.race.counter;
          place = update s.race.place i (at_store s.race.counter.reset_at);
        };
        reached = next s.reached (
            loads_expired i (omega arith) (s.waiting i (omega arith))
              (omega (arith, after, expired)));
        counter = s.counter;
        loaded = λ j p. elim (ℕ_discrete j i) [
          | yes e ↦
              rw e
                (update_self s.race.place i (at_store s.race.counter.reset_at) ∙ ap at_store after)
          | no ne ↦
              update_ne s.race.place i (at_store s.race.counter.reset_at) j ne
              ∙ s.loaded j (omega arith)
        ];
        waiting = λ j p.
            update_ne s.race.place i (at_store s.race.counter.reset_at) j (λ e. omega arith)
            ∙ s.waiting j (omega arith);
      }

  -- the first `i` callers have passed, and the others have read the counter that was expired
  record Served (i : ℕ) : Type 0 where
    race : Race
    reached : Reach now tick n (start c) race
    reset : race.counter.reset_at ≡ now + tick
    served : (j : ℕ) → j < i → passes limit (race.place j) ≡ 1
    loaded : (j : ℕ) → i ≤ j → j < n → race.place j ≡ at_store c.reset_at

  serve_first : 0 < n → 1 ≤ limit → Loaded n → Served 1
  serve_first some pass s =
      let f = s.race.place in
      let stored = update f 0 (at_swap c.reset_at) in
      let after = ap (λ (x : RateCounter). x.reset_at) s.counter in
      let one_store = stores 0 c.reset_at some (s.loaded 0 some) in
      let one_swap = swaps 0 c.reset_at some (update_self f 0 (at_swap c.reset_at)) after in
      record {
        race = record {
          counter = record { reset_at = now + tick; count = 1 };
          place = update stored 0 (done 1);
        };
        reached = next (next s.reached one_store) one_swap;
        reset = refl;
        served = λ j p.
            let first : j ≡ 0 = omega arith in
            rw first (ap (passes limit) (update_self stored 0 (done 1)) ∙ ground arith);
        loaded = λ j p q.
            update_ne stored 0 (done 1) j (λ e. omega arith)
            ∙ update_ne f 0 (at_swap c.reset_at) j (λ e. omega arith)
            ∙ s.loaded j q;
      }

  serve_next : (i : ℕ) → i < n → 2 ≤ limit → 0 < tick → c.reset_at ≤ now → Served i → Served (suc i)
  serve_next i lt pass forward expired s =
      let f = s.race.place in
      let at = at_swap c.reset_at in
      let lost : s.race.counter.reset_at ≢ c.reset_at = λ e. omega (arith, e, s.reset) in
      let one_store = stores i c.reset_at lt (s.loaded i (omega arith) lt) in
      let one_fail = swap_fails i c.reset_at lt (update_self f i at) lost in
      let one_add = adds i lt (update_self (update f i at) i at_add) in
      record {
        race = record {
          counter = record { reset_at = s.race.counter.reset_at; count = 2 };
          place = update (update (update f i at) i at_add) i (done 2);
        };
        reached = next (next (next s.reached one_store) one_fail) one_add;
        reset = s.reset;
        served = λ j p. elim (ℕ_discrete j i) [
          | yes e ↦ rw e (ap (passes limit) (updates_self f i at at_add (done 2)) ∙ ground arith)
          | no ne ↦
              ap (passes limit) (updates_ne f i at at_add (done 2) j ne) ∙ s.served j (omega arith)
        ];
        loaded = λ j p q.
            updates_ne f i at at_add (done 2) j (λ e. omega arith) ∙ s.loaded j (omega arith) q;
      }

  serve_all : (i : ℕ) → i < n → 2 ≤ limit → 0 < tick → c.reset_at ≤ now → Served (suc i)
  serve_all zero lt pass forward expired =
      serve_first lt (omega arith) (load_all n (omega arith) expired)
  serve_all (suc i) lt pass forward expired =
      serve_next (suc i) lt pass forward expired (serve_all i (omega arith) pass forward expired)

-- Any number of callers that meet an expired counter at one time can all pass a limit of 2 or more:
-- each stores 1 over the others' increments before it loses the swap, and so counts as the second.
pub crowd_passes :
    (now tick n limit : ℕ) (c : RateCounter)
    → 0 < n
    → 2 ≤ limit
    → 0 < tick
    → c.reset_at ≤ now
    → (r : Race) × Reach now tick n (start c) r × (passed limit n r ≡ n)
crowd_passes now tick zero limit c some pass forward expired = absurd (omega arith)
crowd_passes now tick (suc i) limit c some pass forward expired =
    let s = serve_all now tick (suc i) limit c i (omega arith) pass forward expired in
    (s.race, s.reached, sum_below_ones (suc i) (λ j. passes limit (s.race.place j)) s.served)
