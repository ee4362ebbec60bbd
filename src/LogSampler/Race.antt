-- ===== src/LogSampler/Race.antt =====
-- `inc` called from several goroutines at once: its loads, stores and swaps interleave in any order.
use tel.Base.{ℕ, ◌+◌, ◌%◌, ◌^◌, ◌≤◌, ◌<◌, ◌≡◌, ◌≢◌, ltb, if◌then◌else◌, update, sum_below}
use tel.LogSampler.{RateCounter}

-- Where a goroutine stands: at the load, before the store of 1 or before the swap with the time that
-- it read, before an increment, or returned.
pub data Place : Type 0 where
  at_load : Place
  at_store : ℕ → Place
  at_swap : ℕ → Place
  at_add : Place
  done : ℕ → Place

pub record Race : Type 0 where
  pub counter : RateCounter
  pub place : ℕ → Place

abbrev move : Race → ℕ → RateCounter → Place → Race
move r i c p = record { counter = c; place = update r.place i p }

-- One atomic operation of one of `n` goroutines, all of which read the same time `now`.
pub data Step (now tick n : ℕ) (r : Race) : Race → Type 0 where
  loads_open :
      (i : ℕ)
      → i < n
      → r.place i ≡ at_load
      → now < r.counter.reset_at
      → Step now tick n r (move r i r.counter at_add)
  loads_expired :
      (i : ℕ)
      → i < n
      → r.place i ≡ at_load
      → r.counter.reset_at ≤ now
      → Step now tick n r (move r i r.counter (at_store r.counter.reset_at))
  stores :
      (i after : ℕ)
      → i < n
      → r.place i ≡ at_store after
      → Step now tick n r
          (move r i (record { reset_at = r.counter.reset_at; count = 1 }) (at_swap after))
  swaps :
      (i after : ℕ)
      → i < n
      → r.place i ≡ at_swap after
      → r.counter.reset_at ≡ after
      → Step now tick n r
          (move r i (record { reset_at = now + tick; count = r.counter.count }) (done 1))
  swap_fails :
      (i after : ℕ)
      → i < n
      → r.place i ≡ at_swap after
      → r.counter.reset_at ≢ after
      → Step now tick n r (move r i r.counter at_add)
  adds :
      (i : ℕ)
      → i < n
      → r.place i ≡ at_add
      → Step now tick n r (
          move r i
            (record { reset_at = r.counter.reset_at; count = (r.counter.count + 1) % 2 ^ 64 })
            (done ((r.counter.count + 1) % 2 ^ 64)))

pub data Reach (now tick n : ℕ) (r : Race) : Race → Type 0 where
  here : Reach now tick n r r
  next : {s t : Race} → Reach now tick n r s → Step now tick n s t → Reach now tick n r t

-- All callers at the load.
abbrev pub start : RateCounter → Race
start c = record { counter = c; place = λ _. at_load }

-- 1 for a goroutine whose message passes a limit.
abbrev pub passes : ℕ → Place → ℕ
passes limit at_load = 0
passes limit (at_store after) = 0
passes limit (at_swap after) = 0
passes limit at_add = 0
passes limit (done n) = if ltb limit n then 0 else 1

abbrev pub passed : ℕ → ℕ → Race → ℕ
passed limit n r = sum_below n (λ i. passes limit (r.place i))
