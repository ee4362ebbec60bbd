-- ===== src/Metric/Rounds.antt =====
-- How often the loop of `reserveSlot` can go round when goroutines contend for `size`.
use tel.Base.{
  ℕ, zero, suc, ◌+◌, ◌*◌, ◌≤◌, ◌<◌, ◌≡◌, refl, sym, ap, ◌⊎◌, inl, inr, arith, ◌==◌, if◌then◌else◌,
  update, update_self, update_ne, sum_below, sum_below-change, sum_below-suc, sum_below_none,
}
use native.Mathlib.Decide.{ℕ_discrete, dec_lt}
use tel.Metric.Reserve.{
  Place, at_load, at_swap, reserved, full, Race, Step, loads, loads_full, swaps, retries, Reach,
  here, next, start,
}

module _ {max_entries n : ℕ} where
  -- the atomic operations of a run
  pub steps : {r s : Race} → Reach max_entries n r s → ℕ
  steps here = 0
  steps (next path st) = 1 + steps path

-- 1 for a goroutine that has returned
abbrev pub finished : Place → ℕ
finished at_load = 0
finished (at_swap sz) = 0
finished reserved = 1
finished full = 1

sum_below-le :
    (n c : ℕ) (f g : ℕ → ℕ) → ((j : ℕ) → g j ≤ f j + c) → sum_below n g ≤ sum_below n f + n * c
sum_below-le zero c f g h = omega (arith, sum_below_none f, sum_below_none g)
sum_below-le (suc n) c f g h =
    grind (arith, sum_below-suc n f, sum_below-suc n g, sum_below-le n c f g h, h n)

-- What a goroutine of `n` may still do before another one gets a slot, and 2 * n for its own.
weight : ℕ → ℕ → Place → ℕ
weight n size at_load = 2 * n + 2
weight n size (at_swap sz) = if sz == size then 2 * n + 1 else 2 * n + 3
weight n size reserved = 0
weight n size full = 0

weight-le : (n size size' : ℕ) (p : Place) → weight n size' p ≤ weight n size p + 2
unfolding weight
weight-le n size size' at_load = omega arith
weight-le n size size' (at_swap sz) = ground arith
weight-le n size size' reserved = omega arith
weight-le n size size' full = omega arith

potential : ℕ → Race → ℕ
potential n r = sum_below n (λ i. weight n r.size (r.place i))

-- One goroutine moves, and the size stays.
potential-update :
    (n : ℕ) (r : Race) (i : ℕ) (p : Place)
    → i < n
    → potential n (record r { place = update r.place i p }) + weight n r.size (r.place i)
      ≡ potential n r + weight n r.size p
unfolding potential
potential-update n r i p h = omega (
  arith,
  sum_below-change n i (λ j. weight n r.size (r.place j))
      (λ j. weight n r.size (update r.place i p j)) h
      (λ j ne. ap (weight n r.size) (sym (update_ne r.place i p j ne))),
  ap (weight n r.size) (update_self r.place i p),
)

-- The size changes, and the goroutines stay.
potential-resize :
    (n : ℕ) (r : Race) (size : ℕ) → potential n (record r { size = size }) ≤ potential n r + n * 2
unfolding potential
potential-resize n r size =
    sum_below-le n 2 (λ i. weight n r.size (r.place i)) (λ i. weight n size (r.place i))
      (λ i. weight-le n r.size size (r.place i))

Step-potential :
    {max_entries n : ℕ} {r s : Race} → Step max_entries n r s → 1 + potential n s ≤ potential n r
unfolding weight
Step-potential {n = n} (loads r i h at room) =
    ground (arith, potential-update n r i (at_swap r.size) h, ap (weight n r.size) at)
Step-potential {n = n} (loads_full r i h at none_left) =
    ground (arith, potential-update n r i full h, ap (weight n r.size) at)
Step-potential {n = n} (swaps r i sz h at same) = ground (
  arith,
  potential-update n r i reserved h,
  potential-resize n (record r { place = update r.place i reserved }) (sz + 1),
  ap (weight n r.size) at,
  same,
)
Step-potential {n = n} (retries r i sz h at other) =
    ground (arith, potential-update n r i at_load h, ap (weight n r.size) at, other)

sum_below-const : (n c : ℕ) → sum_below n (λ _. c) ≡ n * c
sum_below-const zero c = omega (arith, sum_below_none (λ _. c))
sum_below-const (suc n) c = grind (arith, sum_below-suc n (λ _. c), sum_below-const n c)

steps-potential :
    {max_entries n : ℕ} {r s : Race} (path : Reach max_entries n r s)
    → steps path + potential n s ≤ potential n r
unfolding steps
steps-potential here = omega arith
steps-potential (next path st) = omega (arith, steps-potential path, Step-potential st)

-- A goroutine that has not returned can go on.
goes_on :
    {max_entries n : ℕ} (r : Race) (i : ℕ) (p : Place)
    → i < n
    → r.place i ≡ p
    → finished p ≡ 0
    → (s : Race) × Step max_entries n r s
goes_on {max_entries} r i at_load h at left = elim (dec_lt r.size max_entries) [
  | yes room ↦ (_, loads r i h at room)
  | no none_left ↦ (_, loads_full r i h at (omega arith))
]
goes_on r i (at_swap sz) h at left = elim (ℕ_discrete r.size sz) [
  | yes same ↦ (_, swaps r i sz h at same)
  | no other ↦ (_, retries r i sz h at other)
]
goes_on r i reserved h at left = absurd (omega (arith, left))
goes_on r i full h at left = absurd (omega (arith, left))

finished-cases : (p : Place) → (finished p ≡ 0) ⊎ (finished p ≡ 1)
finished-cases at_load = inl refl
finished-cases (at_swap sz) = inl refl
finished-cases reserved = inr refl
finished-cases full = inr refl

-- Of the first `k`, one can go on or all have returned.
go_on :
    {max_entries n : ℕ} (r : Race) (k : ℕ)
    → k ≤ n
    → ((s : Race) × Step max_entries n r s) ⊎ (sum_below k (λ i. finished (r.place i)) ≡ k)
go_on r zero le = inr (sum_below_none (λ i. finished (r.place i)))
go_on {max_entries = max_entries} {n = n} r (suc k) le =
    elim (go_on {max_entries = max_entries} {n = n} r k (omega arith)) [
      | inl more ↦ inl more
      | inr all ↦ elim (finished-cases (r.place k)) [
        | inl left ↦ inl (goes_on r k (r.place k) (omega arith) refl left)
        | inr done ↦ inr (omega (arith, sum_below-suc k (λ i. finished (r.place i)), all, done))
      ]
    ]

-- However `n` goroutines interleave, their swap loops end: together they take at most
-- n * (2 * n + 2) loads and swaps, and until all of them have returned one can always go on.
pub Reach-ends :
    {max_entries n first : ℕ} {r : Race} (path : Reach max_entries n (start first) r)
    → (steps path ≤ n * (2 * n + 2))
      × (((s : Race) × Step max_entries n r s) ⊎ (sum_below n (λ i. finished (r.place i)) ≡ n))
unfolding potential weight
Reach-ends {n = n} {r = r} path =
    (omega (arith, steps-potential path, sum_below-const n (2 * n + 2)), go_on r n (omega arith))
