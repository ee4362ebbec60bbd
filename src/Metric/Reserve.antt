-- ===== src/Metric/Reserve.antt =====
-- `reserveSlot` called from several goroutines at once: shards have locks of their own, so the
-- loads and the swaps of `size` interleave in any order.
use tel.Base.{
  ℕ, ◌+◌, ◌≤◌, ◌<◌, ◌≡◌, ◌≢◌, sym, ap, ◌∙◌, ◌⊎◌, inl, inr, arith, update, update_self, update_ne,
  sum_below, sum_below-change, sum_below-zero,
}
use native.Mathlib.Decide.{ℕ_discrete}

-- Where a goroutine stands: at the load, between the load and the swap with the size that it read,
-- or returned with true or with false.
pub data Place : Type 0 where
  at_load : Place
  at_swap : ℕ → Place
  reserved : Place
  full : Place

pub record Race : Type 0 where
  pub size : ℕ
  pub place : ℕ → Place

-- One atomic operation of one of `n` goroutines.
pub data Step (max_entries n : ℕ) : Race → Race → Type 0 where
  loads :
      (r : Race) (i : ℕ)
      → i < n
      → r.place i ≡ at_load
      → r.size < max_entries
      → Step max_entries n r (record r { place = update r.place i (at_swap r.size) })
  loads_full :
      (r : Race) (i : ℕ)
      → i < n
      → r.place i ≡ at_load
      → max_entries ≤ r.size
      → Step max_entries n r (record r { place = update r.place i full })
  swaps :
      (r : Race) (i sz : ℕ)
      → i < n
      → r.place i ≡ at_swap sz
      → r.size ≡ sz
      → Step max_entries n r (record r { size = sz + 1; place = update r.place i reserved })
  retries :
      (r : Race) (i sz : ℕ)
      → i < n
      → r.place i ≡ at_swap sz
      → r.size ≢ sz
      → Step max_entries n r (record r { place = update r.place i at_load })

pub data Reach (max_entries n : ℕ) (r : Race) : Race → Type 0 where
  here : Reach max_entries n r r
  next : {s t : Race} → Reach max_entries n r s → Step max_entries n s t → Reach max_entries n r t

-- 1 for a goroutine that has a slot.
abbrev pub has_slot : Place → ℕ
has_slot reserved = 1
has_slot at_load = 0
has_slot (at_swap sz) = 0
has_slot full = 0

-- The goroutines that have a slot.
abbrev pub slots : ℕ → Race → ℕ
slots n r = sum_below n (λ i. has_slot (r.place i))

-- All callers at the start of the loop.
abbrev pub start : ℕ → Race
start size = record { size = size; place = λ _. at_load }

pub record IsSafe (max_entries n first : ℕ) (r : Race) : Type 0 where
  pub bounded : r.size ≤ max_entries
  pub granted : r.size ≡ first + slots n r
  pub passed : (i sz : ℕ) → r.place i ≡ at_swap sz → sz < max_entries
  pub refused : (i : ℕ) → r.place i ≡ full → r.size ≡ max_entries

module _ (n : ℕ) (r : Race) (i : ℕ) (p : Place) where
  -- A goroutine moves: the slots change by its own.
  slots-update :
      i < n
      → slots n (record r { place = update r.place i p }) + has_slot (r.place i)
        ≡ slots n r + has_slot p
  slots-update h = omega (
    arith,
    sum_below-change n i (λ j. has_slot (r.place j)) (λ j. has_slot (update r.place i p j)) h
        (λ j ne. ap has_slot (sym (update_ne r.place i p j ne))),
    ap has_slot (update_self r.place i p),
  )

-- What an update of one place leads to: the new place there, or the old place elsewhere.
place_cases : (f : ℕ → Place) (i j : ℕ) (p q : Place) → update f i p j ≡ q → (p ≡ q) ⊎ (f j ≡ q)
place_cases f i j p q h = elim (ℕ_discrete j i) [
  | yes same ↦ inl (sym (update_self f i p) ∙ sym (ap (update f i p) same) ∙ h)
  | no other ↦ inr (sym (update_ne f i p j other) ∙ h)
]

Step-IsSafe :
    {max_entries n first : ℕ} {r s : Race}
    → Step max_entries n r s
    → IsSafe max_entries n first r
    → IsSafe max_entries n first s
Step-IsSafe {n = n} (loads r i h at room) v = record {
  bounded = v.bounded;
  granted = omega (arith, v.granted, slots-update n r i (at_swap r.size) h, ap has_slot at);
  passed = λ j sz e. elim (place_cases r.place i j (at_swap r.size) (at_swap sz) e) [
    | inl new ↦ ground arith
    | inr old ↦ v.passed j sz old
  ];
  refused = λ j e. elim (place_cases r.place i j (at_swap r.size) full e) [
    | inl new ↦ cc
    | inr old ↦ v.refused j old
  ];
}
Step-IsSafe {n = n} (loads_full r i h at none_left) v = record {
  bounded = v.bounded;
  granted = omega (arith, v.granted, slots-update n r i full h, ap has_slot at);
  passed = λ j sz e. elim (place_cases r.place i j full (at_swap sz) e) [
    | inl new ↦ cc
    | inr old ↦ v.passed j sz old
  ];
  refused = λ j e. omega (arith, v.bounded);
}
Step-IsSafe {max_entries} {n = n} (swaps r i sz h at same) v = record {
  bounded = omega (arith, v.passed i sz at);
  granted = omega (arith, v.granted, slots-update n r i reserved h, ap has_slot at);
  passed = λ j sz' e. elim (place_cases r.place i j reserved (at_swap sz') e) [
    | inl new ↦ cc
    | inr old ↦ v.passed j sz' old
  ];
  refused = λ j e. elim (place_cases r.place i j reserved full e) [
    | inl new ↦ cc
    | inr old ↦ absurd (omega (arith, v.refused j old, v.passed i sz at))
  ];
}
Step-IsSafe {n = n} (retries r i sz h at other) v = record {
  bounded = v.bounded;
  granted = omega (arith, v.granted, slots-update n r i at_load h, ap has_slot at);
  passed = λ j sz' e. elim (place_cases r.place i j at_load (at_swap sz') e) [
    | inl new ↦ cc
    | inr old ↦ v.passed j sz' old
  ];
  refused = λ j e. elim (place_cases r.place i j at_load full e) [
    | inl new ↦ cc
    | inr old ↦ v.refused j old
  ];
}

start-IsSafe :
    {max_entries n first : ℕ} → first ≤ max_entries → IsSafe max_entries n first (start first)
start-IsSafe {n = n} h = record {
  bounded = h;
  granted = omega (arith, sum_below-zero n);
  passed = λ i sz e. cc;
  refused = λ i e. cc;
}

-- However the loads and swaps of `n` goroutines interleave, the size never passes the limit, it has
-- grown by exactly the number of slots granted, and whoever was refused a slot found the cache full
-- for good.
pub Reach-IsSafe :
    {max_entries n first : ℕ} {r : Race}
    → first ≤ max_entries
    → Reach max_entries n (start first) r
    → IsSafe max_entries n first r
Reach-IsSafe h here = start-IsSafe h
Reach-IsSafe h (next path st) = Step-IsSafe st (Reach-IsSafe h path)
