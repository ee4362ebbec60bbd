-- ===== src/Metric/History.antt =====
-- The attribute cache after any history of calls.
use tel.Base.{
  ◌≤◌, ◌≡◌, refl, ap, ◌∙◌, inl, inr, Bool, some, List, [], ◌∷◌, arith, Option-cases, Bool-cases,
}
use tel.Base.Int.{ℤ, or_default}
use tel.Base.Text.{Text}
use tel.Otel.{Otel}
use tel.Cardinality.{default_max_cardinality}
use tel.Metric.Keys.{Key, key_eq, key_eq_iff}
use tel.Metric.{SubjectEntry, AttrCache, new_attr_cache, set_deny_unknown, allow}
use tel.Metric.Entries.{entry_hit, lookup_at, len}
use tel.Metric.Invariant.{IsValid, total_entries}
use tel.Metric.Preserve.{new_attr_cache-IsValid, lookup_at-IsValid, allow-IsValid}
use tel.Metric.Refine.{Interner, view, intern}
use tel.Metric.Deny.{lookup_at-intern}

-- The calls that change a cache: the guarded lookups, `Allow` and `SetDenyUnknown`.
pub data Op : Type 0 where
  looks_up : Key → Op
  allows : List Text → Op
  denies : Bool → Op

module _ (o : Otel) where
  unfoldable pub step : AttrCache o → Op → AttrCache o
  step c (looks_up k) = (lookup_at o c k).0
  step c (allows labels) = allow o c labels
  step c (denies deny) = set_deny_unknown o c deny

  unfoldable pub run : AttrCache o → List Op → AttrCache o
  run c [] = c
  run c (op ∷ ops) = run (step c op) ops

  pub step-IsValid : (c : AttrCache o) (op : Op) → IsValid o c → IsValid o (step c op)
  unfolding step set_deny_unknown entry_hit
  step-IsValid c (looks_up k) v = lookup_at-IsValid o c k v
  step-IsValid c (allows labels) v = allow-IsValid o c labels v
  step-IsValid c (denies deny) v = record {
    bounded = v.bounded;
    counted = v.counted;
    placed = v.placed;
    interned = v.interned;
    overflowed = v.overflowed;
  }

  pub run-IsValid : (c : AttrCache o) (ops : List Op) → IsValid o c → IsValid o (run c ops)
  unfolding run
  run-IsValid c [] v = v
  run-IsValid c (op ∷ ops) v = run-IsValid (step c op) ops (step-IsValid c op v)

  -- What a step does to the interner: nothing, or one lookup.
  intern-keeps :
      (m : Interner o) (k j : Key) (e : SubjectEntry o)
      → m.table j ≡ some e
      → ((intern o m k).0.table j ≡ some e) × ((intern o m k).0.limit ≡ m.limit)
  unfolding intern
  intern-keeps m k j e h = elim (Option-cases (m.table k)) [
    | inr (e', known) ↦ rw (known, intern) (h, refl)
    | inl new ↦ elim (Bool-cases (key_eq k j)) [
      | inl same ↦ absurd (ground (arith, ap m.table ((key_eq_iff k j).0 same)))
      | inr other ↦ ground arith
    ]
  ]

  -- A step keeps the limit, and every interned key with its entry.
  step-keeps :
      (c : AttrCache o) (op : Op) (j : Key) (e : SubjectEntry o)
      → IsValid o c
      → (view o c).table j ≡ some e
      → (view o (step c op)).table j ≡ some e
  unfolding step set_deny_unknown entry_hit allow
  step-keeps c (looks_up k) j e v h = elim (lookup_at-intern o c k v) [
    | inl (_, _, same) ↦ ap (λ m. m.table j) same ∙ h
    | inr (_, _, next) ↦ ap (λ m. m.table j) next ∙ (intern-keeps (view o c) k j e h).0
  ]
  step-keeps c (allows []) j e v h = h
  step-keeps c (allows (l ∷ ls)) j e v h = h
  step-keeps c (denies deny) j e v h = h

  -- An interned key is never evicted, and its entry never changes.
  pub run-keeps :
      (c : AttrCache o) (ops : List Op) (j : Key) (e : SubjectEntry o)
      → IsValid o c
      → entry_hit o c j ≡ some e
      → entry_hit o (run c ops) j ≡ some e
  unfolding run
  run-keeps c [] j e v h = h
  run-keeps c (op ∷ ops) j e v h =
      run-keeps (step c op) ops j e (step-IsValid c op v) (step-keeps c op j e v h)

  intern-limit : (m : Interner o) (k : Key) → (intern o m k).0.limit ≡ m.limit
  unfolding intern
  intern-limit m k = ground arith

  step-max_entries :
      (c : AttrCache o) (op : Op) → IsValid o c → (step c op).max_entries ≡ c.max_entries
  unfolding step set_deny_unknown allow
  step-max_entries c (looks_up k) v = elim (lookup_at-intern o c k v) [
    | inl (_, _, same) ↦ ap (λ m. m.limit) same
    | inr (_, _, next) ↦ ap (λ m. m.limit) next ∙ intern-limit (view o c) k
  ]
  step-max_entries c (allows []) v = refl
  step-max_entries c (allows (l ∷ ls)) v = refl
  step-max_entries c (denies deny) v = refl

  pub run-max_entries :
      (c : AttrCache o) (ops : List Op) → IsValid o c → (run c ops).max_entries ≡ c.max_entries
  unfolding run
  run-max_entries c [] v = refl
  run-max_entries c (op ∷ ops) v =
      run-max_entries (step c op) ops (step-IsValid c op v) ∙ step-max_entries c op v

  -- After any history of a new cache, `Len` is the number of entries in the shards' maps, and at most
  -- the configured limit, or 100 where none is configured.
  pub len-run-le :
      (n : ℤ) (ops : List Op)
      → let c = run (new_attr_cache o n) ops in
        (len o c ≡ total_entries o c.shards) × (len o c ≤ or_default n default_max_cardinality)
  unfolding len new_attr_cache
  len-run-le n ops =
      let v = new_attr_cache-IsValid o n in
      let v' = run-IsValid (new_attr_cache o n) ops v in
      (v'.counted, omega (arith, v'.bounded, run-max_entries (new_attr_cache o n) ops v))
