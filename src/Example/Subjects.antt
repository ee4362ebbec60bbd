-- ===== src/Example/Subjects.antt =====
-- The example has three subjects, so that it interns three keys at most.
use tel.Base.{
  ℕ, ◌+◌, ◌%◌, ◌≤◌, ◌≡◌, refl, ◌⊎◌, inl, inr, none, some, is_some, arith, if◌then◌else◌,
  Option-cases,
}
use native.Mathlib.Decide.{dec_lt}
use tel.Base.Text.{text_eq}
use tel.Otel.{Otel}
use tel.Metric.Keys.{Key, one, key_eq}
use tel.Metric.Invariant.{entry_of}
use tel.Metric.Refine.{Interner, intern, intern_known, intern_new, intern_full}
use tel.Example.{subject_of}

below_3 : (n : ℕ) → (n % 3 ≡ 0) ⊎ ((n % 3 ≡ 1) ⊎ (n % 3 ≡ 2))
below_3 n = omega arith

pub subject_of-cases :
    (i : ℕ)
    → (subject_of i ≡ subject_of 0)
      ⊎ ((subject_of i ≡ subject_of 1) ⊎ (subject_of i ≡ subject_of 2))
unfolding subject_of
subject_of-cases i = elim (below_3 i) [
  | inl e ↦ inl (rw e refl)
  | inr (inl e) ↦ inr (inl (rw e refl))
  | inr (inr e) ↦ inr (inr (rw e refl))
]

module _ (o : Otel) where
  abbrev lacks : Interner o → ℕ → ℕ
  lacks m i = if is_some (m.table (one (subject_of i))) then 0 else 1

  -- The keys that are interned, and those of the example that are not.
  unfoldable pub reserved : Interner o → ℕ
  reserved m = m.used + lacks m 0 + lacks m 1 + lacks m 2

  abbrev stored : Interner o → Key → Interner o
  stored m k = record m {
    table = λ j. if key_eq k j then some (entry_of o k) else m.table j;
    used = m.used + 1;
  }

  reserved-stored_0 :
      (m : Interner o)
      → m.table (one (subject_of 0)) ≡ none
      → reserved (stored m (one (subject_of 0))) ≤ reserved m
  unfolding reserved subject_of key_eq text_eq
  reserved-stored_0 m new = ground arith

  reserved-stored_1 :
      (m : Interner o)
      → m.table (one (subject_of 1)) ≡ none
      → reserved (stored m (one (subject_of 1))) ≤ reserved m
  unfolding reserved subject_of key_eq text_eq
  reserved-stored_1 m new = ground arith

  reserved-stored_2 :
      (m : Interner o)
      → m.table (one (subject_of 2)) ≡ none
      → reserved (stored m (one (subject_of 2))) ≤ reserved m
  unfolding reserved subject_of key_eq text_eq
  reserved-stored_2 m new = ground arith

  -- Of a lookup only a new key matters.
  reserved-intern_new :
      (m : Interner o) (k : Key)
      → (m.table k ≡ none → reserved (stored m k) ≤ reserved m)
      → reserved (intern o m k).0 ≤ reserved m
  reserved-intern_new m k fits = elim (Option-cases (m.table k)) [
    | inr (e, known) ↦ rw (intern_known o m k e known) (omega arith)
    | inl new ↦ elim (dec_lt m.used m.limit) [
      | yes room ↦ rw (intern_new o m k new room) (fits new)
      | no full ↦ rw (intern_full o m k new (omega arith)) (omega arith)
    ]
  ]

  pub reserved-intern :
      (m : Interner o) (i : ℕ) → reserved (intern o m (one (subject_of i))).0 ≤ reserved m
  reserved-intern m i = elim (subject_of-cases i) [
    | inl e ↦ rw e (reserved-intern_new m (one (subject_of 0)) (reserved-stored_0 m))
    | inr (inl e) ↦ rw e (reserved-intern_new m (one (subject_of 1)) (reserved-stored_1 m))
    | inr (inr e) ↦ rw e (reserved-intern_new m (one (subject_of 2)) (reserved-stored_2 m))
  ]

  pub reserved_bounds : (m : Interner o) → (m.used ≤ reserved m) × (reserved m ≤ m.used + 3)
  unfolding reserved
  reserved_bounds m = (ground arith, ground arith)
