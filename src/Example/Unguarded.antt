-- ===== src/Example/Unguarded.antt =====
-- What a labelled record of a live instrument does where no label is denied.
use tel.Base.{
  ℕ, ◌+◌, ◌≡◌, refl, sym, ap, ◌∙◌, true, false, some, List, [], ◌∷◌, ◌++◌, arith, inl, inr,
  if◌then◌else◌, Option-cases,
}
use tel.Base.Text.{Text, is_empty}
use tel.Otel.{Otel}
use tel.Metric.Keys.{Key, one, labels_of, key_eq, key_eq_iff}
use tel.Metric.{AttrCache, SubjectEntry, is_allowed, note_denied}
use tel.Metric.Entries.{entry_at, entry_miss, reserve_slot, overflow_entry, lookup_at}
use tel.Metric.Invariant.{IsValid, entry_of}
use tel.Metric.Preserve.{lookup_at-IsValid}
use native.Mathlib.Decide.{dec_lt}
use tel.Metric.Refine.{Interner, intern, view, intern_known, intern_new, intern_full}
use tel.Instruments.Fast.{Fast, Recorded, live, emit_with}
use tel.Instruments.Recording.{emit_key-finish, finish-some, all_empty}
use tel.Metric.Deny.{lookup_at-intern}

module _ (o : Otel) where
  pub intern_again : (m : Interner o) (k : Key) → intern o (intern o m k).0 k ≡ intern o m k
  intern_again m k = elim (Option-cases (m.table k)) [
    | inr (e, known) ↦
        ap (λ (x : Interner o × SubjectEntry o). intern o x.0 k) (intern_known o m k e known)
    | inl new ↦ elim (dec_lt m.used m.limit) [
      | yes room ↦
          let h = intern_new o m k new room in
          let m' = (record m {
            table = λ j. if key_eq k j then some (entry_of o k) else m.table j;
            used = m.used + 1;
          }) in
          ap (λ (x : Interner o × SubjectEntry o). intern o x.0 k) h
          ∙ intern_known o m' k (entry_of o k) (rw ((key_eq_iff k k).1 refl) refl)
          ∙ sym h
      | no full ↦
          ap (λ (x : Interner o × SubjectEntry o). intern o x.0 k)
            (intern_full o m k new (omega arith))
    ]
  ]

  unguarded_allows :
      (c : AttrCache o) (ls : List Text) → c.deny_unknown ≡ false → is_allowed o c ls ≡ true
  unfolding is_allowed
  unguarded_allows c ls h = ground arith

  lookup_at-unguarded :
      (c : AttrCache o) (k : Key) → (lookup_at o c k).0.deny_unknown ≡ c.deny_unknown
  unfolding lookup_at entry_at entry_miss note_denied reserve_slot overflow_entry
  lookup_at-unguarded c k = ground arith

  lookup_at-passes :
      (c : AttrCache o) (k : Key)
      → IsValid o c
      → c.deny_unknown ≡ false
      → ((lookup_at o c k).1 ≡ some (intern o (view o c) k).1)
        × (view o (lookup_at o c k).0 ≡ (intern o (view o c) k).0)
  lookup_at-passes c k valid unguarded = elim (lookup_at-intern o c k valid) [
    | inl (denied, _, _) ↦ ground (arith, denied, unguarded_allows c (labels_of k) unguarded)
    | inr (passed, found, next) ↦ (found, next)
  ]

  -- A labelled record of a live instrument, where no label is denied.
  abbrev pub Records :
      {H V O : Type 0}
      → (SubjectEntry o → List O)
      → Fast H O
      → V
      → AttrCache o
      → Key
      → AttrCache o × List (Recorded H V O)
      → Type 0
  Records opts_of f v c k (c', calls) =
      (calls
        ≡ record {
          handle = f.handle;
          value = v;
          opts = f.opts ++ opts_of (intern o (view o c) k).1;
        }
          ∷ [])
      × (view o c' ≡ (intern o (view o c) k).0)
      × IsValid o c'
      × (c'.deny_unknown ≡ false)

  pub emit_with-Records :
      {H V O : Type 0} (opts_of : SubjectEntry o → List O) (current : ℕ) (c : AttrCache o)
      (f : Fast H O) (v : V) (a : Text)
      → IsValid o c
      → c.deny_unknown ≡ false
      → live current f ≡ true
      → is_empty a ≡ false
      → Records opts_of f v c (one a) (emit_with o opts_of current c f v a)
  unfolding all_empty
  emit_with-Records opts_of current c f v a valid unguarded on full =
      let (found, next) = lookup_at-passes c (one a) valid unguarded in
      let (c', r) = lookup_at o c (one a) in
      rw
        (
          emit_key-finish o opts_of current c f v (one a) on (rw full refl),
          finish-some o opts_of f v c' r (intern o (view o c) (one a)).1 found,
        )
        (refl, next, lookup_at-IsValid o c (one a) valid, lookup_at-unguarded c (one a) ∙ unguarded)
