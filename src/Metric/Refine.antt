-- ===== src/Metric/Refine.antt =====
-- The sharded cache implements a bounded interner: one table over all keys, with a limit.
use tel.Base.{
  ℕ, ◌+◌, ◌≤◌, ◌<◌, ◌≡◌, refl, ap, fun_ext, inl, inr, none, some, Option, arith, if◌then◌else◌,
  Option-cases, ltb, lt→ltb,
}
use native.Mathlib.Decide.{dec_lt}
use tel.Otel.{Otel}
use tel.Metric.Keys.{Key, key_eq}
use tel.Metric.{SubjectEntry, AttrCache}
use tel.Metric.Entries.{entry_hit, entry_at}
use tel.Metric.Invariant.{
  IsValid, entry_of, overflow_value, refused, entry_at_known, entry_at_new, entry_at_full,
}
use tel.Metric.Preserve.{entry_hit-stored}

-- No shards, no hashes: which keys are interned, how many, and how many may be.
pub record Interner (o : Otel) : Type 0 where
  pub table : Key → Option (SubjectEntry o)
  pub used : ℕ
  pub limit : ℕ

module _ (o : Otel) where
  -- A known key keeps its entry; a new key is interned while there is room, and shares the overflow
  -- entry afterwards.
  unfoldable pub intern : Interner o → Key → Interner o × SubjectEntry o
  intern m k = elim (m.table k) [
    | some e ↦ (m, e)
    | none ↦
        if ltb m.used m.limit
        then (
          record m {
            table = λ j. if key_eq k j then some (entry_of o k) else m.table j;
            used = m.used + 1;
          },
          entry_of o k,
        )
        else (m, overflow_value o)
  ]

  abbrev pub view : AttrCache o → Interner o
  view c = record { table = entry_hit o c; used = c.size; limit = c.max_entries }

  pub intern_known :
      (m : Interner o) (k : Key) (e : SubjectEntry o) → m.table k ≡ some e → intern m k ≡ (m, e)
  unfolding intern
  intern_known m k e h = rw (h, intern)

  pub intern_new :
      (m : Interner o) (k : Key)
      → m.table k ≡ none
      → m.used < m.limit
      → intern m k ≡ (
        record m {
          table = λ j. if key_eq k j then some (entry_of o k) else m.table j;
          used = m.used + 1;
        },
        entry_of o k,
      )
  unfolding intern
  intern_new m k h room = rw (h, intern, lt→ltb m.used m.limit room)

  pub intern_full :
      (m : Interner o) (k : Key)
      → m.table k ≡ none
      → m.limit ≤ m.used
      → intern m k ≡ (m, overflow_value o)
  unfolding intern
  intern_full m k h full = ground arith

  view-refused : (c : AttrCache o) (k : Key) → view (refused o c k) ≡ view c
  unfolding entry_hit
  view-refused c k = refl

  -- A lookup in the sharded cache is a lookup in the interner that it stands for: same entry, and
  -- the cache afterwards stands for the interner afterwards.
  pub entry_at-intern :
      (c : AttrCache o) (k : Key)
      → IsValid o c
      → (view (entry_at o c k).0 ≡ (intern (view c) k).0)
        × ((entry_at o c k).1 ≡ (intern (view c) k).1)
  entry_at-intern c k v = elim (Option-cases (entry_hit o c k)) [
    | inr (e, known) ↦
        rw (entry_at_known o c k e known, intern_known (view c) k e known) (refl, refl)
    | inl new ↦ elim (dec_lt c.size c.max_entries) [
      | yes room ↦
          rw (entry_at_new o c k new room, intern_new (view c) k new room)
            (
              ap
                  (λ (t : Key → Option (SubjectEntry o)).
                    let m : Interner o = record {
                      table = t;
                      used = c.size + 1;
                      limit = c.max_entries;
                    } in
                    m)
                  (fun_ext (entry_hit-stored o c k)),
              refl,
            )
      | no full ↦
          rw (entry_at_full o c k v new (omega arith), intern_full (view c) k new (omega arith))
            (view-refused c k, refl)
    ]
  ]
