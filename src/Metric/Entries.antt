-- ===== src/Metric/Entries.antt =====
-- metric.go: the lookup of a key, the reservation of a slot for a new one, and what callers read.
use tel.Base.{
  ℕ, ◌+◌, Bool, true, false, Option, none, some, List, [], ◌∷◌, ◌++◌, map, update, leb,
  if◌then◌else◌, zero, suc,
}
use tel.Base.Text.{Text}
use tel.Base.Assoc.{text_Eq, keys, lookup as map_lookup, insert as map_insert}
use tel.Otel.{Otel}
use tel.Cardinality.{observe_miss}
use tel.Metric.Keys.{
  Key, duo_Eq, trio_Eq, one, duo, trio, index_of, key_name, labels_of, attrs_of, attr_key_subject,
  attr_cache_shards,
}
use tel.Metric.{
  SubjectEntry, AttrShard, AttrCache, overflow_subject, new_subject_entry, is_allowed, note_denied,
}

module _ (o : Otel) where
  open o use {new_set, empty_set, AttrSet, AddOption, RecordOption}

  -- One round of the loop; no other caller changes `size` between the load and the swap, so the
  -- swap succeeds. `Reserve` is the loop with other callers.
  unfoldable pub reserve_slot : AttrCache o → Text → AttrCache o × Bool
  reserve_slot c miss_key =
      if leb c.max_entries c.size
      then (record c { detector = observe_miss c.detector miss_key true }, false)
      else (record c { size = c.size + 1; detector = observe_miss c.detector miss_key false }, true)

  unfoldable pub overflow_entry : AttrCache o → AttrCache o × SubjectEntry o
  overflow_entry c = elim c.overflow [
    | some e ↦ (c, e)
    | none ↦
        let e = new_subject_entry o (new_set ((attr_key_subject, overflow_subject) ∷ [])) in
        (record c { overflow = some e }, e)
  ]

  -- `s.cache[subject]`, `s.cache2[key]`, `s.cache3[key]`
  unfoldable pub find : AttrShard o → Key → Option (SubjectEntry o)
  find s (one a) = map_lookup s.cache a
  find s (duo a b) = map_lookup s.cache2 (record { a = a; b = b })
  find s (trio a b c) = map_lookup s.cache3 (record { a = a; b = b; c = c })

  -- the assignments to them
  unfoldable pub put : AttrShard o → Key → SubjectEntry o → AttrShard o
  put s (one a) e = record s { cache = map_insert s.cache a e }
  put s (duo a b) e = record s { cache2 = map_insert s.cache2 (record { a = a; b = b }) e }
  put s (trio a b c) e = record s {
    cache3 = map_insert s.cache3 (record { a = a; b = b; c = c }) e;
  }

  -- under the shard's read lock
  unfoldable pub entry_hit : AttrCache o → Key → Option (SubjectEntry o)
  entry_hit c k = find (c.shards (index_of k)) k

  -- under the shard's write lock: the second test, then the insertion
  unfoldable pub entry_miss : AttrCache o → Key → AttrCache o × SubjectEntry o
  entry_miss c k = elim (find (c.shards (index_of k)) k) [
    | some e ↦ (c, e)
    | none ↦
        let (c', reserved) = reserve_slot c (key_name k) in
        let e = new_subject_entry o (new_set (attrs_of k)) in
        if reserved
        then (
          record c' { shards = update c'.shards (index_of k) (put (c'.shards (index_of k)) k e) },
          e,
        )
        else overflow_entry c'
  ]

  unfoldable pub entry_at : AttrCache o → Key → AttrCache o × SubjectEntry o
  entry_at c k = elim (entry_hit c k) [ some e ↦ (c, e) | none ↦ entry_miss c k ]

  -- the method `entry`
  unfoldable pub entry : AttrCache o → Text → AttrCache o × SubjectEntry o
  entry c subject = entry_at c (one subject)

  unfoldable pub entry2 : AttrCache o → Text → Text → AttrCache o × SubjectEntry o
  entry2 c a b = entry_at c (duo a b)

  unfoldable pub entry3 : AttrCache o → Text → Text → Text → AttrCache o × SubjectEntry o
  entry3 c a b c3 = entry_at c (trio a b c3)

  -- `none` when the labels are denied
  unfoldable pub lookup_at : AttrCache o → Key → AttrCache o × Option (SubjectEntry o)
  lookup_at c k =
      if is_allowed o c (labels_of k)
      then (let (c', e) = entry_at c k in (c', some e))
      else (note_denied o c (key_name k), none)

  unfoldable pub lookup : AttrCache o → Text → AttrCache o × Option (SubjectEntry o)
  lookup c subject = lookup_at c (one subject)

  unfoldable pub lookup2 : AttrCache o → Text → Text → AttrCache o × Option (SubjectEntry o)
  lookup2 c a b = lookup_at c (duo a b)

  unfoldable pub lookup3 : AttrCache o → Text → Text → Text → AttrCache o × Option (SubjectEntry o)
  lookup3 c a b c3 = lookup_at c (trio a b c3)

  -- What a caller gets of the entry, or a default when the labels are denied.
  abbrev pub read {ℓ} :
      {A : Type ℓ}
      → A
      → (SubjectEntry o → A)
      → AttrCache o × Option (SubjectEntry o)
      → AttrCache o × A
  read d f (c, none) = (c, d)
  read d f (c, some e) = (c, f e)

  unfoldable pub subject_set : AttrCache o → Text → AttrCache o × AttrSet
  subject_set c subject = read empty_set (λ e. e.attrs) (lookup c subject)

  unfoldable pub subject_opts : AttrCache o → Text → AttrCache o × List AddOption
  subject_opts c subject = read [] (λ e. e.add_opts) (lookup c subject)

  unfoldable pub subject_record_opts : AttrCache o → Text → AttrCache o × List RecordOption
  subject_record_opts c subject = read [] (λ e. e.record_opts) (lookup c subject)

  unfoldable pub subject2_opts : AttrCache o → Text → Text → AttrCache o × List AddOption
  subject2_opts c a b = read [] (λ e. e.add_opts) (lookup2 c a b)

  unfoldable pub subject2_record_opts : AttrCache o → Text → Text → AttrCache o × List RecordOption
  subject2_record_opts c a b = read [] (λ e. e.record_opts) (lookup2 c a b)

  unfoldable pub subject3_opts : AttrCache o → Text → Text → Text → AttrCache o × List AddOption
  subject3_opts c a b c3 = read [] (λ e. e.add_opts) (lookup3 c a b c3)

  unfoldable pub subject3_record_opts :
      AttrCache o → Text → Text → Text → AttrCache o × List RecordOption
  subject3_record_opts c a b c3 = read [] (λ e. e.record_opts) (lookup3 c a b c3)

  -- the methods `Len` and `MaxEntries`
  unfoldable pub len : AttrCache o → ℕ
  len c = c.size

  unfoldable pub max_entries : AttrCache o → ℕ
  max_entries c = c.max_entries

  unfoldable pub shard_names : AttrShard o → List Text
  shard_names s =
      map (λ k. key_name (one k)) (keys s.cache)
      ++ (map (λ k. key_name (duo k.a k.b)) (keys s.cache2)
          ++ map (λ k. key_name (trio k.a k.b k.c)) (keys s.cache3))

  -- the loop of `Subjects` over the first `n` shards
  unfoldable pub names_below : ℕ → (ℕ → AttrShard o) → List Text
  names_below zero shards = []
  names_below (suc n) shards = names_below n shards ++ shard_names (shards n)

  unfoldable pub subjects : AttrCache o → List Text
  subjects c = names_below attr_cache_shards c.shards
