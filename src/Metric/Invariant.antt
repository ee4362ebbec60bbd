-- ===== src/Metric/Invariant.antt =====
-- The invariant of the attribute cache, and what each outcome of a lookup does to it.
use tel.Base.{
  ℕ, ◌+◌, ◌≤◌, ◌<◌, ◌≡◌, ◌≢◌, inl, inr, true, false, none, some, [], ◌∷◌, arith, update, sum_below,
  Option-cases,
}
use tel.Otel.{Otel}
use tel.Cardinality.{observe_miss}
use tel.Metric.Keys.{Key, key_Eq, index_of, attr_cache_shards, attr_key_subject, attrs_of, key_name}
use tel.Metric.{SubjectEntry, AttrShard, AttrCache, new_subject_entry, overflow_subject}
use tel.Metric.Entries.{find, put, entry_hit, entry_miss, entry_at, reserve_slot, overflow_entry}
use tel.Metric.Shards.{shard_len}

module _ (o : Otel) where
  -- The entry that the source builds for a key.
  abbrev pub entry_of : Key → SubjectEntry o
  entry_of k = new_subject_entry o (o.new_set (attrs_of k))

  -- The entry of the subject "_overflow".
  abbrev pub overflow_value : SubjectEntry o
  overflow_value = new_subject_entry o (o.new_set ((attr_key_subject, overflow_subject) ∷ []))

  -- All entries of all shards.
  abbrev pub total_entries : (ℕ → AttrShard o) → ℕ
  total_entries shards = sum_below attr_cache_shards (λ i. shard_len o (shards i))

pub record IsValid (o : Otel) (c : AttrCache o) : Type 0 where
  -- never more entries than the limit
  pub bounded : c.size ≤ c.max_entries
  -- `size` is the number of entries in the maps
  pub counted : c.size ≡ total_entries o c.shards
  -- a key is stored in the shard of its hash alone
  pub placed : (i : ℕ) (k : Key) → index_of k ≢ i → find o (c.shards i) k ≡ none
  -- an entry has the attributes of its own key
  pub interned : (k : Key) (e : SubjectEntry o) → entry_hit o c k ≡ some e → e ≡ entry_of o k
  pub overflowed : (e : SubjectEntry o) → c.overflow ≡ some e → e ≡ overflow_value o

module _ (o : Otel) where
  -- The cache after a new key was stored.
  abbrev pub stored : AttrCache o → Key → AttrCache o
  stored c k = record c {
    size = c.size + 1;
    detector = observe_miss c.detector (key_name k) false;
    shards = update c.shards (index_of k) (put o (c.shards (index_of k)) k (entry_of o k));
  }

  -- The cache after a new key found it full.
  abbrev pub refused : AttrCache o → Key → AttrCache o
  refused c k = record c {
    detector = observe_miss c.detector (key_name k) true;
    overflow = some (overflow_value o);
  }

  pub entry_at_known :
      (c : AttrCache o) (k : Key) (e : SubjectEntry o)
      → entry_hit o c k ≡ some e
      → entry_at o c k ≡ (c, e)
  unfolding entry_at
  entry_at_known c k e h = rw (h, entry_at)

  pub entry_at_new :
      (c : AttrCache o) (k : Key)
      → entry_hit o c k ≡ none
      → c.size < c.max_entries
      → entry_at o c k ≡ (stored c k, entry_of o k)
  unfolding entry_at entry_hit entry_miss reserve_slot
  entry_at_new c k h room = ground arith

  pub entry_at_full :
      (c : AttrCache o) (k : Key)
      → IsValid o c
      → entry_hit o c k ≡ none
      → c.max_entries ≤ c.size
      → entry_at o c k ≡ (refused c k, overflow_value o)
  unfolding entry_at entry_hit entry_miss reserve_slot overflow_entry
  entry_at_full c k v h full = elim (Option-cases c.overflow) [
    | inl new ↦ ground arith
    | inr (e, old) ↦ ground (arith, v.overflowed e old)
  ]
