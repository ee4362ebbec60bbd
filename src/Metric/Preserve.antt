-- ===== src/Metric/Preserve.antt =====
-- Every operation of the attribute cache keeps its invariant.
use tel.Base.{
  ℕ, ◌+◌, ◌<◌, ◌≡◌, refl, sym, ap, subst, ◌∙◌, inl, inr, none, some, List, [], ◌∷◌, arith,
  if◌then◌else◌, update, sum_below-change, sum_below-zero, Option-cases, Bool-cases, ==_refl, ◌==◌,
  ==_iff, update_self, update_ne, ◌&&◌,
}
use tel.Base.Int.{ℤ}
use tel.Base.Text.{Text}
use tel.Base.Assoc.{text_Eq, lookup as map_lookup}
use native.Mathlib.Decide.{dec_lt, ℕ_discrete}
use tel.Otel.{Otel}
use tel.Metric.Keys.{
  Key, one, duo, trio, key_Eq, key_eq, key_eq_iff, index_of, index_of-lt, attr_cache_shards,
  labels_of, key_name,
}
use tel.Metric.{
  SubjectEntry, AttrShard, AttrCache, empty_shard, new_attr_cache, allow, note_denied, is_allowed,
}
use tel.Metric.Entries.{find, put, entry_hit, entry_at, lookup_at}
use tel.Metric.Shards.{shard_len, find-put, shard_len-put}
use tel.Metric.Invariant.{
  IsValid, entry_of, total_entries, stored, refused, entry_at_known, entry_at_new, entry_at_full,
}

module _ (o : Otel) where
  -- The maps of all shards after an assignment in one.
  find-update :
      (shards : ℕ → AttrShard o) (i n : ℕ) (k : Key) (e : SubjectEntry o) (j : Key)
      → find o (update shards i (put o (shards i) k e) n) j
        ≡ (if (n == i) && key_eq k j then some e else find o (shards n) j)
  find-update shards i n k e j = elim (ℕ_discrete n i) [
    | yes same ↦
        subst
          (λ m.
            find o (update shards i (put o (shards i) k e) m) j
            ≡ (if (m == i) && key_eq k j then some e else find o (shards m) j))
          (sym same) (rw (==_refl i) (find-put o (shards i) k e j))
    | no other ↦ rw (update_ne shards i (put o (shards i) k e) n other) (ground (arith, ==_iff n i))
  ]

  -- After a new key was stored, it is found, and every other key is as before.
  pub entry_hit-stored :
      (c : AttrCache o) (k j : Key)
      → entry_hit o (stored o c k) j ≡ (if key_eq k j then some (entry_of o k) else entry_hit o c j)
  unfolding entry_hit
  entry_hit-stored c k j =
      find-update c.shards (index_of k) (index_of j) k (entry_of o k) j
      ∙ elim (Bool-cases (key_eq k j)) [
        | inl same ↦ rw (same, ap index_of (sym ((key_eq_iff k j).0 same)), ==_refl (index_of k))
        | inr other ↦ rw other (ground arith)
      ]

  stored-counted :
      (c : AttrCache o) (k : Key)
      → IsValid o c
      → entry_hit o c k ≡ none
      → c.size + 1 ≡ total_entries o (stored o c k).shards
  unfolding entry_hit
  stored-counted c k v h =
      let shards' = (stored o c k).shards in
      let s' = put o (c.shards (index_of k)) k (entry_of o k) in
      omega (
        arith,
        v.counted,
        sum_below-change attr_cache_shards (index_of k) (λ i. shard_len o (c.shards i))
            (λ i. shard_len o (shards' i)) (index_of-lt k)
            (λ j ne. ap (shard_len o) (sym (update_ne c.shards (index_of k) s' j ne))),
        shard_len-put o (c.shards (index_of k)) k (entry_of o k) h,
        ap (shard_len o) (update_self c.shards (index_of k) s'),
      )

  stored-IsValid :
      (c : AttrCache o) (k : Key)
      → IsValid o c
      → entry_hit o c k ≡ none
      → c.size < c.max_entries
      → IsValid o (stored o c k)
  stored-IsValid c k v h room = record {
    bounded = omega arith;
    counted = stored-counted c k v h;
    placed = λ i j ne.
        find-update c.shards (index_of k) i k (entry_of o k) j
        ∙ ground (arith, v.placed i j ne, key_eq_iff k j, ==_iff i (index_of k));
    interned = λ j e found. ground (arith, entry_hit-stored c k j, key_eq_iff k j, v.interned j e);
    overflowed = v.overflowed;
  }

  find-empty_shard : (k : Key) → find o (empty_shard o) k ≡ none
  unfolding find empty_shard map_lookup
  find-empty_shard (one a) = refl
  find-empty_shard (duo a b) = refl
  find-empty_shard (trio a b c) = refl

  pub new_attr_cache-IsValid : (n : ℤ) → IsValid o (new_attr_cache o n)
  unfolding new_attr_cache shard_len entry_hit
  new_attr_cache-IsValid n = record {
    bounded = omega arith;
    counted = sym (sum_below-zero attr_cache_shards);
    placed = λ i k ne. find-empty_shard k;
    interned = λ k e h. cc (find-empty_shard k);
    overflowed = λ e h. cc;
  }

  refused-IsValid : (c : AttrCache o) (k : Key) → IsValid o c → IsValid o (refused o c k)
  unfolding entry_hit
  refused-IsValid c k v = record {
    bounded = v.bounded;
    counted = v.counted;
    placed = v.placed;
    interned = v.interned;
    overflowed = λ e h. cc;
  }

  -- A lookup of a key keeps the invariant, whether the key is known, is stored or finds no room.
  pub entry_at-IsValid : (c : AttrCache o) (k : Key) → IsValid o c → IsValid o (entry_at o c k).0
  entry_at-IsValid c k v = elim (Option-cases (entry_hit o c k)) [
    | inr (e, known) ↦ rw (entry_at_known o c k e known) v
    | inl new ↦ elim (dec_lt c.size c.max_entries) [
      | yes room ↦ rw (entry_at_new o c k new room) (stored-IsValid c k v new room)
      | no full ↦ rw (entry_at_full o c k v new (omega arith)) (refused-IsValid c k v)
    ]
  ]

  pub note_denied-IsValid :
      (c : AttrCache o) (label : Text) → IsValid o c → IsValid o (note_denied o c label)
  unfolding note_denied entry_hit
  note_denied-IsValid c label v = elim (Option-cases (map_lookup c.deny_once label)) [
    | inr (_, old) ↦ rw (old, note_denied) v
    | inl new ↦
        rw (new, note_denied)
          (record {
            bounded = v.bounded;
            counted = v.counted;
            placed = v.placed;
            interned = v.interned;
            overflowed = v.overflowed;
          })
  ]

  -- So does the guarded lookup, on its three branches.
  pub lookup_at-IsValid : (c : AttrCache o) (k : Key) → IsValid o c → IsValid o (lookup_at o c k).0
  unfolding lookup_at
  lookup_at-IsValid c k v = elim (Bool-cases (is_allowed o c (labels_of k))) [
    | inl yes' ↦ rw yes' (entry_at-IsValid c k v)
    | inr no' ↦ rw no' (note_denied-IsValid c (key_name k) v)
  ]

  pub allow-IsValid :
      (c : AttrCache o) (labels : List Text) → IsValid o c → IsValid o (allow o c labels)
  unfolding allow entry_hit
  allow-IsValid c [] v = v
  allow-IsValid c (l ∷ labels) v = record {
    bounded = v.bounded;
    counted = v.counted;
    placed = v.placed;
    interned = v.interned;
    overflowed = v.overflowed;
  }
