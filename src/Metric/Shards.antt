-- ===== src/Metric/Shards.antt =====
-- The three maps of a shard behave as one map from keys of any arity.
use tel.Base.{ℕ, ◌+◌, ◌≡◌, refl, none, some, arith, length, if◌then◌else◌}
use tel.Base.Assoc.{text_Eq, lookup-insert, length-insert}
use tel.Otel.{Otel}
use tel.Metric.Keys.{Key, one, duo, trio, key_eq, duo_Eq, trio_Eq}
use tel.Metric.{SubjectEntry, AttrShard}
use tel.Metric.Entries.{find, put}

module _ (o : Otel) where
  unfoldable pub shard_len : AttrShard o → ℕ
  shard_len s = length s.cache + length s.cache2 + length s.cache3

  -- A key that was assigned is found, with its entry, and every other key is as before.
  pub find-put :
      (s : AttrShard o) (k : Key) (e : SubjectEntry o) (j : Key)
      → find o (put o s k e) j ≡ (if key_eq k j then some e else find o s j)
  unfolding find put key_eq
  find-put s (one a) e (one a') = lookup-insert s.cache a e a'
  find-put s (duo a b) e (duo a' b') =
      lookup-insert s.cache2 (record { a = a; b = b }) e (record { a = a'; b = b' })
  find-put s (trio a b c) e (trio a' b' c') =
      lookup-insert s.cache3 (record { a = a; b = b; c = c }) e (record { a = a'; b = b'; c = c' })
  find-put s _ e _ = refl

  -- An assignment to a key that is not there adds one entry to the shard.
  pub shard_len-put :
      (s : AttrShard o) (k : Key) (e : SubjectEntry o)
      → find o s k ≡ none
      → shard_len (put o s k e) ≡ shard_len s + 1
  unfolding find put shard_len
  shard_len-put s (one a) e h = omega (arith, length-insert s.cache a e h)
  shard_len-put s (duo a b) e h = omega (arith, length-insert s.cache2 _ e h)
  shard_len-put s (trio a b c) e h = omega (arith, length-insert s.cache3 _ e h)
