-- ===== src/Metric/Subjects.antt =====
-- `Subjects`, the snapshot of the cached keys for /stats.
use tel.Base.{
  ℕ, zero, suc, ◌<◌, ◌≡◌, sym, ap, subst, ◌∙◌, ◌↔◌, inl, inr, true, List, [], ◌∷◌, ◌++◌, map, arith,
  Bool-cases, length, length-append, length-map, sum_below, sum_below_none, sum_below-suc, is_some,
}
use tel.Base.Text.{
  Text, among, among-append_cases, among-append_left, among-append_right, text_eq, text_eq_iff,
}
use tel.Base.Assoc.{Eq, text_Eq, Map, keys, lookup as map_lookup}
use native.Mathlib.Decide.{ℕ_discrete}
use tel.Otel.{Otel}
use tel.Metric.Keys.{
  Key, duo_Eq, trio_Eq, one, duo, trio, index_of, index_of-lt, key_name, attr_cache_shards,
}
use tel.Metric.{AttrShard, AttrCache}
use tel.Metric.Entries.{find, entry_hit, len, shard_names, names_below, subjects}
use tel.Metric.Shards.{shard_len}
use tel.Metric.Invariant.{IsValid}

-- A name among the names of a map's keys is the name of a key that is found.
named_key :
    {K V : Type 0} ⦃e : Eq K⦄ (f : K → Text) (m : Map K V) (n : Text)
    → among n (map f (keys m)) ≡ true
    → (k : K) × (f k ≡ n) × (is_some (map_lookup m k) ≡ true)
unfolding among map_lookup
named_key f [] n h = cc
named_key ⦃e⦄ f ((k, v) ∷ m) n h = elim (Bool-cases (text_eq (f k) n)) [
  | inl here ↦ (k, (text_eq_iff (f k) n).0 here, ground (arith, e.beq_iff k k))
  | inr there ↦
      let (j, named, found) = named_key ⦃e = e⦄ f m n (ground arith) in (j, named, ground arith)
]

key_named :
    {K V : Type 0} ⦃e : Eq K⦄ (f : K → Text) (m : Map K V) (k : K)
    → is_some (map_lookup m k) ≡ true
    → among (f k) (map f (keys m)) ≡ true
unfolding among map_lookup
key_named f [] k h = cc
key_named ⦃e⦄ f ((j, v) ∷ m) k h = elim (Bool-cases (e.beq j k)) [
  | inl here ↦ ground (arith, text_eq_iff (f j) (f k), ap f ((e.beq_iff j k).0 here))
  | inr there ↦ ground (arith, key_named ⦃e = e⦄ f m k)
]

module _ (o : Otel) where
  -- A name is among those of a shard exactly when the shard holds a key of that name.
  shard_names-found :
      (s : AttrShard o) (n : Text)
      → among n (shard_names o s) ≡ true
      → (k : Key) × (key_name k ≡ n) × (is_some (find o s k) ≡ true)
  unfolding shard_names find
  shard_names-found s n h = elim (among-append_cases n names1 (names2 ++ names3) h) [
    | inl in1 ↦
        let (a, named, found) = named_key (λ k. key_name (one k)) s.cache n in1 in
        (one a, named, found)
    | inr rest ↦ elim (among-append_cases n names2 names3 rest) [
      | inl in2 ↦
          let (d, named, found) = named_key (λ d. key_name (duo d.a d.b)) s.cache2 n in2 in
          (duo d.a d.b, named, found)
      | inr in3 ↦
          let (t, named, found) = named_key (λ t. key_name (trio t.a t.b t.c)) s.cache3 n in3 in
          (trio t.a t.b t.c, named, found)
    ]
  ]
    where
      names1 : List Text
      names1 = map (λ k. key_name (one k)) (keys s.cache)

      names2 : List Text
      names2 = map (λ d. key_name (duo d.a d.b)) (keys s.cache2)

      names3 : List Text
      names3 = map (λ t. key_name (trio t.a t.b t.c)) (keys s.cache3)

  shard_names-of_found :
      (s : AttrShard o) (k : Key)
      → is_some (find o s k) ≡ true
      → among (key_name k) (shard_names o s) ≡ true
  unfolding shard_names find
  shard_names-of_found s (one a) h =
      among-append_left a _ _ (key_named (λ k. key_name (one k)) s.cache a h)
  shard_names-of_found s (duo a b) h =
      among-append_right _ (map (λ k. key_name (one k)) (keys s.cache)) _ (
        among-append_left _ _ _
          (key_named (λ d. key_name (duo d.a d.b)) s.cache2 (record { a = a; b = b }) h))
  shard_names-of_found s (trio a b c) h =
      among-append_right _ (map (λ k. key_name (one k)) (keys s.cache)) _ (
        among-append_right _ (map (λ d. key_name (duo d.a d.b)) (keys s.cache2)) _ (
          key_named (λ t. key_name (trio t.a t.b t.c)) s.cache3 (record { a = a; b = b; c = c }) h))

  names_below-found :
      (m : ℕ) (shards : ℕ → AttrShard o) (n : Text)
      → among n (names_below o m shards) ≡ true
      → (i : ℕ) × (k : Key) × (key_name k ≡ n) × (is_some (find o (shards i) k) ≡ true)
  unfolding names_below among
  names_below-found zero shards n h = cc
  names_below-found (suc m) shards n h =
      elim (among-append_cases n (names_below o m shards) (shard_names o (shards m)) h) [
        | inl below ↦ names_below-found m shards n below
        | inr here ↦
            let (k, named, found) = shard_names-found (shards m) n here in (m, k, named, found)
      ]

  names_below-of_found :
      (m : ℕ) (shards : ℕ → AttrShard o) (i : ℕ) (k : Key)
      → i < m
      → is_some (find o (shards i) k) ≡ true
      → among (key_name k) (names_below o m shards) ≡ true
  unfolding names_below
  names_below-of_found zero shards i k p h = absurd (omega arith)
  names_below-of_found (suc m) shards i k p h = elim (ℕ_discrete i m) [
    | yes last ↦
        among-append_right (key_name k) (names_below o m shards) (shard_names o (shards m)) (
          shard_names-of_found (shards m) k
            (subst (λ j. is_some (find o (shards j) k) ≡ true) last h))
    | no earlier ↦
        among-append_left (key_name k) (names_below o m shards) (shard_names o (shards m))
          (names_below-of_found m shards i k (omega arith) h)
  ]

  length-shard_names : (s : AttrShard o) → length (shard_names o s) ≡ shard_len o s
  unfolding shard_names shard_len
  length-shard_names s = simp (length-append, length-map) (omega arith)

  length-names_below :
      (m : ℕ) (shards : ℕ → AttrShard o)
      → length (names_below o m shards) ≡ sum_below m (λ i. shard_len o (shards i))
  unfolding names_below
  length-names_below zero shards = sym (sum_below_none _)
  length-names_below (suc m) shards = omega (
    arith,
    length-append (names_below o m shards) (shard_names o (shards m)),
    length-shard_names (shards m),
    length-names_below m shards,
    sum_below-suc m (λ i. shard_len o (shards i)),
  )

  -- The snapshot has one name for each entry: as many as `Len`, and a name is there exactly when a
  -- cached key has it, of one, of two or of three labels.
  pub subjects-cached :
      (c : AttrCache o)
      → IsValid o c
      → (length (subjects o c) ≡ len o c)
        × ((n : Text)
            → (among n (subjects o c) ≡ true)
              ↔ ((k : Key) × (key_name k ≡ n) × (is_some (entry_hit o c k) ≡ true)))
  unfolding subjects len entry_hit
  subjects-cached c v = (
    length-names_below attr_cache_shards c.shards ∙ sym v.counted,
    λ n. (
      λ h. cached n h,
      λ (k, named, found).
          rw (← named)
            (names_below-of_found attr_cache_shards c.shards (index_of k) k (index_of-lt k) found),
    ),
  )
    where
      cached :
          (n : Text)
          → among n (names_below o attr_cache_shards c.shards) ≡ true
          → (k : Key) × (key_name k ≡ n) × (is_some (entry_hit o c k) ≡ true)
      cached n h =
          let (i, k, named, found) = names_below-found attr_cache_shards c.shards n h in
          elim (ℕ_discrete (index_of k) i) [
            | yes home ↦
                (k, named, subst (λ j. is_some (find o (c.shards j) k) ≡ true) (sym home) found)
            | no away ↦ absurd (ground (arith, v.placed i k away))
          ]
