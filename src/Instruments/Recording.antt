-- ===== src/Instruments/Recording.antt =====
-- What an instrument records, on every branch of its methods.
use tel.Base.{
  ℕ, ◌≡◌, ◌≢◌, refl, ◌⊎◌, inl, inr, Bool, true, false, ◌&&◌, Option, none, some, List, [], ◌∷◌,
  ◌++◌, arith, eq-nil_of_length,
}
use tel.Base.Text.{Text, is_empty}
use tel.Otel.{Otel}
use tel.Metric.Keys.{Key, one, duo, trio, labels_of}
use tel.Metric.{AttrCache, SubjectEntry, is_allowed}
use tel.Metric.Entries.{lookup, lookup2, lookup3, lookup_at}
use tel.Metric.Invariant.{IsValid}
use tel.Metric.Refine.{view, intern}
use tel.Metric.Deny.{lookup_at-intern}
use tel.Instruments.Fast.{
  Fast, Recorded, live, emit, combine, emit_with_opts, finish, emit_with, emit_with2, emit_with3,
}

pub combine-append : {O : Type 0} (own opts : List O) → combine own opts ≡ own ++ opts
unfolding combine
combine-append [] opts = refl
combine-append (p ∷ []) [] = refl
combine-append (p ∷ []) (q ∷ []) = refl
combine-append (p ∷ []) (q ∷ r ∷ opts) = refl
combine-append (p ∷ q ∷ own) opts = refl

unfoldable pub all_empty : List Text → Bool
all_empty [] = true
all_empty (l ∷ ls) = is_empty l && all_empty ls

module _ (o : Otel) {H V O : Type 0} (opts_of : SubjectEntry o → List O) where
  -- The three labelled methods, by the key of their labels.
  abbrev pub emit_key : ℕ → AttrCache o → Fast H O → V → Key → AttrCache o × List (Recorded H V O)
  emit_key current c f v (one a) = emit_with o opts_of current c f v a
  emit_key current c f v (duo a b) = emit_with2 o opts_of current c f v a b
  emit_key current c f v (trio a b c3) = emit_with3 o opts_of current c f v a b c3

  -- An instrument of another epoch records nothing and leaves the cache alone.
  pub dead-records_nothing :
      (current : ℕ) (c : AttrCache o) (f : Fast H O) (v : V) (k : Key)
      → f.bound ≡ true
      → current ≢ f.epoch
      → (emit_key current c f v k ≡ (c, [])) × (emit current f v ≡ [])
  unfolding emit_with emit_with2 emit_with3 emit live
  dead-records_nothing current c f v (one a) h ne = ground arith
  dead-records_nothing current c f v (duo a b) h ne = ground arith
  dead-records_nothing current c f v (trio a b c3) h ne = ground arith

  pub emit_key-finish :
      (current : ℕ) (c : AttrCache o) (f : Fast H O) (v : V) (k : Key)
      → live current f ≡ true
      → all_empty (labels_of k) ≡ false
      → emit_key current c f v k ≡ finish o opts_of f v (lookup_at o c k)
  unfolding emit_with emit_with2 emit_with3 lookup lookup2 lookup3 all_empty
  emit_key-finish current c f v (one a) h e = ground arith
  emit_key-finish current c f v (duo a b) h e = ground arith
  emit_key-finish current c f v (trio a b c3) h e = ground arith

  finish-none :
      (f : Fast H O) (v : V) (c : AttrCache o) (r : Option (SubjectEntry o))
      → r ≡ none
      → finish o opts_of f v (c, r) ≡ (c, [])
  finish-none f v c none h = refl
  finish-none f v c (some e) h = cc

  pub finish-some :
      (f : Fast H O) (v : V) (c : AttrCache o) (r : Option (SubjectEntry o)) (e : SubjectEntry o)
      → r ≡ some e
      → finish o opts_of f v (c, r)
        ≡ (c, record { handle = f.handle; value = v; opts = f.opts ++ opts_of e } ∷ [])
  unfolding emit_with_opts
  finish-some f v c none e h = cc
  finish-some f v c (some d) e h = ground (arith, combine-append f.opts (opts_of e))

  emit-live :
      (current : ℕ) (f : Fast H O) (v : V)
      → live current f ≡ true
      → emit current f v ≡ record { handle = f.handle; value = v; opts = f.opts } ∷ []
  unfolding emit
  emit-live current f v h = rw h (ground (arith, eq-nil_of_length f.opts))

  -- A live instrument with a label that is not empty: a denied key records nothing and interns
  -- nothing; any other key records the value once, with the instrument's own options and then those
  -- of the entry that the interner gives for the key.
  pub emit_key-intern :
      (current : ℕ) (c : AttrCache o) (f : Fast H O) (v : V) (k : Key)
      → IsValid o c
      → live current f ≡ true
      → all_empty (labels_of k) ≡ false
      → ((is_allowed o c (labels_of k) ≡ false)
          × ((emit_key current c f v k).1 ≡ [])
          × (view o (emit_key current c f v k).0 ≡ view o c))
        ⊎ ((is_allowed o c (labels_of k) ≡ true)
            × ((emit_key current c f v k).1
                ≡ record {
                  handle = f.handle;
                  value = v;
                  opts = f.opts ++ opts_of (intern o (view o c) k).1;
                }
                  ∷ [])
            × (view o (emit_key current c f v k).0 ≡ (intern o (view o c) k).0))
  emit_key-intern current c f v k valid h e = elim (lookup_at-intern o c k valid) [
    | inl (denied, nothing, same) ↦
        rw
          (
            emit_key-finish current c f v k h e,
            finish-none f v (lookup_at o c k).0 (lookup_at o c k).1 nothing,
          )
          (inl (denied, refl, same))
    | inr (passed, found, next) ↦
        rw
          (
            emit_key-finish current c f v k h e,
            finish-some f v (lookup_at o c k).0 (lookup_at o c k).1 (intern o (view o c) k).1 found,
          )
          (inr (passed, refl, next))
  ]

  -- A live instrument whose labels are all empty records the value once, with its own options only.
  pub emit_key_unlabelled :
      (current : ℕ) (c : AttrCache o) (f : Fast H O) (v : V) (k : Key)
      → live current f ≡ true
      → all_empty (labels_of k) ≡ true
      → emit_key current c f v k ≡ (c, record { handle = f.handle; value = v; opts = f.opts } ∷ [])
  unfolding emit_with emit_with2 emit_with3 all_empty
  emit_key_unlabelled current c f v (one a) h e = ground (arith, emit-live current f v h)
  emit_key_unlabelled current c f v (duo a b) h e = ground (arith, emit-live current f v h)
  emit_key_unlabelled current c f v (trio a b c3) h e = ground (arith, emit-live current f v h)
