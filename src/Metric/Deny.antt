-- ===== src/Metric/Deny.antt =====
-- DenyUnknown: which labels pass, and what a denied lookup does.
use tel.Base.{
  ◌≡◌, ◌≢◌, refl, ap, ◌⊎◌, ◌↔◌, inl, inr, true, false, not, ◌&&◌, ◌||◌, none, some, List, [], ◌∷◌,
  arith, Option-cases, Bool-cases, is_some, get_or,
}
use tel.Base.Text.{Text, text_eq_iff, is_empty, among}
use tel.Base.Assoc.{text_Eq, Map, lookup as map_lookup, insert as map_insert, lookup-insert}
use tel.Otel.{Otel}
use tel.Metric.Keys.{Key, labels_of, key_name}
use tel.Metric.{AttrCache, allow, allow_labels, all_allowed, is_allowed, note_denied}
use tel.Metric.Entries.{entry_hit, lookup_at}
use tel.Metric.Invariant.{IsValid}
use tel.Metric.Refine.{view, intern, entry_at-intern}

-- Every label is empty or registered.
abbrev pub AllRegistered : Map Text (Unit {0}) → List Text → Type 0
AllRegistered m [] = Unit {0}
AllRegistered m (l ∷ ls) =
    ((is_empty l ≡ true) ⊎ (is_some (map_lookup m l) ≡ true)) × AllRegistered m ls

module _ (o : Otel) where
  -- The labels that are registered with the cache.
  abbrev pub registered : AttrCache o → Map Text (Unit {0})
  registered c = get_or c.allowed []

  allow_labels-registered :
      (m : Map Text (Unit {0})) (ls : List Text) (l : Text)
      → is_some (map_lookup (allow_labels o m ls) l)
        ≡ (is_some (map_lookup m l) || (not (is_empty l) && among l ls))
  unfolding allow_labels among
  allow_labels-registered m [] l = ground arith
  allow_labels-registered m (x ∷ xs) l = elim (Bool-cases (is_empty x)) [
    | inl empty ↦ rw empty (ground (arith, allow_labels-registered m xs l, text_eq_iff x l))
    | inr full ↦ rw full (
        ground (
          arith,
          allow_labels-registered (map_insert m x tt) xs l,
          lookup-insert m x tt l,
          text_eq_iff x l,
        ))
  ]

  -- After `Allow`, exactly the labels registered before and the non-empty labels given are registered.
  pub allow_registers :
      (c : AttrCache o) (ls : List Text) (l : Text)
      → is_some (map_lookup (registered (allow o c ls)) l)
        ≡ (is_some (map_lookup (registered c) l) || (not (is_empty l) && among l ls))
  unfolding allow allow_labels
  allow_registers c [] l = allow_labels-registered (registered c) [] l
  allow_registers c (x ∷ xs) l = allow_labels-registered (registered c) (x ∷ xs) l

  all_allowed_iff :
      (m : Map Text (Unit {0})) (ls : List Text) → (all_allowed o m ls ≡ true) ↔ AllRegistered m ls
  unfolding all_allowed
  all_allowed_iff m [] = (λ h. tt, λ h. refl)
  all_allowed_iff m (l ∷ ls) = ground (arith, all_allowed_iff m ls)

  -- A lookup passes exactly when unknown labels are not denied, or some label is registered and each
  -- label asked about is empty or registered.
  pub is_allowed_iff :
      (c : AttrCache o) (ls : List Text)
      → (is_allowed o c ls ≡ true)
        ↔ ((c.deny_unknown ≡ false) ⊎ ((registered c ≢ []) × AllRegistered (registered c) ls))
  unfolding is_allowed
  is_allowed_iff c ls = ground (arith, all_allowed_iff (registered c) ls)

  view-note_denied : (c : AttrCache o) (label : Text) → view o (note_denied o c label) ≡ view o c
  unfolding note_denied entry_hit
  view-note_denied c label = elim (Option-cases (map_lookup c.deny_once label)) [
    | inl new ↦ rw (new, note_denied)
    | inr (_, old) ↦ rw (old, note_denied)
  ]

  -- A guarded lookup either is denied, and then returns nothing and interns nothing, or is a lookup
  -- in the interner that the cache stands for, and returns that interner's entry.
  pub lookup_at-intern :
      (c : AttrCache o) (k : Key)
      → IsValid o c
      → ((is_allowed o c (labels_of k) ≡ false)
          × ((lookup_at o c k).1 ≡ none)
          × (view o (lookup_at o c k).0 ≡ view o c))
        ⊎ ((is_allowed o c (labels_of k) ≡ true)
            × ((lookup_at o c k).1 ≡ some (intern o (view o c) k).1)
            × (view o (lookup_at o c k).0 ≡ (intern o (view o c) k).0))
  unfolding lookup_at
  lookup_at-intern c k v = elim (Bool-cases (is_allowed o c (labels_of k))) [
    | inr denied ↦ rw denied (inl (refl, refl, view-note_denied c (key_name k)))
    | inl passed ↦
        let (same_view, same_entry) = entry_at-intern o c k v in
        rw passed (inr (refl, ap some same_entry, same_view))
  ]
