-- ===== src/Metric/Account.antt =====
-- The counters of the detector that is wired into a cache.
use tel.Base.{
  ◌+◌, ◌≡◌, refl, ap, inl, inr, Bool, true, false, some, arith, if◌then◌else◌, Option-cases,
  Bool-cases, length,
}
use tel.Base.Int.{ℤ, pos, or_default}
use tel.Base.Text.{Text}
use tel.Base.Assoc.{text_Eq, lookup as map_lookup, length-insert}
use native.Mathlib.Decide.{dec_lt}
use tel.Otel.{Otel}
use tel.Cardinality.{
  default_max_cardinality, CardinalityDetector, CardinalitySettings, new_cardinality_detector,
  observe_miss, observe_denied,
}
use tel.Metric.Keys.{Key, labels_of, key_name}
use tel.Metric.{AttrCache, new_attr_cache, set_detector, is_allowed, note_denied}
use tel.Metric.Entries.{entry_hit, entry_at, lookup_at}
use tel.Metric.Invariant.{IsValid, entry_at_known, entry_at_new, entry_at_full}

-- An enabled detector has seen every insertion and every overflow, and each denied label once, and
-- its limit is the cache's.
pub record IsAccounted (o : Otel) (c : AttrCache o) (d : CardinalityDetector) : Type 0 where
  pub wired : c.detector ≡ some d
  pub enabled : d.cfg.enable ≡ true
  pub missed : d.records ≡ c.size + d.overflows
  pub refusals : d.denied ≡ length c.deny_once
  pub limited : d.cfg.max_cardinality ≡ pos c.max_entries

module _ (o : Otel) where
  -- A detector that was made enabled and wired into a new cache has the invariant.
  pub set_detector-IsAccounted :
      (n : ℤ) (cfg : CardinalitySettings)
      → cfg.enable ≡ true
      → or_default cfg.max_cardinality default_max_cardinality
        ≡ or_default n default_max_cardinality
      → IsAccounted o
          (set_detector o (new_attr_cache o n) (some (new_cardinality_detector cfg)))
          (new_cardinality_detector cfg)
  unfolding set_detector new_attr_cache new_cardinality_detector
  set_detector-IsAccounted n cfg h same = record {
    wired = refl;
    enabled = h;
    missed = omega arith;
    refusals = omega arith;
    limited = ap pos same;
  }

  -- The detector after a lookup.
  abbrev missed_once : CardinalityDetector → Bool → CardinalityDetector
  missed_once d overflow = record d {
    records = d.records + 1;
    overflows = if overflow then d.overflows + 1 else d.overflows;
  }

  observe_miss_enabled :
      (d : CardinalityDetector) (s : Text) (overflow : Bool)
      → d.cfg.enable ≡ true
      → observe_miss (some d) s overflow ≡ some (missed_once d overflow)
  unfolding observe_miss
  observe_miss_enabled d s overflow h = rw h

  observe_denied_enabled :
      (d : CardinalityDetector) (s : Text)
      → d.cfg.enable ≡ true
      → observe_denied (some d) s ≡ some (record d { denied = d.denied + 1 })
  unfolding observe_denied
  observe_denied_enabled d s h = rw h

  entry_at-IsAccounted :
      (c : AttrCache o) (k : Key) (d : CardinalityDetector)
      → IsValid o c
      → IsAccounted o c d
      → (d' : CardinalityDetector) × IsAccounted o (entry_at o c k).0 d'
  entry_at-IsAccounted c k d v a = elim (Option-cases (entry_hit o c k)) [
    | inr (e, known) ↦ (d, rw (entry_at_known o c k e known) a)
    | inl new ↦ elim (dec_lt c.size c.max_entries) [
      | yes room ↦ (
        missed_once d false,
        rw (entry_at_new o c k new room) (record {
          wired = rw a.wired (observe_miss_enabled d (key_name k) false a.enabled);
          enabled = a.enabled;
          missed = omega (arith, a.missed);
          refusals = a.refusals;
          limited = a.limited;
        }),
      )
      | no full ↦ (
        missed_once d true,
        rw (entry_at_full o c k v new (omega arith)) (record {
          wired = rw a.wired (observe_miss_enabled d (key_name k) true a.enabled);
          enabled = a.enabled;
          missed = omega (arith, a.missed);
          refusals = a.refusals;
          limited = a.limited;
        }),
      )
    ]
  ]

  note_denied-IsAccounted :
      (c : AttrCache o) (label : Text) (d : CardinalityDetector)
      → IsAccounted o c d
      → (d' : CardinalityDetector) × IsAccounted o (note_denied o c label) d'
  unfolding note_denied
  note_denied-IsAccounted c label d a = elim (Option-cases (map_lookup c.deny_once label)) [
    | inr (_, old) ↦ (d, rw (old, note_denied) a)
    | inl new ↦ (
      record d { denied = d.denied + 1 },
      rw (new, note_denied)
          (record {
            wired = rw a.wired (observe_denied_enabled d label a.enabled);
            enabled = a.enabled;
            missed = a.missed;
            refusals = omega (arith, a.refusals, length-insert c.deny_once label tt new);
            limited = a.limited;
          }),
    )
  ]

  pub lookup_at-IsAccounted :
      (c : AttrCache o) (k : Key) (d : CardinalityDetector)
      → IsValid o c
      → IsAccounted o c d
      → (d' : CardinalityDetector) × IsAccounted o (lookup_at o c k).0 d'
  unfolding lookup_at
  lookup_at-IsAccounted c k d v a = elim (Bool-cases (is_allowed o c (labels_of k))) [
    | inl passed ↦ rw passed (entry_at-IsAccounted c k d v a)
    | inr denied ↦ rw denied (note_denied-IsAccounted c (key_name k) d a)
  ]
