-- ===== src/Telemetry/StartedCache.antt =====
-- The attribute cache that Start puts in the registry, and its detector.
use tel.Base.{
  ◌≡◌, refl, ◌∙◌, ap, sym, true, Option, some, List, [], ◌∷◌, length, arith, inl, inr, Bool-cases,
}
use tel.Base.Int.{ℤ, pos, or_default}
use tel.Base.Text.{Text}
use tel.Otel.{Otel}
use tel.Cardinality.{CardinalityDetector, default_max_cardinality, new_cardinality_detector}
use tel.Cardinality.Report.{start_detector}
use tel.Metric.{AttrCache, new_attr_cache, allow, set_deny_unknown, set_detector}
use tel.Metric.Entries.{entry_hit}
use tel.Metric.Invariant.{IsValid}
use tel.Metric.Preserve.{new_attr_cache-IsValid, allow-IsValid}
use tel.Metric.Account.{IsAccounted, lookup_at-IsAccounted}
use tel.Metric.History.{Op, looks_up, allows, denies, step, run, step-IsValid}
use tel.Instruments.Registry.{Meter}
use tel.Telemetry.{Provider, Telemetry}
use tel.Telemetry.Start.{start_cache}

module _ (o : Otel) where
  step-IsAccounted :
      (c : AttrCache o) (op : Op) (d : CardinalityDetector)
      → IsValid o c
      → IsAccounted o c d
      → (d' : CardinalityDetector) × IsAccounted o (step o c op) d'
  unfolding step allow set_deny_unknown
  step-IsAccounted c (looks_up k) d v a = lookup_at-IsAccounted o c k d v a
  step-IsAccounted c (allows []) d v a = (d, a)
  step-IsAccounted c (allows (l ∷ ls)) d v a = (
    d,
    record {
      wired = a.wired;
      enabled = a.enabled;
      missed = a.missed;
      refusals = a.refusals;
      limited = a.limited;
    },
  )
  step-IsAccounted c (denies deny) d v a = (
    d,
    record {
      wired = a.wired;
      enabled = a.enabled;
      missed = a.missed;
      refusals = a.refusals;
      limited = a.limited;
    },
  )

  pub run-IsAccounted :
      (c : AttrCache o) (ops : List Op) (d : CardinalityDetector)
      → IsValid o c
      → IsAccounted o c d
      → (d' : CardinalityDetector) × IsAccounted o (run o c ops) d'
  unfolding run
  run-IsAccounted c [] d v a = (d, a)
  run-IsAccounted c (op ∷ ops) d v a =
      let (d', a') = step-IsAccounted c op d v a in
      run-IsAccounted (step o c op) ops d' (step-IsValid o c op v) a'

module _ (o : Otel) where
  set_detector-IsValid :
      (c : AttrCache o) (d : Option CardinalityDetector)
      → IsValid o c
      → IsValid o (set_detector o c d)
  unfolding set_detector entry_hit
  set_detector-IsValid c d v = record {
    bounded = v.bounded;
    counted = v.counted;
    placed = v.placed;
    interned = v.interned;
    overflowed = v.overflowed;
  }

  allow-same :
      (c : AttrCache o) (labels : List Text)
      → ((allow o c labels).size ≡ c.size)
        × ((allow o c labels).deny_once ≡ c.deny_once)
        × ((allow o c labels).max_entries ≡ c.max_entries)
  unfolding allow
  allow-same c [] = (refl, refl, refl)
  allow-same c (l ∷ labels) = (refl, refl, refl)

  allow-deny_unknown :
      (c : AttrCache o) (labels : List Text) → (allow o c labels).deny_unknown ≡ c.deny_unknown
  unfolding allow
  allow-deny_unknown c [] = refl
  allow-deny_unknown c (l ∷ labels) = refl

module _ (o : Otel) (m : Meter) (meter_of : Provider → Text → m.State) where
  -- the cache of a new registry, with the detector's loop begun
  abbrev pub started_cache : Telemetry o m → AttrCache o
  started_cache t =
      let c = start_cache o m meter_of t in set_detector o c (start_detector c.detector)

  -- the cache that Start makes for the labels that were allowed, before its detector
  abbrev plain_cache : Telemetry o m → AttrCache o
  plain_cache t =
      let cfg = t.cfg.tel_config.metrics.cardinality_detector in
      let limit = pos (or_default cfg.max_cardinality default_max_cardinality) in
      allow o (set_deny_unknown o (new_attr_cache o limit) cfg.deny_unknown) t.allowed_labels

  plain_cache-IsValid : (t : Telemetry o m) → IsValid o (plain_cache t)
  unfolding step
  plain_cache-IsValid t =
      let cfg = t.cfg.tel_config.metrics.cardinality_detector in
      let limit = pos (or_default cfg.max_cardinality default_max_cardinality) in
      let c = new_attr_cache o limit in
      let v = step-IsValid o c (denies cfg.deny_unknown) (new_attr_cache-IsValid o limit) in
      allow-IsValid o (set_deny_unknown o c cfg.deny_unknown) t.allowed_labels v

  pub started_cache-IsValid : (t : Telemetry o m) → IsValid o (started_cache t)
  unfolding start_cache
  started_cache-IsValid t =
      let cfg = t.cfg.tel_config.metrics.cardinality_detector in
      let c = start_cache o m meter_of t in
      let made : IsValid o c = elim (Bool-cases cfg.enable) [
        | inl on ↦ simp on (
            set_detector-IsValid o (plain_cache t) (some (new_cardinality_detector cfg))
              (plain_cache-IsValid t))
        | inr off ↦ simp off (plain_cache-IsValid t)
      ] in
      set_detector-IsValid o c (start_detector c.detector) made

  pub started_cache-deny_unknown :
      (t : Telemetry o m)
      → (started_cache t).deny_unknown ≡ t.cfg.tel_config.metrics.cardinality_detector.deny_unknown
  unfolding start_cache set_detector set_deny_unknown
  started_cache-deny_unknown t =
      let cfg = t.cfg.tel_config.metrics.cardinality_detector in
      let kept =
        allow-deny_unknown o
          (set_deny_unknown o
            (new_attr_cache o (pos (or_default cfg.max_cardinality default_max_cardinality)))
            cfg.deny_unknown)
          t.allowed_labels in
      elim (Bool-cases cfg.enable) [ inl on ↦ simp on kept | inr off ↦ simp off kept ]

  -- a detector's limit is that of the cache that Start makes
  started_limit :
      (n : ℤ)
      → or_default n default_max_cardinality
        ≡ or_default (pos (or_default n default_max_cardinality)) default_max_cardinality
  started_limit n = ground arith

  pub started_cache-IsAccounted :
      (t : Telemetry o m)
      → t.cfg.tel_config.metrics.cardinality_detector.enable ≡ true
      → (d : CardinalityDetector) × IsAccounted o (started_cache t) d
  unfolding start_cache set_detector start_detector new_cardinality_detector new_attr_cache
      set_deny_unknown
  started_cache-IsAccounted t on =
      let cfg = t.cfg.tel_config.metrics.cardinality_detector in
      let d = new_cardinality_detector cfg in
      let base =
        set_deny_unknown o
          (new_attr_cache o (pos (or_default cfg.max_cardinality default_max_cardinality)))
          cfg.deny_unknown in
      let (size, once, limit) = allow-same o base t.allowed_labels in
      (
        record d { run_state = tel.Cardinality.RunState.running },
        record {
          wired = simp on refl;
          enabled = on;
          missed = simp on (omega (arith, size));
          refusals = simp on (omega (arith, ap (λ xs. length xs) once));
          limited = simp on (ap pos (started_limit cfg.max_cardinality ∙ sym limit));
        },
      )

  pub started_cache-max_entries :
      (t : Telemetry o m)
      → t.cfg.tel_config.metrics.cardinality_detector.enable ≡ true
      → (started_cache t).max_entries
        ≡ or_default t.cfg.tel_config.metrics.cardinality_detector.max_cardinality
            default_max_cardinality
  unfolding start_cache set_detector new_attr_cache set_deny_unknown
  started_cache-max_entries t on =
      let cfg = t.cfg.tel_config.metrics.cardinality_detector in
      let base =
        set_deny_unknown o
          (new_attr_cache o (pos (or_default cfg.max_cardinality default_max_cardinality)))
          cfg.deny_unknown in
      let (_, _, limit) = allow-same o base t.allowed_labels in
      simp on (limit ∙ sym (started_limit cfg.max_cardinality))
