-- ===== src/Telemetry/Watched.antt =====
-- From Start to CardinalityStats: what the snapshot of a started runtime shows of its cache.
use tel.Base.{
  ℕ, ◌+◌, ◌≤◌, ◌≡◌, refl, ◌∙◌, ap, Bool, true, false, Option, none, some, is_some, List, length,
  arith, if◌then◌else◌,
}
use tel.Base.Int.{pos, pos_part, or_default}
use tel.Base.Text.{Text}
use tel.Config.{Config}
use tel.Otel.{Otel}
use tel.Cardinality.{CardinalityDetector, default_max_cardinality}
use tel.Cardinality.Report.{CardinalitySnapshot, snapshot, snapshot_bounds, start_detector}
use tel.Metric.{AttrCache, set_detector}
use tel.Metric.Entries.{len}
use tel.Metric.Invariant.{IsValid}
use tel.Metric.Account.{IsAccounted}
use tel.Metric.History.{Op, run, run-IsValid, run-max_entries}
use tel.Instruments.Registry.{Meter, new_registry_with_cache, instrument_count}
use tel.OtlpDial.{Result, ok, err}
use tel.Telemetry.{
  Provider, Resource, World, Telemetry, max_instruments_from_cfg, refresh_tracer_locked,
}
use tel.Telemetry.Start.{
  Attempt, StartProviders, Prepared, init_providers, install_propagator, start_monitor,
  with_monitor, with_providers, with_prepared, prepare, commit, start, start_cache,
}
use tel.Telemetry.Balance.{prepare-Prepares}
use tel.Telemetry.StartedCache.{
  started_cache, started_cache-IsValid, started_cache-IsAccounted, started_cache-max_entries,
  run-IsAccounted,
}
use tel.Telemetry.Stats.{cardinality_stats}

is_some-if : {A : Type 0} (b : Bool) (a : A) → is_some (if b then some a else none) ≡ b
is_some-if true a = refl
is_some-if false a = refl

module _ (o : Otel) (m : Meter) (meter_of : Provider → Text → m.State) where
  -- what a Start has prepared holds the cache that it makes
  abbrev pub Caches : Telemetry o m → Telemetry o m × World × Result (Prepared o) → Type 0
  Caches t (t', w, ok p) = p.cache ≡ start_cache o m meter_of t
  Caches t (t', w, err e) = Unit {0}

  with_monitor-Caches :
      (t : Telemetry o m) (p : StartProviders)
      (s : Telemetry o m × World × Result (Option Resource))
      → Caches t (with_monitor o m meter_of t p s)
  with_monitor-Caches t p (t', w, err e) = tt
  with_monitor-Caches t p (t', w, ok r) = refl

  with_providers-Caches :
      (a : Attempt) (t : Telemetry o m) (s : World × Result StartProviders)
      → Caches t (with_providers o m meter_of a t s)
  with_providers-Caches a t (w, err e) = tt
  with_providers-Caches a t (w, ok p) = with_monitor-Caches t p (start_monitor o m meter_of a t w p)

  pub prepare-Caches :
      (a : Attempt) (t : Telemetry o m) (w : World) → Caches t (prepare o m meter_of a t w)
  unfolding prepare
  prepare-Caches a t w = with_providers-Caches a t (init_providers a t.cfg (install_propagator w))

  -- the registry that Start makes has no instruments yet
  abbrev pub IsFresh : Telemetry o m → Telemetry o m → Type 0
  IsFresh t t' =
      (s : m.State) × (t'.registry
        ≡ new_registry_with_cache o m s (started_cache o m meter_of t) true t'.epoch
            (max_instruments_from_cfg t.cfg))

  -- what Start makes of the runtime's view of its cache
  abbrev Watches : Telemetry o m → Telemetry o m → Type 0
  Watches t t' =
      (t'.started ≡ true)
      × (t'.registry.cache ≡ started_cache o m meter_of t)
      × (is_some t'.cardinality ≡ t.cfg.tel_config.metrics.cardinality_detector.enable)
      × IsFresh t t'

  commit-Watches :
      (p : Prepared o) (t t' : Telemetry o m) (w : World)
      → t'.started ≡ false
      → t'.cfg ≡ t.cfg
      → p.cache ≡ start_cache o m meter_of t
      → Watches t (commit o m meter_of p t' w).0
  unfolding commit refresh_tracer_locked new_registry_with_cache
  commit-Watches p t t' w off cfg cache =
      let on : Bool = t'.cfg.tel_config.metrics.cardinality_detector.enable in
      simp off (
        refl,
        ap (λ (c : AttrCache o). set_detector o c (start_detector c.detector)) cache,
        is_some-if on (Resource.detector_loop w.fresh)
            ∙ ap (λ (c : Config). c.tel_config.metrics.cardinality_detector.enable) cfg,
        (meter_of p.providers.metric_provider t'.cfg.service, rw (cache, cfg) refl),
      )

  with_prepared-Watches :
      (t : Telemetry o m) (s : Telemetry o m × World × Result (Prepared o))
      → (with_prepared o m meter_of s).2 ≡ ok tt
      → s.0.started ≡ false
      → s.0.cfg ≡ t.cfg
      → Caches t s
      → Watches t (with_prepared o m meter_of s).0
  with_prepared-Watches t (t', w, err e) h off cfg cache = ground (arith, h)
  with_prepared-Watches t (t', w, ok p) h off cfg cache = commit-Watches p t t' w off cfg cache

  pub start-Watches :
      (a : Attempt) (t : Telemetry o m) (w : World)
      → t.started ≡ false
      → (start o m meter_of a t w).2 ≡ ok tt
      → Watches t (start o m meter_of a t w).0
  unfolding start
  start-Watches a t w off h =
      let (_, _, started, cfg) = prepare-Prepares meter_of (λ _. 0) a t w in
      simp off (
        with_prepared-Watches t (prepare o m meter_of a t w) (simp off at h) (started ∙ off) cfg
          (prepare-Caches a t w))

  Shows : CardinalitySnapshot → ℕ → Type 0
  Shows s limit =
      (s.miss_events ≡ s.cache_entries + s.overflow_events)
      × (s.cache_entries ≤ limit)
      × (s.max_cardinality ≡ pos limit)
      × (length s.subject_names ≡ s.cache_entries)
      × (s.utilization_pct ≤ 100)

  snapshot-Shows :
      (c : AttrCache o) (d : CardinalityDetector) (n max_inst limit : ℕ)
      → IsValid o c
      → IsAccounted o c d
      → c.max_entries ≡ limit
      → Shows (snapshot o (some c) (some d) n max_inst) limit
  unfolding Shows snapshot len
  snapshot-Shows c d n max_inst limit v a e =
      let (pct, entries, shown, names) = snapshot_bounds o c d n max_inst v a.limited in
      (a.missed, omega (arith, v.bounded, e), shown ∙ ap pos e, names, pct)

  cardinality_stats-Shows :
      (t : Telemetry o m) (d : CardinalityDetector) (limit : ℕ)
      → is_some t.cardinality ≡ true
      → IsValid o t.registry.cache
      → IsAccounted o t.registry.cache d
      → t.registry.cache.max_entries ≡ limit
      → Shows (cardinality_stats o m t) limit
  unfolding cardinality_stats
  cardinality_stats-Shows t d limit on v a e =
      let n = instrument_count o m t.registry in
      let max_inst = pos_part (max_instruments_from_cfg t.cfg) in
      simp (on, a.wired) (snapshot-Shows t.registry.cache d n max_inst limit v a e)

  -- The snapshot of a runtime that was started with an enabled detector, after any history of the
  -- cache: the misses are the entries and the overflows together, the entries are at most the
  -- configured limit, which is shown, with a name for each, of one, two or three labels, and at most
  -- 100 percent.
  pub start-cardinality_stats :
      (a : Attempt) (t : Telemetry o m) (w : World) (ops : List Op)
      → t.started ≡ false
      → (start o m meter_of a t w).2 ≡ ok tt
      → t.cfg.tel_config.metrics.cardinality_detector.enable ≡ true
      → let t' = (start o m meter_of a t w).0 in
        let r = t'.registry in
        let limit =
          or_default t.cfg.tel_config.metrics.cardinality_detector.max_cardinality
            default_max_cardinality in
        let s =
          cardinality_stats o m (record t' { registry = record r { cache = run o r.cache ops } }) in
        (s.miss_events ≡ s.cache_entries + s.overflow_events)
        × (s.cache_entries ≤ limit)
        × (s.max_cardinality ≡ pos limit)
        × (length s.subject_names ≡ s.cache_entries)
        × (s.utilization_pct ≤ 100)
  unfolding Shows
  start-cardinality_stats a t w ops off h on =
      let (_, cached, some_detector, _) = start-Watches a t w off h in
      let t' = (start o m meter_of a t w).0 in
      let r = t'.registry in
      let c = started_cache o m meter_of t in
      let limit =
        or_default t.cfg.tel_config.metrics.cardinality_detector.max_cardinality
          default_max_cardinality in
      let v = started_cache-IsValid o m meter_of t in
      let (d, accounted) = started_cache-IsAccounted o m meter_of t on in
      let (d', accounted') = run-IsAccounted o c ops d v accounted in
      let same : run o r.cache ops ≡ run o c ops = ap (λ (x : AttrCache o). run o x ops) cached in
      cardinality_stats-Shows (record t' { registry = record r { cache = run o r.cache ops } }) d'
        limit (some_detector ∙ on) (rw same (run-IsValid o c ops v)) (rw same accounted')
        (ap (λ (x : AttrCache o). x.max_entries) same
          ∙ run-max_entries o c ops v
          ∙ started_cache-max_entries o m meter_of t on)
