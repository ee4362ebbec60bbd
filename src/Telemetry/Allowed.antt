-- ===== src/Telemetry/Allowed.antt =====
-- tel.go: labels that AllowSubjects takes while a Start is between its two critical sections.
use tel.Base.{
  ◌≡◌, refl, ◌∙◌, ap, subst, true, false, not, ◌&&◌, is_some, [], ◌∷◌, arith, inl, inr, Bool-cases,
}
use tel.Base.Int.{pos, or_default}
use tel.Base.Text.{Text, is_empty, among, text_eq_iff, among-append_right}
use tel.Base.Assoc.{text_Eq, lookup as map_lookup}
use tel.Otel.{Otel}
use tel.Cardinality.{default_max_cardinality}
use tel.Cardinality.Report.{start_detector}
use tel.Metric.{AttrCache, new_attr_cache, set_detector, set_deny_unknown, is_allowed}
use tel.Metric.Deny.{registered, allow_registers, is_allowed_iff}
use tel.Instruments.Registry.{Meter, new_registry_with_cache}
use tel.OtlpDial.{ok}
use tel.Telemetry.{Provider, World, Telemetry, refresh_tracer_locked, allow_subjects}
use tel.Telemetry.Start.{Attempt, Prepared, prepare, commit, start_cache}
use tel.Telemetry.Balance.{Prepares, prepare-Prepares}
use tel.Telemetry.StartedCache.{started_cache, started_cache-deny_unknown}
use tel.Telemetry.Watched.{Caches, prepare-Caches}

module _ (o : Otel) (m : Meter) (meter_of : Provider → Text → m.State) where
  -- Exactly the non-empty labels that the runtime has allowed are registered with Start's cache.
  started_cache-registered :
      (t : Telemetry o m) (l : Text)
      → is_some (map_lookup (registered o (started_cache o m meter_of t)) l)
        ≡ (not (is_empty l) && among l t.allowed_labels)
  unfolding start_cache set_detector set_deny_unknown new_attr_cache map_lookup
  started_cache-registered t l =
      let cfg = t.cfg.tel_config.metrics.cardinality_detector in
      let base =
        set_deny_unknown o
          (new_attr_cache o (pos (or_default cfg.max_cardinality default_max_cardinality)))
          cfg.deny_unknown in
      let made = allow_registers o base t.allowed_labels l in
      elim (Bool-cases cfg.enable) [ inl on ↦ simp on made | inr off ↦ simp off made ]

  denied :
      (c : AttrCache o) (l : Text)
      → c.deny_unknown ≡ true
      → is_empty l ≡ false
      → is_some (map_lookup (registered o c) l) ≡ false
      → is_allowed o c (l ∷ []) ≡ false
  denied c l guarded full new = ground (arith, is_allowed_iff o c (l ∷ []), guarded, full, new)

  -- What AllowSubjects leaves of what Start reads before and after it.
  among_last :
      (t : Telemetry o m) (l : Text)
      → among l (allow_subjects o m meter_of t (l ∷ [])).allowed_labels ≡ true
  unfolding allow_subjects among
  among_last t l = among-append_right l t.allowed_labels (l ∷ []) (ground (arith, text_eq_iff l l))

  learned :
      (t : Telemetry o m) (l : Text)
      → is_empty l ≡ false
      → is_some
          (map_lookup (registered o (allow_subjects o m meter_of t (l ∷ [])).registry.cache) l)
        ≡ true
  unfolding allow_subjects among
  learned t l full =
      ground (arith, allow_registers o t.registry.cache (l ∷ []) l, full, text_eq_iff l l)

  commit-cache :
      (p : Prepared o) (t : Telemetry o m) (w : World) (l : Text)
      → t.started ≡ false
      → let t2 = allow_subjects o m meter_of t (l ∷ []) in
        let (t', w') = commit o m meter_of p t2 w in
        (t'.registry.cache ≡ set_detector o p.cache (start_detector p.cache.detector))
        × (t'.allowed_labels ≡ t2.allowed_labels)
        × (t'.started ≡ true)
  unfolding commit refresh_tracer_locked allow_subjects new_registry_with_cache
  commit-cache p t w l off = simp off (refl, refl, refl)

  -- A Start that has built all, over a configuration that denies unknown labels, is overtaken at its
  -- second lock by an AllowSubjects with a label that is new to the runtime: the registry that is
  -- replaced has learned the label, and the runtime keeps it on its list, so that a later Start
  -- registers it, but the cache that this Start installs denies it.
  pub commit-allow_subjects :
      (a : Attempt) (t t1 : Telemetry o m) (w w1 : World) (p : Prepared o) (l : Text)
      → prepare o m meter_of a t w ≡ (t1, w1, ok p)
      → t.started ≡ false
      → t.cfg.tel_config.metrics.cardinality_detector.deny_unknown ≡ true
      → is_empty l ≡ false
      → among l t.allowed_labels ≡ false
      → let t2 = allow_subjects o m meter_of t1 (l ∷ []) in
        let (t', w') = commit o m meter_of p t2 w1 in
        (t'.started ≡ true)
        × (is_some (map_lookup (registered o t2.registry.cache) l) ≡ true)
        × (is_some (map_lookup (registered o (started_cache o m meter_of t')) l) ≡ true)
        × (is_allowed o t'.registry.cache (l ∷ []) ≡ false)
  commit-allow_subjects a t t1 w w1 p l built off guarded full new =
      let (_, _, started, _) =
        subst (Prepares meter_of (λ _. 0) t w) built (prepare-Prepares meter_of (λ _. 0) a t w) in
      let same = subst (Caches o m meter_of t) built (prepare-Caches o m meter_of a t w) in
      let (cache, listed, on) = commit-cache p t1 w1 l (started ∙ off) in
      let t2 = allow_subjects o m meter_of t1 (l ∷ []) in
      let (t', w') = commit o m meter_of p t2 w1 in
      let c = started_cache o m meter_of t in
      let installed : t'.registry.cache ≡ c =
        cache ∙ ap (λ (c : AttrCache o). set_detector o c (start_detector c.detector)) same in
      let kept : among l t'.allowed_labels ≡ true = ap (among l) listed ∙ among_last t1 l in
      let unknown : is_some (map_lookup (registered o c) l) ≡ false =
        started_cache-registered t l ∙ rw (full, new) refl in
      (
        on,
        learned t1 l full,
        started_cache-registered t' l ∙ rw (full, kept) refl,
        rw installed
            (denied c l (started_cache-deny_unknown o m meter_of t ∙ guarded) full unknown),
      )
