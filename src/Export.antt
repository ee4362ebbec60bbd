-- ===== src/Export.antt =====
-- provider.go: what the SDK's providers are given: the interval of the exports, the resource and the
-- views. Semantic conventions and views of the SDK are values here.
use tel.Base.{
  Bool-cases, inl, inr, ℕ, ◌<◌, ◌≡◌, refl, Bool, true, false, ◌||◌, List, [], ◌∷◌, ◌++◌,
  if◌then◌else◌, length, ◌==◌, arith, ap, subst, ◌≢◌, ◌⊎◌,
}
use tel.Base.Int.{ℤ, pos, pos_part, leb_ℤ, ltb_ℤ, wrap_int64, times}
use tel.Base.Text.{Text, bytes, is_empty}
use tel.Config.{Config, HistogramOpt, TelConfig}
use tel.Environment.{Environ, Outside, resolve_pod, default_service_unknown}
use tel.LogSampler.{log_sampler_tick}

abbrev pub default_metrics_periodic_interval : ℕ
default_metrics_periodic_interval = 15_000_000_000

-- `time.Duration(n) * time.Second`
abbrev pub seconds_of : ℤ → ℤ
seconds_of n = wrap_int64 (times log_sampler_tick n)

-- the interval of newMeterProvider's reader
unfoldable pub export_interval : TelConfig → ℤ
export_interval cfg =
    let periodic = seconds_of cfg.metrics_periodic_interval_sec in
    let interval =
      if ltb_ℤ (pos 0) cfg.export_interval_sec
      then seconds_of cfg.export_interval_sec
      else periodic in
    if leb_ℤ interval (pos 0) then pos default_metrics_periodic_interval else interval

-- The reader never gets an interval that is not positive, even where the seconds overflow.
pub export_interval_positive : (cfg : TelConfig) → 0 < pos_part (export_interval cfg)
unfolding export_interval
export_interval_positive cfg = ground arith

pub data ResourceAttr : Type 0 where
  service_name service_version service_namespace deployment_environment : Text → ResourceAttr
  service_instance_id host_name : Text → ResourceAttr

abbrev pub value_of : ResourceAttr → Text
value_of (service_name v) = v
value_of (service_version v) = v
value_of (service_namespace v) = v
value_of (deployment_environment v) = v
value_of (service_instance_id v) = v
value_of (host_name v) = v

abbrev pub or_text : Text → Text → Text
or_text s def = if is_empty s then def else s

-- newResource's attributes
unfoldable pub new_resource : Outside → Environ → Config → List ResourceAttr
new_resource out e cfg =
    let pod = resolve_pod out e cfg in
    let named =
      service_name (or_text cfg.service default_service_unknown)
      ∷ service_version (or_text cfg.version (bytes "dev"))
      ∷ service_namespace (or_text cfg.namespace (bytes "default"))
      ∷ deployment_environment (or_text cfg.environment (bytes "dev"))
      ∷ [] in
    if is_empty pod then named else named ++ (service_instance_id pod ∷ host_name pod ∷ [])

abbrev pub AllFilled : List ResourceAttr → Type 0
AllFilled [] = Unit {0}
AllFilled (a ∷ attrs) = (is_empty (value_of a) ≡ false) × AllFilled attrs

or_text_filled : (s def : Text) → is_empty def ≡ false → is_empty (or_text s def) ≡ false
or_text_filled s def h = ground (arith, h)

filled_with_pod :
    (b : Bool) (pod : Text)
    → is_empty pod ≡ b
    → (attrs : List ResourceAttr) → AllFilled attrs
    → AllFilled (if b then attrs else attrs ++ (service_instance_id pod ∷ host_name pod ∷ []))
filled_with_pod true pod e attrs h = h
filled_with_pod false pod e [] h = (e, (e, tt))
filled_with_pod false pod e (a ∷ attrs) (ha, h) = (ha, filled_with_pod false pod e attrs h)

-- No attribute of the resource is empty, whatever the configuration and the environment are.
pub new_resource-AllFilled :
    (out : Outside) (e : Environ) (cfg : Config) → AllFilled (new_resource out e cfg)
unfolding new_resource is_empty
new_resource-AllFilled out e cfg =
    let pod = resolve_pod out e cfg in
    let service = or_text_filled cfg.service default_service_unknown refl in
    let version = or_text_filled cfg.version (bytes "dev") refl in
    let namespace = or_text_filled cfg.namespace (bytes "default") refl in
    let environment = or_text_filled cfg.environment (bytes "dev") refl in
    filled_with_pod (is_empty pod) pod refl
      (service_name (or_text cfg.service default_service_unknown)
        ∷ service_version (or_text cfg.version (bytes "dev"))
        ∷ service_namespace (or_text cfg.namespace (bytes "default"))
        ∷ deployment_environment (or_text cfg.environment (bytes "dev"))
        ∷ [])
      (service, (version, (namespace, (environment, tt))))

new_resource-service_name :
    (out : Outside) (e : Environ) (cfg : Config)
    → (attrs : List ResourceAttr) × (new_resource out e cfg
        ≡ service_name (or_text cfg.service default_service_unknown) ∷ attrs)
unfolding new_resource
new_resource-service_name out e cfg = elim (Bool-cases (is_empty (resolve_pod out e cfg))) [
  | inl absent ↦ simp absent (_, refl)
  | inr found ↦ simp found (_, refl)
]

or_text_cases :
    (s def : Text) → ((s ≡ []) × (or_text s def ≡ def)) ⊎ ((s ≢ []) × (or_text s def ≡ s))
unfolding is_empty
or_text_cases [] def = inl (refl, refl)
or_text_cases (x ∷ s) def = inr (ground arith, refl)

-- A view: an instrument's name and its boundaries.
unfoldable pub views_from_bucket_view : List HistogramOpt → List (Text × List ℕ)
views_from_bucket_view [] = []
views_from_bucket_view (b ∷ buckets) =
    let views = views_from_bucket_view buckets in
    if is_empty b.name || (length b.boundaries == 0) then views else (b.name, b.boundaries) ∷ views

-- What newMeterProvider gives to the SDK's NewMeterProvider.
pub data ProviderOption : Type 0 where
  with_reader : ℤ → ProviderOption
  with_resource : List ResourceAttr → ProviderOption
  with_view : Text → List ℕ → ProviderOption

unfoldable pub with_views : List (Text × List ℕ) → List ProviderOption
with_views [] = []
with_views ((name, boundaries) ∷ views) = with_view name boundaries ∷ with_views views

unfoldable pub provider_options : Outside → Environ → Config → List ProviderOption
provider_options out e cfg =
    with_reader (export_interval cfg.tel_config)
    ∷ with_resource (new_resource out e cfg)
    ∷ with_views (views_from_bucket_view cfg.tel_config.bucket_view)

-- The views that buckets are given: none for a bucket without a name or without boundaries, and one
-- for each other bucket, with its name and its boundaries, in the order of the buckets.
pub data Views : List HistogramOpt → List ProviderOption → Type 0 where
  ends : Views [] []
  nameless :
      {b : HistogramOpt} {buckets : List HistogramOpt} {opts : List ProviderOption}
      → b.name ≡ []
      → Views buckets opts
      → Views (b ∷ buckets) opts
  unbounded :
      {b : HistogramOpt} {buckets : List HistogramOpt} {opts : List ProviderOption}
      → b.boundaries ≡ []
      → Views buckets opts
      → Views (b ∷ buckets) opts
  viewed :
      {b : HistogramOpt} {buckets : List HistogramOpt} {opts : List ProviderOption}
      → b.name ≢ []
      → b.boundaries ≢ []
      → Views buckets opts
      → Views (b ∷ buckets) (with_view b.name b.boundaries ∷ opts)

no_text : (s : Text) → is_empty s ≡ true → s ≡ []
unfolding is_empty
no_text [] h = refl
no_text (x ∷ s) h = ground (arith, h)

some_text : (s : Text) → is_empty s ≡ false → s ≢ []
unfolding is_empty
some_text s h e = ground (arith, ap is_empty e, h)

no_numbers : (ns : List ℕ) → (length ns == 0) ≡ true → ns ≡ []
no_numbers [] h = refl
no_numbers (x ∷ ns) h = ground (arith, h)

some_numbers : (ns : List ℕ) → (length ns == 0) ≡ false → ns ≢ []
some_numbers ns h e = ground (arith, ap (λ (x : List ℕ). length x) e, h)

with_views-Views :
    (buckets : List HistogramOpt) → Views buckets (with_views (views_from_bucket_view buckets))
unfolding with_views views_from_bucket_view
with_views-Views [] = ends
with_views-Views (b ∷ buckets) = elim (Bool-cases (is_empty b.name)) [
  | inl absent ↦ simp absent (nameless (no_text b.name absent) (with_views-Views buckets))
  | inr named ↦ elim (Bool-cases (length b.boundaries == 0)) [
    | inl none_given ↦
        simp (named, none_given)
          (unbounded (no_numbers b.boundaries none_given) (with_views-Views buckets))
    | inr given ↦
        simp (named, given)
          (viewed (some_text b.name named) (some_numbers b.boundaries given)
            (with_views-Views buckets))
  ]
]

-- Whatever the configuration and the environment are, what the metric provider is made with is a
-- reader with a positive interval, a resource that names the service and has no empty attribute, and
-- the views of the buckets that have both a name and boundaries, in the order of the configuration.
pub provider_options-Views :
    (out : Outside) (e : Environ) (cfg : Config)
    → (interval : ℤ) × (service : Text) × (attrs : List ResourceAttr) × (views : List
        ProviderOption)
      × (provider_options out e cfg
          ≡ with_reader interval ∷ with_resource (service_name service ∷ attrs) ∷ views)
      × (0 < pos_part interval)
      × (((cfg.service ≡ []) × (service ≡ default_service_unknown))
          ⊎ ((cfg.service ≢ []) × (service ≡ cfg.service)))
      × AllFilled (service_name service ∷ attrs)
      × Views cfg.tel_config.bucket_view views
unfolding provider_options
provider_options-Views out e cfg =
    let (attrs, names) = new_resource-service_name out e cfg in
    (
      export_interval cfg.tel_config,
      or_text cfg.service default_service_unknown,
      attrs,
      with_views (views_from_bucket_view cfg.tel_config.bucket_view),
      rw names refl,
      export_interval_positive cfg.tel_config,
      or_text_cases cfg.service default_service_unknown,
      subst AllFilled names (new_resource-AllFilled out e cfg),
      with_views-Views cfg.tel_config.bucket_view,
    )
