-- ===== src/Telemetry/Start.antt =====
-- tel.go, provider.go and trace_provider.go: Start. Between its two critical sections it builds the
-- providers, the cache and the monitor; the outcome of each step outside the program is in `Attempt`.
use tel.Base.{
  ℕ, ◌+◌, ◌%◌, ◌^◌, Bool, true, false, not, Option, none, some, List, [], ◌∷◌, ◌++◌, if◌then◌else◌,
}
use tel.Base.Int.{pos, or_default}
use tel.Base.Text.{Text}
use tel.Otel.{Otel}
use tel.Cardinality.{default_max_cardinality, new_cardinality_detector}
use tel.Cardinality.Report.{start_detector}
use tel.Metric.{AttrCache, new_attr_cache, allow, set_deny_unknown, set_detector}
use tel.Instruments.Registry.{Meter, new_registry_with_cache}
use tel.Config.{Config}
use tel.OtlpDial.{
  Result, ok, err, metric_exporter_failed, trace_exporter_failed, listen_failed, ExporterOption,
  otlp_exporter_options,
}
use tel.Telemetry.{
  Provider, noop, sdk, Resource, metric_export, trace_export, monitor_server, detector_loop, World,
  ShutdownFn, closes, does_nothing, Telemetry, max_instruments_from_cfg, refresh_tracer_locked,
}

-- What the steps outside the program answer during one Start: whether certificates parse, whether
-- `otlpmetricgrpc.New` and `otlptracegrpc.New` make an exporter of their options, and whether the
-- monitor's address can be listened on.
pub record Attempt : Type 0 where
  pub append_certs : Text → Bool
  pub key_pair : Text → Text → Bool
  pub metric_exporter : List ExporterOption → Bool
  pub trace_exporter : List ExporterOption → Bool
  pub listen : Bool

pub record StartProviders : Type 0 where
  pub metric_provider : Provider
  pub trace_provider : Provider
  pub shutdown_fn : Option ShutdownFn
  pub trace_shutdown : Option ShutdownFn
  pub trace_installed : Bool

abbrev pub open_resource : World → (ℕ → Resource) → World
open_resource w kind = record w { fresh = w.fresh + 1; opened = w.opened ++ (kind w.fresh ∷ []) }

abbrev pub close_resource : World → Resource → World
close_resource w r = record w { closed = w.closed ++ (r ∷ []) }

-- The call of a shutdown function that may be nil.
abbrev pub call_shutdown : World → Option ShutdownFn → World
call_shutdown w none = w
call_shutdown w (some does_nothing) = w
call_shutdown w (some (closes r)) = close_resource w r

abbrev pub close_option : World → Option Resource → World
close_option w none = w
close_option w (some r) = close_resource w r

unfoldable pub install_propagator : World → World
install_propagator w = record w { propagator_installed = true }

unfoldable pub configure_export_compression : World → Bool → World
configure_export_compression w enabled = if not enabled then w else record w { best_speed = true }

-- A made provider is a number: its reader, resource, views and sampler are the SDK's to read.
unfoldable pub new_meter_provider :
    Attempt → Config → World → World × Result (Provider × ShutdownFn)
new_meter_provider a cfg w = elim (otlp_exporter_options a.append_certs a.key_pair cfg.tel_config) [
  | err e ↦ (w, err e)
  | ok opts ↦
      if not (a.metric_exporter opts)
      then (w, err metric_exporter_failed)
      else (open_resource w metric_export, ok (sdk w.fresh, closes (metric_export w.fresh)))
]

unfoldable pub new_tracer_provider :
    Attempt → Config → World → World × Result (Provider × ShutdownFn)
unfolding install_propagator
new_tracer_provider a cfg w =
    if not cfg.tel_config.traces.enable
    then (w, ok (noop, does_nothing))
    else elim (otlp_exporter_options a.append_certs a.key_pair cfg.tel_config) [
      | err e ↦ (w, err e)
      | ok opts ↦ if not (a.trace_exporter opts) then (w, err trace_exporter_failed) else (
        install_propagator (open_resource w trace_export),
        ok (sdk w.fresh, closes (trace_export w.fresh)),
      )
    ]

-- The providers of the traces, once there are those of the metrics.
unfoldable pub add_tracer :
    Attempt → Config → World → Provider × ShutdownFn → World × Result StartProviders
add_tracer a cfg w (mp, shutdown_fn) =
    let (w', result) = new_tracer_provider a cfg w in
    elim result [
      | err e ↦ (call_shutdown w' (some shutdown_fn), err e)
      | ok (tp, trace_shutdown) ↦ (
        if cfg.tel_config.traces.enable then record w' { tracer_provider = tp } else w',
        ok (record {
          metric_provider = mp;
          trace_provider = tp;
          shutdown_fn = some shutdown_fn;
          trace_shutdown = some trace_shutdown;
          trace_installed = cfg.tel_config.traces.enable;
        }),
      )
    ]

-- The metric providers failed, or those of the traces follow.
abbrev pub with_meter :
    Attempt → Config → World × Result (Provider × ShutdownFn) → World × Result StartProviders
with_meter a cfg (w, err e) = (w, err e)
with_meter a cfg (w, ok made) = add_tracer a cfg w made

unfoldable pub init_providers : Attempt → Config → World → World × Result StartProviders
init_providers a cfg w =
    if not cfg.tel_config.enable
    then (
      w,
      ok (record {
        metric_provider = noop;
        trace_provider = noop;
        shutdown_fn = none;
        trace_shutdown = none;
        trace_installed = false;
      }),
    )
    else with_meter a cfg
        (new_meter_provider a cfg (configure_export_compression w cfg.tel_config.with_compression))

unfoldable pub rollback_start : World → Option Resource → StartProviders → World
rollback_start w monitor providers =
    let w1 = close_option w monitor in
    let w2 = call_shutdown w1 providers.shutdown_fn in
    let w3 = call_shutdown w2 providers.trace_shutdown in
    if providers.trace_installed then record w3 { tracer_provider = noop } else w3

-- What Start has built when it takes the lock again.
pub record Prepared (o : Otel) : Type 0 where
  pub providers : StartProviders
  pub cache : AttrCache o
  pub monitor : Option Resource

module _ (o : Otel) (m : Meter) (meter_of : Provider → Text → m.State) where
  -- the critical section of startMonitor's failure
  abbrev pub clear_installed : Telemetry o m → World → Telemetry o m × World
  clear_installed t w =
      if t.trace_installed
      then (record t { trace_installed = false }, record w { tracer_provider = noop })
      else (t, w)

  unfoldable pub start_monitor :
      Attempt
      → Telemetry o m
      → World
      → StartProviders
      → Telemetry o m × World × Result (Option Resource)
  start_monitor a t w providers =
      if not t.cfg.monitor_config.enable
      then (t, w, ok none)
      else if not a.listen
      then (let (t', w') = clear_installed t (rollback_start w none providers) in
          (t', w', err listen_failed))
      else (t, open_resource w monitor_server, ok (some (monitor_server w.fresh)))

  -- The cache of the new registry, with the labels that were allowed so far.
  unfoldable pub start_cache : Telemetry o m → AttrCache o
  start_cache t =
      let detector_cfg = t.cfg.tel_config.metrics.cardinality_detector in
      let cache =
        set_deny_unknown o
          (new_attr_cache o (pos (or_default detector_cfg.max_cardinality default_max_cardinality)))
          detector_cfg.deny_unknown in
      let allowed = allow o cache t.allowed_labels in
      if detector_cfg.enable
      then set_detector o allowed (some (new_cardinality_detector detector_cfg))
      else allowed

  -- The monitor failed, or all is built.
  abbrev pub with_monitor :
      Telemetry o m
      → StartProviders
      → Telemetry o m × World × Result (Option Resource)
      → Telemetry o m × World × Result (Prepared o)
  with_monitor t providers (t', w, err e) = (t', w, err e)
  with_monitor t providers (t', w, ok monitor) =
      (t', w, ok (record { providers = providers; cache = start_cache t; monitor = monitor }))

  -- The providers failed, or the monitor follows.
  abbrev pub with_providers :
      Attempt
      → Telemetry o m
      → World × Result StartProviders
      → Telemetry o m × World × Result (Prepared o)
  with_providers a t (w, err e) = (t, w, err e)
  with_providers a t (w, ok providers) = with_monitor t providers (start_monitor a t w providers)

  -- Start up to its second lock.
  unfoldable pub prepare :
      Attempt → Telemetry o m → World → Telemetry o m × World × Result (Prepared o)
  prepare a t w = with_providers a t (init_providers a t.cfg (install_propagator w))

  -- The second critical section, and what follows it: the runtime takes over what was built, or it is
  -- torn down when another Start won. The detector's loop begins under the next number.
  unfoldable pub commit : Prepared o → Telemetry o m → World → Telemetry o m × World
  commit p t w =
      let epoch = (t.epoch + 1) % 2 ^ 64 in
      let detecting = t.cfg.tel_config.metrics.cardinality_detector.enable in
      let providers = p.providers in
      if t.started then (t, rollback_start w p.monitor providers) else (
        refresh_tracer_locked o m meter_of (record t {
          epoch = epoch;
          metric_provider = providers.metric_provider;
          trace_provider = providers.trace_provider;
          shutdown_fn = providers.shutdown_fn;
          trace_shutdown = providers.trace_shutdown;
          trace_installed = providers.trace_installed;
          registry =
              new_registry_with_cache o m (meter_of providers.metric_provider t.cfg.service)
                (set_detector o p.cache (start_detector p.cache.detector)) true epoch
                (max_instruments_from_cfg t.cfg);
          cardinality = if detecting then some (detector_loop w.fresh) else none;
          monitor = p.monitor;
          started = true;
        }),
        if detecting then open_resource w detector_loop else w,
      )

  -- Start returns the error, or takes the lock again.
  abbrev pub with_prepared :
      Telemetry o m × World × Result (Prepared o) → Telemetry o m × World × Result (Unit {0})
  with_prepared (t, w, err e) = (t, w, err e)
  with_prepared (t, w, ok p) = (let (t', w') = commit p t w in (t', w', ok tt))

  unfoldable pub start : Attempt → Telemetry o m → World → Telemetry o m × World × Result (Unit {0})
  start a t w = if t.started then (t, w, ok tt) else (with_prepared (prepare a t w))
