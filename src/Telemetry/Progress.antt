-- ===== src/Telemetry/Progress.antt =====
-- tel.go: when Start succeeds.
use tel.Base.{Bool, true, false, Option, List, ◌≡◌, refl, arith, inl, inr, Bool-cases}
use tel.Otel.{Otel}
use tel.Base.Text.{Text}
use tel.Instruments.Registry.{Meter}
use tel.Config.{Config}
use tel.OtlpDial.{Result, ok, err, ExporterOption, otlp_exporter_options}
use tel.Telemetry.{Provider, Resource, World, ShutdownFn, Telemetry, refresh_tracer_locked}
use tel.Telemetry.Start.{
  Attempt, StartProviders, Prepared, configure_export_compression, install_propagator,
  new_meter_provider, new_tracer_provider, add_tracer, with_meter, init_providers, start_monitor,
  with_monitor, with_providers, with_prepared, prepare, commit, start,
}

abbrev is_ok : {A : Type 0} → Result A → Bool
is_ok (ok a) = true
is_ok (err e) = false

-- Both exporters can be made, and the monitor's address can be listened on.
pub record IsReachable (a : Attempt) (cfg : Config) : Type 0 where
  pub opts : List ExporterOption
  pub dials : otlp_exporter_options a.append_certs a.key_pair cfg.tel_config ≡ ok opts
  pub metrics : a.metric_exporter opts ≡ true
  pub traces : a.trace_exporter opts ≡ true
  pub listens : a.listen ≡ true

module _ (a : Attempt) (cfg : Config) (h : IsReachable a cfg) where
  new_meter_provider-ok : (w : World) → is_ok (new_meter_provider a cfg w).1 ≡ true
  unfolding new_meter_provider
  new_meter_provider-ok w = ground (arith, h)

  new_tracer_provider-ok : (w : World) → is_ok (new_tracer_provider a cfg w).1 ≡ true
  unfolding new_tracer_provider
  new_tracer_provider-ok w = ground (arith, h)

  add_tracer-ok :
      (w : World) (p : Provider) (fn : ShutdownFn) → is_ok (add_tracer a cfg w (p, fn)).1 ≡ true
  unfolding add_tracer
  add_tracer-ok w p fn = ground (arith, new_tracer_provider-ok w)

  with_meter-ok :
      (s : World × Result (Provider × ShutdownFn))
      → is_ok s.1 ≡ true
      → is_ok (with_meter a cfg s).1 ≡ true
  with_meter-ok (w, err e) made = made
  with_meter-ok (w, ok (p, fn)) made = add_tracer-ok w p fn

  init_providers-ok : (w : World) → is_ok (init_providers a cfg w).1 ≡ true
  unfolding init_providers
  init_providers-ok w = elim (Bool-cases cfg.tel_config.enable) [
    | inr off ↦ simp off refl
    | inl on ↦
        let w1 = configure_export_compression w cfg.tel_config.with_compression in
        simp on (with_meter-ok (new_meter_provider a cfg w1) (new_meter_provider-ok w1))
  ]

module _ (o : Otel) (m : Meter) (meter_of : Provider → Text → m.State) where
  start_monitor-ok :
      (a : Attempt) (t : Telemetry o m) (w : World) (p : StartProviders)
      → a.listen ≡ true
      → is_ok (start_monitor o m meter_of a t w p).2 ≡ true
  unfolding start_monitor
  start_monitor-ok a t w p h = ground (arith, h)

  with_monitor-ok :
      (t : Telemetry o m) (p : StartProviders)
      (s : Telemetry o m × World × Result (Option Resource))
      → is_ok s.2 ≡ true
      → is_ok (with_monitor o m meter_of t p s).2 ≡ true
  with_monitor-ok t p (t', w, err e) h = h
  with_monitor-ok t p (t', w, ok r) h = refl

  with_providers-ok :
      (a : Attempt) (t : Telemetry o m) (s : World × Result StartProviders)
      → a.listen ≡ true
      → is_ok s.1 ≡ true
      → is_ok (with_providers o m meter_of a t s).2 ≡ true
  with_providers-ok a t (w, err e) h made = made
  with_providers-ok a t (w, ok p) h made =
      with_monitor-ok t p (start_monitor o m meter_of a t w p) (start_monitor-ok a t w p h)

  prepare-ok :
      (a : Attempt) (t : Telemetry o m) (w : World)
      → IsReachable a t.cfg
      → is_ok (prepare o m meter_of a t w).2 ≡ true
  unfolding prepare
  prepare-ok a t w h =
      with_providers-ok a t (init_providers a t.cfg (install_propagator w)) h.listens
        (init_providers-ok a t.cfg h (install_propagator w))

  pub commit_started :
      (p : Prepared o) (t : Telemetry o m) (w : World)
      → (commit o m meter_of p t w).0.started ≡ true
  unfolding commit refresh_tracer_locked
  commit_started p t w = ground arith

  with_prepared-ok :
      (s : Telemetry o m × World × Result (Prepared o))
      → is_ok s.2 ≡ true
      → let (t', w', result) = with_prepared o m meter_of s in
        (result ≡ ok tt) × (t'.started ≡ true)
  with_prepared-ok (t, w, err e) h = ground (arith, h)
  with_prepared-ok (t, w, ok p) h = (refl, commit_started p t w)

  -- A Start succeeds, and the runtime is started, whenever the exporters can be made and the
  -- monitor's address can be listened on, whatever the configuration and the state are.
  pub start-ok :
      (a : Attempt) (t : Telemetry o m) (w : World)
      → IsReachable a t.cfg
      → let (t', w', result) = start o m meter_of a t w in (result ≡ ok tt) × (t'.started ≡ true)
  unfolding start
  start-ok a t w h = elim (Bool-cases t.started) [
    | inl on ↦ simp on (refl, refl)
    | inr off ↦ simp off (with_prepared-ok (prepare o m meter_of a t w) (prepare-ok a t w h))
  ]
