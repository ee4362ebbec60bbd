-- ===== src/Telemetry/Tracing.antt =====
-- Which tracer provider Start and Shutdown leave installed as the process's.
use tel.Base.{
  ◌≡◌, refl, true, false, Option, none, some, if◌then◌else◌, arith, inl, inr, Bool-cases,
}
use tel.Otel.{Otel}
use tel.Instruments.Registry.{Meter}
use tel.Config.{Config}
use tel.OtlpDial.{Result, ok, err}
use tel.Base.Text.{Text}
use tel.Telemetry.{
  Provider, noop, Resource, World, ShutdownFn, closes, does_nothing, Telemetry,
  refresh_tracer_locked,
}
use tel.Telemetry.Start.{
  Attempt, StartProviders, Prepared, call_shutdown, close_option, install_propagator,
  configure_export_compression, new_meter_provider, new_tracer_provider, add_tracer, with_meter,
  init_providers, rollback_start, start_monitor, with_monitor, with_providers, prepare,
}
use tel.Telemetry.Stop.{Answers, close_held, shutdown}

-- the process's tracer provider once providers are built, from what it was
abbrev pub tracer_after : Provider → Result StartProviders → Provider
tracer_after p (err e) = p
tracer_after p (ok s) = if s.trace_installed then s.trace_provider else p

call_shutdown-tracer :
    (w : World) (fn : Option ShutdownFn) → (call_shutdown w fn).tracer_provider ≡ w.tracer_provider
call_shutdown-tracer w none = refl
call_shutdown-tracer w (some does_nothing) = refl
call_shutdown-tracer w (some (closes r)) = refl

close_option-tracer :
    (w : World) (r : Option Resource) → (close_option w r).tracer_provider ≡ w.tracer_provider
close_option-tracer w none = refl
close_option-tracer w (some r) = refl

new_meter_provider-tracer :
    (a : Attempt) (cfg : Config) (w : World)
    → (new_meter_provider a cfg w).0.tracer_provider ≡ w.tracer_provider
unfolding new_meter_provider
new_meter_provider-tracer a cfg w = ground arith

new_tracer_provider-tracer :
    (a : Attempt) (cfg : Config) (w : World)
    → (new_tracer_provider a cfg w).0.tracer_provider ≡ w.tracer_provider
unfolding new_tracer_provider install_propagator
new_tracer_provider-tracer a cfg w = ground arith

add_tracer-tracer :
    (a : Attempt) (cfg : Config) (w : World) (mp : Provider) (fn : ShutdownFn)
    → let (w', r) = add_tracer a cfg w (mp, fn) in
      w'.tracer_provider ≡ tracer_after w.tracer_provider r
unfolding add_tracer
add_tracer-tracer a cfg w mp fn = ground (
  arith,
  new_tracer_provider-tracer a cfg w,
  call_shutdown-tracer (new_tracer_provider a cfg w).0 (some fn),
)

with_meter-tracer :
    (a : Attempt) (cfg : Config) (w w1 : World) (r : Result (Provider × ShutdownFn))
    → w1.tracer_provider ≡ w.tracer_provider
    → let (w', r') = with_meter a cfg (w1, r) in
      w'.tracer_provider ≡ tracer_after w.tracer_provider r'
with_meter-tracer a cfg w w1 (err e) h = h
with_meter-tracer a cfg w w1 (ok (mp, fn)) h = rw⁻¹ h (add_tracer-tracer a cfg w1 mp fn)

pub init_providers-tracer :
    (a : Attempt) (cfg : Config) (w : World)
    → let (w', r) = init_providers a cfg w in w'.tracer_provider ≡ tracer_after w.tracer_provider r
unfolding init_providers configure_export_compression
init_providers-tracer a cfg w = elim (Bool-cases cfg.tel_config.enable) [
  | inr off ↦ simp off refl
  | inl on ↦
      let w1 = configure_export_compression w cfg.tel_config.with_compression in
      let made = new_meter_provider a cfg w1 in
      let same : made.0.tracer_provider ≡ w.tracer_provider =
        ground (arith, new_meter_provider-tracer a cfg w1) in
      simp on (with_meter-tracer a cfg w made.0 made.1 same)
]

pub rollback_start-tracer :
    (w : World) (monitor : Option Resource) (p : StartProviders)
    → (rollback_start w monitor p).tracer_provider
      ≡ (if p.trace_installed then noop else w.tracer_provider)
unfolding rollback_start
rollback_start-tracer w monitor p =
    let w1 = close_option w monitor in
    let w2 = call_shutdown w1 p.shutdown_fn in
    ground (
      arith,
      close_option-tracer w monitor,
      call_shutdown-tracer w1 p.shutdown_fn,
      call_shutdown-tracer w2 p.trace_shutdown,
    )

-- the provider that the process should have for a runtime
abbrev pub own_tracer : {o : Otel} {m : Meter} → Telemetry o m → Provider
own_tracer t = if t.trace_installed then t.trace_provider else noop

-- the provider that the process has when a Start has built all, or gave up
abbrev pub tracer_prepared : {o : Otel} → Result (Prepared o) → Provider
tracer_prepared (err e) = noop
tracer_prepared (ok p) = if p.providers.trace_installed then p.providers.trace_provider else noop

abbrev tracer_monitored : StartProviders → Result (Option Resource) → Provider
tracer_monitored p (err e) = noop
tracer_monitored p (ok r) = if p.trace_installed then p.trace_provider else noop

module _ {o : Otel} {m : Meter} (meter_of : Provider → Text → m.State) where
  start_monitor-tracer :
      (a : Attempt) (t : Telemetry o m) (w : World) (p : StartProviders)
      → w.tracer_provider ≡ (if p.trace_installed then p.trace_provider else noop)
      → t.trace_installed ≡ false
      → let (t', w', r) = start_monitor o m meter_of a t w p in
        (w'.tracer_provider ≡ tracer_monitored p r) × (t'.trace_installed ≡ false)
  unfolding start_monitor
  start_monitor-tracer a t w p h off = ground (arith, rollback_start-tracer w none p)

  -- what a Start that stopped before its second lock, or got to it, leaves installed
  abbrev pub Installs : Telemetry o m × World × Result (Prepared o) → Type 0
  Installs (t, w, r) = (w.tracer_provider ≡ tracer_prepared r) × (t.trace_installed ≡ false)

  with_monitor-Installs :
      (t : Telemetry o m) (p : StartProviders) (t' : Telemetry o m) (w' : World)
      (r : Result (Option Resource))
      → w'.tracer_provider ≡ tracer_monitored p r
      → t'.trace_installed ≡ false
      → Installs (with_monitor o m meter_of t p (t', w', r))
  with_monitor-Installs t p t' w' (err e) h off = (h, off)
  with_monitor-Installs t p t' w' (ok x) h off = (h, off)

  with_providers-Installs :
      (a : Attempt) (t : Telemetry o m) (w1 : World) (r : Result StartProviders)
      → w1.tracer_provider ≡ tracer_after noop r
      → t.trace_installed ≡ false
      → Installs (with_providers o m meter_of a t (w1, r))
  with_providers-Installs a t w1 (err e) h off = (h, off)
  with_providers-Installs a t w1 (ok p) h off =
      let (t', w', r) = start_monitor o m meter_of a t w1 p in
      let (tracer, off') = start_monitor-tracer a t w1 p h off in
      with_monitor-Installs t p t' w' r tracer off'

  pub prepare-Installs :
      (a : Attempt) (t : Telemetry o m) (w : World)
      → w.tracer_provider ≡ noop
      → t.trace_installed ≡ false
      → Installs (prepare o m meter_of a t w)
  unfolding prepare install_propagator
  prepare-Installs a t w h off =
      let (w1, r) = init_providers a t.cfg (install_propagator w) in
      let same : w1.tracer_provider ≡ tracer_after noop r =
        rw⁻¹ h (init_providers-tracer a t.cfg (install_propagator w)) in
      with_providers-Installs a t w1 r same off

  pub close_held-tracer :
      (t : Telemetry o m) (w : World)
      → (close_held o m meter_of t w).tracer_provider
        ≡ (if t.trace_installed then noop else w.tracer_provider)
  unfolding close_held
  close_held-tracer t w =
      let w1 = close_option w t.cardinality in
      let w2 = call_shutdown w1 t.shutdown_fn in
      let w3 = call_shutdown w2 t.trace_shutdown in
      ground (
        arith,
        close_option-tracer w t.cardinality,
        call_shutdown-tracer w1 t.shutdown_fn,
        call_shutdown-tracer w2 t.trace_shutdown,
        close_option-tracer w3 t.monitor,
      )

  pub shutdown-tracer :
      (a : Answers) (t : Telemetry o m) (w : World)
      → t.started ≡ true
      → w.tracer_provider ≡ own_tracer t
      → let (t', w', errors) = shutdown o m meter_of a t w in
        (w'.tracer_provider ≡ noop) × (t'.trace_installed ≡ false)
  unfolding shutdown refresh_tracer_locked
  shutdown-tracer a t w on h = ground (arith, close_held-tracer t w)
