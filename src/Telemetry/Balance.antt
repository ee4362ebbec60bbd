-- ===== src/Telemetry/Balance.antt =====
-- What Start and Shutdown open and close. A weight is any function of resources into numbers: two
-- lists that weigh the same under every weight hold the same resources, as often.
use tel.Base.{
  ℕ, ◌+◌, ◌≡◌, refl, Option, none, some, List, [], ◌∷◌, ◌++◌, arith, inl, inr, Bool-cases,
}
use tel.Otel.{Otel}
use tel.Instruments.Registry.{Meter}
use tel.Config.{Config}
use tel.OtlpDial.{Result, ok, err}
use tel.Base.Text.{Text}
use tel.Telemetry.{Provider, Resource, World, ShutdownFn, closes, does_nothing, Telemetry}
use tel.Telemetry.Start.{
  Attempt, StartProviders, Prepared, call_shutdown, close_option, install_propagator,
  configure_export_compression, new_meter_provider, new_tracer_provider, add_tracer, with_meter,
  init_providers, rollback_start, start_monitor, with_monitor, with_providers, prepare,
}

unfoldable pub weigh : (Resource → ℕ) → List Resource → ℕ
weigh f [] = 0
weigh f (r ∷ rs) = f r + weigh f rs

pub weigh_snoc :
    (f : Resource → ℕ) (rs : List Resource) (r : Resource)
    → weigh f (rs ++ (r ∷ [])) ≡ weigh f rs + f r
unfolding weigh
weigh_snoc f [] r = omega arith
weigh_snoc f (x ∷ xs) r = omega (arith, weigh_snoc f xs r)

abbrev pub fn_weight : (Resource → ℕ) → Option ShutdownFn → ℕ
fn_weight f none = 0
fn_weight f (some does_nothing) = 0
fn_weight f (some (closes r)) = f r

abbrev pub option_weight : (Resource → ℕ) → Option Resource → ℕ
option_weight f none = 0
option_weight f (some r) = f r

abbrev pub providers_weight : (Resource → ℕ) → StartProviders → ℕ
providers_weight f p = fn_weight f p.shutdown_fn + fn_weight f p.trace_shutdown

-- What a runtime holds: its two providers, its monitor and its detector's loop.
abbrev pub held_weight : {o : Otel} {m : Meter} → (Resource → ℕ) → Telemetry o m → ℕ
held_weight f t =
    fn_weight f t.shutdown_fn
    + fn_weight f t.trace_shutdown
    + option_weight f t.monitor
    + option_weight f t.cardinality

-- Between two worlds, what was opened was closed, but for `n`.
abbrev pub Opens : (Resource → ℕ) → ℕ → World → World → Type 0
Opens f n w w' = weigh f w'.opened + weigh f w.closed ≡ weigh f w.opened + weigh f w'.closed + n

abbrev made_weight : (Resource → ℕ) → Result (Provider × ShutdownFn) → ℕ
made_weight f (ok (p, fn)) = fn_weight f (some fn)
made_weight f (err e) = 0

abbrev pub providers_result : (Resource → ℕ) → Result StartProviders → ℕ
providers_result f (ok p) = providers_weight f p
providers_result f (err e) = 0

module _ (f : Resource → ℕ) where
  pub call_shutdown-closes :
      (w : World) (fn : Option ShutdownFn)
      → (weigh f (call_shutdown w fn).closed ≡ weigh f w.closed + fn_weight f fn)
        × ((call_shutdown w fn).opened ≡ w.opened)
  call_shutdown-closes w none = (omega arith, refl)
  call_shutdown-closes w (some does_nothing) = (omega arith, refl)
  call_shutdown-closes w (some (closes r)) = (weigh_snoc f w.closed r, refl)

  pub close_option-closes :
      (w : World) (r : Option Resource)
      → (weigh f (close_option w r).closed ≡ weigh f w.closed + option_weight f r)
        × ((close_option w r).opened ≡ w.opened)
  close_option-closes w none = (omega arith, refl)
  close_option-closes w (some r) = (weigh_snoc f w.closed r, refl)

  new_meter_provider-Opens :
      (a : Attempt) (cfg : Config) (w : World)
      → Opens f (made_weight f (new_meter_provider a cfg w).1) w (new_meter_provider a cfg w).0
  unfolding new_meter_provider
  new_meter_provider-Opens a cfg w =
      ground (arith, weigh_snoc f w.opened (Resource.metric_export w.fresh))

  new_tracer_provider-Opens :
      (a : Attempt) (cfg : Config) (w : World)
      → Opens f (made_weight f (new_tracer_provider a cfg w).1) w (new_tracer_provider a cfg w).0
  unfolding new_tracer_provider
  new_tracer_provider-Opens a cfg w =
      ground (arith, weigh_snoc f w.opened (Resource.trace_export w.fresh))

  add_tracer-Opens :
      (a : Attempt) (cfg : Config) (w : World) (p : Provider) (fn : ShutdownFn)
      → weigh f (add_tracer a cfg w (p, fn)).0.opened + weigh f w.closed + (fn_weight f (some fn))
        ≡ weigh f w.opened
          + weigh f (add_tracer a cfg w (p, fn)).0.closed
          + providers_result f (add_tracer a cfg w (p, fn)).1
  unfolding add_tracer
  add_tracer-Opens a cfg w p fn = ground (
    arith,
    new_tracer_provider-Opens a cfg w,
    call_shutdown-closes (new_tracer_provider a cfg w).0 (some fn),
  )

  with_meter-Opens :
      (a : Attempt) (cfg : Config) (w w1 : World) (r : Result (Provider × ShutdownFn))
      → Opens f (made_weight f r) w w1
      → Opens f (providers_result f (with_meter a cfg (w1, r)).1) w (with_meter a cfg (w1, r)).0
  with_meter-Opens a cfg w w1 (err e) h = h
  with_meter-Opens a cfg w w1 (ok (p, fn)) h = omega (arith, h, add_tracer-Opens a cfg w1 p fn)

  pub init_providers-Opens :
      (a : Attempt) (cfg : Config) (w : World)
      → Opens f (providers_result f (init_providers a cfg w).1) w (init_providers a cfg w).0
  unfolding init_providers configure_export_compression
  init_providers-Opens a cfg w = elim (Bool-cases cfg.tel_config.enable) [
    | inr off ↦ simp off (omega arith)
    | inl on ↦
        let w1 = configure_export_compression w cfg.tel_config.with_compression in
        let made = new_meter_provider a cfg w1 in
        let same : (weigh f w1.opened ≡ weigh f w.opened) × (weigh f w1.closed ≡ weigh f w.closed) =
          ground arith in
        simp on (
          with_meter-Opens a cfg w made.0 made.1
            (omega (arith, same, new_meter_provider-Opens a cfg w1)))
  ]

  pub rollback_start-closes :
      (w : World) (monitor : Option Resource) (p : StartProviders)
      → (weigh f (rollback_start w monitor p).closed
          ≡ weigh f w.closed + option_weight f monitor + providers_weight f p)
        × ((rollback_start w monitor p).opened ≡ w.opened)
  unfolding rollback_start
  rollback_start-closes w monitor p =
      let w1 = close_option w monitor in
      let w2 = call_shutdown w1 p.shutdown_fn in
      ground (
        arith,
        close_option-closes w monitor,
        call_shutdown-closes w1 p.shutdown_fn,
        call_shutdown-closes w2 p.trace_shutdown,
      )

-- what a Start that got to its second lock has built
abbrev pub prepared_weight : {o : Otel} → (Resource → ℕ) → Result (Prepared o) → ℕ
prepared_weight f (ok p) = providers_weight f p.providers + option_weight f p.monitor
prepared_weight f (err e) = 0

abbrev pub monitor_result : (Resource → ℕ) → StartProviders → Result (Option Resource) → ℕ
monitor_result f p (ok r) = providers_weight f p + option_weight f r
monitor_result f p (err e) = 0

module _ {o : Otel} {m : Meter} (meter_of : Provider → Text → m.State) (f : Resource → ℕ) where
  pub start_monitor-Opens :
      (a : Attempt) (t : Telemetry o m) (w : World) (p : StartProviders)
      → let (t', w', r) = start_monitor o m meter_of a t w p in
        (weigh f w'.opened + weigh f w.closed + providers_weight f p
          ≡ weigh f w.opened + weigh f w'.closed + monitor_result f p r)
        × (held_weight f t' ≡ held_weight f t)
        × (t'.started ≡ t.started)
        × (t'.cfg ≡ t.cfg)
  unfolding start_monitor
  start_monitor-Opens a t w p = ground (
    arith,
    weigh_snoc f w.opened (Resource.monitor_server w.fresh),
    rollback_start-closes f w none p,
  )

  -- what a Start that stopped before its second lock, or got to it, makes of the runtime and world
  abbrev pub Prepares : Telemetry o m → World → Telemetry o m × World × Result (Prepared o) → Type 0
  Prepares t w (t', w', r) =
      Opens f (prepared_weight f r) w w'
      × (held_weight f t' ≡ held_weight f t)
      × (t'.started ≡ t.started)
      × (t'.cfg ≡ t.cfg)

  with_monitor-Prepares :
      (t : Telemetry o m) (w w1 : World) (p : StartProviders) (t' : Telemetry o m) (w' : World)
      (r : Result (Option Resource))
      → Opens f (providers_weight f p) w w1
      → (weigh f w'.opened + weigh f w1.closed + providers_weight f p
          ≡ weigh f w1.opened + weigh f w'.closed + monitor_result f p r)
        × (held_weight f t' ≡ held_weight f t)
        × (t'.started ≡ t.started)
        × (t'.cfg ≡ t.cfg)
      → Prepares t w (with_monitor o m meter_of t p (t', w', r))
  with_monitor-Prepares t w w1 p t' w' (err e) h (g, held, started, cfg) =
      (omega (arith, h, g), held, started, cfg)
  with_monitor-Prepares t w w1 p t' w' (ok x) h (g, held, started, cfg) =
      (omega (arith, h, g), held, started, cfg)

  with_providers-Prepares :
      (a : Attempt) (t : Telemetry o m) (w w1 : World) (r : Result StartProviders)
      → Opens f (providers_result f r) w w1
      → Prepares t w (with_providers o m meter_of a t (w1, r))
  with_providers-Prepares a t w w1 (err e) h = (h, refl, refl, refl)
  with_providers-Prepares a t w w1 (ok p) h =
      let (t', w', r) = start_monitor o m meter_of a t w1 p in
      with_monitor-Prepares t w w1 p t' w' r h (start_monitor-Opens a t w1 p)

  pub prepare-Prepares :
      (a : Attempt) (t : Telemetry o m) (w : World) → Prepares t w (prepare o m meter_of a t w)
  unfolding prepare install_propagator
  prepare-Prepares a t w =
      let (w1, r) = init_providers a t.cfg (install_propagator w) in
      with_providers-Prepares a t w w1 r (init_providers-Opens f a t.cfg (install_propagator w))
