-- ===== src/Telemetry/Lifecycle.antt =====
-- tel.go: what Start and Shutdown promise to a process that calls a runtime in any order.
use tel.Base.{ℕ, ◌+◌, ◌≡◌, refl, ◌∙◌, false, List, arith, inl, inr, Bool-cases}
use tel.Otel.{Otel}
use tel.Base.Text.{Text}
use tel.Instruments.Registry.{Meter}
use tel.Config.{Config}
use tel.OtlpDial.{Error, Result, ok, err}
use tel.Telemetry.{Provider, noop, Resource, World, Telemetry, new_telemetry, refresh_tracer_locked}
use tel.Telemetry.Start.{Attempt, Prepared, with_prepared, prepare, start}
use tel.Telemetry.Stop.{Answers, shutdown}
use tel.Telemetry.Balance.{weigh, held_weight, prepare-Prepares}
use tel.Telemetry.Tracing.{own_tracer}
use tel.Telemetry.Settled.{
  IsSettled, Call, empty_world, calls, start-IsSettled, shutdown-IsSettled, calls-IsSettled,
  new_telemetry-IsSettled,
}

module _ (o : Otel) (m : Meter) (meter_of : Provider → Text → m.State) where
  shutdown-stops :
      (a : Answers) (t : Telemetry o m) (w : World)
      → (shutdown o m meter_of a t w).0.started ≡ false
  unfolding shutdown refresh_tracer_locked
  shutdown-stops a t w = ground arith

  with_prepared-err :
      (s : Telemetry o m × World × Result (Prepared o)) (e : Error)
      → (with_prepared o m meter_of s).2 ≡ err e
      → (with_prepared o m meter_of s).0.started ≡ s.0.started
  with_prepared-err (t, w, err x) e h = refl
  with_prepared-err (t, w, ok p) e h = ground (arith, h)

  start-err :
      (a : Attempt) (t : Telemetry o m) (w : World) (e : Error)
      → (start o m meter_of a t w).2 ≡ err e
      → (start o m meter_of a t w).0.started ≡ false
  unfolding start
  start-err a t w e h = elim (Bool-cases t.started) [
    | inl on ↦ ground (arith, h, on)
    | inr off ↦
        let stopped : (with_prepared o m meter_of (prepare o m meter_of a t w)).0.started ≡ false =
          let (_, _, same, _) = prepare-Prepares meter_of (λ _. 0) a t w in
          ground (arith, with_prepared-err (prepare o m meter_of a t w) e, h, off, same) in
        ground (arith, stopped, off)
  ]

  -- Whatever a process called on a new runtime, one call after the other, and however those calls
  -- ended: all that was opened was closed, as often, or is held by the runtime, and the process's
  -- tracer provider is the one that the runtime installed, or noop.
  pub calls-held :
      (f : Resource → ℕ) (cfg : Config) (cs : List Call)
      → let (t, w) = calls o m meter_of cs (new_telemetry o m meter_of cfg, empty_world) in
        (weigh f w.opened ≡ weigh f w.closed + held_weight f t) × (w.tracer_provider ≡ own_tracer t)
  calls-held f cfg cs =
      let s =
        calls-IsSettled meter_of cs (new_telemetry o m meter_of cfg) empty_world
          (new_telemetry-IsSettled meter_of cfg) in
      (s.balanced f, s.tracer)

  pub settled-releases :
      (f : Resource → ℕ) (t : Telemetry o m) (w : World) (a : Answers)
      → IsSettled o m t w
      → let (t', w', errors) = shutdown o m meter_of a t w in
        (weigh f w'.opened ≡ weigh f w'.closed) × (w'.tracer_provider ≡ noop) × (t'.started ≡ false)
  settled-releases f t w a s =
      let s' = shutdown-IsSettled meter_of a t w s in
      let stopped = shutdown-stops a t w in
      (
        omega (arith, s'.balanced f, s'.stopped_holds_nothing stopped f),
        s'.tracer ∙ simp (s'.stopped_installs_nothing stopped) refl,
        stopped,
      )

  -- A Shutdown that follows any sequence of calls closes all that is open, as often as it was opened,
  -- even where one of its own calls fails, stops the runtime and takes back its tracer provider.
  pub shutdown-releases :
      (f : Resource → ℕ) (cfg : Config) (cs : List Call) (a : Answers)
      → let (t, w) = calls o m meter_of cs (new_telemetry o m meter_of cfg, empty_world) in
        let (t', w', errors) = shutdown o m meter_of a t w in
        (weigh f w'.opened ≡ weigh f w'.closed) × (w'.tracer_provider ≡ noop) × (t'.started ≡ false)
  shutdown-releases f cfg cs a =
      let (t, w) = calls o m meter_of cs (new_telemetry o m meter_of cfg, empty_world) in
      settled-releases f t w a (
        calls-IsSettled meter_of cs (new_telemetry o m meter_of cfg) empty_world
          (new_telemetry-IsSettled meter_of cfg))

  -- A Start that fails, after any sequence of calls, leaves nothing open, whichever step failed: the
  -- runtime is stopped, all was closed as often as it was opened, and no tracer provider stays installed.
  pub start_fails-releases :
      (f : Resource → ℕ) (cfg : Config) (cs : List Call) (a : Attempt) (e : Error)
      → (let (t, w) = calls o m meter_of cs (new_telemetry o m meter_of cfg, empty_world) in
          (start o m meter_of a t w).2)
        ≡ err e
      → let (t, w) = calls o m meter_of cs (new_telemetry o m meter_of cfg, empty_world) in
        let (t', w', result) = start o m meter_of a t w in
        (weigh f w'.opened ≡ weigh f w'.closed) × (w'.tracer_provider ≡ noop) × (t'.started ≡ false)
  start_fails-releases f cfg cs a e h =
      let (t, w) = calls o m meter_of cs (new_telemetry o m meter_of cfg, empty_world) in
      let s =
        calls-IsSettled meter_of cs (new_telemetry o m meter_of cfg) empty_world
          (new_telemetry-IsSettled meter_of cfg) in
      let s' = start-IsSettled meter_of a t w s in
      let stopped = start-err a t w e h in
      (
        omega (arith, s'.balanced f, s'.stopped_holds_nothing stopped f),
        s'.tracer ∙ simp (s'.stopped_installs_nothing stopped) refl,
        stopped,
      )
