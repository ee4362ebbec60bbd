-- ===== src/Init/Started.antt =====
-- What Init leaves behind: a runtime that runs, or a process that exits with nothing open.
use tel.Base.{ℕ, ◌≡◌, refl, ◌∙◌, ap, true, false, [], get_or, arith, inl, inr, Bool-cases}
use tel.Base.Text.{Text, bytes, is_empty}
use tel.Otel.{Otel}
use tel.Config.{Config}
use tel.Environment.{Outside}
use tel.Environment.Load.{config, load_dot_env, get_config_from_env}
use tel.Environment.Service.{get_config_from_env_named}
use tel.Logger.{Zerolog, apply_logger_from_config}
use tel.Instruments.Registry.{Meter}
use tel.OtlpDial.{Error, Result, ok, err}
use tel.Telemetry.{Provider, noop, Resource, World, Telemetry, new_telemetry, refresh_tracer_locked}
use tel.Telemetry.Start.{Attempt, Prepared, prepare, commit, with_prepared, start}
use tel.Telemetry.Balance.{weigh, prepare-Prepares}
use tel.Telemetry.Progress.{IsReachable, start-ok}
use tel.Telemetry.Settled.{empty_world, calls}
use tel.Telemetry.Lifecycle.{start_fails-releases}
use tel.Init.{
  Process, start_error, running, fatal_exit, set_global, after_start, init_with_config, after_init,
  init,
}

module _ (o : Otel) (m : Meter) (meter_of : Provider → Text → m.State) where
  commit_cfg :
      (p : Prepared o) (t : Telemetry o m) (w : World) → (commit o m meter_of p t w).0.cfg ≡ t.cfg
  unfolding commit refresh_tracer_locked
  commit_cfg p t w = ground arith

  with_prepared_cfg :
      (s : Telemetry o m × World × Result (Prepared o))
      → (with_prepared o m meter_of s).0.cfg ≡ s.0.cfg
  with_prepared_cfg (t, w, err e) = refl
  with_prepared_cfg (t, w, ok p) = commit_cfg p t w

  start_cfg :
      (a : Attempt) (t : Telemetry o m) (w : World) → (start o m meter_of a t w).0.cfg ≡ t.cfg
  unfolding start
  start_cfg a t w = elim (Bool-cases t.started) [
    | inl on ↦ simp on refl
    | inr off ↦
        let (_, _, _, cfg) = prepare-Prepares meter_of (λ _. 0) a t w in
        simp off (with_prepared_cfg (prepare o m meter_of a t w) ∙ cfg)
  ]

  pub new_telemetry_cfg : (cfg : Config) → (new_telemetry o m meter_of cfg).cfg ≡ cfg
  unfolding new_telemetry refresh_tracer_locked
  new_telemetry_cfg cfg = refl

module _ (z : Zerolog) (o : Otel) (m : Meter) (meter_of : Provider → Text → m.State) (out : Outside)
    (F : Type 0) where
  -- what the outcome is when Start has returned without an error
  after_start-running :
      (p : Process z o m) (s : Telemetry o m × World × Result (Unit {0}))
      → s.2 ≡ ok tt
      → let (p', outcome) = after_init z o m meter_of out F (after_start z o m meter_of out p s) in
        (outcome ≡ running p'.global) × (p'.global ≡ s.0) × (p'.log ≡ p.log) × (p'.world ≡ s.1)
  after_start-running p (t, w, err e) h = ground (arith, h)
  after_start-running p (t, w, ok x) h = (refl, refl, refl, refl)

  init_with_config-running :
      (a : Attempt) (cfg : Config) (p : Process z o m)
      → IsReachable a cfg
      → let (p', outcome) =
          after_init z o m meter_of out F (init_with_config z o m meter_of out a cfg p) in
        (outcome ≡ running p'.global)
        × (p'.global.started ≡ true)
        × (p'.global.cfg ≡ cfg)
        × (p'.log ≡ apply_logger_from_config z out p.environ cfg p.log)
  unfolding init_with_config
  init_with_config-running a cfg p reachable =
      let t = new_telemetry o m meter_of cfg in
      let same = new_telemetry_cfg o m meter_of cfg in
      let log = apply_logger_from_config z out p.environ cfg p.log in
      let s = start o m meter_of a t p.world in
      let (succeeds, starts) = start-ok o m meter_of a t p.world (rw same reachable) in
      let (outcome, global, logs, _) =
        after_start-running (set_global z o m meter_of out t (record p { log = log })) s succeeds in
      (
        outcome,
        ap (λ (t : Telemetry o m). t.started) global ∙ starts,
        ap (λ (t : Telemetry o m). t.cfg) global ∙ start_cfg o m meter_of a t p.world ∙ same,
        logs,
      )

  -- When the environment gives a configuration and its addresses can be reached, Init returns the
  -- process's global runtime, which is started with that configuration and has a service name, and
  -- the logger is set as the configuration says in the environment that the .env file has extended.
  pub init-running :
      (a : Attempt) (cfg : Config) (p : Process z o m)
      → get_config_from_env out p.environ ≡ config cfg
      → IsReachable a cfg
      → let (p', outcome) = init z o m meter_of out F a p in
        (outcome ≡ running p'.global)
        × (p'.global.started ≡ true)
        × (p'.global.cfg ≡ cfg)
        × (is_empty p'.global.cfg.service ≡ false)
        × (p'.log
            ≡ apply_logger_from_config z out
                (get_or (load_dot_env out p.environ) p.environ)
                cfg
                p.log)
  unfolding init
  init-running a cfg p loads reachable =
      let p1 = record p { environ = get_or (load_dot_env out p.environ) p.environ } in
      let (outcome, starts, same, log) = init_with_config-running a cfg p1 reachable in
      let named = get_config_from_env_named out p.environ cfg loads in
      rw loads (outcome, starts, same, ap (λ (c : Config). is_empty c.service) same ∙ named, log)

  -- Init when Start has returned without an error
  pub init-started :
      (a : Attempt) (cfg : Config) (p : Process z o m)
      → get_config_from_env out p.environ ≡ config cfg
      → (start o m meter_of a (new_telemetry o m meter_of cfg) p.world).2 ≡ ok tt
      → let s = start o m meter_of a (new_telemetry o m meter_of cfg) p.world in
        let (p', outcome) = init z o m meter_of out F a p in
        (outcome ≡ running s.0) × (p'.world ≡ s.1)
  unfolding init init_with_config
  init-started a cfg p loads succeeds =
      let t = new_telemetry o m meter_of cfg in
      let environ = get_or (load_dot_env out p.environ) p.environ in
      let log = apply_logger_from_config z out environ cfg p.log in
      let p1 = set_global z o m meter_of out t (record p { environ = environ; log = log }) in
      let (outcome, global, _, world) =
        after_start-running p1 (start o m meter_of a t p.world) succeeds in
      rw loads (outcome ∙ ap running global, world)

  after_start_fails :
      (p : Process z o m) (s : Telemetry o m × World × Result (Unit {0})) (e : Error)
      → s.2 ≡ err e
      → let (p', outcome) = after_init z o m meter_of out F (after_start z o m meter_of out p s) in
        (outcome ≡ fatal_exit (start_error e) (bytes "tel: start"))
        × (p'.world ≡ s.1)
        × (p'.global ≡ s.0)
  after_start_fails p (t, w, err x) e h = (cc, refl, refl)
  after_start_fails p (t, w, ok x) e h = ground (arith, h)

  -- When Start fails in a process that has opened nothing yet, Init's process exits with that error
  -- and the code 1: all that Start opened was closed, no tracer provider is installed, and the
  -- global runtime is stopped.
  pub init_fails-releases :
      (f : Resource → ℕ) (a : Attempt) (cfg : Config) (p : Process z o m) (e : Error)
      → get_config_from_env out p.environ ≡ config cfg
      → p.world ≡ empty_world
      → (start o m meter_of a (new_telemetry o m meter_of cfg) empty_world).2 ≡ err e
      → let (p', outcome) = init z o m meter_of out F a p in
        (outcome ≡ fatal_exit (start_error e) (bytes "tel: start"))
        × (weigh f p'.world.opened ≡ weigh f p'.world.closed)
        × (p'.world.tracer_provider ≡ noop)
        × (p'.global.started ≡ false)
  unfolding init init_with_config calls
  init_fails-releases f a cfg p e loads fresh fails =
      let t = new_telemetry o m meter_of cfg in
      let environ = get_or (load_dot_env out p.environ) p.environ in
      let log = apply_logger_from_config z out environ cfg p.log in
      let p1 = set_global z o m meter_of out t (record p { environ = environ; log = log }) in
      let s = start o m meter_of a t empty_world in
      let (exits, world, global) = after_start_fails p1 s e fails in
      let (closed, tracer, stopped) = start_fails-releases o m meter_of f cfg [] a e fails in
      rw (loads, fresh)
        (
          exits,
          rw world closed,
          ap (λ (w : World). w.tracer_provider) world ∙ tracer,
          ap (λ (t : Telemetry o m). t.started) global ∙ stopped,
        )
