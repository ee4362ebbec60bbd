-- ===== src/Init.antt =====
-- config_env.go: Init and InitWithConfig; Global, SetGlobal and FromCtx of tel.go. What a process
-- keeps is passed on from one part to the next. The pointer that SetGlobal stores and the runtime that
-- Start changes and Init returns are one object, so the process has its state once.
pub mod Started
use tel.Base.{ℕ, Bool, true, false, Option, none, some, List, [], ◌∷◌, get_or}
use tel.Base.Text.{Text, bytes}
use tel.Otel.{Otel}
use tel.Config.{Config}
use tel.Environment.{Environ, Outside}
use tel.Environment.Load.{
  FieldError, Loaded, config, dot_env_failed, fields_failed, load_dot_env, get_config_from_env,
}
use tel.Logger.{Zerolog, LogState, apply_logger_from_config}
use tel.Logger.Events.{Fatal, fatal, fatal_err, fatal_msg}
use tel.Instruments.Registry.{Meter}
use tel.OtlpDial.{Error, Result, ok, err}
use tel.Telemetry.{Provider, World, Telemetry, new_telemetry}
use tel.Telemetry.Stats.{new}
use tel.Telemetry.Start.{Attempt, start}

pub record Process (z : Zerolog) (o : Otel) (m : Meter) : Type 0 where
  pub environ : Environ
  pub log : LogState z
  pub global : Telemetry o m
  pub world : World

pub data InitError : Type 0 where
  env_file_error : InitError
  env_fields_error : List FieldError → InitError
  start_error : Error → InitError

-- Init returns with the runtime, or the process exits; `F` is float64.
pub data Outcome (F T : Type 0) : Type 0 where
  running : T → Outcome F T
  exited : Fatal F InitError → Outcome F T

abbrev pub fatal_exit : {F T : Type 0} → InitError → Text → Outcome F T
fatal_exit e msg = exited (fatal_msg (fatal_err fatal e) msg)

module _ (z : Zerolog) (o : Otel) (m : Meter) (meter_of : Provider → Text → m.State)
    (out : Outside) where
  abbrev pub set_global : Telemetry o m → Process z o m → Process z o m
  set_global t p = record p { global = t }

  -- The process after the package's init, which makes a placeholder for the global runtime.
  abbrev pub with_placeholder : Text → Text → Process z o m → Process z o m
  with_placeholder host service p = set_global (new o m meter_of host service) p

  -- WrapContext, as the runtime that is stored in the context
  abbrev pub wrap_context : Telemetry o m → Option (Telemetry o m)
  wrap_context t = some t

  -- FromCtx, for the runtime that WrapContext stored in the context, if it did
  unfoldable pub from_ctx : Option (Telemetry o m) → Process z o m → Telemetry o m
  from_ctx stored p = get_or stored p.global

  -- what InitWithConfig does when Start has returned
  abbrev pub after_start :
      Process z o m
      → Telemetry o m × World × Result (Unit {0})
      → Process z o m × Result (Telemetry o m)
  after_start p (t, w, err e) = (set_global t (record p { world = w }), err e)
  after_start p (t, w, ok x) = (set_global t (record p { world = w }), ok t)

  unfoldable pub init_with_config :
      Attempt → Config → Process z o m → Process z o m × Result (Telemetry o m)
  init_with_config a cfg p =
      let log = apply_logger_from_config z out p.environ cfg p.log in
      let t = new_telemetry o m meter_of cfg in
      after_start (set_global t (record p { log = log })) (start o m meter_of a t p.world)

  module _ (F : Type 0) where
    abbrev pub after_init :
        Process z o m × Result (Telemetry o m) → Process z o m × Outcome F (Telemetry o m)
    after_init (p, ok t) = (p, running t)
    after_init (p, err e) = (p, fatal_exit (start_error e) (bytes "tel: start"))

    abbrev pub after_load :
        Attempt → Process z o m → Loaded → Process z o m × Outcome F (Telemetry o m)
    after_load a p dot_env_failed = (p, fatal_exit env_file_error (bytes "tel: load config"))
    after_load a p (fields_failed errs) =
        (p, fatal_exit (env_fields_error errs) (bytes "tel: load config"))
    after_load a p (config cfg) = after_init (init_with_config a cfg p)

    -- Init, with an exit function that does not return; the .env file has extended the environment.
    unfoldable pub init : Attempt → Process z o m → Process z o m × Outcome F (Telemetry o m)
    init a p =
        let p' = record p { environ = get_or (load_dot_env out p.environ) p.environ } in
        after_load a p' (get_config_from_env out p.environ)
