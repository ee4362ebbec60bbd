-- ===== src/Environment/Reload.antt =====
-- config_env_gen.go: the loads and reloads of a configuration, and its audit, which is package env's.
-- The snapshot that env.Snapshot gives is an argument.
use tel.Base.{false, some, List, [], ◌∷◌, ◌≡◌, refl, arith}
use tel.Base.Int.{pos}
use tel.Config.{Config}
use tel.Environment.{Environ, Outside}
use tel.Environment.Load.{
  FieldError, config, load_config, load_dot_env, from_loaded, get_config_from_env,
}
use tel.Environment.Schema.{SchemaField, config_audit_schema}

-- A function that returns, or panics with the errors of the fields.
pub data Returned (A : Type 0) : Type 0 where
  returns : A → Returned A
  panics : List FieldError → Returned A

module _ (out : Outside) (snap : Environ) where
  -- LoadConfigFrom; LoadConfig calls loadConfig with the snapshot of the process.
  abbrev pub load_config_from : Config × List FieldError
  load_config_from = load_config out snap

  -- The old configuration stays where the new one has errors.
  abbrev pub reloaded : Config → Config × List FieldError → Config × List FieldError
  reloaded cfg (next, []) = (next, [])
  reloaded cfg (next, x ∷ errs) = (cfg, x ∷ errs)

  unfoldable pub reload_config : Config → Config × List FieldError
  reload_config cfg = reloaded cfg load_config_from

  abbrev pub or_panic : Config × List FieldError → Returned Config
  or_panic (cfg, []) = returns cfg
  or_panic (cfg, x ∷ errs) = panics (x ∷ errs)

  abbrev pub must_reload_config : Config → Returned Config
  must_reload_config cfg = or_panic (reload_config cfg)

  abbrev pub must_load_config : Returned Config
  must_load_config = or_panic load_config_from

-- `audit` is env.Audit, and `no_options` the zero of its options.
module _ {Options Report : Type 0} (audit : Environ → List SchemaField → Options → Report)
    (no_options : Options) where
  abbrev pub audit_config_with_options : Environ → Options → Report
  audit_config_with_options snap opts = audit snap config_audit_schema opts

  abbrev pub audit_config : Environ → Report
  audit_config snap = audit_config_with_options snap no_options

-- the settings that loadConfig leaves at zero
abbrev pub NestedZero : Config → Type 0
NestedZero cfg =
    let tel = cfg.tel_config in
    let cd = tel.metrics.cardinality_detector in
    (tel.traces.enable ≡ false)
    × (tel.traces.sampler ≡ [])
    × (cd.enable ≡ false)
    × (cd.deny_unknown ≡ false)
    × (cd.max_cardinality ≡ pos 0)
    × (cd.max_instruments ≡ pos 0)
    × (tel.metrics.enable_retry ≡ false)
    × (tel.raw.ca ≡ [])
    × (tel.raw.cert ≡ [])
    × (tel.raw.key ≡ [])

module _ (out : Outside) (snap : Environ) where
  load_config-NestedZero : NestedZero (load_config out snap).0
  unfolding load_config
  load_config-NestedZero = (refl, refl, refl, refl, refl, refl, refl, refl, refl, refl)

  reloaded-NestedZero :
      (cfg : Config) (r : Config × List FieldError)
      → NestedZero r.0
      → from_loaded out snap r ≡ config cfg
      → let (cfg', errs) = reloaded out snap cfg r in (errs ≡ []) × NestedZero cfg'
  reloaded-NestedZero cfg (next, []) zero h = (refl, zero)
  reloaded-NestedZero cfg (next, x ∷ errs) zero h = ground (arith, h)

  -- In an environment that GetConfigFromEnv has read, without a .env file that changes it, a reload of
  -- the configuration succeeds, and loses what GetConfigFromEnv had set after loadConfig: the traces,
  -- the detector, the retries and the certificates are as if they had been switched off.
  pub reload_config-forgets :
      (cfg : Config)
      → load_dot_env out snap ≡ some snap
      → get_config_from_env out snap ≡ config cfg
      → let (cfg', errs) = reload_config out snap cfg in (errs ≡ []) × NestedZero cfg'
  unfolding get_config_from_env reload_config
  reload_config-forgets cfg same loads =
      let h : from_loaded out snap (load_config out snap) ≡ config cfg =
        rw (same, get_config_from_env) at loads in
      reloaded-NestedZero cfg (load_config out snap) load_config-NestedZero h
