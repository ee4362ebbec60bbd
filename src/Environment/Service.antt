-- ===== src/Environment/Service.antt =====
-- The service and the pod of a configuration from the environment.
use tel.Base.{false, List, [], ◌∷◌, ◌≡◌, refl, arith, inl, inr, Option-cases}
use tel.Base.Text.{Text, is_empty, trim_space, trim_left}
use tel.Config.{Config}
use tel.Environment.{Environ, Outside, apply_nested_env}
use tel.Environment.Load.{
  FieldError, config, load_dot_env, load_config, name_service, name_pod, from_loaded,
  get_config_from_env,
}

module _ (out : Outside) where
  trim_space_empty : (s : Text) → is_empty (trim_space s) ≡ false → is_empty s ≡ false
  unfolding is_empty trim_space trim_left
  trim_space_empty [] h = h
  trim_space_empty (c ∷ s) h = refl

  name_service_named : (cfg : Config) → is_empty (name_service out cfg).service ≡ false
  unfolding name_service is_empty
  name_service_named cfg = ground (arith, trim_space_empty cfg.service)

  name_pod-service : (e : Environ) (cfg : Config) → (name_pod out e cfg).service ≡ cfg.service
  unfolding name_pod
  name_pod-service e cfg = ground arith

  from_loaded_named :
      (e : Environ) (r : Config × List FieldError) (cfg : Config)
      → from_loaded out e r ≡ config cfg
      → is_empty cfg.service ≡ false
  from_loaded_named e (cfg', x ∷ errs) cfg h = ground (arith, h)
  from_loaded_named e (cfg', []) cfg h =
      let named = name_service_named (apply_nested_env out e cfg') in
      ground (arith, h, named, name_pod-service e (name_service out (apply_nested_env out e cfg')))

  -- A configuration that GetConfigFromEnv returns has a service name, whatever the environment and
  -- the host are.
  pub get_config_from_env_named :
      (e : Environ) (cfg : Config)
      → get_config_from_env out e ≡ config cfg
      → is_empty cfg.service ≡ false
  unfolding get_config_from_env
  get_config_from_env_named e cfg h = elim (Option-cases (load_dot_env out e)) [
    | inl failed ↦ ground (arith, h, failed)
    | inr (e', loaded) ↦
        from_loaded_named e' (load_config out e') cfg (rw (loaded, get_config_from_env) at h)
  ]
