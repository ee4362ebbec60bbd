-- ===== src/Environment/Defaults.antt =====
-- The defaults stand in the program twice: in DefaultConfig, and in the tags that loadConfig was
-- generated from with the arguments of applyNestedEnv.
use tel.Base.{true, false, none, some, [], ◌≡◌, refl, ap}
use tel.Base.Int.{pos}
use tel.Base.Text.{Text, bytes, is_empty, trim_space, trim_left}
use tel.Config.{Config, default_config}
use tel.Environment.{
  Environ, not_exist, Outside, env_string, env_parsed, apply_nested_env, resolve_pod,
}
use tel.Environment.Load.{
  config, raw_or, load_parsed, load_dot_env, load_config, host_service, name_service, name_pod,
  get_config_from_env,
}

abbrev pub empty_environ : Environ
empty_environ key = none

-- How package env reads the default texts.
pub record ReadsDefaults (out : Outside) : Type 0 where
  pub true_text : out.env_parse_bool (bytes "true") ≡ some true
  pub false_text : out.env_parse_bool (bytes "false") ≡ some false
  pub zero_text : out.env_parse_int (bytes "0") ≡ some (pos 0)
  pub fifteen_text : out.env_parse_int (bytes "15") ≡ some (pos 15)

-- what the tags give: the fields that applyNestedEnv sets, the service and the pod are zero
unfoldable tagged_config : Config
unfolding default_config
tagged_config =
    let d = default_config [] [] in
    let tel = d.tel_config in
    record d {
      tel_config = record tel {
        metrics = record {
          cardinality_detector = record {
            max_cardinality = pos 0;
            max_instruments = pos 0;
            diagnostic_interval = pos 0;
            warn_utilization_pct = pos 0;
            enable = false;
            deny_unknown = false;
          };
          enable_retry = false;
        };
        traces = record { enable = false; sampler = [] };
      };
    }

module _ (out : Outside) (reads : ReadsDefaults out) where
  load_dot_env-absent :
      out.env_load_dot_env (bytes ".env") empty_environ ≡ not_exist
      → load_dot_env out empty_environ ≡ some empty_environ
  unfolding load_dot_env is_empty trim_space trim_left
  load_dot_env-absent absent = rw (absent, load_dot_env) refl

  load_config-default : load_config out empty_environ ≡ (tagged_config, [])
  unfolding load_config load_parsed raw_or tagged_config default_config
  load_config-default =
      rw (reads.true_text, reads.false_text, reads.zero_text, reads.fifteen_text, load_parsed) refl

  named_by_host :
      (host : Text)
      → out.hostname ≡ some host
      → is_empty (host_service host) ≡ false
      → trim_space host ≡ host
      → name_pod out empty_environ
          (name_service out (apply_nested_env out empty_environ tagged_config))
        ≡ default_config host (host_service host)
  unfolding name_pod name_service apply_nested_env resolve_pod env_string env_parsed tagged_config
      default_config is_empty trim_space trim_left
  named_by_host host named ne trimmed = rw (named, resolve_pod, trimmed, ne) refl

  -- Where nothing is set and there is no .env file, GetConfigFromEnv returns DefaultConfig's
  -- configuration, on a host with a name that has no blanks around it.
  pub get_config_from_env-default_config :
      (host : Text)
      → out.hostname ≡ some host
      → is_empty (host_service host) ≡ false
      → trim_space host ≡ host
      → out.env_load_dot_env (bytes ".env") empty_environ ≡ not_exist
      → get_config_from_env out empty_environ ≡ config (default_config host (host_service host))
  unfolding get_config_from_env
  get_config_from_env-default_config host named ne trimmed absent =
      rw (load_dot_env-absent absent, get_config_from_env, load_config-default)
        (ap config (named_by_host host named ne trimmed))
