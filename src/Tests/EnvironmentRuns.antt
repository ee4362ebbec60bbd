-- ===== src/Tests/EnvironmentRuns.antt =====
-- The configuration from an environment with nothing set.
use tel.Export.{
  ResourceAttr, service_name, AllFilled, ProviderOption, with_reader, with_resource,
  provider_options, Views, provider_options-Views,
}
use tel.Base.Int.{ℤ, pos_part}
use tel.Base.{List, ◌<◌, ◌≢◌, ◌⊎◌, [], ◌∷◌, some, none, if◌then◌else◌, ◌≡◌, refl, false}
use tel.Base.Text.{Text, bytes, text_eq, is_empty, is_space, trim_space, trim_left, to_lower}
use tel.Base.Parts.{replace_byte}
use tel.Config.{Config, default_config}
use tel.Environment.{Environ, default_service_unknown}
use tel.Environment.Reload.{reload_config, reload_config-forgets, NestedZero}
use tel.Environment.Load.{load_dot_env, config, host_service, get_config_from_env}
use tel.Environment.Defaults.{empty_environ, ReadsDefaults, get_config_from_env-default_config}
use tel.Tests.Surroundings.{lone_host, read_bool, read_digits, read_number}

abbrev pub host : Text
host = bytes "web-1"

abbrev pub from_nothing : Config
from_nothing = default_config host (host_service host)

pub lone_host_reads : ReadsDefaults lone_host
unfolding read_bool read_digits read_number text_eq
lone_host_reads = record {
  true_text = refl;
  false_text = refl;
  zero_text = refl;
  fifteen_text = refl;
}

lone_host_named : is_empty (host_service host) ≡ false
unfolding is_empty to_lower replace_byte
lone_host_named = refl

lone_host_trimmed : trim_space host ≡ host
unfolding trim_space trim_left is_space
lone_host_trimmed = refl

pub from_nothing_loads : get_config_from_env lone_host empty_environ ≡ config from_nothing
from_nothing_loads =
    get_config_from_env-default_config lone_host lone_host_reads host refl lone_host_named
      lone_host_trimmed refl

get_config_from_env-default_config_example :
    get_config_from_env lone_host empty_environ ≡ config (default_config host (host_service host))
get_config_from_env-default_config_example =
    get_config_from_env-default_config lone_host lone_host_reads host refl lone_host_named
      lone_host_trimmed refl

-- Two variables are set, one of them to a text that does not parse.
abbrev two_set : Environ
two_set key =
    if text_eq key (bytes "DEBUG")
    then some (bytes "yes")
    else if text_eq key (bytes "LOG_LEVEL")
    then some (bytes "warn")
    else none

-- One bucket has boundaries, one has none, one has no name.
abbrev bucketed : Config
bucketed =
    let tel = from_nothing.tel_config in
    record from_nothing {
      tel_config = record tel {
        bucket_view =
            record { name = bytes "latency"; boundaries = 1 ∷ 5 ∷ [] }
            ∷ record { name = bytes "size"; boundaries = [] }
            ∷ record { name = []; boundaries = 2 ∷ [] }
            ∷ [];
      };
    }

provider_options-Views_example :
    (interval : ℤ) × (service : Text) × (attrs : List ResourceAttr) × (views : List ProviderOption)
    × (provider_options lone_host empty_environ bucketed
        ≡ with_reader interval ∷ with_resource (service_name service ∷ attrs) ∷ views)
    × (0 < pos_part interval)
    × (((bucketed.service ≡ []) × (service ≡ default_service_unknown))
        ⊎ ((bucketed.service ≢ []) × (service ≡ bucketed.service)))
    × AllFilled (service_name service ∷ attrs)
    × Views bucketed.tel_config.bucket_view views
provider_options-Views_example = provider_options-Views lone_host empty_environ bucketed

nothing_more : load_dot_env lone_host empty_environ ≡ some empty_environ
unfolding load_dot_env trim_space trim_left
nothing_more = refl

reload_config-forgets_example :
    let (cfg, errs) = reload_config lone_host empty_environ from_nothing in
    (errs ≡ []) × NestedZero cfg
reload_config-forgets_example =
    reload_config-forgets lone_host empty_environ from_nothing nothing_more from_nothing_loads
