-- ===== src/Tests/LoggerRuns.antt =====
-- The logger at concrete inputs: a limit of one message a second, and a stack of three frames.
use tel.Base.{ℕ, ◌*◌, ◌≤◌, ◌≡◌, refl, false, List, [], ◌∷◌, arith}
use tel.Base.Int.{pos}
use tel.Base.Text.{bytes}
use tel.Config.{Config, default_config}
use tel.LogSampler.{RateSampler, log_sampler_index}
use tel.LogSampler.Window.{Message, accepted}
use tel.Environment.Defaults.{empty_environ}
use tel.Logger.{LogState, writer_of, logger_options, apply_logger_from_config}
use tel.Logger.Configured.{put_filled, service_fields, configured-le}
use tel.Logger.Stack.{Frame}
use tel.Tests.Surroundings.{lone_host, listing}
use tel.Tests.Setting.{orders}

abbrev info_at : ℕ → Message
info_at now = record { level = pos 1; level_now = now; now = now }

abbrev burst : List Message
burst = info_at 5 ∷ info_at 6 ∷ info_at 7 ∷ []

-- The default configuration with a limit of one message a second.
unfoldable quiet : Config
unfolding default_config
quiet =
    let c = default_config (bytes "web-1") orders in record c { max_messages_per_second = pos 1 }

abbrev pub unset : LogState listing
unset = record {
  global_level = pos 1;
  logger = [];
  default_context_logger = [];
  level_colors = false;
}

configured-le_example :
    let st' = apply_logger_from_config listing lone_host empty_environ quiet unset in
    let fielded =
      put_filled listing
        (listing.new_logger (writer_of listing (logger_options listing quiet)))
        (service_fields listing lone_host empty_environ quiet) in
    (s : RateSampler) × (st'.logger ≡ listing.sampled fielded s)
    × (st'.default_context_logger ≡ st'.logger)
    × (accepted listing.debug_level listing.fatal_level s burst ≤ 2 * 1)
unfolding quiet log_sampler_index
configured-le_example =
    configured-le listing lone_host empty_environ quiet unset 1 5 burst refl (omega arith)
      (
        refl,
        omega arith,
        omega arith,
        (refl, omega arith, omega arith, (refl, omega arith, omega arith, tt)),
      )
      (omega arith)

abbrev frames : List Frame
frames =
    record {
      function = bytes "github.com/rs/zerolog.(*Event).Err";
      file = bytes "/go/event.go";
      line = pos 9;
    }
    ∷ record {
      function = bytes "example.com/shop/orders.Place";
      file = bytes "/shop/place.go";
      line = pos 41;
    }
    ∷ record { function = []; file = bytes "/go/asm.s"; line = pos 1 }
    ∷ []
