-- ===== src/Logger/Configured.antt =====
-- What a configured logger lets through.
use tel.Base.{
  ℕ, ◌+◌, ◌*◌, ◌^◌, ◌<◌, ◌≤◌, ◌≡◌, refl, true, List, [], ◌∷◌, ap, ◌∙◌, get_or, length, arith,
}
use tel.Base.Int.{pos, ltb_ℤ}
use tel.Base.Text.{Text, bytes, is_empty, trim_space}
use tel.Config.{Config}
use tel.Environment.{Environ, Outside, resolve_pod}
use tel.LogSampler.{RateSampler, new_rate_sampler}
use tel.LogSampler.Limits.{parse_level_message_limits}
use tel.LogSampler.Window.{Message, accepted, Within, accepted-le}
use tel.Logger.{
  Zerolog, LogState, set_logger, init_logger, logger_options, writer_of, with_service_fields,
  with_sampler, str_unless_empty, apply_logger_from_config,
}

-- The fields of a list that are not empty, one after the other.
abbrev pub put_filled : (z : Zerolog) → z.Logger → List (Text × Text) → z.Logger
put_filled z l [] = l
put_filled z l ((key, []) ∷ fields) = put_filled z l fields
put_filled z l ((key, x ∷ value) ∷ fields) = put_filled z (z.str l key (x ∷ value)) fields

module _ (z : Zerolog) (out : Outside) (e : Environ) where
  put_one :
      (l : z.Logger) (key value : Text)
      → str_unless_empty z l key value ≡ put_filled z l ((key, value) ∷ [])
  unfolding is_empty
  put_one l key [] = refl
  put_one l key (x ∷ value) = refl

  put_more :
      (l : z.Logger) (key value : Text) (fields : List (Text × Text))
      → put_filled z (put_filled z l ((key, value) ∷ [])) fields
        ≡ put_filled z l ((key, value) ∷ fields)
  put_more l key [] fields = refl
  put_more l key (x ∷ value) fields = refl

  put_next :
      (l : z.Logger) (key value : Text) (fields : List (Text × Text))
      → put_filled z (str_unless_empty z l key value) fields
        ≡ put_filled z l ((key, value) ∷ fields)
  put_next l key value fields =
      ap (λ l'. put_filled z l' fields) (put_one l key value) ∙ put_more l key value fields

  -- The fields that tell a service from others.
  abbrev pub service_fields : Config → List (Text × Text)
  service_fields cfg =
      (bytes "service", trim_space cfg.service)
      ∷ (bytes "pod", resolve_pod out e cfg)
      ∷ (bytes "namespace", trim_space cfg.namespace)
      ∷ (bytes "environment", trim_space cfg.environment)
      ∷ (bytes "version", trim_space cfg.version)
      ∷ []

  with_service_fields-put_filled :
      (l : z.Logger) (cfg : Config)
      → with_service_fields z out e l cfg ≡ put_filled z l (service_fields cfg)
  unfolding with_service_fields
  with_service_fields-put_filled l cfg =
      let service = trim_space cfg.service in
      let pod = resolve_pod out e cfg in
      let namespace = trim_space cfg.namespace in
      let environment = trim_space cfg.environment in
      let version = trim_space cfg.version in
      let l1 = str_unless_empty z l (bytes "service") service in
      let l2 = str_unless_empty z l1 (bytes "pod") pod in
      let l3 = str_unless_empty z l2 (bytes "namespace") namespace in
      let l4 = str_unless_empty z l3 (bytes "environment") environment in
      put_one l4 (bytes "version") version
      ∙ put_next l3 (bytes "environment") environment _
      ∙ put_next l2 (bytes "namespace") namespace _
      ∙ put_next l1 (bytes "pod") pod _
      ∙ put_next l (bytes "service") service _

  -- A configuration with a positive limit gives the process a logger with the fields of the service
  -- that are not blank, then a sampler, also as the default of a context, and of the limited messages
  -- that reach the sampler one after the other within one second at most twice the limit are let
  -- through.
  pub configured-le :
      (cfg : Config) (st : LogState z) (n t : ℕ) (ms : List Message)
      → cfg.max_messages_per_second ≡ pos n
      → 0 < n
      → Within z.debug_level z.fatal_level t ms
      → 1 + length ms < 2 ^ 64
      → let st' = apply_logger_from_config z out e cfg st in
        let fielded =
          put_filled z (z.new_logger (writer_of z (logger_options z cfg))) (service_fields cfg) in
        (s : RateSampler) × (st'.logger ≡ z.sampled fielded s)
        × (st'.default_context_logger ≡ st'.logger)
        × (accepted z.debug_level z.fatal_level s ms ≤ 2 * n)
  unfolding apply_logger_from_config set_logger init_logger with_sampler new_rate_sampler
  configured-le cfg st n t ms limit positive within small =
      let limits =
        get_or
          (parse_level_message_limits z.parse_level z.parse_uint cfg.max_level_messages_per_second)
          [] in
      let s = new_rate_sampler z.debug_level z.fatal_level cfg.max_messages_per_second limits in
      let over : ltb_ℤ (pos 0) cfg.max_messages_per_second ≡ true = ground (arith, limit) in
      let global : s.global_limit ≡ n = ground (arith, limit) in
      let few : accepted z.debug_level z.fatal_level s ms ≤ 2 * s.global_limit =
        accepted-le z.debug_level z.fatal_level t s ms within (omega (arith, global)) small in
      let fields =
        with_service_fields-put_filled (z.new_logger (writer_of z (logger_options z cfg))) cfg in
      (s, simp over (rw fields refl), refl, omega (arith, few, global))
