-- ===== src/Cardinality.antt =====
-- cardinality.go: the settings and the counters of the cardinality detector. The cache that the
-- detector points to is the cache that holds the detector; what reads it is in the child `Report`.
pub mod Report
use tel.Base.{ℕ, ◌+◌, Bool, false, Option, none, some, if◌then◌else◌}
use tel.Base.Int.{ℤ, pos, ltb_ℤ, or_default}
use tel.Base.Text.{Text}

-- defaults.go
abbrev pub default_max_cardinality : ℕ
default_max_cardinality = 100

abbrev pub default_max_instruments : ℕ
default_max_instruments = 500

-- 10 minutes, in nanoseconds
abbrev pub default_diagnostic_interval : ℕ
default_diagnostic_interval = 600_000_000_000

pub record CardinalitySettings : Type 0 where
  pub max_cardinality : ℤ
  pub max_instruments : ℤ
  pub diagnostic_interval : ℤ
  pub warn_utilization_pct : ℤ
  pub enable : Bool
  pub deny_unknown : Bool

-- The goroutine `run` and its two channels: not yet started, in its loop, or ended by `Stop`.
pub data RunState : Type 0 where
  idle running ended : RunState

pub record CardinalityDetector : Type 0 where
  pub cfg : CardinalitySettings
  pub run_state : RunState
  pub records : ℕ
  pub overflows : ℕ
  pub denied : ℕ
  pub warned : Bool

clamp_pct : ℤ → ℤ
clamp_pct p = if ltb_ℤ p (pos 0) then pos 0 else if ltb_ℤ (pos 100) p then pos 100 else p

unfoldable pub new_cardinality_detector : CardinalitySettings → CardinalityDetector
unfolding clamp_pct
new_cardinality_detector cfg = record {
  cfg = record {
    max_cardinality = pos (or_default cfg.max_cardinality default_max_cardinality);
    max_instruments = pos (or_default cfg.max_instruments default_max_instruments);
    diagnostic_interval = pos (or_default cfg.diagnostic_interval default_diagnostic_interval);
    warn_utilization_pct = clamp_pct cfg.warn_utilization_pct;
    enable = cfg.enable;
    deny_unknown = cfg.deny_unknown;
  };
  run_state = RunState.idle;
  records = 0;
  overflows = 0;
  denied = 0;
  warned = false;
}

-- `none` is the nil detector.
unfoldable pub observe_miss : Option CardinalityDetector → Text → Bool → Option CardinalityDetector
observe_miss none subject overflow = none
observe_miss (some d) subject overflow =
    if d.cfg.enable
    then some (record d {
      records = d.records + 1;
      overflows = if overflow then d.overflows + 1 else d.overflows;
    })
    else some d

unfoldable pub observe_denied : Option CardinalityDetector → Text → Option CardinalityDetector
observe_denied none subject = none
observe_denied (some d) subject =
    if d.cfg.enable then some (record d { denied = d.denied + 1 }) else some d
