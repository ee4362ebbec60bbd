-- ===== src/Cardinality/Report.antt =====
-- cardinality.go: what the detector does with the cache that it is wired into: the periodic report,
-- the snapshot for /stats, and the start and the end of its goroutine. The detector's cache is `c`,
-- and `c.detector` is the detector.
use tel.Base.{
  ℕ, ◌*◌, ◌/◌, ◌≤◌, ◌<◌, ◌≡◌, refl, Bool, true, false, not, ◌&&◌, ◌||◌, Option, none, some, List,
  [], ◌∷◌, ◌++◌, if◌then◌else◌, arith, inl, inr, length, Bool-cases,
}
use tel.Base.Int.{ℤ, pos, leb_ℤ, ltb_ℤ, pos_part}
use tel.Base.Text.{Text}
use tel.Otel.{Otel}
use tel.Cardinality.{
  CardinalityDetector, CardinalitySettings, idle, running, ended, new_cardinality_detector,
  observe_miss,
}
use tel.Metric.{AttrCache}
use tel.Metric.Entries.{len, subjects}
use tel.Metric.Invariant.{IsValid}
use tel.Metric.Subjects.{subjects-cached}

-- `Start`, for a detector or nil: its goroutine enters the loop.
unfoldable pub start_detector : Option CardinalityDetector → Option CardinalityDetector
start_detector none = none
start_detector (some d) =
    if not d.cfg.enable then some d else some (record d { run_state = running })

-- What `Stop` does: it returns, waits for a goroutine that was never started, or panics as it
-- closes `stopCh` again.
pub data Stopped : Type 0 where
  returned : Option CardinalityDetector → Stopped
  waits_forever : Stopped
  panics : Stopped

unfoldable pub stop_detector : Option CardinalityDetector → Stopped
stop_detector none = returned none
stop_detector (some d) = if not d.cfg.enable then returned (some d) else elim d.run_state [
  | idle ↦ waits_forever
  | running ↦ returned (some (record d { run_state = ended }))
  | ended ↦ panics
]

-- A warning of `report`, with its fields.
pub data Warning : Type 0 where
  utilization_high :
      (cache_entries : ℕ) (max_cardinality : ℤ) (utilization_pct : ℕ) (warn_pct : ℤ)
      (miss_events overflow_events : ℕ)
      → Warning
  limit_reached : (cache_entries : ℕ) (max_cardinality : ℤ) (records overflow_events : ℕ) → Warning

-- The quotient is of a number that is not negative by one that is positive.
abbrev pub utilization : ℕ → ℤ → ℕ
utilization entries max_card = (entries * 100) / pos_part max_card

unfoldable pub report : CardinalityDetector → ℕ → CardinalityDetector × List Warning
report d cache_len =
    let max_card = d.cfg.max_cardinality in
    let util_pct = utilization cache_len max_card in
    let high =
      ltb_ℤ (pos 0) d.cfg.warn_utilization_pct
      && ltb_ℤ (pos 0) max_card
      && leb_ℤ d.cfg.warn_utilization_pct (pos util_pct) in
    (
      if high then record d { warned = true } else d,
      (if high
            then utilization_high cache_len max_card util_pct d.cfg.warn_utilization_pct d.records
                d.overflows
              ∷ []
            else [])
          ++ (if leb_ℤ max_card (pos cache_len)
              then limit_reached cache_len max_card d.records d.overflows ∷ []
              else []),
    )

pub record CardinalitySnapshot : Type 0 where
  pub miss_events : ℕ
  pub overflow_events : ℕ
  pub denied_events : ℕ
  pub subject_names : List Text
  pub cache_entries : ℕ
  pub max_cardinality : ℤ
  pub utilization_pct : ℕ
  pub warn_utilization_pct : ℤ
  pub instruments : ℕ
  pub max_instruments : ℕ
  pub deny_unknown : Bool

abbrev pub empty_snapshot : ℕ → ℕ → CardinalitySnapshot
empty_snapshot instruments max_instruments = record {
  miss_events = 0;
  overflow_events = 0;
  denied_events = 0;
  subject_names = [];
  cache_entries = 0;
  max_cardinality = pos 0;
  utilization_pct = 0;
  warn_utilization_pct = pos 0;
  instruments = instruments;
  max_instruments = max_instruments;
  deny_unknown = false;
}

-- `Denied`, of a detector or nil.
unfoldable pub denied_count : Option CardinalityDetector → ℕ
denied_count none = 0
denied_count (some d) = d.denied

percent_bounded : (n m : ℕ) → n ≤ m → 0 < m → (n * 100) / m ≤ 100
percent_bounded n m h p = grind arith

percent_or_zero :
    (n m : ℕ) → n ≤ m → (if ltb_ℤ (pos 0) (pos m) then utilization n (pos m) else 0) ≤ 100
percent_or_zero n m h = ground (arith, percent_bounded n m)

module _ (o : Otel) where
  -- `Observe`, of a detector with a cache.
  unfoldable pub observe : AttrCache o → CardinalityDetector → Text → Option CardinalityDetector
  observe c d subject = observe_miss (some d) subject (leb_ℤ d.cfg.max_cardinality (pos (len o c)))

  -- `Snapshot`; the first argument is the detector's cache, or nil.
  unfoldable pub snapshot :
      Option (AttrCache o) → Option CardinalityDetector → ℕ → ℕ → CardinalitySnapshot
  snapshot c none instruments max_instruments = empty_snapshot instruments max_instruments
  snapshot c (some d) instruments max_instruments =
      let cache_len : ℕ = elim c [ none ↦ 0 | some cache ↦ len o cache ] in
      let deny : Bool = elim c [ none ↦ false | some cache ↦ cache.deny_unknown ] in
      record {
        miss_events = d.records;
        overflow_events = d.overflows;
        denied_events = d.denied;
        subject_names = elim c [ none ↦ [] | some cache ↦ subjects o cache ];
        cache_entries = cache_len;
        max_cardinality = d.cfg.max_cardinality;
        utilization_pct =
            if ltb_ℤ (pos 0) d.cfg.max_cardinality
            then utilization cache_len d.cfg.max_cardinality
            else 0;
        warn_utilization_pct = d.cfg.warn_utilization_pct;
        instruments = instruments;
        max_instruments = max_instruments;
        deny_unknown = d.cfg.deny_unknown || deny;
      }

  -- The snapshot of a detector whose limit is that of its cache: at most 100 percent, the
  -- cache's own `Len` and limit, and as many subjects as entries.
  pub snapshot_bounds :
      (c : AttrCache o) (d : CardinalityDetector) (instruments max_instruments : ℕ)
      → IsValid o c
      → d.cfg.max_cardinality ≡ pos c.max_entries
      → let s = snapshot (some c) (some d) instruments max_instruments in
        (s.utilization_pct ≤ 100)
        × (s.cache_entries ≡ len o c)
        × (s.max_cardinality ≡ pos c.max_entries)
        × (length s.subject_names ≡ s.cache_entries)
  unfolding snapshot len
  snapshot_bounds c d instruments max_instruments v e =
      (rw e (percent_or_zero c.size c.max_entries v.bounded), refl, e, (subjects-cached o c v).0)

-- What a new detector makes of any settings: positive limits and interval, a percentage between 0
-- and 100, and the two flags as they are.
pub new_cardinality_detector_bounds :
    (cfg : CardinalitySettings)
    → let d = new_cardinality_detector cfg in
      (0 < pos_part d.cfg.max_cardinality)
      × (0 < pos_part d.cfg.max_instruments)
      × (0 < pos_part d.cfg.diagnostic_interval)
      × (leb_ℤ (pos 0) d.cfg.warn_utilization_pct ≡ true)
      × (leb_ℤ d.cfg.warn_utilization_pct (pos 100) ≡ true)
      × (d.cfg.enable ≡ cfg.enable)
      × (d.cfg.deny_unknown ≡ cfg.deny_unknown)
unfolding new_cardinality_detector
new_cardinality_detector_bounds cfg = ground arith

-- A started detector's `Stop` returns at once the first time, and never panics or waits.
pub stop_detector-start_detector :
    (d : CardinalityDetector)
    → d.run_state ≡ idle
    → (d' : Option CardinalityDetector) × (stop_detector (start_detector (some d)) ≡ returned d')
unfolding start_detector stop_detector
stop_detector-start_detector d h = elim (Bool-cases d.cfg.enable) [
  | inl on ↦ (some (record d { run_state = ended }), ground arith)
  | inr off ↦ (some d, ground arith)
]
