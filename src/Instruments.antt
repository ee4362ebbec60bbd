-- ===== src/Instruments.antt =====
-- instruments.go: the instruments of the record path, the timer and the registry.
-- `Fast` holds the bodies that the three instruments share, `Counter`, `Histogram` and `Gauge` the
-- methods of each, and `Recording` what they record.
pub mod Fast
pub mod Counter
pub mod Histogram
pub mod Gauge
pub mod Timer
pub mod Registry
pub mod Creation
pub mod Recording
