-- ===== src/Tests.antt =====
-- The theorems at concrete inputs, and runs of the model.
mod Setting
mod CacheRuns
mod InstrumentRuns
mod LifecycleRuns
mod StartRuns
mod ConcurrentRuns
mod SamplerRuns
mod TraceSamplerRuns
mod HeaderRuns
mod Surroundings
mod EnvironmentRuns
mod LimitRuns
mod LoggerRuns
mod FasthttpRuns
mod InitRuns
mod ExampleRuns
mod RoundTripRuns
