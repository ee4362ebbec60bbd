-- ===== src/Lib.antt =====
-- A model of tel, a Go library of metrics, traces and logs over OpenTelemetry, and what makes it
-- correct.
--
-- The parts and how they meet. A process holds a runtime (tel.go), which Start takes from stopped to
-- started and Shutdown back. The runtime owns a registry of instruments (instruments.go); the
-- instruments share one attribute cache (metric.go), which interns label texts under a limit, and a
-- cardinality detector (cardinality.go) counts what the cache misses, overflows and denies. An
-- instrument carries the epoch of its registry and records only while the runtime has that epoch.
-- Around the runtime stand the configuration (config_env.go, config_env_gen.go), which the process's
-- environment gives, the logger (zlog.go), which the configuration sets, with the fields of the service
-- and a sampler (log_sampler.go) that caps the messages of a second, and the middleware for fasthttp,
-- which makes a span and a log line of each request. Init reads the configuration, sets the logger and
-- starts the runtime that it makes global.
--
-- The files.
-- - Base: numbers, texts as lists of bytes, integers of machine size by their sign, lists,
--   association maps, and the lemmas that the parts share.
-- - Otel: what OpenTelemetry gives the cache: attribute sets and options, as parameters.
-- - Cardinality (cardinality.go): the detector. newCardinalityDetector is `new_cardinality_detector`,
--   ObserveMiss `observe_miss`, ObserveDenied `observe_denied`. Cardinality.Report has Start, Stop,
--   Observe, `report` and CardinalitySnapshot.
-- - Metric (metric.go): AttrCache. `allow`, `is_allowed`, `note_denied` and the setters stand in
--   Metric; Metric.Keys has duoKey, trioKey and the hash, Metric.Shards the shards, Metric.Entries
--   entry, entry2, entry3, reserveSlot, lookup, lookup2, lookup3, Len and Subjects. The three
--   families are one definition over a key of one, two or three labels. Metric.Invariant, Preserve,
--   Refine, Deny, Account, History and Subjects prove; Metric.Reserve has the swap loop of
--   reserveSlot as a step relation between callers, and Metric.Rounds bounds it.
-- - Instruments (instruments.go): Instruments.Fast has the body that counter, histogram and gauge
--   share, Counter, Histogram and Gauge their methods, Timer the timer, Registry getOrCreate and the
--   constructors. Creation and Recording prove.
-- - LogSampler (log_sampler.go): RateSampler, with one caller at a time; LogSampler.Window proves. LogSampler.Limits has
--   parseLevelMessageLimits. LogSampler.Race has inc as atomic operations that callers interleave,
--   with Crowd for many callers and Alone for one; LogSampler.Order proves of NewRateSampler.
-- - Sampler (sampler.go): the trace sampler's decision and the reading of its text; Sampler.Errors,
--   Fraction and Case prove.
-- - Headers (trace.go): the header carrier, InjectContext and ExtractContext, with the arrays that
--   its slices point into; Headers.Cells and Headers.Sharing prove.
-- - CtxFields (ctx_fields.go): the log fields of a context.
-- - Config (model.go, and DefaultConfig and DefaultDebugConfig of tel.go).
-- - OtlpDial (otlp_dial.go, tlsConfigFromRaw and the exporter options of provider.go and
--   trace_provider.go).
-- - Telemetry (tel.go, NewWithProviders of trace.go): the runtime. Telemetry.Start has Start in its
--   two critical sections, `prepare` and `commit`, with initProviders, startMonitor and
--   rollbackStart; Telemetry.Stop has Shutdown, with its critical section `stopped` and what follows
--   the lock, `close_held`. Balance and Tracing follow what is opened and installed through one
--   call, Settled through any calls; Lifecycle, Epochs, Races and Allowed prove.
--   Telemetry.Stats has CardinalityStats, Registry and Meter; StartedCache and Watched follow the cache
--   from Start to the snapshot, and Progress has the case in which Start succeeds.
--   Telemetry.Concurrent interleaves the critical sections of many goroutines and what they do between
--   them; its Held follows what is open, its Tracer the process's tracer provider. Telemetry.Traced
--   has Tracer and StartSpan.
-- - Environment (config_env.go, resolvePod of zlog.go): envString and its like, applyNestedEnv.
--   Environment.Load has loadConfig (config_env_gen.go) and GetConfigFromEnv, loadDotEnv;
--   Environment.Schema configAuditSchema; Audit, Service and Defaults prove. Written says how a
--   configuration is written as variables, and RoundTrip that it is read back; Reload has the loads,
--   reloads and audits.
-- - Spans (trace.go): EndSpan, as the calls of a span; Spans.Messaging the messaging attributes.
-- - Logger (zlog.go, zlog_fields.go): InitLogger, applyLoggerFromConfig, withServiceFields. Logger.Stack
--   has the stack of a logged error and its printing; Logger.Events the loggers of a context, Fatal,
--   Duration, TraceFunc and the indented writer; Logger.Shorthands the package's first state and the
--   functions that open an event; Logger.Configured proves.
-- - Fasthttp (middleware/fasthttp): Server with its options, and Recover; Fasthttp.Carrier has the carrier
--   of the request headers; Fasthttp.Handled proves.
-- - Export (provider.go): the export interval, the resource's attributes, the bucket views, and the
--   options that newMeterProvider hands to the SDK.
-- - Monitor (monitor.go): the monitor server and its handlers.
-- - Init (config_env.go; Global, SetGlobal and FromCtx of tel.go): Init and InitWithConfig;
--   Init.Started proves.
-- - Example (examples/basic/main.go): the loop, as the turns that its select meets; Example.Main the
--   program from Init to the deferred shutdown. Example.Expected says what is to be recorded;
--   Unguarded, Subjects, Ticks and Stops prove of the loop, Created of its instruments, Running and
--   Finished of the whole.
-- - Tests: the theorems at concrete inputs.
--
-- State is passed and returned. A method under a lock is one function; a method that reads, unlocks
-- and locks again is in as many functions as it has critical sections where a property depends on
-- it. A nil pointer is `none`. An error is its case of a data type, and the log lines are results
-- where they are modelled. The outside, which is the OpenTelemetry SDK, zerolog, net/http, fasthttp, the
-- environment's parsers, the clock, certificates and listening, enters as parameters and answers.
--
-- Bounds. uint64 and uint32 wrap by `% 2 ^ 64` and `% 2 ^ 32`; int is a sign and a natural number
-- without wrap-around, since the program only compares, doubles and takes the hundredfold of small
-- counts; where the interval of the exports is multiplied, it wraps. No definition needs fuel: every
-- loop runs over a list or a number of shards.
--
-- Not modelled: what only hands values to another package: the descriptions of the samplers, Inject
-- and Extract; the conversions between strings and bytes, which are one type here; the writing of
-- log lines, which is zerolog's; the prints of the example; the benchmarks.

pub mod Base
pub mod Otel
pub mod LogSampler
pub mod Sampler
pub mod Headers
pub mod CtxFields
pub mod Cardinality
pub mod Metric
pub mod Config
pub mod Environment
pub mod Spans
pub mod Logger
pub mod Fasthttp
pub mod Export
pub mod OtlpDial
pub mod Instruments
pub mod Telemetry
pub mod Monitor
pub mod Init
pub mod Example
mod Tests
