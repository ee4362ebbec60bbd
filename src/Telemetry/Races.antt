-- ===== src/Telemetry/Races.antt =====
-- tel.go: what happens to a Start when other calls come between its two critical sections, where
-- the lock is free: commit then runs on the runtime that those calls left.
use tel.Base.{ℕ, ◌+◌, ◌≡◌, true, arith}
use tel.Otel.{Otel}
use tel.Base.Text.{Text}
use tel.Instruments.Registry.{Meter}
use tel.OtlpDial.{ok}
use tel.Telemetry.{Provider, noop, Resource, World, Telemetry}
use tel.Telemetry.Start.{Prepared, commit}
use tel.Telemetry.Balance.{weigh, prepared_weight, rollback_start-closes}
use tel.Telemetry.Tracing.{rollback_start-tracer}

module _ (o : Otel) (m : Meter) (meter_of : Provider → Text → m.State) where
  -- A Start that finds, at its second lock, that another one won leaves the runtime as the winner
  -- made it and closes all that it built itself, but it also makes noop the process's tracer
  -- provider when it had traces: a winner with traces stays marked as installed and is not.
  pub commit_lost :
      (f : Resource → ℕ) (p : Prepared o) (t : Telemetry o m) (w : World)
      → t.started ≡ true
      → t.trace_installed ≡ true
      → p.providers.trace_installed ≡ true
      → let (t', w') = commit o m meter_of p t w in
        (t' ≡ t)
        × (weigh f w'.closed ≡ weigh f w.closed + prepared_weight f (ok p))
        × (weigh f w'.opened ≡ weigh f w.opened)
        × (w'.tracer_provider ≡ noop)
        × (t'.trace_installed ≡ true)
  unfolding commit
  commit_lost f p t w on installed traces = ground (
    arith,
    rollback_start-closes f w p.monitor p.providers,
    rollback_start-tracer w p.monitor p.providers,
  )
