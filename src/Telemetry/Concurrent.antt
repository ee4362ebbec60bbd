-- ===== src/Telemetry/Concurrent.antt =====
-- tel.go: Starts, Shutdowns and AllowSubjects of one runtime from any number of goroutines. A step is
-- a critical section, or what a goroutine does between two of them.
pub mod Held
pub mod Tracer
use tel.Base.{ℕ, ◌<◌, ◌≡◌, true, false, Option, none, List, update}
use tel.Otel.{Otel}
use tel.Base.Text.{Text}
use tel.Config.{Config}
use tel.Instruments.Registry.{Meter}
use tel.OtlpDial.{Result, ok, err}
use tel.Telemetry.{Provider, Resource, World, Telemetry, new_telemetry, allow_subjects}
use tel.Telemetry.Start.{
  Attempt, StartProviders, Prepared, install_propagator, init_providers, start_monitor, start_cache,
  clear_installed, rollback_start, commit,
}
use tel.Telemetry.Stop.{stopped, close_held}
use tel.Telemetry.Settled.{empty_world}

-- Where a goroutine stands. In Start: past the first lock, with its providers, with a monitor that
-- cannot listen, before the lock that follows, before the second lock, or with all that it built
-- when another one won. In Shutdown: past the lock, with what the runtime held.
pub data Place (o : Otel) (m : Meter) : Type 0 where
  idle checked clearing : Place o m
  built failing : StartProviders → Place o m
  ready losing : Prepared o → Place o m
  closing : Telemetry o m → Place o m

pub record Run (o : Otel) (m : Meter) : Type 0 where
  pub runtime : Telemetry o m
  pub world : World
  pub place : ℕ → Place o m

-- Start goes on, or returns an error.
abbrev pub after_providers : {o : Otel} {m : Meter} → Result StartProviders → Place o m
after_providers (err e) = idle
after_providers (ok p) = built p

module _ (o : Otel) (m : Meter) (meter_of : Provider → Text → m.State) where
  abbrev pub after_monitor : Telemetry o m → StartProviders → Result (Option Resource) → Place o m
  after_monitor t p (err e) = idle
  after_monitor t p (ok monitor) =
      ready (record { providers = p; cache = start_cache o m meter_of t; monitor = monitor })

  -- What a goroutine does from one critical section up to the next.
  abbrev pub move : Run o m → ℕ → Place o m → Telemetry o m × World → Run o m
  move r i p (t, w) = record { runtime = t; world = w; place = update r.place i p }

  abbrev pub build : Attempt → ℕ → Run o m → Run o m
  build a i r =
      let (w, made) = init_providers a r.runtime.cfg (install_propagator r.world) in
      move r i (after_providers made) (r.runtime, w)

  abbrev pub monitor : Attempt → ℕ → StartProviders → Run o m → Run o m
  monitor a i p r =
      let (t, w, made) = start_monitor o m meter_of a r.runtime r.world p in
      move r i (after_monitor r.runtime p made) (t, w)

  -- One step of one of `n` goroutines.
  pub data Step (n : ℕ) (r : Run o m) : Run o m → Type 0 where
    checks :
        (i : ℕ)
        → i < n
        → r.place i ≡ idle
        → r.runtime.started ≡ false
        → Step n r (move r i checked (r.runtime, r.world))
    builds : (a : Attempt) (i : ℕ) → i < n → r.place i ≡ checked → Step n r (build a i r)
    monitors :
        (a : Attempt) (i : ℕ) (p : StartProviders)
        → i < n
        → r.place i ≡ built p
        → a.listen ≡ true
        → Step n r (monitor a i p r)
    fails :
        (i : ℕ) (p : StartProviders)
        → i < n
        → r.place i ≡ built p
        → r.runtime.cfg.monitor_config.enable ≡ true
        → Step n r (move r i (failing p) (r.runtime, r.world))
    undoes :
        (i : ℕ) (p : StartProviders)
        → i < n
        → r.place i ≡ failing p
        → Step n r (move r i clearing (r.runtime, rollback_start r.world none p))
    clears :
        (i : ℕ)
        → i < n
        → r.place i ≡ clearing
        → Step n r (move r i idle (clear_installed o m meter_of r.runtime r.world))
    commits :
        (i : ℕ) (p : Prepared o)
        → i < n
        → r.place i ≡ ready p
        → r.runtime.started ≡ false
        → Step n r (move r i idle (commit o m meter_of p r.runtime r.world))
    loses :
        (i : ℕ) (p : Prepared o)
        → i < n
        → r.place i ≡ ready p
        → r.runtime.started ≡ true
        → Step n r (move r i (losing p) (r.runtime, r.world))
    rolls_back :
        (i : ℕ) (p : Prepared o)
        → i < n
        → r.place i ≡ losing p
        → Step n r (move r i idle (r.runtime, rollback_start r.world p.monitor p.providers))
    stops :
        (i : ℕ)
        → i < n
        → r.place i ≡ idle
        → r.runtime.started ≡ true
        → Step n r (move r i (closing r.runtime) (stopped o m meter_of r.runtime, r.world))
    closes :
        (i : ℕ) (old : Telemetry o m)
        → i < n
        → r.place i ≡ closing old
        → Step n r (move r i idle (r.runtime, close_held o m meter_of old r.world))
    allows :
        (labels : List Text)
        → Step n r (record r { runtime = allow_subjects o m meter_of r.runtime labels })

  pub data Reach (n : ℕ) (r : Run o m) : Run o m → Type 0 where
    here : Reach n r r
    next : {s t : Run o m} → Reach n r s → Step n s t → Reach n r t

  -- A new runtime, and no goroutine in Start.
  abbrev pub idle_run : Config → Run o m
  idle_run cfg = record {
    runtime = new_telemetry o m meter_of cfg;
    world = empty_world;
    place = λ _. idle;
  }
