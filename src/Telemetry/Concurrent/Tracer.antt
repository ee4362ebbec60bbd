-- ===== src/Telemetry/Concurrent/Tracer.antt =====
-- Which tracer provider the process has, however the steps interleave.
use tel.Base.{
  ℕ, ◌<◌, ◌≡◌, refl, sym, ap, ◌∙◌, ◌⊎◌, inl, inr, Bool, true, false, none, List, [], ◌∷◌, arith,
  if◌then◌else◌, update_self, update_ne, Bool-cases,
}
use native.Mathlib.Decide.{ℕ_discrete}
use tel.Otel.{Otel}
use tel.Base.Text.{Text}
use tel.Config.{Config}
use tel.Instruments.Registry.{Meter}
use tel.OtlpDial.{Result, ok, err}
use tel.Telemetry.{
  Provider, noop, World, Telemetry, refresh_tracer_locked, new_telemetry, allow_subjects,
}
use tel.Telemetry.Start.{
  Attempt, StartProviders, Prepared, install_propagator, init_providers, start_monitor,
  rollback_start, clear_installed, commit,
}
use tel.Telemetry.Stop.{stopped, close_held}
use tel.Telemetry.Tracing.{
  own_tracer, tracer_after, init_providers-tracer, rollback_start-tracer, close_held-tracer,
}
use tel.Telemetry.Progress.{commit_started}
use tel.Telemetry.Concurrent.{
  Place, idle, checked, clearing, built, failing, ready, losing, closing, Run, after_providers,
  after_monitor, move, Step, Reach, here, idle_run,
}

abbrev pub providers_tracer : StartProviders → Provider
providers_tracer p = if p.trace_installed then p.trace_provider else noop

-- The provider that a goroutine has installed or is about to take back.
abbrev pub place_tracer : {o : Otel} {m : Meter} → Place o m → Provider
place_tracer idle = noop
place_tracer checked = noop
place_tracer clearing = noop
place_tracer (built p) = providers_tracer p
place_tracer (failing p) = providers_tracer p
place_tracer (ready p) = providers_tracer p.providers
place_tracer (losing p) = providers_tracer p.providers
place_tracer (closing t) = own_tracer t

module _ {o : Otel} {m : Meter} where
  -- The provider is noop, the runtime's, or that of a goroutine in Start or Shutdown.
  abbrev pub Known : ℕ → Run o m → Provider → Type 0
  Known n r p =
      (p ≡ noop)
      ⊎ ((p ≡ own_tracer r.runtime) ⊎ ((i : ℕ) × (i < n) × (p ≡ place_tracer (r.place i))))

  -- What is known of the runtime and one goroutine.
  abbrev Covered : Telemetry o m → Place o m → Provider → Type 0
  Covered t q p = (p ≡ noop) ⊎ ((p ≡ own_tracer t) ⊎ (p ≡ place_tracer q))

module _ {o : Otel} {m : Meter} (meter_of : Provider → Text → m.State) where
  Known-Covered :
      (n : ℕ) (r : Run o m) (i : ℕ) (q : Place o m) (t : Telemetry o m) (w : World) (p : Provider)
      → i < n
      → Covered t q p
      → Known n (move o m meter_of r i q (t, w)) p
  Known-Covered n r i q t w p h (inl off) = inl off
  Known-Covered n r i q t w p h (inr (inl own)) = inr (inl own)
  Known-Covered n r i q t w p h (inr (inr mine)) =
      inr (inr (i, h, mine ∙ ap place_tracer (sym (update_self r.place i q))))

  -- A goroutine moves: what was known stays known, if what it and the runtime had is covered.
  Known-move :
      (n : ℕ) (r : Run o m) (i : ℕ) (q : Place o m) (t : Telemetry o m) (w : World) (p : Provider)
      → i < n
      → Covered t q (own_tracer r.runtime)
      → Covered t q (place_tracer (r.place i))
      → Known n r p
      → Known n (move o m meter_of r i q (t, w)) p
  Known-move n r i q t w p h own mine (inl off) = inl off
  Known-move n r i q t w p h own mine (inr (inl e)) =
      rw e (Known-Covered n r i q t w (own_tracer r.runtime) h own)
  Known-move n r i q t w p h own mine (inr (inr (j, lt, e))) = elim (ℕ_discrete j i) [
    | yes same ↦
        let e' : p ≡ place_tracer (r.place i) = e ∙ ap (λ k. place_tracer (r.place k)) same in
        rw e' (Known-Covered n r i q t w (place_tracer (r.place i)) h mine)
    | no other ↦ inr (inr (j, lt, e ∙ ap place_tracer (sym (update_ne r.place i q j other))))
  ]

  record IsKnown (n : ℕ) (r : Run o m) : Type 0 where
    known : Known n r r.world.tracer_provider
    stopped_off : r.runtime.started ≡ false → r.runtime.trace_installed ≡ false

  -- A goroutine moves, and the process's provider and the runtime stay.
  moved :
      {n : ℕ} (r : Run o m) (i : ℕ) (q : Place o m) (w : World)
      → i < n
      → w.tracer_provider ≡ r.world.tracer_provider
      → Covered r.runtime q (place_tracer (r.place i))
      → IsKnown n r
      → IsKnown n (move o m meter_of r i q (r.runtime, w))
  moved {n = n} r i q w h same mine v = record {
    known =
        rw same
          (Known-move n r i q r.runtime w r.world.tracer_provider h (inr (inl refl)) mine v.known);
    stopped_off = v.stopped_off;
  }

  -- A goroutine moves away from providers of its own, which it may have taken back.
  taken_back :
      {n : ℕ} (r : Run o m) (i : ℕ) (q : Place o m) (w : World) (installed : Bool) (p : Provider)
      → i < n
      → w.tracer_provider ≡ (if installed then noop else r.world.tracer_provider)
      → place_tracer (r.place i) ≡ (if installed then p else noop)
      → IsKnown n r
      → IsKnown n (move o m meter_of r i q (r.runtime, w))
  taken_back r i q w true p h same mine v = record { known = inl same; stopped_off = v.stopped_off }
  taken_back r i q w false p h same mine v = moved r i q w h same (inl mine) v

  after_build :
      {n : ℕ} (r : Run o m) (i : ℕ) (w : World) (made : Result StartProviders)
      → i < n
      → place_tracer (r.place i) ≡ noop
      → w.tracer_provider ≡ tracer_after r.world.tracer_provider made
      → IsKnown n r
      → IsKnown n (move o m meter_of r i (after_providers made) (r.runtime, w))
  after_build r i w (err e) h mine same v = moved r i idle w h same (inl mine) v
  after_build {n = n} r i w (ok p) h mine same v = elim (Bool-cases p.trace_installed) [
    | inr off ↦ moved r i (built p) w h (simp off at same) (inl mine) v
    | inl on ↦ record {
      known =
          Known-Covered n r i (built p) r.runtime w w.tracer_provider h
            (inr (inr (simp on (simp on at same))));
      stopped_off = v.stopped_off;
    }
  ]

  start_monitor-listens :
      (a : Attempt) (t : Telemetry o m) (w : World) (p : StartProviders)
      → a.listen ≡ true
      → let (t', w', r) = start_monitor o m meter_of a t w p in
        (t' ≡ t)
        × (w'.tracer_provider ≡ w.tracer_provider)
        × (place_tracer (after_monitor o m meter_of t p r) ≡ providers_tracer p)
  unfolding start_monitor
  start_monitor-listens a t w p h = elim (Bool-cases t.cfg.monitor_config.enable) [
    | inl on ↦ simp (on, h) (refl, refl, refl)
    | inr off ↦ simp off (refl, refl, refl)
  ]

  clear_installed-IsKnown :
      {n : ℕ} (r : Run o m) (i : ℕ)
      → i < n
      → place_tracer (r.place i) ≡ noop
      → IsKnown n r
      → IsKnown n (move o m meter_of r i idle (clear_installed o m meter_of r.runtime r.world))
  clear_installed-IsKnown r i h mine v = elim (Bool-cases r.runtime.trace_installed) [
    | inl on ↦ simp on (record { known = inl refl; stopped_off = λ _. refl })
    | inr off ↦ simp off (moved r i idle r.world h refl (inl mine) v)
  ]

  commit-IsKnown :
      {n : ℕ} (r : Run o m) (i : ℕ) (p : Prepared o)
      → i < n
      → r.place i ≡ ready p
      → r.runtime.started ≡ false
      → IsKnown n r
      → IsKnown n (move o m meter_of r i idle (commit o m meter_of p r.runtime r.world))
  unfolding commit refresh_tracer_locked
  commit-IsKnown {n = n} r i p h at off v =
      let (t, w) = commit o m meter_of p r.runtime r.world in
      let own : own_tracer t ≡ providers_tracer p.providers = simp off refl in
      let same : w.tracer_provider ≡ r.world.tracer_provider = ground arith in
      record {
        known = rw same (
            Known-move n r i idle t w r.world.tracer_provider h
              (inl (simp (v.stopped_off off) refl)) (inr (inl (ap place_tracer at ∙ sym own)))
              v.known);
        stopped_off = λ e. ground (arith, e, commit_started o m meter_of p r.runtime r.world);
      }

  allow_subjects-IsKnown :
      {n : ℕ} (r : Run o m) (labels : List Text)
      → IsKnown n r
      → IsKnown n (record r { runtime = allow_subjects o m meter_of r.runtime labels })
  unfolding allow_subjects
  allow_subjects-IsKnown r [] v = v
  allow_subjects-IsKnown r (l ∷ labels) v = record { known = v.known; stopped_off = v.stopped_off }

  Step-IsKnown : {n : ℕ} {r s : Run o m} → Step o m meter_of n r s → IsKnown n r → IsKnown n s
  unfolding install_propagator refresh_tracer_locked
  Step-IsKnown {r = r} (Step.checks i h at off) v =
      moved r i checked r.world h refl (inl (ap place_tracer at)) v
  Step-IsKnown {r = r} (Step.builds a i h at) v =
      let w0 = install_propagator r.world in
      let (w, made) = init_providers a r.runtime.cfg w0 in
      after_build r i w made h (ap place_tracer at) (init_providers-tracer a r.runtime.cfg w0) v
  Step-IsKnown {n = n} {r = r} (Step.monitors a i p h at listens) v =
      let (t, w, made) = start_monitor o m meter_of a r.runtime r.world p in
      let q = after_monitor o m meter_of r.runtime p made in
      let (stays, same, own) = start_monitor-listens a r.runtime r.world p listens in
      rw stays (moved r i q w h same (inr (inr (ap place_tracer at ∙ sym own))) v)
  Step-IsKnown {r = r} (Step.fails i p h at on) v =
      moved r i (failing p) r.world h refl (inr (inr (ap place_tracer at))) v
  Step-IsKnown {r = r} (Step.undoes i p h at) v =
      taken_back r i clearing (rollback_start r.world none p) p.trace_installed p.trace_provider h
        (rollback_start-tracer r.world none p) (ap place_tracer at) v
  Step-IsKnown {r = r} (Step.clears i h at) v = clear_installed-IsKnown r i h (ap place_tracer at) v
  Step-IsKnown {r = r} (Step.commits i p h at off) v = commit-IsKnown r i p h at off v
  Step-IsKnown {r = r} (Step.loses i p h at on) v =
      moved r i (losing p) r.world h refl (inr (inr (ap place_tracer at))) v
  Step-IsKnown {r = r} (Step.rolls_back i p h at) v =
      let q = p.providers in
      taken_back r i idle (rollback_start r.world p.monitor q) q.trace_installed q.trace_provider h
        (rollback_start-tracer r.world p.monitor q) (ap place_tracer at) v
  Step-IsKnown {n = n} {r = r} (Step.stops i h at on) v = record {
    known =
        Known-move n r i (closing r.runtime) (stopped o m meter_of r.runtime) r.world
          r.world.tracer_provider h (inr (inr refl)) (inl (ap place_tracer at)) v.known;
    stopped_off = λ _. refl;
  }
  Step-IsKnown {r = r} (Step.closes i old h at) v =
      taken_back r i idle (close_held o m meter_of old r.world) old.trace_installed
        old.trace_provider h (close_held-tracer meter_of old r.world) (ap place_tracer at) v
  Step-IsKnown {r = r} (Step.allows labels) v = allow_subjects-IsKnown r labels v

  idle_run-IsKnown : (n : ℕ) (cfg : Config) → IsKnown n (idle_run o m meter_of cfg)
  unfolding new_telemetry refresh_tracer_locked
  idle_run-IsKnown n cfg = record { known = inl refl; stopped_off = λ _. refl }

  Reach-IsKnown :
      (n : ℕ) (cfg : Config) {r : Run o m}
      → Reach o m meter_of n (idle_run o m meter_of cfg) r
      → IsKnown n r
  Reach-IsKnown n cfg here = idle_run-IsKnown n cfg
  Reach-IsKnown n cfg (Reach.next path st) = Step-IsKnown st (Reach-IsKnown n cfg path)

  -- However the steps interleave, the process's tracer provider is noop, the one that the runtime
  -- installed, or one that a goroutine in Start or Shutdown has yet to hand over or to take back:
  -- never one that was torn down and left behind.
  pub Reach-Known :
      (n : ℕ) (cfg : Config) {r : Run o m}
      → Reach o m meter_of n (idle_run o m meter_of cfg) r
      → Known n r r.world.tracer_provider
  Reach-Known n cfg path = (Reach-IsKnown n cfg path).known
