-- ===== src/Telemetry/Concurrent/Held.antt =====
-- No resource is lost, however the steps interleave.
use tel.Base.{
  ℕ, ◌+◌, ◌<◌, ◌≡◌, refl, sym, ap, ◌∙◌, ◌⊎◌, inl, inr, true, false, Option, none, List, [], ◌∷◌,
  arith, update, update_self, update_ne, sum_below, sum_below-change, sum_below-zero, Bool-cases,
}
use tel.Otel.{Otel}
use tel.Base.Text.{Text}
use tel.Config.{Config}
use tel.Instruments.Registry.{Meter}
use tel.OtlpDial.{Result, ok, err}
use tel.Telemetry.{
  Provider, Resource, World, Telemetry, refresh_tracer_locked, new_telemetry, allow_subjects,
}
use tel.Telemetry.Start.{
  StartProviders, install_propagator, init_providers, start_monitor, clear_installed,
}
use tel.Telemetry.Balance.{
  weigh, held_weight, providers_weight, prepared_weight, providers_result, monitor_result,
  init_providers-Opens, start_monitor-Opens, rollback_start-closes,
}
use tel.Telemetry.Progress.{commit_started}
use tel.Telemetry.Settled.{commit-balanced, close_held-closes}
use tel.Telemetry.Concurrent.{
  Place, idle, checked, clearing, built, failing, ready, losing, closing, Run, after_providers,
  after_monitor, Step, Reach, here, idle_run,
}

-- What a goroutine has built for itself.
abbrev pub place_weight : {o : Otel} {m : Meter} → (Resource → ℕ) → Place o m → ℕ
place_weight f idle = 0
place_weight f checked = 0
place_weight f (built p) = providers_weight f p
place_weight f (ready p) = prepared_weight f (ok p)
place_weight f (losing p) = prepared_weight f (ok p)
place_weight f clearing = 0
place_weight f (failing p) = providers_weight f p
place_weight f (closing t) = held_weight f t

abbrev pub in_flight : {o : Otel} {m : Meter} → (Resource → ℕ) → ℕ → Run o m → ℕ
in_flight f n r = sum_below n (λ i. place_weight f (r.place i))

after_providers_weight :
    (o : Otel) (m : Meter) (f : Resource → ℕ) (r : Result StartProviders)
    → place_weight f (after_providers {o = o} {m = m} r) ≡ providers_result f r
after_providers_weight o m f (err e) = refl
after_providers_weight o m f (ok p) = refl

module _ {o : Otel} {m : Meter} (f : Resource → ℕ) where
  in_flight-update :
      (n : ℕ) (place : ℕ → Place o m) (i : ℕ) (p : Place o m)
      → i < n
      → sum_below n (λ j. place_weight f (update place i p j)) + place_weight f (place i)
        ≡ sum_below n (λ j. place_weight f (place j)) + place_weight f p
  in_flight-update n place i p h = omega (
    arith,
    sum_below-change n i (λ j. place_weight f (place j)) (λ j. place_weight f (update place i p j))
        h (λ j ne. ap (place_weight f) (sym (update_ne place i p j ne))),
    ap (place_weight f) (update_self place i p),
  )

module _ {o : Otel} {m : Meter} (meter_of : Provider → Text → m.State) (f : Resource → ℕ) where
  after_monitor_weight :
      (t : Telemetry o m) (p : StartProviders) (r : Result (Option Resource))
      → place_weight f (after_monitor o m meter_of t p r) ≡ monitor_result f p r
  after_monitor_weight t p (err e) = refl
  after_monitor_weight t p (ok monitor) = refl

  record IsBalanced (n : ℕ) (r : Run o m) : Type 0 where
    balanced :
        weigh f r.world.opened ≡ weigh f r.world.closed + held_weight f r.runtime + in_flight f n r
    stopped : r.runtime.started ≡ false → held_weight f r.runtime ≡ 0

  clear_installed-held :
      (t : Telemetry o m) (w : World)
      → let (t', w') = clear_installed o m meter_of t w in
        (held_weight f t' ≡ held_weight f t)
        × (t'.started ≡ t.started)
        × (w'.opened ≡ w.opened)
        × (w'.closed ≡ w.closed)
  clear_installed-held t w = ground arith

  -- A goroutine moves and nothing is opened or closed, and the runtime stays.
  moved :
      {n : ℕ} (r : Run o m) (i : ℕ) (p : Place o m)
      → i < n
      → place_weight f p ≡ place_weight f (r.place i)
      → IsBalanced n r
      → IsBalanced n (record r { place = update r.place i p })
  moved {n = n} r i p h same v = record {
    balanced = omega (arith, v.balanced, in_flight-update f n r.place i p h, same);
    stopped = v.stopped;
  }

  allow_subjects-held :
      (t : Telemetry o m) (labels : List Text)
      → (held_weight f (allow_subjects o m meter_of t labels) ≡ held_weight f t)
        × ((allow_subjects o m meter_of t labels).started ≡ t.started)
  unfolding allow_subjects
  allow_subjects-held t [] = (refl, refl)
  allow_subjects-held t (l ∷ labels) = (refl, refl)

  Step-IsBalanced :
      {n : ℕ} {r s : Run o m} → Step o m meter_of n r s → IsBalanced n r → IsBalanced n s
  unfolding install_propagator refresh_tracer_locked
  Step-IsBalanced {r = r} (Step.checks i h at off) v =
      moved r i checked h (sym (ap (place_weight f) at)) v
  Step-IsBalanced {n = n} {r = r} (Step.builds a i h at) v =
      let (w, made) = init_providers a r.runtime.cfg (install_propagator r.world) in
      record {
        balanced = omega (
          arith,
          v.balanced,
          init_providers-Opens f a r.runtime.cfg (install_propagator r.world),
          after_providers_weight o m f made,
          in_flight-update f n r.place i (after_providers made) h,
          ap (place_weight f) at,
        );
        stopped = v.stopped;
      }
  Step-IsBalanced {n = n} {r = r} (Step.monitors a i p h at listens) v =
      let (t, w, made) = start_monitor o m meter_of a r.runtime r.world p in
      let (opens, held, started, cfg) = start_monitor-Opens meter_of f a r.runtime r.world p in
      record {
        balanced = omega (
          arith,
          v.balanced,
          opens,
          held,
          after_monitor_weight r.runtime p made,
          in_flight-update f n r.place i (after_monitor o m meter_of r.runtime p made) h,
          ap (place_weight f) at,
        );
        stopped = λ off. held ∙ v.stopped (sym started ∙ off);
      }
  Step-IsBalanced {n = n} {r = r} (Step.commits i p h at off) v =
      let moves = in_flight-update f n r.place i idle h in
      let mine = ap (place_weight f) at in
      let rest = sum_below n (λ j. place_weight f (update r.place i idle j)) in
      record {
        balanced =
            commit-balanced meter_of f rest p r.runtime r.world
              (omega (arith, v.balanced, moves, mine)) v.stopped;
        stopped = λ off. ground (arith, off, commit_started o m meter_of p r.runtime r.world);
      }
  Step-IsBalanced {r = r} (Step.fails i p h at on) v =
      moved r i (failing p) h (sym (ap (place_weight f) at)) v
  Step-IsBalanced {n = n} {r = r} (Step.undoes i p h at) v = record {
    balanced = omega (
      arith,
      v.balanced,
      rollback_start-closes f r.world none p,
      ap (weigh f) (rollback_start-closes f r.world none p).1,
      in_flight-update f n r.place i clearing h,
      ap (place_weight f) at,
    );
    stopped = v.stopped;
  }
  Step-IsBalanced {n = n} {r = r} (Step.clears i h at) v =
      let (held, started, opened, closed) = clear_installed-held r.runtime r.world in
      record {
        balanced = omega (
          arith,
          v.balanced,
          held,
          ap (weigh f) opened,
          ap (weigh f) closed,
          in_flight-update f n r.place i idle h,
          ap (place_weight f) at,
        );
        stopped = λ off. held ∙ v.stopped (sym started ∙ off);
      }
  Step-IsBalanced {r = r} (Step.loses i p h at on) v =
      moved r i (losing p) h (sym (ap (place_weight f) at)) v
  Step-IsBalanced {n = n} {r = r} (Step.rolls_back i p h at) v = record {
    balanced = omega (
      arith,
      v.balanced,
      rollback_start-closes f r.world p.monitor p.providers,
      ap (weigh f) (rollback_start-closes f r.world p.monitor p.providers).1,
      in_flight-update f n r.place i idle h,
      ap (place_weight f) at,
    );
    stopped = v.stopped;
  }
  Step-IsBalanced {n = n} {r = r} (Step.stops i h at on) v = record {
    balanced = omega (
      arith,
      v.balanced,
      in_flight-update f n r.place i (closing r.runtime) h,
      ap (place_weight f) at,
    );
    stopped = λ off. refl;
  }
  Step-IsBalanced {n = n} {r = r} (Step.closes i old h at) v = record {
    balanced = omega (
      arith,
      v.balanced,
      close_held-closes meter_of f old r.world,
      ap (weigh f) (close_held-closes meter_of f old r.world).1,
      in_flight-update f n r.place i idle h,
      ap (place_weight f) at,
    );
    stopped = v.stopped;
  }
  Step-IsBalanced {n = n} {r = r} (Step.allows labels) v =
      let (held, started) = allow_subjects-held r.runtime labels in
      record {
        balanced = omega (arith, v.balanced, held);
        stopped = λ off. held ∙ v.stopped (sym started ∙ off);
      }

  idle_run-IsBalanced : (n : ℕ) (cfg : Config) → IsBalanced n (idle_run o m meter_of cfg)
  unfolding new_telemetry refresh_tracer_locked weigh
  idle_run-IsBalanced n cfg = record {
    balanced = omega (arith, sum_below-zero n);
    stopped = λ off. refl;
  }

  Reach-IsBalanced :
      (n : ℕ) (cfg : Config) {r : Run o m}
      → Reach o m meter_of n (idle_run o m meter_of cfg) r
      → IsBalanced n r
  Reach-IsBalanced n cfg here = idle_run-IsBalanced n cfg
  Reach-IsBalanced n cfg (Reach.next path st) = Step-IsBalanced st (Reach-IsBalanced n cfg path)

  -- However the Starts, Shutdowns and AllowSubjects of `n` goroutines interleave and whichever of
  -- their parts fail: all that was opened was closed, as often, or is held by the runtime or by a
  -- Start or Shutdown that is under way, and the runtime is started or holds nothing.
  pub Reach-held :
      (n : ℕ) (cfg : Config) {r : Run o m}
      → Reach o m meter_of n (idle_run o m meter_of cfg) r
      → (weigh f r.world.opened
          ≡ weigh f r.world.closed + held_weight f r.runtime + in_flight f n r)
        × ((r.runtime.started ≡ true) ⊎ (held_weight f r.runtime ≡ 0))
  Reach-held n cfg {r = r} path =
      let v = Reach-IsBalanced n cfg path in
      elim (Bool-cases r.runtime.started) [
        | inl on ↦ (v.balanced, inl on)
        | inr off ↦ (v.balanced, inr (v.stopped off))
      ]
