-- ===== src/Telemetry/Settled.antt =====
-- tel.go: what holds of a runtime and the world between calls, however they succeed or fail.
use tel.Base.{ℕ, ◌+◌, ◌≡◌, refl, ◌∙◌, true, false, List, [], ◌∷◌, arith, inl, inr, Bool-cases}
use tel.Otel.{Otel}
use tel.Instruments.Registry.{Meter}
use tel.Config.{Config}
use tel.OtlpDial.{Result, ok, err}
use tel.Base.Text.{Text}
use tel.Telemetry.{
  Provider, noop, Resource, World, Telemetry, refresh_tracer_locked, new_telemetry, allow_subjects,
}
use tel.Telemetry.Start.{
  Attempt, Prepared, call_shutdown, close_option, with_prepared, prepare, commit, start,
}
use tel.Telemetry.Stop.{Answers, close_held, shutdown}
use tel.Telemetry.Balance.{
  weigh, weigh_snoc, held_weight, prepared_weight, Prepares, call_shutdown-closes,
  close_option-closes, rollback_start-closes, prepare-Prepares,
}
use tel.Telemetry.Tracing.{own_tracer, tracer_prepared, Installs, prepare-Installs, shutdown-tracer}

-- All that was opened was closed or is held by the runtime, a stopped runtime holds nothing, and the
-- process's tracer provider is the runtime's, or noop.
pub record IsSettled (o : Otel) (m : Meter) (t : Telemetry o m) (w : World) : Type 0 where
  pub balanced : (f : Resource → ℕ) → weigh f w.opened ≡ weigh f w.closed + held_weight f t
  pub stopped_holds_nothing : t.started ≡ false → (f : Resource → ℕ) → held_weight f t ≡ 0
  pub stopped_installs_nothing : t.started ≡ false → t.trace_installed ≡ false
  pub tracer : w.tracer_provider ≡ own_tracer t

-- The calls of a process, one after the other.
pub data Call : Type 0 where
  start_with : Attempt → Call
  shutdown_with : Answers → Call
  allow_labels : List Text → Call

abbrev pub empty_world : World
empty_world = record {
  tracer_provider = noop;
  propagator_installed = false;
  best_speed = false;
  fresh = 0;
  opened = [];
  closed = [];
}

module _ (o : Otel) (m : Meter) (meter_of : Provider → Text → m.State) where
  abbrev pub call : Call → Telemetry o m × World → Telemetry o m × World
  call (start_with a) (t, w) = (let (t', w', result) = start o m meter_of a t w in (t', w'))
  call (shutdown_with a) (t, w) = (let (t', w', errors) = shutdown o m meter_of a t w in (t', w'))
  call (allow_labels labels) (t, w) = (allow_subjects o m meter_of t labels, w)

  unfoldable pub calls : List Call → Telemetry o m × World → Telemetry o m × World
  calls [] s = s
  calls (c ∷ cs) s = calls cs (call c s)

module _ {o : Otel} {m : Meter} (meter_of : Provider → Text → m.State) where
  -- `k` is what others have open.
  pub commit-balanced :
      (f : Resource → ℕ) (k : ℕ) (p : Prepared o) (t : Telemetry o m) (w : World)
      → weigh f w.opened ≡ weigh f w.closed + held_weight f t + prepared_weight f (ok p) + k
      → (t.started ≡ false → held_weight f t ≡ 0)
      → let (t', w') = commit o m meter_of p t w in
        weigh f w'.opened ≡ weigh f w'.closed + held_weight f t' + k
  unfolding commit refresh_tracer_locked
  commit-balanced f k p t w h stopped = ground (
    arith,
    weigh_snoc f w.opened (Resource.detector_loop w.fresh),
    rollback_start-closes f w p.monitor p.providers,
  )

  pub close_held-closes :
      (f : Resource → ℕ) (t : Telemetry o m) (w : World)
      → let w' = close_held o m meter_of t w in
        (weigh f w'.closed ≡ weigh f w.closed + held_weight f t) × (w'.opened ≡ w.opened)
  unfolding close_held
  close_held-closes f t w =
      let w1 = close_option w t.cardinality in
      let w2 = call_shutdown w1 t.shutdown_fn in
      let w3 = call_shutdown w2 t.trace_shutdown in
      ground (
        arith,
        close_option-closes f w t.cardinality,
        call_shutdown-closes f w1 t.shutdown_fn,
        call_shutdown-closes f w2 t.trace_shutdown,
        close_option-closes f w3 t.monitor,
      )

  shutdown-balanced :
      (f : Resource → ℕ) (a : Answers) (t : Telemetry o m) (w : World)
      → weigh f w.opened ≡ weigh f w.closed + held_weight f t
      → let (t', w', errors) = shutdown o m meter_of a t w in
        weigh f w'.opened ≡ weigh f w'.closed + held_weight f t'
  unfolding shutdown refresh_tracer_locked
  shutdown-balanced f a t w h = ground (arith, close_held-closes f t w)

  commit-starts :
      (p : Prepared o) (t : Telemetry o m) (w : World)
      → t.started ≡ false
      → w.tracer_provider ≡ tracer_prepared (ok p)
      → let (t', w') = commit o m meter_of p t w in
        (t'.started ≡ true) × (w'.tracer_provider ≡ own_tracer t')
  unfolding commit refresh_tracer_locked
  commit-starts p t w stopped tracer = ground arith

  commit-IsSettled :
      (p : Prepared o) (t : Telemetry o m) (w : World)
      → ((f : Resource → ℕ)
          → weigh f w.opened ≡ weigh f w.closed + held_weight f t + prepared_weight f (ok p))
      → t.started ≡ false
      → ((f : Resource → ℕ) → held_weight f t ≡ 0)
      → w.tracer_provider ≡ tracer_prepared (ok p)
      → let (t', w') = commit o m meter_of p t w in IsSettled o m t' w'
  commit-IsSettled p t w h stopped nothing tracer =
      let (started, installed) = commit-starts p t w stopped tracer in
      record {
        balanced =
            λ f. omega (arith, commit-balanced f 0 p t w (omega (arith, h f)) (λ _. nothing f));
        stopped_holds_nothing = λ e. ground (arith, e, started);
        stopped_installs_nothing = λ e. ground (arith, e, started);
        tracer = installed;
      }

  -- Start from the point where it has built all, or gave up
  pub with_prepared-IsSettled :
      (t : Telemetry o m) (w : World) (t' : Telemetry o m) (w' : World) (r : Result (Prepared o))
      → IsSettled o m t w
      → t.started ≡ false
      → ((f : Resource → ℕ) → Prepares meter_of f t w (t', w', r))
      → Installs meter_of (t', w', r)
      → let (t'', w'', result) = with_prepared o m meter_of (t', w', r) in IsSettled o m t'' w''
  with_prepared-IsSettled t w t' w' (err e) s stopped h (tracer, off) = record {
    balanced =
        λ f. let (balance, held, started, cfg) = h f in omega (arith, balance, held, s.balanced f);
    stopped_holds_nothing = λ _.
        λ f. let (balance, held, started, cfg) = h f in held ∙ s.stopped_holds_nothing stopped f;
    stopped_installs_nothing = λ _. off;
    tracer = simp off tracer;
  }
  with_prepared-IsSettled t w t' w' (ok p) s stopped h (tracer, off) =
      let (_, _, started, _) = h (λ _. 0) in
      commit-IsSettled p t' w'
        (λ f. let (balance, held, _, _) = h f in omega (arith, balance, held, s.balanced f))
        (started ∙ stopped)
        (λ f. let (_, held, _, _) = h f in held ∙ s.stopped_holds_nothing stopped f) tracer

  pub start-IsSettled :
      (a : Attempt) (t : Telemetry o m) (w : World)
      → IsSettled o m t w
      → let (t', w', result) = start o m meter_of a t w in IsSettled o m t' w'
  unfolding start
  start-IsSettled a t w s = elim (Bool-cases t.started) [
    | inl on ↦ simp on s
    | inr stopped ↦
        let (t', w', r) = prepare o m meter_of a t w in
        let off = s.stopped_installs_nothing stopped in
        let noop_now : w.tracer_provider ≡ noop = s.tracer ∙ (simp off refl) in
        simp stopped (
          with_prepared-IsSettled t w t' w' r s stopped (λ f. prepare-Prepares meter_of f a t w)
            (prepare-Installs meter_of a t w noop_now off))
  ]

  pub shutdown-IsSettled :
      (a : Answers) (t : Telemetry o m) (w : World)
      → IsSettled o m t w
      → let (t', w', errors) = shutdown o m meter_of a t w in IsSettled o m t' w'
  unfolding shutdown refresh_tracer_locked
  shutdown-IsSettled a t w s = elim (Bool-cases t.started) [
    | inr off ↦ simp off s
    | inl on ↦ record {
      balanced = λ f. shutdown-balanced f a t w (s.balanced f);
      stopped_holds_nothing = λ _. λ f. simp on refl;
      stopped_installs_nothing = λ _. simp on refl;
      tracer = ground (arith, shutdown-tracer meter_of a t w on s.tracer);
    }
  ]

  allow_subjects-IsSettled :
      (labels : List Text) (t : Telemetry o m) (w : World)
      → IsSettled o m t w
      → IsSettled o m (allow_subjects o m meter_of t labels) w
  unfolding allow_subjects
  allow_subjects-IsSettled [] t w s = s
  allow_subjects-IsSettled (l ∷ labels) t w s = record {
    balanced = s.balanced;
    stopped_holds_nothing = s.stopped_holds_nothing;
    stopped_installs_nothing = s.stopped_installs_nothing;
    tracer = s.tracer;
  }

  pub call-IsSettled :
      (c : Call) (t : Telemetry o m) (w : World)
      → IsSettled o m t w
      → let (t', w') = call o m meter_of c (t, w) in IsSettled o m t' w'
  call-IsSettled (start_with a) t w s = start-IsSettled a t w s
  call-IsSettled (shutdown_with a) t w s = shutdown-IsSettled a t w s
  call-IsSettled (allow_labels labels) t w s = allow_subjects-IsSettled labels t w s

  pub calls-IsSettled :
      (cs : List Call) (t : Telemetry o m) (w : World)
      → IsSettled o m t w
      → let (t', w') = calls o m meter_of cs (t, w) in IsSettled o m t' w'
  unfolding calls
  calls-IsSettled [] t w s = s
  calls-IsSettled (c ∷ cs) t w s =
      let (t', w') = call o m meter_of c (t, w) in calls-IsSettled cs t' w' (call-IsSettled c t w s)

  pub new_telemetry-IsSettled :
      (cfg : Config) → IsSettled o m (new_telemetry o m meter_of cfg) empty_world
  unfolding new_telemetry refresh_tracer_locked weigh
  new_telemetry-IsSettled cfg = record {
    balanced = λ f. refl;
    stopped_holds_nothing = λ _ f. refl;
    stopped_installs_nothing = λ _. refl;
    tracer = refl;
  }
