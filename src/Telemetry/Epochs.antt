-- ===== src/Telemetry/Epochs.antt =====
-- tel.go: the epoch, by which an instrument of an earlier registry is told from one of the current.
use tel.Base.{
  ℕ, suc, ◌+◌, ◌%◌, ◌^◌, ◌<◌, ◌≤◌, ◌≡◌, refl, ◌∙◌, true, false, ==_iff, Option, List, [], ◌∷◌,
  length, arith, inl, inr, Bool-cases,
}
use tel.Otel.{Otel}
use tel.Base.Text.{Text}
use tel.Metric.Keys.{Key}
use tel.Metric.{AttrCache, SubjectEntry}
use tel.Instruments.Fast.{Fast, live, instrument_live, emit}
use tel.Instruments.Recording.{emit_key, dead-records_nothing}
use tel.Instruments.Registry.{Meter}
use tel.OtlpDial.{Result, ok, err}
use tel.Telemetry.{Provider, World, Telemetry, refresh_tracer_locked, allow_subjects}
use tel.Telemetry.Start.{
  Attempt, Prepared, start_monitor, with_monitor, with_providers, with_prepared, prepare, commit,
  start, init_providers, install_propagator,
}
use tel.Telemetry.Stop.{Answers, shutdown}
use tel.Telemetry.Settled.{Call, start_with, shutdown_with, allow_labels, call, calls}

abbrev Steps : ℕ → ℕ → ℕ → Type 0
Steps n e e' = (k : ℕ) × (k ≤ n) × (e' ≡ (e + k) % 2 ^ 64)

Steps-next : (e : ℕ) → e < 2 ^ 64 → Steps 1 e ((e + 1) % 2 ^ 64)
Steps-next e h = (1, omega arith, refl)

Steps-same : (n e e' : ℕ) → e < 2 ^ 64 → e' ≡ e → Steps n e e'
Steps-same n e e' h same = (0, omega arith, omega arith)

Steps-more : (n e e' e'' : ℕ) → Steps 1 e e' → Steps n e' e'' → Steps (suc n) e e''
Steps-more n e e' e'' (j, le, h) (k, le', h') = (j + k, omega arith, omega arith)

module _ {o : Otel} {m : Meter} (meter_of : Provider → Text → m.State) where
  start_monitor-epoch :
      (a : Attempt) (t : Telemetry o m) (w : World) (p : tel.Telemetry.Start.StartProviders)
      → (start_monitor o m meter_of a t w p).0.epoch ≡ t.epoch
  unfolding start_monitor
  start_monitor-epoch a t w p = ground arith

  with_monitor-epoch :
      (t : Telemetry o m) (p : tel.Telemetry.Start.StartProviders)
      (s : Telemetry o m × World × Result (Option tel.Telemetry.Resource))
      → (with_monitor o m meter_of t p s).0.epoch ≡ s.0.epoch
  with_monitor-epoch t p (t', w, err e) = refl
  with_monitor-epoch t p (t', w, ok r) = refl

  with_providers-epoch :
      (a : Attempt) (t : Telemetry o m) (s : World × Result tel.Telemetry.Start.StartProviders)
      → (with_providers o m meter_of a t s).0.epoch ≡ t.epoch
  with_providers-epoch a t (w, err e) = refl
  with_providers-epoch a t (w, ok p) =
      with_monitor-epoch t p (start_monitor o m meter_of a t w p) ∙ start_monitor-epoch a t w p

  prepare-epoch :
      (a : Attempt) (t : Telemetry o m) (w : World) → (prepare o m meter_of a t w).0.epoch ≡ t.epoch
  unfolding prepare
  prepare-epoch a t w = with_providers-epoch a t (init_providers a t.cfg (install_propagator w))

  commit-Steps :
      (p : Prepared o) (t : Telemetry o m) (w : World)
      → t.epoch < 2 ^ 64
      → Steps 1 t.epoch (commit o m meter_of p t w).0.epoch
  unfolding commit refresh_tracer_locked
  commit-Steps p t w h = elim (Bool-cases t.started) [
    | inl on ↦ simp on (Steps-same 1 t.epoch t.epoch h refl)
    | inr off ↦ simp off (Steps-next t.epoch h)
  ]

  with_prepared-Steps :
      (e : ℕ) (s : Telemetry o m × World × Result (Prepared o))
      → e < 2 ^ 64
      → s.0.epoch ≡ e
      → Steps 1 e (with_prepared o m meter_of s).0.epoch
  with_prepared-Steps e (t, w, err x) h same = Steps-same 1 e t.epoch h same
  with_prepared-Steps e (t, w, ok p) h same =
      rw⁻¹ same (commit-Steps p t w (omega (arith, same, h)))

  start-Steps :
      (a : Attempt) (t : Telemetry o m) (w : World)
      → t.epoch < 2 ^ 64
      → Steps 1 t.epoch (start o m meter_of a t w).0.epoch
  unfolding start
  start-Steps a t w h = elim (Bool-cases t.started) [
    | inl on ↦ simp on (Steps-same 1 t.epoch t.epoch h refl)
    | inr off ↦
        simp off (with_prepared-Steps t.epoch (prepare o m meter_of a t w) h (prepare-epoch a t w))
  ]

  shutdown-Steps :
      (a : Answers) (t : Telemetry o m) (w : World)
      → t.epoch < 2 ^ 64
      → Steps 1 t.epoch (shutdown o m meter_of a t w).0.epoch
  unfolding shutdown refresh_tracer_locked
  shutdown-Steps a t w h = elim (Bool-cases t.started) [
    | inl on ↦ simp on (Steps-next t.epoch h)
    | inr off ↦ simp off (Steps-same 1 t.epoch t.epoch h refl)
  ]

  shutdown-epoch :
      (a : Answers) (t : Telemetry o m) (w : World)
      → t.started ≡ true
      → (shutdown o m meter_of a t w).0.epoch ≡ (t.epoch + 1) % 2 ^ 64
  unfolding shutdown refresh_tracer_locked
  shutdown-epoch a t w on = ground arith

  allow_subjects-epoch :
      (labels : List Text) (t : Telemetry o m)
      → (allow_subjects o m meter_of t labels).epoch ≡ t.epoch
  unfolding allow_subjects
  allow_subjects-epoch [] t = refl
  allow_subjects-epoch (l ∷ labels) t = refl

  call-Steps :
      (c : Call) (t : Telemetry o m) (w : World)
      → t.epoch < 2 ^ 64
      → Steps 1 t.epoch (call o m meter_of c (t, w)).0.epoch
  call-Steps (start_with a) t w h = start-Steps a t w h
  call-Steps (shutdown_with a) t w h = shutdown-Steps a t w h
  call-Steps (allow_labels labels) t w h = Steps-same 1 t.epoch _ h (allow_subjects-epoch labels t)

  calls-Steps :
      (cs : List Call) (t : Telemetry o m) (w : World)
      → t.epoch < 2 ^ 64
      → Steps (length cs) t.epoch (calls o m meter_of cs (t, w)).0.epoch
  unfolding calls
  calls-Steps [] t w h = Steps-same 0 t.epoch t.epoch h refl
  calls-Steps (c ∷ cs) t w h =
      let (t', w') = call o m meter_of c (t, w) in
      let (k, le, e) = call-Steps c t w h in
      Steps-more (length cs) t.epoch t'.epoch _ (k, le, e) (calls-Steps cs t' w' (omega (arith, e)))

  retired :
      {H O : Type 0} (f : Fast H O) (a : Answers) (cs : List Call) (t : Telemetry o m) (w : World)
      → t.started ≡ true
      → t.epoch < 2 ^ 64
      → f.bound ≡ true
      → live t.epoch f ≡ true
      → length cs + 1 < 2 ^ 64
      → live (calls o m meter_of (shutdown_with a ∷ cs) (t, w)).0.epoch f ≡ false
  unfolding live instrument_live calls
  retired f a cs t w on h bound is_live few =
      let (t', w', errors) = shutdown o m meter_of a t w in
      let same : t.epoch ≡ f.epoch = ground (arith, ==_iff t.epoch f.epoch) in
      let next : t'.epoch ≡ (t.epoch + 1) % 2 ^ 64 = shutdown-epoch a t w on in
      let (k, le, e) = calls-Steps cs t' w' (omega arith) in
      let later = (calls o m meter_of cs (t', w')).0.epoch in
      let apart : ¬ (later ≡ f.epoch) = λ same'. omega arith in ground (arith, ==_iff later f.epoch)

  -- An instrument that is live in a started runtime records nothing after a Shutdown, nor after
  -- any further calls, as long as they are fewer than the epoch's 64 bits can count: its methods with
  -- one, two or three labels, and that without, make no call, and leave the cache that they find.
  pub shutdown-retires :
      {H V O : Type 0} (opts_of : SubjectEntry o → List O) (f : Fast H O) (a : Answers)
      (cs : List Call) (t : Telemetry o m) (w : World) (c : AttrCache o) (v : V) (k : Key)
      → t.started ≡ true
      → t.epoch < 2 ^ 64
      → f.bound ≡ true
      → live t.epoch f ≡ true
      → length cs + 1 < 2 ^ 64
      → let current = (calls o m meter_of (shutdown_with a ∷ cs) (t, w)).0.epoch in
        (emit_key o opts_of current c f v k ≡ (c, [])) × (emit current f v ≡ [])
  unfolding live instrument_live
  shutdown-retires opts_of f a cs t w c v k on h bound is_live few =
      let current = (calls o m meter_of (shutdown_with a ∷ cs) (t, w)).0.epoch in
      let dead = retired f a cs t w on h bound is_live few in
      dead-records_nothing o opts_of current c f v k bound
        (ground (arith, dead, ==_iff current f.epoch))
