-- ===== src/Example/Ticks.antt =====
-- What the loop of the example records.
use tel.Base.{
  ℕ, ◌+◌, ◌≤◌, ◌≡◌, ◌≢◌, refl, ap, ap₂, subst, ◌∙◌, Bool, true, false, none, some, List, [], ◌∷◌,
  ◌++◌, length, length-append, append_assoc, arith, sym, leb, ◌||◌, append_empty, inl, inr,
  Bool-cases,
}
use tel.Base.Int.{ℤ}
use tel.Base.Text.{bytes, is_empty}
use tel.Otel.{Otel}
use tel.Logger.Events.{trace_func}
use tel.Metric.Keys.{one}
use tel.Metric.{AttrCache, SubjectEntry}
use tel.Metric.Invariant.{IsValid}
use tel.Metric.Refine.{Interner, intern, view}
use tel.Instruments.Fast.{Recorded, live}
use tel.Instruments.Counter.{FastCounter, add_with}
use tel.Instruments.Histogram.{FastHistogram, record_with}
use tel.Instruments.Timer.{new_timer, stop_once}
use tel.Example.Expected.{Times, taken, expected_tick, expected}
use tel.Example.Unguarded.{intern_again, emit_with-Records}
use tel.Example.Stops.{run_stays}
use tel.Example.Subjects.{reserved, reserved-intern, reserved_bounds}
use tel.Example.{
  Units, subject_of, Turn, interrupted, done, ticked, Tick, Loop, new_loop, tick, turn, run,
}

subject_of_full : (i : ℕ) → is_empty (subject_of i) ≡ false
unfolding subject_of is_empty
subject_of_full i = refl

-- The clock of a tick is past the epoch's first nanosecond.
abbrev pub Clocked : List Turn → Type 0
Clocked [] = Unit {0}
Clocked (interrupted ∷ turns) = Clocked turns
Clocked (done ∷ turns) = Clocked turns
Clocked (ticked began ended took ∷ turns) = (began ≢ 0) × Clocked turns

Clocked-rest : (t : Turn) (turns : List Turn) → Clocked (t ∷ turns) → Clocked turns
Clocked-rest interrupted turns h = h
Clocked-rest done turns h = h
Clocked-rest (ticked began ended took) turns (_, h) = h

module _ (o : Otel) {C H F E : Type 0} (units : Units F E) (current : ℕ)
    (processed : FastCounter o C) (latency : FastHistogram o H) where
  abbrev expecting : Interner o → ℕ → List Times → List (Tick o C H F E)
  expecting = expected o units processed latency

  abbrev going : List Turn → Loop o C H F E → Loop o C H F E
  going = run o C H F E units current processed latency

  -- Between two turns of the loop; `n` is what the subjects may still take.
  record IsSteady (n : ℕ) (l : Loop o C H F E) : Type 0 where
    valid : IsValid o l.cache
    unguarded : l.cache.deny_unknown ≡ false
    counted : length l.ticks ≡ l.count
    room : reserved o (view o l.cache) ≤ n

  -- What a tick adds, and how the cache goes on.
  record Ticks (began ended : ℕ) (took : ℤ) (l l' : Loop o C H F E) : Type 0 where
    valid : IsValid o l'.cache
    unguarded : l'.cache.deny_unknown ≡ false
    next : view o l'.cache ≡ (intern o (view o l.cache) (one (subject_of (l.count + 1)))).0
    records :
        l'.ticks
        ≡ l.ticks
          ++ (expected_tick o units processed latency
                (intern o (view o l.cache) (one (subject_of (l.count + 1)))).1
                (l.count + 1)
                (began, ended, took)
              ∷ [])

  tick-Ticks :
      (began ended : ℕ) (took : ℤ) (l : Loop o C H F E)
      → live current processed ≡ true
      → live current latency ≡ true
      → began ≢ 0
      → IsValid o l.cache
      → l.cache.deny_unknown ≡ false
      → Ticks began ended took l (tick o C H F E units current processed latency began ended took l)
  unfolding tick add_with record_with trace_func new_timer expected_tick subject_of
  tick-Ticks began ended took l counting timing ne valid0 unguarded0 =
      let subject = subject_of (l.count + 1) in
      let full = subject_of_full (l.count + 1) in
      let (c, counted) = add_with o {V = ℕ} current l.cache processed 1 subject in
      let (calls, next, valid, unguarded) =
        emit_with-Records o {V = ℕ} (λ e. e.add_opts) current l.cache processed 1 subject valid0
          unguarded0 counting full in
      let (stopped, _) =
        stop_once o units.seconds units.zero_seconds current began ended 0 c c
          (new_timer o (some latency)) latency subject subject refl ne in
      let key = one subject in
      let m = view o l.cache in
      let cached = ap (λ (x : AttrCache o × List (Recorded H F o.RecordOption)). x.0) stopped in
      let recorded = ap (λ (x : AttrCache o × List (Recorded H F o.RecordOption)). x.1) stopped in
      let (calls', next', valid', unguarded') =
        emit_with-Records o (λ e. e.record_opts) current c latency (units.seconds ended began)
          subject valid unguarded timing full in
      let again : intern o (view o c) key ≡ intern o m key = rw next (intern_again o m key) in
      let settled =
        ap (view o) cached ∙ next' ∙ ap (λ (x : Interner o × SubjectEntry o). x.0) again in
      let timed =
        recorded
        ∙ calls'
        ∙ ap
            (λ (x : Interner o × SubjectEntry o).
              record {
                handle = latency.handle;
                value = units.seconds ended began;
                opts = latency.opts ++ x.1.record_opts;
              }
              ∷ [])
            again in
      let traced =
        trace_func units.float_seconds units.error_text (bytes "example.tick") none took in
      record {
        valid = rw cached valid';
        unguarded = rw cached unguarded';
        next = settled;
        records =
            ap₂
              (λ (x : List (Recorded C ℕ o.AddOption)) (y : List (Recorded H F o.RecordOption)).
                l.ticks
                ++ (record {
                  subject = subject;
                  counted = x;
                  timed = y;
                  traced = traced;
                  complained = false;
                }
                    ∷ []))
              calls timed;
      }

  Ticks-IsSteady :
      (n began ended : ℕ) (took : ℤ) (l l' : Loop o C H F E)
      → Ticks began ended took l l'
      → l'.count ≡ l.count + 1
      → IsSteady n l
      → IsSteady n l'
  Ticks-IsSteady n began ended took l l' t more s = record {
    valid = t.valid;
    unguarded = t.unguarded;
    counted =
        ap (λ (x : List (Tick o C H F E)). length x) t.records
        ∙ length-append l.ticks (_ ∷ [])
        ∙ omega (arith, s.counted, more);
    room =
        omega
          (arith, ap (reserved o) t.next, reserved-intern o (view o l.cache) (l.count + 1), s.room);
  }

  tick_count :
      (began ended : ℕ) (took : ℤ) (l : Loop o C H F E) (signalled : Bool)
      → l.cancelled ≡ (signalled || leb 10 l.count)
      → let l' = tick o C H F E units current processed latency began ended took l in
        (l'.count ≡ l.count + 1)
        × (l'.returned ≡ l.returned)
        × (l'.cancelled ≡ (signalled || leb 10 l'.count))
  unfolding tick
  tick_count began ended took l signalled same = (refl, refl, ground (arith, same))

  tick_expected :
      (began ended : ℕ) (took : ℤ) (l l' : Loop o C H F E) (signalled : Bool) (turns : List Turn)
      → Ticks began ended took l l'
      → l'.count ≡ l.count + 1
      → l.ticks
          ++ expecting
              (view o l.cache)
              (l.count + 1)
              (taken l.count signalled (ticked began ended took ∷ turns))
        ≡ l'.ticks ++ expecting (view o l'.cache) (l'.count + 1) (taken l'.count signalled turns)
  unfolding expected taken subject_of
  tick_expected began ended took l l' signalled turns t more =
      rw (t.records, t.next, more) (sym (append_assoc l.ticks (_ ∷ []) _))

  run_goes :
      (t : Turn) (turns : List Turn) (l : Loop o C H F E)
      → l.returned ≡ false
      → going (t ∷ turns) l ≡ going turns (turn o C H F E units current processed latency t l)
  unfolding run
  run_goes t turns l h = simp h refl

  -- What a loop comes to: its ticks, and that it is as steady as it was.
  abbrev Comes : ℕ → Loop o C H F E → List (Tick o C H F E) → Type 0
  Comes n l ticks = (l.ticks ≡ ticks) × IsSteady n l

  Comes-same :
      (n : ℕ) (l l' : Loop o C H F E) (ticks ticks' : List (Tick o C H F E))
      → l ≡ l'
      → ticks ≡ ticks'
      → Comes n l' ticks'
      → Comes n l ticks
  Comes-same n l l' ticks ticks' e e' (h, s) =
      (ap (λ (x : Loop o C H F E). x.ticks) e ∙ h ∙ sym e', subst (IsSteady n) (sym e) s)

  marked :
      (n : ℕ) (cancelled returned : Bool) (l : Loop o C H F E)
      → IsSteady n l
      → IsSteady n (record l { cancelled = cancelled; returned = returned })
  marked n cancelled returned l s = record {
    valid = s.valid;
    unguarded = s.unguarded;
    counted = s.counted;
    room = s.room;
  }

  abbrev pub runs : List Turn → AttrCache o → Loop o C H F E
  runs turns c = going turns (new_loop o C H F E c)

  run-expected :
      (n : ℕ) (signalled : Bool) (turns : List Turn) (l : Loop o C H F E)
      → live current processed ≡ true
      → live current latency ≡ true
      → Clocked turns
      → l.returned ≡ false
      → l.cancelled ≡ (signalled || leb 10 l.count)
      → IsSteady n l
      → Comes n
          (going turns l)
          (l.ticks ++ expecting (view o l.cache) (l.count + 1) (taken l.count signalled turns))
  unfolding run taken expected
  run-expected n signalled [] l counting timing clocked waiting same s =
      (sym (append_empty l.ticks), s)
  run-expected n signalled (interrupted ∷ turns) l counting timing clocked waiting same s =
      let l' = record l { cancelled = true } in
      Comes-same n _ _ _ _ (run_goes interrupted turns l waiting) refl (
        run-expected n true turns l' counting timing clocked waiting refl
          (marked n true l.returned l s))
  run-expected n signalled (done ∷ turns) l counting timing clocked waiting same s =
      let l' = record l { returned = l.cancelled } in
      let s' = marked n l.cancelled l.cancelled l s in
      elim (Bool-cases l.cancelled) [
        | inl over ↦
            let due : (signalled || leb 10 l.count) ≡ true = sym same ∙ over in
            let stays = run_stays o units current processed latency turns l' over in
            Comes-same n _ _ _ _ (run_goes done turns l waiting ∙ stays)
              (rw (due, append_empty l.ticks) refl) (refl, s')
        | inr waits ↦
            let due : (signalled || leb 10 l.count) ≡ false = sym same ∙ waits in
            let rest = run-expected n signalled turns l' counting timing clocked waits same s' in
            Comes-same n _ _ _ _ (run_goes done turns l waiting) (rw due refl) rest
      ]
  run-expected n signalled (ticked began ended took ∷ turns) l counting timing (ne, clocked) waiting
        same s =
      let l' = tick o C H F E units current processed latency began ended took l in
      let t = tick-Ticks began ended took l counting timing ne s.valid s.unguarded in
      let (counts, goes_on, due) = tick_count began ended took l signalled same in
      let comes =
        run-expected n signalled turns l' counting timing clocked (goes_on ∙ waiting) due
          (Ticks-IsSteady n began ended took l l' t counts s) in
      Comes-same n _ _ _ _ (run_goes (ticked began ended took) turns l waiting)
        (tick_expected began ended took l l' signalled turns t counts) comes

  -- Whatever signals and ticks the loop meets, with live instruments over a valid cache that lets every
  -- label pass: it has recorded the ticks that come before the context is met as done after a signal or
  -- a tenth tick, in their order, and those only. Each made one Add of 1 and one Record of the seconds
  -- from its Start to its StopWith, both under its subject, of three in turn, with the options of the
  -- subject's entry, and complained of nothing; and the loop has interned three keys at most.
  pub run-expected_ticks :
      (turns : List Turn) (c : AttrCache o)
      → IsValid o c
      → c.deny_unknown ≡ false
      → live current processed ≡ true
      → live current latency ≡ true
      → Clocked turns
      → let l = runs turns c in
        (l.ticks ≡ expected o units processed latency (view o c) 1 (taken 0 false turns))
        × (length l.ticks ≡ l.count)
        × (l.cache.size ≤ c.size + 3)
  run-expected_ticks turns c valid unguarded counting timing clocked =
      let (_, few) = reserved_bounds o (view o c) in
      let (made, s) =
        run-expected (c.size + 3) false turns (new_loop o C H F E c) counting timing clocked refl
          refl (record { valid = valid; unguarded = unguarded; counted = refl; room = few }) in
      let (used, _) = reserved_bounds o (view o (runs turns c).cache) in
      (made, s.counted, omega (arith, used, s.room))
