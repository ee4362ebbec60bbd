-- ===== src/Example/Stops.antt =====
-- When the loop of the example returns.
use tel.Base.{
  ℕ, ◌+◌, ◌≡◌, refl, inl, inr, Bool, true, ◌||◌, List, [], ◌∷◌, ◌++◌, arith, leb, Bool-cases,
}
use tel.Otel.{Otel}
use tel.Metric.{AttrCache}
use tel.Instruments.Counter.{FastCounter}
use tel.Instruments.Histogram.{FastHistogram}
use tel.Example.{Units, Turn, interrupted, done, ticked, Loop, new_loop, tick, turn, run}

-- After `n` ticks, the turns have a signal, or bring the ticks to ten.
unfoldable pub stops : ℕ → List Turn → Bool
stops n [] = leb 10 n
stops n (interrupted ∷ turns) = true
stops n (done ∷ turns) = stops n turns
stops n (ticked began ended took ∷ turns) = stops (n + 1) turns

module _ (o : Otel) {C H F E : Type 0} (units : Units F E) (current : ℕ)
    (processed : FastCounter o C) (latency : FastHistogram o H) where
  abbrev going : List Turn → Loop o C H F E → Loop o C H F E
  going = run o C H F E units current processed latency

  pub run_stays : (turns : List Turn) (l : Loop o C H F E) → l.returned ≡ true → going turns l ≡ l
  unfolding run
  run_stays [] l h = refl
  run_stays (t ∷ turns) l h = simp h refl

  -- What is due: the context is cancelled, or will be.
  record IsDue (turns : List Turn) (l : Loop o C H F E) : Type 0 where
    tenth : leb 10 l.count ≡ true → l.cancelled ≡ true
    due : (l.cancelled || stops l.count turns) ≡ true

  turn-IsDue :
      (t : Turn) (turns : List Turn) (l : Loop o C H F E)
      → IsDue (t ∷ turns) l
      → IsDue turns (turn o C H F E units current processed latency t l)
  unfolding tick stops
  turn-IsDue interrupted turns l d = record { tenth = λ _. refl; due = refl }
  turn-IsDue done turns l d = record { tenth = d.tenth; due = d.due }
  turn-IsDue (ticked began ended took) turns l d = record {
    tenth = λ h. ground (arith, h);
    due = ground (arith, d.due);
  }

  run-returns :
      (before after : List Turn) (l : Loop o C H F E)
      → IsDue before l
      → (going (before ++ (done ∷ after)) l).returned ≡ true
  unfolding run stops
  run-returns [] after l d =
      let cancelled : l.cancelled ≡ true = ground (arith, d.due, d.tenth) in
      elim (Bool-cases l.returned) [
        | inl over ↦ rw (run_stays (done ∷ after) l over) over
        | inr waits ↦
            simp waits
              (rw (run_stays after (record l { returned = l.cancelled }) cancelled) cancelled)
      ]
  run-returns (t ∷ before) after l d = elim (Bool-cases l.returned) [
    | inl over ↦ rw (run_stays (t ∷ (before ++ (done ∷ after))) l over) over
    | inr waits ↦ simp waits (
        run-returns before after (turn o C H F E units current processed latency t l)
          (turn-IsDue t before l d))
  ]

  -- Whatever the loop meets, it has returned when the turn of the context comes after a signal or after
  -- a tenth tick.
  pub run_stops :
      (before after : List Turn) (c : AttrCache o)
      → stops 0 before ≡ true
      → (going (before ++ (done ∷ after)) (new_loop o C H F E c)).returned ≡ true
  run_stops before after c h =
      run-returns before after (new_loop o C H F E c) (record { tenth = λ e. e; due = h })
