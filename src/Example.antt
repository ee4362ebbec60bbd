-- ===== src/Example.antt =====
-- examples/basic/main.go: the example program. A turn of its loop is what `select` meets: a signal, the
-- ticker with the times of a tick, or the context that is done. A goroutine waits where its case is
-- not ready, so a turn that cannot be taken changes nothing.
pub mod Subjects
pub mod Unguarded
pub mod Expected
pub mod Ticks
pub mod Stops
pub mod Created
pub mod Main
pub mod Running
pub mod Finished
use tel.Base.{
  ℕ, ◌+◌, ◌%◌, Bool, true, false, ◌&&◌, ◌||◌, not, Option, none, some, is_some, List, [], ◌∷◌, ◌++◌,
  if◌then◌else◌, leb,
}
use tel.Base.Int.{ℤ}
use tel.Base.Text.{Text, bytes, is_empty, text_eq}
use tel.Otel.{Otel}
use tel.Environment.{Environ, getenv}
use tel.Metric.{AttrCache}
use tel.Instruments.Fast.{Recorded}
use tel.Instruments.Counter.{FastCounter, add_with}
use tel.Instruments.Histogram.{FastHistogram}
use tel.Instruments.Timer.{new_timer, start, stop_with}
use tel.Logger.Events.{TraceOutcome, trace_func}

-- os.Setenv, for a key that it takes
abbrev pub setenv : Text → Text → Environ → Environ
setenv key v e k = if text_eq k key then some v else e k

-- The environment that the example gives to Init.
unfoldable pub demo_environ : Environ → Environ
demo_environ e =
    let e1 = setenv (bytes "TEL_SERVICE_NAME") (bytes "tel-example") e in
    let e2 = setenv (bytes "MONITOR_ENABLE") (bytes "false") e1 in
    let e3 = setenv (bytes "LOG_ENCODE") (bytes "console") e2 in
    if is_empty (getenv e3 (bytes "TEL_ENABLE"))
    then setenv (bytes "TEL_ENABLE") (bytes "false") e3
    else e3

-- `fmt.Sprintf("demo.%d", i%3)`
unfoldable pub subject_of : ℕ → Text
subject_of i = bytes "demo." ++ ((48 + i % 3) ∷ [])

-- How times become float64 numbers `F`, and the text of an error.
pub record Units (F E : Type 0) : Type 0 where
  pub float_seconds : ℤ → F
  pub seconds : ℕ → ℕ → F
  pub zero_seconds : F
  pub error_text : E → Text

-- A tick has the times of timer.Start and of StopWith, and what TraceFunc measured.
pub data Turn : Type 0 where
  interrupted done : Turn
  ticked : ℕ → ℕ → ℤ → Turn

module _ (o : Otel) (C H F E : Type 0) where
  -- What one tick records, traces and complains of.
  pub record Tick : Type 0 where
    pub subject : Text
    pub counted : List (Recorded C ℕ o.AddOption)
    pub timed : List (Recorded H F o.RecordOption)
    pub traced : TraceOutcome F E
    pub complained : Bool

  -- `cancelled` is whether ctx is done, and `returned` whether main has left the loop.
  pub record Loop : Type 0 where
    pub count : ℕ
    pub cancelled : Bool
    pub returned : Bool
    pub cache : AttrCache o
    pub ticks : List Tick

  abbrev pub new_loop : AttrCache o → Loop
  new_loop c = record { count = 0; cancelled = false; returned = false; cache = c; ticks = [] }

  module _ (units : Units F E) (current : ℕ) (processed : FastCounter o C)
      (latency : FastHistogram o H) where
    -- The case of the ticker; the traced function returns nil.
    unfoldable pub tick : ℕ → ℕ → ℤ → Loop → Loop
    tick began ended took l =
        let i = l.count + 1 in
        let timer = start o began (new_timer o (some latency)) in
        let subject = subject_of i in
        let (c, counted) = add_with o current l.cache processed 1 subject in
        let traced =
          trace_func units.float_seconds units.error_text (bytes "example.tick") none took in
        let (timer', c', timed) =
          stop_with o units.seconds units.zero_seconds current ended c timer subject in
        record l {
          count = i;
          cancelled = l.cancelled || leb 10 i;
          cache = c';
          ticks =
              l.ticks
              ++ (record {
                subject = subject;
                counted = counted;
                timed = timed;
                traced = traced;
                complained = is_some traced.err;
              }
                  ∷ []);
        }

    abbrev pub turn : Turn → Loop → Loop
    turn interrupted l = record l { cancelled = true }
    turn done l = record l { returned = l.cancelled }
    turn (ticked began ended took) l = tick began ended took l

    -- The loop, over the turns that it meets.
    unfoldable pub run : List Turn → Loop → Loop
    run [] l = l
    run (t ∷ turns) l = let rest = run turns (turn t l) in if l.returned then l else rest
