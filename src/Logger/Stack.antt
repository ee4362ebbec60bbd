-- ===== src/Logger/Stack.antt =====
-- zlog.go: the stack of a logged error. The runtime's frames, the JSON functions and the printing of
-- a number are parameters.
use tel.Base.{
  ℕ, Bool, true, false, not, ◌&&◌, ◌||◌, Option, none, some, List, [], ◌∷◌, ◌++◌, map, ◌≡◌, refl,
  if◌then◌else◌, get_or, ltb, ◌==◌, length, arith, ◌⊎◌,
}
use tel.Base.Int.{ℤ, pos}
use tel.Base.Text.{Text, bytes, is_empty}
use tel.Base.Parts.{contains, after_last, has_byte}

pub record StackFrame : Type 0 where
  pub func : Text
  pub source : Text
  pub line : ℤ

-- runtime.Frame
pub record Frame : Type 0 where
  pub function : Text
  pub file : Text
  pub line : ℤ

abbrev pub slash : ℕ
slash = 47

unfoldable pub skip_stack_frame : Text → Bool
skip_stack_frame fn =
    contains fn (bytes "github.com/rs/zerolog")
    || contains fn (bytes "marshalErrorStack")
    || contains fn (bytes "captureRuntimeStack")
    || contains fn (bytes "stackFromTracer")
    || contains fn (bytes "framesFromPCs")
    || contains fn (bytes "tel.(*FatalEvent).Err")

-- the loop over the frames that CallersFrames yields
unfoldable pub stack_frames : List Frame → List StackFrame
stack_frames [] = []
stack_frames (f ∷ frames) =
    let rest = stack_frames frames in
    if not (is_empty f.function) && not (skip_stack_frame f.function)
    then record {
      func = after_last slash f.function;
      source = after_last slash f.file;
      line = f.line;
    }
      ∷ rest
    else rest

-- `callers_frames` is runtime.CallersFrames, read to its end; an error is the chain of what Unwrap
-- gives, each with the addresses of its StackTrace method, if it has one.
module _ (callers_frames : List ℕ → List Frame) where
  unfoldable pub frames_from_pcs : List ℕ → List StackFrame
  frames_from_pcs [] = []
  frames_from_pcs (pc ∷ pcs) = stack_frames (callers_frames (pc ∷ pcs))

  -- for the addresses that runtime.Callers stores, 64 at most
  abbrev pub capture_runtime_stack : List ℕ → List StackFrame
  capture_runtime_stack pcs = if length pcs == 0 then [] else frames_from_pcs pcs

  unfoldable pub stack_from_tracer : List (Option (List ℕ)) → List StackFrame
  stack_from_tracer [] = []
  stack_from_tracer (some pcs ∷ errs) = frames_from_pcs pcs
  stack_from_tracer (none ∷ errs) = stack_from_tracer errs

  -- `callers` is what runtime.Callers stores; `none` is a nil value.
  unfoldable pub marshal_error_stack : List ℕ → List (Option (List ℕ)) → Option (List StackFrame)
  marshal_error_stack callers [] = none
  marshal_error_stack callers (e ∷ errs) =
      let frames = stack_from_tracer (e ∷ errs) in
      some (if ltb 0 (length frames) then frames else capture_runtime_stack callers)

-- marshalCaller, for the name of the function at the address, if there is one
unfoldable pub marshal_caller : (ℤ → Text) → Option Text → ℤ → Text
marshal_caller itoa none line = bytes "???" ++ 58 ∷ itoa line
marshal_caller itoa (some name) line = after_last slash name ++ 58 ∷ itoa line

-- What a frame's line may be in a decoded log line.
pub data LineValue : Type 0 where
  float_line number_line int_line : ℤ → LineValue
  other_line : LineValue

-- A decoded frame: the fields that are texts, and the line.
pub record RawFrame : Type 0 where
  pub func : Option Text
  pub source : Option Text
  pub line : LineValue

abbrev pub line_of : LineValue → ℤ
line_of (float_line n) = n
line_of (number_line n) = n
line_of (int_line n) = n
line_of other_line = pos 0

-- the loop of stackFramesFromMaps; `none` is an item that is no map
unfoldable pub map_frames : List (Option RawFrame) → List StackFrame
map_frames [] = []
map_frames (none ∷ items) = map_frames items
map_frames (some raw ∷ items) =
    let rest = map_frames items in
    if is_empty (get_or raw.func [])
    then rest
    else record {
      func = get_or raw.func [];
      source = get_or raw.source [];
      line = line_of raw.line;
    }
      ∷ rest

-- The second result of the parsing functions is whether there is a frame.
abbrev pub some_frames : List StackFrame → Option (List StackFrame)
some_frames [] = none
some_frames (f ∷ frames) = some (f ∷ frames)

pub data StackValue : Type 0 where
  frame_values : List StackFrame → StackValue
  byte_values : Text → StackValue
  item_values : List (Option RawFrame) → StackValue
  -- any other value, as json.Marshal writes it
  other_value : Option Text → StackValue

module _ (json_unmarshal : Text → Option (List StackFrame)) where
  unfoldable pub unmarshal_stack_frames : Text → Option (List StackFrame)
  unmarshal_stack_frames raw = elim (json_unmarshal raw) [
    | none ↦ none
    | some frames ↦ some_frames frames
  ]

  unfoldable pub parse_stack_frames : StackValue → Option (List StackFrame)
  parse_stack_frames (frame_values frames) = some_frames frames
  parse_stack_frames (byte_values raw) = unmarshal_stack_frames raw
  parse_stack_frames (item_values items) = some_frames (map_frames items)
  parse_stack_frames (other_value none) = none
  parse_stack_frames (other_value (some raw)) = unmarshal_stack_frames raw

  module _ (itoa : ℤ → Text) where
    unfoldable pub frame_line : StackFrame → Text
    frame_line f = bytes "\n  " ++ (f.func ++ (32 ∷ (f.source ++ (58 ∷ itoa f.line))))

    unfoldable pub frame_lines : List StackFrame → Text
    frame_lines [] = []
    frame_lines (f ∷ frames) = frame_line f ++ frame_lines frames

    abbrev stack_text : Option (List StackFrame) → Text
    stack_text none = []
    stack_text (some frames) = bytes "\nstack:" ++ frame_lines frames

    -- What formatConsoleStackExtra writes, for the event's "stack" if it has one.
    unfoldable pub format_console_stack_extra : Option StackValue → Text
    format_console_stack_extra none = []
    format_console_stack_extra (some v) = stack_text (parse_stack_frames v)

-- How stackFramesFromMaps finds a frame that was encoded.
abbrev pub raw_frame : StackFrame → Option RawFrame
raw_frame f = some (record { func = some f.func; source = some f.source; line = int_line f.line })

-- Every frame has a function.
abbrev pub AllNamed : List StackFrame → Type 0
AllNamed [] = Unit {0}
AllNamed (f ∷ frames) = (is_empty f.func ≡ false) × AllNamed frames

-- Frames with a function, once encoded, are read back from the maps in their order.
pub map_frames-raw_frame :
    (frames : List StackFrame) → AllNamed frames → map_frames (map raw_frame frames) ≡ frames
unfolding map_frames
map_frames-raw_frame [] h = refl
map_frames-raw_frame (f ∷ frames) (h, hs) = ground (arith, map_frames-raw_frame frames hs)

-- `s` is what stands behind the last slash of a text, or the whole text where it has none.
abbrev pub IsLastPart : Text → Text → Type 0
IsLastPart r s =
    (has_byte slash s ≡ false) × ((s ≡ r) ⊎ ((path : Text) × (r ≡ path ++ (slash ∷ s))))

abbrev pub IsSkipped : Frame → Type 0
IsSkipped f = (f.function ≡ []) ⊎ (skip_stack_frame f.function ≡ true)

-- How the frames that are printed come from those of the runtime.
pub data Printed : List Frame → List StackFrame → Type 0 where
  ends : Printed [] []
  skips :
      {f : Frame} {frames : List Frame} {printed : List StackFrame}
      → IsSkipped f
      → Printed frames printed
      → Printed (f ∷ frames) printed
  prints :
      {f : Frame} {p : StackFrame} {frames : List Frame} {printed : List StackFrame}
      → ¬ IsSkipped f
      → IsLastPart f.function p.func
      → IsLastPart f.file p.source
      → p.line ≡ f.line
      → Printed frames printed
      → Printed (f ∷ frames) (p ∷ printed)
