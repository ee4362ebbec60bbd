-- ===== src/Spans.antt =====
-- trace.go: EndSpan. What is done to a span is the list of the calls of its methods; an error is a
-- value of any type, and its text a parameter.
pub mod Messaging
use tel.Base.{Bool, true, false, Option, none, some, List, [], ◌∷◌}
use tel.Base.Text.{Text}

pub data SpanCall (E : Type 0) : Type 0 where
  record_error : E → SpanCall E
  set_status_error : Text → SpanCall E
  end_span_call : SpanCall E

module _ {E : Type 0} (error_text : E → Text) where
  -- The calls of a span that may be nil, after which it may not be used.
  unfoldable pub end_span : Bool → Option E → List (SpanCall E)
  end_span false err = []
  end_span true none = end_span_call ∷ []
  end_span true (some err) =
      record_error err ∷ set_status_error (error_text err) ∷ end_span_call ∷ []
