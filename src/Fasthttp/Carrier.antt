-- ===== src/Fasthttp/Carrier.antt =====
-- middleware/fasthttp: the carrier of a request's headers. Peek and Set of fasthttp's RequestHeader
-- and the keys that it yields are parameters.
use tel.Base.{◌||◌, List, ◌≡◌, refl, sym, ap, ◌∙◌, inl, inr, if◌then◌else◌, Bool-cases}
use tel.Base.Text.{Text, bytes, text_eq, text_eq_iff}

module _ {H : Type 0} (peek : H → Text → Text) (set_header : H → Text → Text → H)
    (all_keys : H → List Text) where
  abbrev pub traceparent_key : Text
  traceparent_key = bytes "Traceparent"

  abbrev pub tracestate_key : Text
  tracestate_key = bytes "Tracestate"

  abbrev pub baggage_key : Text
  baggage_key = bytes "Baggage"

  -- headerCarrier's Get
  unfoldable pub carrier_get : H → Text → Text
  carrier_get h key =
      if text_eq key (bytes "traceparent") || text_eq key (bytes "Traceparent")
      then peek h traceparent_key
      else if text_eq key (bytes "tracestate") || text_eq key (bytes "Tracestate")
      then peek h tracestate_key
      else if text_eq key (bytes "baggage") || text_eq key (bytes "Baggage")
      then peek h baggage_key
      else peek h key

  -- headerCarrier's Set
  unfoldable pub carrier_set : H → Text → Text → H
  carrier_set h key value = set_header h key value

  -- headerCarrier's Keys
  unfoldable pub carrier_keys : H → List Text
  carrier_keys h = all_keys h

  spelled :
      (h : H) (key a b rest : Text)
      → peek h a ≡ peek h b
      → rest ≡ peek h key
      → (if text_eq key a || text_eq key b then peek h b else rest) ≡ peek h key
  spelled h key a b rest same other = elim (Bool-cases (text_eq key a)) [
    | inl is_a ↦ simp is_a (sym same ∙ ap (peek h) (sym ((text_eq_iff key a).0 is_a)))
    | inr not_a ↦ elim (Bool-cases (text_eq key b)) [
      | inl is_b ↦ simp (not_a, is_b) (ap (peek h) (sym ((text_eq_iff key b).0 is_b)))
      | inr not_b ↦ simp (not_a, not_b) other
    ]
  ]

  -- Where fasthttp finds the three headers of the trace in either spelling, Get is Peek for every
  -- key: the prepared keys change no result.
  pub carrier_get-peek :
      (h : H) (key : Text)
      → peek h (bytes "traceparent") ≡ peek h traceparent_key
      → peek h (bytes "tracestate") ≡ peek h tracestate_key
      → peek h (bytes "baggage") ≡ peek h baggage_key
      → carrier_get h key ≡ peek h key
  unfolding carrier_get
  carrier_get-peek h key parent state baggage =
      spelled h key (bytes "traceparent") traceparent_key _ parent (
        spelled h key (bytes "tracestate") tracestate_key _ state
          (spelled h key (bytes "baggage") baggage_key _ baggage refl))
