-- ===== src/Tests/HeaderRuns.antt =====
-- The header carrier at concrete inputs.
use tel.Base.{ℕ, some, [], ◌∷◌, ◌≡◌, ◌≢◌, refl, ap, length, arith}
use tel.Base.Text.{Text, bytes, text_eq}
use tel.Base.Assoc.{lookup}
use tel.Headers.{Slice, Store, HeaderCarrier, get, set, inject_context}
use tel.Headers.Cells.{IsSeparate}
use tel.Headers.Sharing.{set-shared, inject_context-get}

abbrev parent : Text
parent = bytes "traceparent"

abbrev state : Text
state = bytes "tracestate"

abbrev store : Store
store = record { cells = λ a i. bytes "old"; next = 3 }

-- One value in an array of two.
abbrev shared : Slice
shared = record { array = 2; offset = 0; length = 1; capacity = 2 }

-- Both keys of a map that was filled with one slice.
abbrev twins : HeaderCarrier
twins = (parent, shared) ∷ (state, shared) ∷ []

set-shared_example :
    let (st', c') = set store twins state (bytes "a=b") in
    (c' ≡ twins) × (get st' c' parent ≡ bytes "a=b")
unfolding lookup text_eq
set-shared_example =
    set-shared store twins state parent (bytes "a=b") shared shared refl refl refl refl (refl, refl)

empty-IsSeparate : IsSeparate store []
unfolding lookup
empty-IsSeparate = record {
  made = λ j s h. ground (arith, h);
  apart = λ j k s t h g ne. ground (arith, h);
}

apart : (n : ℕ) → n ≡ 11 → n ≢ 10
apart n h e = omega (arith, h, e)

parent-state : parent ≢ state
parent-state e = apart 11 refl (ap (λ (t : Text). length t) e)

inject_context-get_example :
    let (st', c') =
      inject_context store
        (some [])
        ((parent, bytes "00") ∷ (state, bytes "a") ∷ (parent, bytes "01") ∷ []) in
    get st' c' state ≡ bytes "a"
inject_context-get_example =
    inject_context-get store [] ((parent, bytes "00") ∷ []) ((parent, bytes "01") ∷ []) state
      (bytes "a") empty-IsSeparate (parent-state, tt)
