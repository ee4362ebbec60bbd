-- ===== src/Headers.antt =====
-- trace.go: the header carrier, with the arrays behind its slices, since Set writes into them.
pub mod Cells
pub mod Sharing
use tel.Base.{
  ℕ, ◌+◌, Bool, true, false, Option, none, some, List, [], ◌∷◌, if◌then◌else◌, ◌==◌, leb, update,
  get_or,
}
use tel.Base.Text.{Text}
use tel.Base.Assoc.{Map, text_Eq, lookup, insert, keys as map_keys}

-- A slice of strings: where it begins in which array, its length and its capacity.
pub record Slice : Type 0 where
  pub array : ℕ
  pub offset : ℕ
  pub length : ℕ
  pub capacity : ℕ

-- The cells of the arrays, and the number of the next array.
pub record Store : Type 0 where
  pub cells : ℕ → ℕ → Text
  pub next : ℕ

abbrev pub HeaderCarrier : Type 0
HeaderCarrier = Map Text Slice

abbrev pub nil_slice : Slice
nil_slice = record { array = 0; offset = 0; length = 0; capacity = 0 }

-- `c[key]`, the nil slice where the key is missing
unfoldable pub values : HeaderCarrier → Text → Slice
values c key = get_or (lookup c key) nil_slice

abbrev pub write : Store → Slice → Text → Store
write st s value = record st {
  cells = update st.cells s.array (update (st.cells s.array) s.offset value);
}

unfoldable pub get : Store → HeaderCarrier → Text → Text
get st c key =
    let vals = values c key in if vals.length == 0 then [] else st.cells vals.array vals.offset

unfoldable pub set : Store → HeaderCarrier → Text → Text → Store × HeaderCarrier
set st c key value =
    let vals = values c key in
    let made : Slice = record { array = st.next; offset = 0; length = 1; capacity = 1 } in
    let st' = record st { next = st.next + 1 } in
    if vals.length == 1
    then (write st vals value, c)
    else if leb 1 vals.capacity
    then (write st vals value, insert c key (record vals { length = 1 }))
    else (write st' made value, insert c key made)

unfoldable pub keys : HeaderCarrier → List Text
keys c = map_keys c

-- What a propagator makes of a carrier: Inject sets pairs that it reads from the context, in order.
unfoldable pub set_all : Store → HeaderCarrier → List (Text × Text) → Store × HeaderCarrier
set_all st c [] = (st, c)
set_all st c ((key, value) ∷ pairs) = (let (st', c') = set st c key value in set_all st' c' pairs)

-- InjectContext, for the pairs of the context; `none` is a nil map.
unfoldable pub inject_context :
    Store → Option HeaderCarrier → List (Text × Text) → Store × HeaderCarrier
inject_context st none pairs = set_all st [] pairs
inject_context st (some headers) pairs = set_all st headers pairs

-- ExtractContext, for the SDK's Extract, which reads the carrier by Get and Keys.
module _ {C : Type 0} (extract : C → (Text → Text) → List Text → C) where
  unfoldable pub extract_context : C → Store → HeaderCarrier → C
  extract_context ctx st [] = ctx
  extract_context ctx st (h ∷ headers) = extract ctx (get st (h ∷ headers)) (keys (h ∷ headers))
