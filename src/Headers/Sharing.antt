-- ===== src/Headers/Sharing.antt =====
-- What Set changes: its own key, and every key whose values begin in the same cell.
use tel.Base.{◌≡◌, ◌≢◌, refl, ap, ◌∙◌, false, some, List, [], ◌∷◌, ◌++◌}
use tel.Base.Text.{Text, text_eq}
use tel.Base.Assoc.{text_Eq, lookup, beq_refl}
use tel.Headers.{Slice, Store, HeaderCarrier, write, get, set, set_all, inject_context}
use tel.Headers.Cells.{
  IsSeparate, write_self, write_other, set-Sets, values-some, get-first, get-elsewhere, text_ne,
  Place-apart, assigned-IsSeparate, set-IsSeparate,
}

-- Set then Get of the same key gives the value, in place, in spare capacity or in a new array.
pub get-set :
    (st : Store) (c : HeaderCarrier) (k v : Text) → let (st', c') = set st c k v in get st' c' k ≡ v
get-set st c k v =
    let (st', s, c', e, one, at, same, place) = set-Sets st c k v in
    let found : lookup c' k ≡ some s = at k ∙ rw (beq_refl k) refl in
    rw e (get-first (write st' s v) c' k s found one ∙ write_self st' s v)

-- Where no two keys begin in the same cell, Set leaves what Get gives of every other key, and the
-- same is true of the carrier that it makes.
pub get-set_ne :
    (st : Store) (c : HeaderCarrier) (k v j : Text)
    → IsSeparate st c
    → k ≢ j
    → let (st', c') = set st c k v in (get st' c' j ≡ get st c j) × IsSeparate st' c'
get-set_ne st c k v j sep ne =
    let (st', s, c', e, one, at, same, place) = set-Sets st c k v in
    let off : text_eq k j ≡ false = text_ne k j ne in
    rw e (
      get-elsewhere (write st' s v) st c' c j (at j ∙ rw off refl) (λ t h.
          write_other st' s v t.array t.offset (Place-apart st c k st' s j t sep place ne h)
          ∙ ap (λ f. f t.array t.offset) same),
      assigned-IsSeparate st c k st' s c' v sep at place,
    )

-- Where two keys do begin in the same cell, one value each, Set of the one sets the other as well,
-- though the carrier stays as it is.
pub set-shared :
    (st : Store) (c : HeaderCarrier) (k j v : Text) (s t : Slice)
    → lookup c k ≡ some s
    → lookup c j ≡ some t
    → s.length ≡ 1
    → t.length ≡ 1
    → (s.array ≡ t.array) × (s.offset ≡ t.offset)
    → let (st', c') = set st c k v in (c' ≡ c) × (get st' c' j ≡ v)
unfolding set
set-shared st c k j v s t found found' one one' (array, offset) =
    let done : set st c k v ≡ (write st s v, c) = simp (values-some c k s found, one) refl in
    rw done
      (refl, get-first (write st s v) c j t found' one' ∙ rw⁻¹ (array, offset) (write_self st s v))

-- No pair sets the key.
abbrev pub Absent : Text → List (Text × Text) → Type 0
Absent k [] = Unit {0}
Absent k ((key, value) ∷ pairs) = (key ≢ k) × Absent k pairs

set_all-IsSeparate :
    (pairs : List (Text × Text)) (st : Store) (c : HeaderCarrier)
    → IsSeparate st c
    → let (st', c') = set_all st c pairs in IsSeparate st' c'
unfolding set_all
set_all-IsSeparate [] st c sep = sep
set_all-IsSeparate ((key, value) ∷ pairs) st c sep =
    let (st', c') = set st c key value in
    set_all-IsSeparate pairs st' c' (set-IsSeparate st c key value sep)

set_all-keeps :
    (pairs : List (Text × Text)) (st : Store) (c : HeaderCarrier) (k : Text)
    → IsSeparate st c
    → Absent k pairs
    → let (st', c') = set_all st c pairs in get st' c' k ≡ get st c k
unfolding set_all
set_all-keeps [] st c k sep absent = refl
set_all-keeps ((key, value) ∷ pairs) st c k sep (ne, absent) =
    let (st', c') = set st c key value in
    let (same, sep') = get-set_ne st c key value k sep ne in
    set_all-keeps pairs st' c' k sep' absent ∙ same

set_all-append :
    (ps qs : List (Text × Text)) (st : Store) (c : HeaderCarrier)
    → set_all st c (ps ++ qs) ≡ (let (st', c') = set_all st c ps in set_all st' c' qs)
unfolding set_all
set_all-append [] qs st c = refl
set_all-append ((key, value) ∷ ps) qs st c =
    let (st', c') = set st c key value in set_all-append ps qs st' c'

-- After InjectContext into headers of which no two keys share a cell, the header of each key that
-- the propagator sets is the last value that it sets there.
pub inject_context-get :
    (st : Store) (headers : HeaderCarrier) (before rest : List (Text × Text)) (k v : Text)
    → IsSeparate st headers
    → Absent k rest
    → let (st', c') = inject_context st (some headers) (before ++ (k, v) ∷ rest) in get st' c' k ≡ v
unfolding inject_context set_all
inject_context-get st headers before rest k v sep absent =
    let (st1, c1) = set_all st headers before in
    let (st2, c2) = set st1 c1 k v in
    let sep1 = set_all-IsSeparate before st headers sep in
    rw (set_all-append before ((k, v) ∷ rest) st headers)
      (set_all-keeps rest st2 c2 k (set-IsSeparate st1 c1 k v sep1) absent ∙ get-set st1 c1 k v)
