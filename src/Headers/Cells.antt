-- ===== src/Headers/Cells.antt =====
-- Where Set writes, and the carriers of which no two keys share a cell.
use tel.Base.{
  ℕ, ◌+◌, ◌<◌, ◌≡◌, ◌≢◌, ◌⊎◌, inl, inr, refl, ap, sym, ◌≤◌, ◌∙◌, get_or, false, Option, none, some,
  ◌==◌, ==_iff, arith, if◌then◌else◌, leb, update, update_self, Bool-cases, Option-cases,
}
use tel.Base.Text.{Text, text_eq, text_eq_iff}
use tel.Base.Assoc.{text_Eq, lookup, insert, lookup-insert}
use tel.Headers.{Slice, Store, HeaderCarrier, values, nil_slice, write, get, set}

-- Every slice lies in an array that was made, and no two keys begin in the same cell.
pub record IsSeparate (st : Store) (c : HeaderCarrier) : Type 0 where
  pub made : (j : Text) (s : Slice) → lookup c j ≡ some s → s.array < st.next
  pub apart :
      (j k : Text) (s t : Slice)
      → lookup c j ≡ some s
      → lookup c k ≡ some t
      → j ≢ k
      → (s.array ≢ t.array) ⊎ (s.offset ≢ t.offset)

pub write_self : (st : Store) (s : Slice) (v : Text) → (write st s v).cells s.array s.offset ≡ v
write_self st s v = ground (
  arith,
  update_self st.cells s.array (update (st.cells s.array) s.offset v),
  update_self (st.cells s.array) s.offset v,
)

pub write_other :
    (st : Store) (s : Slice) (v : Text) (a i : ℕ)
    → (s.array ≢ a) ⊎ (s.offset ≢ i)
    → (write st s v).cells a i ≡ st.cells a i
write_other st s v a i ne = elim (Bool-cases (a == s.array)) [
  | inr off ↦ ground (arith, off)
  | inl on ↦ elim (Bool-cases (i == s.offset)) [
    | inl same ↦ ground (arith, ne, ==_iff a s.array, ==_iff i s.offset, on, same)
    | inr off ↦ ground (arith, ==_iff a s.array, on, off)
  ]
]

-- Where Set writes: in the cell that the key's values begin in, or in a new array.
abbrev pub Place : Store → HeaderCarrier → Text → Store → Slice → Type 0
Place st c k st' s =
    ((s.array ≡ st.next) × (st'.next ≡ st.next + 1))
    ⊎ ((t : Slice) × (lookup c k ≡ some t)
        × (s.array ≡ t.array)
        × (s.offset ≡ t.offset)
        × (st'.next ≡ st.next))

abbrev pub Sets : Store → HeaderCarrier → Text → Text → Type 0
Sets st c k v =
    (st' : Store) × (s : Slice) × (c' : HeaderCarrier) × (set st c k v ≡ (write st' s v, c'))
    × (s.length ≡ 1)
    × ((j : Text) → lookup c' j ≡ (if text_eq k j then some s else lookup c j))
    × (st'.cells ≡ st.cells)
    × Place st c k st' s

-- an assignment that changes nothing
lookup_same :
    (c : HeaderCarrier) (k : Text) (s : Slice)
    → lookup c k ≡ some s
    → (j : Text) → lookup c j ≡ (if text_eq k j then some s else lookup c j)
lookup_same c k s h j = elim (Bool-cases (text_eq k j)) [
  | inl on ↦ rw (on, ← (text_eq_iff k j).0 on) h
  | inr off ↦ rw off refl
]

pub values-none : (c : HeaderCarrier) (k : Text) → lookup c k ≡ none → values c k ≡ nil_slice
unfolding values
values-none c k h = ap (λ (x : Option Slice). get_or x nil_slice) h

pub values-some : (c : HeaderCarrier) (k : Text) (s : Slice) → lookup c k ≡ some s → values c k ≡ s
unfolding values
values-some c k s h = ap (λ (x : Option Slice). get_or x nil_slice) h

pub set-Sets : (st : Store) (c : HeaderCarrier) (k v : Text) → Sets st c k v
unfolding set
set-Sets st c k v =
    let made : Slice = record { array = st.next; offset = 0; length = 1; capacity = 1 } in
    let st' : Store = record st { next = st.next + 1 } in
    elim (Option-cases (lookup c k)) [
      | inl missing ↦ (
        st',
        made,
        insert c k made,
        simp (values-none c k missing) refl,
        refl,
        lookup-insert c k made,
        refl,
        inl (refl, refl),
      )
      | inr (s, found) ↦ elim (Bool-cases (s.length == 1)) [
        | inl one ↦ (
          st,
          s,
          c,
          simp (values-some c k s found, one) refl,
          (==_iff s.length 1).0 one,
          lookup_same c k s found,
          refl,
          inr (s, found, refl, refl, refl),
        )
        | inr other ↦ elim (Bool-cases (leb 1 s.capacity)) [
          | inl room ↦
              let cut : Slice = record s { length = 1 } in
              (
                st,
                cut,
                insert c k cut,
                simp (values-some c k s found, other, room) refl,
                refl,
                lookup-insert c k cut,
                refl,
                inr (s, found, refl, refl, refl),
              )
          | inr none_left ↦ (
            st',
            made,
            insert c k made,
            simp (values-some c k s found, other, none_left) refl,
            refl,
            lookup-insert c k made,
            refl,
            inl (refl, refl),
          )
        ]
      ]
    ]

pub get-first :
    (st : Store) (c : HeaderCarrier) (k : Text) (s : Slice)
    → lookup c k ≡ some s
    → s.length ≡ 1
    → get st c k ≡ st.cells s.array s.offset
unfolding get
get-first st c k s h one = simp (values-some c k s h, one) refl

pub get-elsewhere :
    (st' st : Store) (c' c : HeaderCarrier) (j : Text)
    → lookup c' j ≡ lookup c j
    → ((t : Slice) → lookup c j ≡ some t → st'.cells t.array t.offset ≡ st.cells t.array t.offset)
    → get st' c' j ≡ get st c j
unfolding get
get-elsewhere st' st c' c j same cell = elim (Option-cases (lookup c j)) [
  | inl missing ↦ simp (values-none c' j (same ∙ missing), values-none c j missing) refl
  | inr (t, found) ↦
      simp (values-some c' j t (same ∙ found), values-some c j t found, cell t found) refl
]

pub text_ne : (k j : Text) → k ≢ j → text_eq k j ≡ false
text_ne k j ne = ground (arith, text_eq_iff k j, ne)

pub Place-apart :
    (st : Store) (c : HeaderCarrier) (k : Text) (st' : Store) (s : Slice) (j : Text) (t : Slice)
    → IsSeparate st c
    → Place st c k st' s
    → k ≢ j
    → lookup c j ≡ some t
    → (s.array ≢ t.array) ⊎ (s.offset ≢ t.offset)
Place-apart st c k st' s j t sep (inl (fresh, next)) ne h =
    let below = sep.made j t h in inl (λ e. omega arith)
Place-apart st c k st' s j t sep (inr (u, found, array, offset, next)) ne h =
    rw (array, offset) (sep.apart k j u t found h ne)

-- an entry of the new carrier is the one that was set, or an old one of another key
assigned-cases :
    (c c' : HeaderCarrier) (k j : Text) (s t : Slice)
    → ((i : Text) → lookup c' i ≡ (if text_eq k i then some s else lookup c i))
    → lookup c' j ≡ some t
    → ((k ≡ j) × (s ≡ t)) ⊎ ((k ≢ j) × (lookup c j ≡ some t))
assigned-cases c c' k j s t at h = elim (Bool-cases (text_eq k j)) [
  | inl on ↦ inl ((text_eq_iff k j).0 on, ground (arith, at j, h, on))
  | inr off ↦ inr (λ e. ground (arith, text_eq_iff k j, e, off), ground (arith, at j, h, off))
]

Place-made :
    (st : Store) (c : HeaderCarrier) (k : Text) (st' : Store) (s : Slice)
    → IsSeparate st c
    → Place st c k st' s
    → (s.array < st'.next) × (st.next ≤ st'.next)
Place-made st c k st' s sep (inl (fresh, next)) = (omega arith, omega arith)
Place-made st c k st' s sep (inr (u, found, array, offset, next)) =
    (omega (arith, sep.made k u found), omega arith)

apart_flip :
    (s t : Slice)
    → (s.array ≢ t.array) ⊎ (s.offset ≢ t.offset)
    → (t.array ≢ s.array) ⊎ (t.offset ≢ s.offset)
apart_flip s t (inl ne) = inl (λ e. ne (sym e))
apart_flip s t (inr ne) = inr (λ e. ne (sym e))

pub assigned-IsSeparate :
    (st : Store) (c : HeaderCarrier) (k : Text) (st' : Store) (s : Slice) (c' : HeaderCarrier)
    (v : Text)
    → IsSeparate st c
    → ((i : Text) → lookup c' i ≡ (if text_eq k i then some s else lookup c i))
    → Place st c k st' s
    → IsSeparate (write st' s v) c'
assigned-IsSeparate st c k st' s c' v sep at place = record {
  made = λ j t h. elim (assigned-cases c c' k j s t at h) [
    | inl (_, e) ↦ rw⁻¹ e (Place-made st c k st' s sep place).0
    | inr (_, old) ↦ omega (arith, sep.made j t old, (Place-made st c k st' s sep place).1)
  ];
  apart = λ i j t u h g ne. elim (assigned-cases c c' k i s t at h) [
    | inl (e, e') ↦ elim (assigned-cases c c' k j s u at g) [
      | inl (e'', _) ↦ absurd (ne (sym e ∙ e''))
      | inr (ne', old) ↦ rw⁻¹ e' (Place-apart st c k st' s j u sep place ne' old)
    ]
    | inr (ne', old) ↦ elim (assigned-cases c c' k j s u at g) [
      | inl (_, e') ↦ rw⁻¹ e' (apart_flip s t (Place-apart st c k st' s i t sep place ne' old))
      | inr (_, old') ↦ sep.apart i j t u old old' ne
    ]
  ];
}

pub set-IsSeparate :
    (st : Store) (c : HeaderCarrier) (k v : Text)
    → IsSeparate st c
    → let (st', c') = set st c k v in IsSeparate st' c'
set-IsSeparate st c k v sep =
    let (st', s, c', e, one, at, same, place) = set-Sets st c k v in
    rw e (assigned-IsSeparate st c k st' s c' v sep at place)
