-- ===== src/Base/Text.antt =====
-- Go's strings as lists of bytes, their equality, and the functions of the package `strings` that
-- the program calls, on ASCII text: `TrimSpace`, `ToLower`, `HasPrefix`, `TrimPrefix` and `Cut`.
use Prim.Native.Nat.{ℕ, ◌+◌}
use Prim.Native.Char.{code}
use Prim.Native.String.{String}
use mathlib.Core.Path.{◌≡◌, refl, ap₂}
use mathlib.Core.Logic.{◌↔◌, ◌⊎◌, inl, inr}
use mathlib.Core.Bool.{Bool, true, false, ◌&&◌, ◌||◌}
use mathlib.Core.Option.{Option, none, some}
use tel.Base.Lists.{length, drop}
use mathlib.Core.List.{List, [], ◌∷◌, ◌++◌, map, reverse}
use mathlib.Mathlib.Data.List.Basic.{map-reverse_aux}
use native.Mathlib.Omega.{arith}
use tel.Base.Tests.{leb, ◌==◌, if◌then◌else◌, &&_iff, ==_iff, Bool-cases}

abbrev pub Text : Type 0
Text = List ℕ

-- The bytes of a literal.
abbrev pub bytes : String → Text
bytes String.[] = []
bytes (String.◌∷◌ c s) = code c ∷ bytes s

unfoldable pub text_eq : Text → Text → Bool
text_eq [] [] = true
text_eq [] (y ∷ ys) = false
text_eq (x ∷ xs) [] = false
text_eq (x ∷ xs) (y ∷ ys) = (x == y) && text_eq xs ys

text_eq_sound : (s t : Text) → text_eq s t ≡ true → s ≡ t
unfolding text_eq
text_eq_sound [] [] h = refl
text_eq_sound [] (y ∷ ys) h = cc
text_eq_sound (x ∷ xs) [] h = cc
text_eq_sound (x ∷ xs) (y ∷ ys) h =
    let parts = (&&_iff (x == y) (text_eq xs ys)).0 h in
    ap₂ ◌∷◌ ((==_iff x y).0 parts.0) (text_eq_sound xs ys parts.1)

text_eq_refl : (s : Text) → text_eq s s ≡ true
unfolding text_eq
text_eq_refl [] = refl
text_eq_refl (x ∷ xs) = ground (arith, text_eq_refl xs)

pub text_eq_iff : (s t : Text) → (text_eq s t ≡ true) ↔ (s ≡ t)
text_eq_iff s t = (text_eq_sound s t, λ e. rw (← e) (text_eq_refl s))

-- bytesconv.IsEmpty, and every other comparison of a string with "".
unfoldable pub is_empty : Text → Bool
is_empty [] = true
is_empty (x ∷ xs) = false

-- unicode.IsSpace at the ASCII characters: tab to carriage return, and blank.
unfoldable pub is_space : ℕ → Bool
is_space c = (leb 9 c && leb c 13) || (c == 32)

unfoldable pub trim_left : Text → Text
trim_left [] = []
trim_left (c ∷ s) = (let rest = trim_left s in if is_space c then rest else c ∷ s)

-- strings.TrimSpace
unfoldable pub trim_space : Text → Text
unfolding trim_left
trim_space s = reverse (trim_left (reverse (trim_left s)))

unfoldable pub lower : ℕ → ℕ
lower c = if leb 65 c && leb c 90 then c + 32 else c

-- strings.ToLower
unfoldable pub to_lower : Text → Text
to_lower s = map lower s

lower_idem : (c : ℕ) → lower (lower c) ≡ lower c
unfolding lower
lower_idem c = ground arith

is_space-lower : (c : ℕ) → is_space (lower c) ≡ is_space c
unfolding lower is_space
is_space-lower c = ground arith

pub to_lower_idem : (s : Text) → to_lower (to_lower s) ≡ to_lower s
unfolding to_lower
to_lower_idem [] = refl
to_lower_idem (c ∷ s) = ap₂ ◌∷◌ (lower_idem c) (to_lower_idem s)

trim_left-to_lower : (s : Text) → trim_left (to_lower s) ≡ to_lower (trim_left s)
unfolding trim_left to_lower
trim_left-to_lower [] = refl
trim_left-to_lower (c ∷ s) = elim (Bool-cases (is_space c)) [
  | inl on ↦ rw (is_space-lower c, on) (trim_left-to_lower s)
  | inr off ↦ rw (is_space-lower c, off) refl
]

to_lower-reverse : (s : Text) → to_lower (reverse s) ≡ reverse (to_lower s)
unfolding to_lower
to_lower-reverse s = map-reverse_aux lower s []

pub trim_space-to_lower : (s : Text) → trim_space (to_lower s) ≡ to_lower (trim_space s)
unfolding trim_space
trim_space-to_lower s =
    let r = reverse (trim_left s) in
    rw
      (
        trim_left-to_lower s,
        ← to_lower-reverse (trim_left s),
        trim_left-to_lower r,
        to_lower-reverse (trim_left r),
      )
      refl

-- strings.HasPrefix
unfoldable pub has_prefix : Text → Text → Bool
has_prefix s [] = true
has_prefix [] (p ∷ ps) = false
has_prefix (c ∷ s) (p ∷ ps) = (c == p) && has_prefix s ps

-- Whether a text is in a list.
unfoldable pub among : Text → List Text → Bool
among l [] = false
among l (x ∷ xs) = text_eq x l || among l xs

pub among-append : (l : Text) (xs ys : List Text) → among l (xs ++ ys) ≡ (among l xs || among l ys)
unfolding among
among-append l [] ys = refl
among-append l (x ∷ xs) ys = ground (arith, among-append l xs ys)

module _ (l : Text) (xs ys : List Text) where
  pub among-append_left : among l xs ≡ true → among l (xs ++ ys) ≡ true
  among-append_left h = rw (among-append l xs ys, h)

  pub among-append_right : among l ys ≡ true → among l (xs ++ ys) ≡ true
  among-append_right h = rw (among-append l xs ys, h) (ground arith)

  pub among-append_cases : among l (xs ++ ys) ≡ true → (among l xs ≡ true) ⊎ (among l ys ≡ true)
  among-append_cases h = ground (arith, among-append l xs ys)

-- strings.TrimPrefix
unfoldable pub trim_prefix : Text → Text → Text
unfolding has_prefix
trim_prefix s p = if has_prefix s p then drop (length p) s else s

-- strings.Cut at one byte: `none` where the byte is not there.
unfoldable pub cut : Text → ℕ → Option (Text × Text)
cut [] sep = none
cut (c ∷ s) sep =
    let rest = cut s sep in
    if c == sep then some ([], s) else elim rest [ none ↦ none | some (a, b) ↦ some (c ∷ a, b) ]
