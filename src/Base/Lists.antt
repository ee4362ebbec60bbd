-- ===== src/Base/Lists.antt =====
-- Lists measured by native numbers, and sums over the indices below a bound.
use Prim.Native.Nat.{ℕ, zero, suc, ◌+◌, ◌<◌}
use mathlib.Core.Path.{◌≡◌, refl, sym, ap}
use mathlib.Core.List.{List, [], ◌∷◌, ◌++◌, map}
use native.Mathlib.Omega.{arith}
use native.Mathlib.Decide.{ℕ_discrete}
use tel.Base.Tests.{◌==◌, if◌then◌else◌, ==_refl, ==_iff, Bool-cases}
use mathlib.Core.Logic.{◌≢◌, inl, inr}

module _ {ℓ} {A : Type ℓ} where
  abbrev pub length : List A → ℕ
  length [] = 0
  length (x ∷ xs) = suc (length xs)

  abbrev pub drop : ℕ → List A → List A
  drop zero xs = xs
  drop (suc n) [] = []
  drop (suc n) (x ∷ xs) = drop n xs

  pub length-append : (xs ys : List A) → length (xs ++ ys) ≡ length xs + length ys
  length-append [] ys = omega arith
  length-append (x ∷ xs) ys = omega (arith, length-append xs ys)

  pub append_empty : (xs : List A) → xs ++ [] ≡ xs
  append_empty [] = refl
  append_empty (x ∷ xs) = ap (λ ys. x ∷ ys) (append_empty xs)

  pub append_assoc : (xs ys zs : List A) → (xs ++ ys) ++ zs ≡ xs ++ (ys ++ zs)
  append_assoc [] ys zs = refl
  append_assoc (x ∷ xs) ys zs = ap (λ ws. x ∷ ws) (append_assoc xs ys zs)

  pub eq-nil_of_length : (xs : List A) → length xs ≡ 0 → xs ≡ []
  eq-nil_of_length [] h = refl
  eq-nil_of_length (x ∷ xs) h = absurd (omega arith)

  -- The function `f`, changed at one index: an element of an array is assigned.
  abbrev pub update : (ℕ → A) → ℕ → A → ℕ → A
  update f i v j = if j == i then v else f j

module _ {ℓ} {A : Type ℓ} (f : ℕ → A) (i : ℕ) (v : A) where
  pub update_self : update f i v i ≡ v
  update_self = rw (==_refl i)

  pub update_ne : (j : ℕ) → j ≢ i → update f i v j ≡ f j
  update_ne j ne = elim (Bool-cases (j == i)) [
    | inl e ↦ absurd (ne ((==_iff j i).0 e))
    | inr e ↦ rw e
  ]

pub length-map {ℓ κ} :
    {A : Type ℓ} {B : Type κ} (f : A → B) (xs : List A) → length (map f xs) ≡ length xs
length-map f [] = refl
length-map f (x ∷ xs) = ap suc (length-map f xs)

-- f 0 + ... + f (n - 1)
pub sum_below : ℕ → (ℕ → ℕ) → ℕ
sum_below zero f = 0
sum_below (suc n) f = sum_below n f + f n

pub sum_below_none : (f : ℕ → ℕ) → sum_below zero f ≡ 0
unfolding sum_below
sum_below_none f = refl

pub sum_below-suc : (n : ℕ) (f : ℕ → ℕ) → sum_below (suc n) f ≡ sum_below n f + f n
unfolding sum_below
sum_below-suc n f = refl

pub sum_below-zero : (n : ℕ) → sum_below n (λ _. 0) ≡ 0
unfolding sum_below
sum_below-zero zero = refl
sum_below-zero (suc n) = omega (arith, sum_below-zero n)

-- Two functions that agree below the bound have one sum.
pub sum_below-eq :
    (n : ℕ) (f g : ℕ → ℕ) → ((j : ℕ) → j < n → f j ≡ g j) → sum_below n f ≡ sum_below n g
unfolding sum_below
sum_below-eq zero f g h = refl
sum_below-eq (suc n) f g h =
    omega (arith, sum_below-eq n f g (λ j p. h j (omega arith)), h n (omega arith))

-- A change at one index below the bound changes the sum by as much.
pub sum_below-change :
    (n i : ℕ) (f g : ℕ → ℕ)
    → i < n
    → ((j : ℕ) → (j ≡ i → ⊥) → f j ≡ g j)
    → sum_below n g + f i ≡ sum_below n f + g i
unfolding sum_below
sum_below-change zero i f g p h = absurd (omega arith)
sum_below-change (suc n) i f g p h = elim (ℕ_discrete i n) [
  | yes e ↦ omega (arith, sum_below-eq n f g (λ j q. h j (λ r. omega arith)), ap f e, ap g e)
  | no ne ↦ omega (arith, sum_below-change n i f g (omega arith) h, h n (λ r. ne (sym r)))
]
