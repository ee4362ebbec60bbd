-- ===== src/Base/Assoc.antt =====
-- A Go map as an association list, over keys with a Boolean equality, with the laws of a lookup
-- after an assignment.
use Prim.Native.Nat.{◌+◌, ◌≤◌}
use mathlib.Core.Path.{◌≡◌, refl}
use mathlib.Core.Logic.{◌↔◌}
use mathlib.Core.Bool.{Bool, true}
use mathlib.Core.Option.{Option, none, some}
use mathlib.Core.List.{List, [], ◌∷◌, map}
use native.Mathlib.Omega.{arith}
use tel.Base.Tests.{if◌then◌else◌}
use tel.Base.Lists.{length}
use tel.Base.Text.{Text, text_eq, text_eq_iff}

pub record Eq {ℓ} (A : Type ℓ) : Type ℓ where
  pub beq : A → A → Bool
  pub beq_iff : (a b : A) → (beq a b ≡ true) ↔ (a ≡ b)

instance abbrev pub text_Eq : Eq Text
text_Eq = record { beq = text_eq; beq_iff = text_eq_iff }

abbrev pub Map : Type 0 → Type 0 → Type 0
Map K V = List (K × V)

abbrev pub keys : {K V : Type 0} → Map K V → List K
keys m = map (λ e. e.0) m

module _ {K V : Type 0} ⦃e : Eq K⦄ where
  -- `v, ok := m[k]`
  unfoldable pub lookup : Map K V → K → Option V
  lookup [] k = none
  lookup ((j, v) ∷ m) k = if e.beq j k then some v else lookup m k

  -- `m[k] = v`
  unfoldable pub insert : Map K V → K → V → Map K V
  insert [] k v = (k, v) ∷ []
  insert ((j, w) ∷ m) k v = if e.beq j k then (k, v) ∷ m else (j, w) ∷ insert m k v

  pub lookup-insert :
      (m : Map K V) (k : K) (v : V) (j : K)
      → lookup (insert m k v) j ≡ (if e.beq k j then some v else lookup m j)
  unfolding lookup insert
  lookup-insert [] k v j = refl
  lookup-insert ((i, w) ∷ m) k v j =
      ground (arith, e.beq_iff i k, e.beq_iff i j, e.beq_iff k j, lookup-insert m k v j)

  -- An assignment to a key that is not there adds one entry.
  pub length-insert :
      (m : Map K V) (k : K) (v : V) → lookup m k ≡ none → length (insert m k v) ≡ length m + 1
  unfolding lookup insert
  length-insert [] k v h = omega arith
  length-insert ((i, w) ∷ m) k v h = ground (arith, length-insert m k v)

  -- An assignment never adds more than one entry.
  pub length-insert-le : (m : Map K V) (k : K) (v : V) → length (insert m k v) ≤ length m + 1
  unfolding insert
  length-insert-le [] k v = omega arith
  length-insert-le ((i, w) ∷ m) k v = ground (arith, length-insert-le m k v)

pub beq_refl : {K : Type 0} ⦃e : Eq K⦄ (k : K) → e.beq k k ≡ true
beq_refl ⦃e⦄ k = (e.beq_iff k k).1 refl
