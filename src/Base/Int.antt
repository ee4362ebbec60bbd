-- ===== src/Base/Int.antt =====
-- Go's int and int64 as signed numbers without a width, and the tests that the program makes on them.
use Prim.Native.Nat.{ℕ, suc, ◌+◌, ◌-◌, ◌*◌, ◌%◌, ◌^◌}
use mathlib.Core.Bool.{Bool, true, false}
use mathlib.Core.Path.{◌≡◌}
use mathlib.Core.Logic.{◌↔◌}
use native.Mathlib.Omega.{arith}
use tel.Base.Tests.{if◌then◌else◌, leb, ltb, ◌==◌, ==_iff}

-- `negsuc n` is -(n + 1).
pub data ℤ : Type 0 where
  pos : ℕ → ℤ
  negsuc : ℕ → ℤ

abbrev pub pos_part : ℤ → ℕ
pos_part (pos n) = n
pos_part (negsuc n) = 0

abbrev pub neg_part : ℤ → ℕ
neg_part (pos n) = 0
neg_part (negsuc n) = suc n

abbrev pub leb_ℤ : ℤ → ℤ → Bool
leb_ℤ a b = leb (pos_part a + neg_part b) (pos_part b + neg_part a)

abbrev pub ltb_ℤ : ℤ → ℤ → Bool
ltb_ℤ a b = ltb (pos_part a + neg_part b) (pos_part b + neg_part a)

-- `if n <= 0 { n = d }`, for a default `d`: the result is a natural number.
abbrev pub or_default : ℤ → ℕ → ℕ
or_default n d = if leb_ℤ n (pos 0) then d else pos_part n

-- a - b, as an integer.
abbrev pub sub_ℕ : ℕ → ℕ → ℤ
sub_ℕ a b = if leb b a then pos (a - b) else negsuc (b - a - 1)

unfoldable pub eq_ℤ : ℤ → ℤ → Bool
eq_ℤ (pos a) (pos b) = a == b
eq_ℤ (pos a) (negsuc b) = false
eq_ℤ (negsuc a) (pos b) = false
eq_ℤ (negsuc a) (negsuc b) = a == b

pub eq_ℤ_iff : (a b : ℤ) → (eq_ℤ a b ≡ true) ↔ (a ≡ b)
unfolding eq_ℤ
eq_ℤ_iff (pos a) (pos b) = ground (arith, ==_iff a b)
eq_ℤ_iff (pos a) (negsuc b) = ground arith
eq_ℤ_iff (negsuc a) (pos b) = ground arith
eq_ℤ_iff (negsuc a) (negsuc b) = ground (arith, ==_iff a b)

-- Go's int64 of a whole number: it wraps around at 64 bits.
unfoldable pub wrap_int64 : ℤ → ℤ
wrap_int64 z =
    let bits : ℕ = elim z [ pos n ↦ n % 2 ^ 64 | negsuc n ↦ 2 ^ 64 - 1 - n % 2 ^ 64 ] in
    if ltb bits (2 ^ 63) then pos bits else negsuc (2 ^ 64 - 1 - bits)

-- k times a whole number
abbrev pub times : ℕ → ℤ → ℤ
times k (pos n) = pos (k * n)
times k (negsuc n) = sub_ℕ 0 (k * suc n)
