-- ===== src/Base/Parts.antt =====
-- Texts in parts: what the program calls of the package `strings` to take a text apart at a byte.
use Prim.Native.Nat.{ℕ}
use mathlib.Core.Path.{◌≡◌, refl, ap, ◌∙◌}
use mathlib.Core.Bool.{Bool, true, false, ◌||◌}
use mathlib.Core.Logic.{◌⊎◌, inl, inr}
use mathlib.Core.Option.{some}
use mathlib.Core.List.{List, [], ◌∷◌, ◌++◌, map, reverse, reverse_aux, reverse-reverse}
use native.Mathlib.Omega.{arith}
use tel.Base.Tests.{◌==◌, if◌then◌else◌, ==_refl, ==_iff, Bool-cases}
use tel.Base.Text.{Text, is_space, has_prefix, trim_left, trim_space, cut}

-- strings.Contains
unfoldable pub contains : Text → Text → Bool
contains [] sub = has_prefix [] sub
contains (c ∷ s) sub = has_prefix (c ∷ s) sub || contains s sub

unfoldable pub has_byte : ℕ → Text → Bool
has_byte sep [] = false
has_byte sep (c ∷ s) = (c == sep) || has_byte sep s

-- What stands behind the last of a byte, or the whole text: `s[strings.LastIndex(s, sep)+1:]`.
unfoldable pub after_last : ℕ → Text → Text
after_last sep [] = []
after_last sep (c ∷ s) =
    let rest = after_last sep s in if has_byte sep s then rest else if c == sep then s else c ∷ s

-- strings.ReplaceAll of one byte by another
unfoldable pub replace_byte : ℕ → ℕ → Text → Text
replace_byte old new s = map (λ c. if c == old then new else c) s

abbrev cons_first : ℕ → List Text → List Text
cons_first c [] = (c ∷ []) ∷ []
cons_first c (p ∷ ps) = (c ∷ p) ∷ ps

-- strings.Split at one byte
unfoldable pub split : Text → ℕ → List Text
split [] sep = [] ∷ []
split (c ∷ s) sep = (let rest = split s sep in if c == sep then [] ∷ rest else cons_first c rest)

-- the parts with the byte between them
unfoldable pub join : ℕ → List Text → Text
join sep [] = []
join sep (p ∷ []) = p
join sep (p ∷ (q ∷ ps)) = p ++ sep ∷ join sep (q ∷ ps)

-- No byte of the text is a blank.
unfoldable pub has_space : Text → Bool
has_space [] = false
has_space (c ∷ s) = is_space c || has_space s

module _ (sep : ℕ) where
  pub has_byte-append : (s t : Text) → has_byte sep (s ++ t) ≡ (has_byte sep s || has_byte sep t)
  unfolding has_byte
  has_byte-append [] t = refl
  has_byte-append (c ∷ s) t = ground (arith, has_byte-append s t)

  pub has_byte-after_last : (s : Text) → has_byte sep (after_last sep s) ≡ false
  unfolding has_byte after_last
  has_byte-after_last [] = refl
  has_byte-after_last (c ∷ s) = ground (arith, has_byte-after_last s)

  after_last_whole : (s : Text) → has_byte sep s ≡ false → after_last sep s ≡ s
  unfolding has_byte after_last
  after_last_whole [] h = refl
  after_last_whole (c ∷ s) h = ground (arith, h)

  after_last_part :
      (s : Text) → has_byte sep s ≡ true → (p : Text) × (s ≡ p ++ (sep ∷ after_last sep s))
  unfolding has_byte after_last
  after_last_part [] h = ground (arith, h)
  after_last_part (c ∷ s) h = elim (Bool-cases (has_byte sep s)) [
    | inl within ↦ let (p, e) = after_last_part s within in simp within (c ∷ p, ap (λ x. c ∷ x) e)
    | inr without ↦ elim (Bool-cases (c == sep)) [
      | inl here ↦ simp (without, here) ([], ap (λ x. x ∷ s) ((==_iff c sep).0 here))
      | inr apart ↦ ground (arith, h, without, apart)
    ]
  ]

  pub after_last_cases :
      (s : Text) → (after_last sep s ≡ s) ⊎ ((p : Text) × (s ≡ p ++ (sep ∷ after_last sep s)))
  after_last_cases s = elim (Bool-cases (has_byte sep s)) [
    | inl within ↦ inr (after_last_part s within)
    | inr without ↦ inl (after_last_whole s without)
  ]

  pub split_lacks : (p : Text) → has_byte sep p ≡ false → split p sep ≡ p ∷ []
  unfolding has_byte split
  split_lacks [] h = refl
  split_lacks (c ∷ s) h = ground (arith, split_lacks s)

  pub split-append :
      (p s : Text) → has_byte sep p ≡ false → split (p ++ sep ∷ s) sep ≡ p ∷ split s sep
  unfolding has_byte split
  split-append [] s h = rw (==_refl sep) refl
  split-append (c ∷ p) s h = ground (arith, split-append p s)

  pub cut-append : (a b : Text) → has_byte sep a ≡ false → cut (a ++ sep ∷ b) sep ≡ some (a, b)
  unfolding has_byte cut
  cut-append [] b h = rw (==_refl sep) refl
  cut-append (c ∷ a) b h = ground (arith, cut-append a b)

pub has_space-append : (s t : Text) → has_space (s ++ t) ≡ (has_space s || has_space t)
unfolding has_space
has_space-append [] t = refl
has_space-append (c ∷ s) t = ground (arith, has_space-append s t)

has_space-reverse_aux : (s t : Text) → has_space (reverse_aux s t) ≡ (has_space s || has_space t)
unfolding has_space
has_space-reverse_aux [] t = refl
has_space-reverse_aux (c ∷ s) t = ground (arith, has_space-reverse_aux s (c ∷ t))

trim_left_same : (s : Text) → has_space s ≡ false → trim_left s ≡ s
unfolding has_space trim_left
trim_left_same [] h = refl
trim_left_same (c ∷ s) h = ground arith

pub trim_space_same : (s : Text) → has_space s ≡ false → trim_space s ≡ s
unfolding trim_space has_space
trim_space_same s h =
    let back : has_space (reverse s) ≡ false = ground (arith, has_space-reverse_aux s []) in
    rw (trim_left_same s h, trim_left_same (reverse s) back) (reverse-reverse s)

abbrev pub AllLack : ℕ → List Text → Type 0
AllLack sep [] = Unit {0}
AllLack sep (p ∷ ps) = (has_byte sep p ≡ false) × AllLack sep ps

pub split-join :
    (sep : ℕ) (p : Text) (ps : List Text)
    → AllLack sep (p ∷ ps)
    → split (join sep (p ∷ ps)) sep ≡ p ∷ ps
unfolding join
split-join sep p [] (h, hs) = split_lacks sep p h
split-join sep p (q ∷ ps) (h, hs) =
    split-append sep p (join sep (q ∷ ps)) h ∙ ap (λ l. p ∷ l) (split-join sep q ps hs)

-- No part has a blank.
abbrev pub NoneSpaced : List Text → Type 0
NoneSpaced [] = Unit {0}
NoneSpaced (p ∷ ps) = (has_space p ≡ false) × NoneSpaced ps

pub has_space-join :
    (sep : ℕ) (ps : List Text)
    → is_space sep ≡ false
    → NoneSpaced ps
    → has_space (join sep ps) ≡ false
unfolding join has_space
has_space-join sep [] h plain = refl
has_space-join sep (p ∷ []) h (hp, plain) = hp
has_space-join sep (p ∷ (q ∷ ps)) h (hp, plain) =
    ground
      (arith, has_space-append p (sep ∷ join sep (q ∷ ps)), has_space-join sep (q ∷ ps) h plain)
