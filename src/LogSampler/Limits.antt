-- ===== src/LogSampler/Limits.antt =====
-- log_sampler.go: parseLevelMessageLimits, which reads "debug=50,info=200". zerolog's ParseLevel and
-- strconv's ParseUint are parameters, `none` for an error.
use tel.Base.{
  ℕ, false, Option, none, some, List, [], ◌∷◌, ◌++◌, map, ◌≡◌, refl, if◌then◌else◌, arith, inl, inr,
  Bool-cases,
}
use tel.Base.Int.{ℤ, eq_ℤ, eq_ℤ_iff}
use tel.Base.Text.{Text, is_empty, is_space, trim_space, cut}
use tel.Base.Parts.{
  split, join, has_byte, has_space, has_byte-append, has_space-append, cut-append, trim_space_same,
  AllLack, NoneSpaced, split-join, has_space-join,
}
use tel.Base.Assoc.{Eq, Map, insert}

instance abbrev pub int_Eq : Eq ℤ
int_Eq = record { beq = eq_ℤ; beq_iff = eq_ℤ_iff }

abbrev pub comma : ℕ
comma = 44

abbrev pub equals : ℕ
equals = 61

-- `none` is a nil map.
abbrev some_limits : Map ℤ ℕ → Option (Map ℤ ℕ)
some_limits [] = none
some_limits (l ∷ limits) = some (l ∷ limits)

module _ (parse_level : Text → Option ℤ) (parse_uint : Text → Option ℕ) where
  -- one round of the loop: `none` for a part that is skipped
  unfoldable pub parse_limit : Text → Option (ℤ × ℕ)
  parse_limit part = elim (cut (trim_space part) equals) [
    | none ↦ none
    | some (k, limit_str) ↦ elim (parse_level (trim_space k)) [
      | none ↦ none
      | some lvl ↦ elim (parse_uint (trim_space limit_str)) [ none ↦ none | some n ↦ some (lvl, n) ]
    ]
  ]

  -- `out[lvl] = n`
  abbrev pub add_limit : Map ℤ ℕ → Option (ℤ × ℕ) → Map ℤ ℕ
  add_limit out none = out
  add_limit out (some (lvl, n)) = insert out lvl n

  unfoldable pub parse_limits : Map ℤ ℕ → List Text → Map ℤ ℕ
  parse_limits out [] = out
  parse_limits out (part ∷ parts) = parse_limits (add_limit out (parse_limit part)) parts

  unfoldable pub parse_level_message_limits : Text → Option (Map ℤ ℕ)
  parse_level_message_limits text =
      let spec = trim_space text in
      if is_empty spec then none else some_limits (parse_limits [] (split spec comma))

-- the map of a list, where the last number of a level counts
unfoldable pub add_limits : Map ℤ ℕ → List (ℤ × ℕ) → Map ℤ ℕ
add_limits out [] = out
add_limits out ((lvl, n) ∷ ls) = add_limits (insert out lvl n) ls

some_limits-add_limits :
    (e : ℤ × ℕ) (out : Map ℤ ℕ) (ls : List (ℤ × ℕ))
    → some_limits (add_limits (e ∷ out) ls) ≡ some (add_limits (e ∷ out) ls)
unfolding add_limits insert
some_limits-add_limits e out [] = refl
some_limits-add_limits (l, k) out ((lvl, n) ∷ ls) = elim (Bool-cases (eq_ℤ l lvl)) [
  | inl on ↦ simp on (some_limits-add_limits (lvl, n) out ls)
  | inr off ↦ simp off (some_limits-add_limits (l, k) (insert out lvl n) ls)
]

is_empty-append : (s : Text) (c : ℕ) (t : Text) → is_empty (s ++ c ∷ t) ≡ false
unfolding is_empty
is_empty-append [] c t = refl
is_empty-append (x ∷ s) c t = refl

is_empty-join :
    (a b : Text) (c : ℕ) (ps : List Text) → is_empty (join comma ((a ++ c ∷ b) ∷ ps)) ≡ false
unfolding join
is_empty-join a b c [] = is_empty-append a c b
is_empty-join a b c (q ∷ ps) = is_empty-append (a ++ c ∷ b) comma (join comma (q ∷ ps))

-- How limits are written.
module _ (print_level : ℤ → Text) (print_uint : ℕ → Text) where
  abbrev pub print_limit : ℤ × ℕ → Text
  print_limit (lvl, n) = print_level lvl ++ equals ∷ print_uint n

  unfoldable pub print_limits : List (ℤ × ℕ) → Text
  print_limits ls = join comma (map print_limit ls)

  -- The texts of the levels and numbers of a list are read back, and have no comma, equals sign or
  -- blank.
  module _ (parse_level : Text → Option ℤ) (parse_uint : Text → Option ℕ) where
    pub record IsPrintable (lvl : ℤ) (n : ℕ) : Type 0 where
      pub level_back : parse_level (print_level lvl) ≡ some lvl
      pub uint_back : parse_uint (print_uint n) ≡ some n
      pub level_comma : has_byte comma (print_level lvl) ≡ false
      pub level_equals : has_byte equals (print_level lvl) ≡ false
      pub level_space : has_space (print_level lvl) ≡ false
      pub uint_comma : has_byte comma (print_uint n) ≡ false
      pub uint_space : has_space (print_uint n) ≡ false

    abbrev pub AllPrintable : List (ℤ × ℕ) → Type 0
    AllPrintable [] = Unit {0}
    AllPrintable ((lvl, n) ∷ ls) = IsPrintable lvl n × AllPrintable ls

    print_limit_plain :
        (lvl : ℤ) (n : ℕ)
        → IsPrintable lvl n
        → (has_byte comma (print_limit (lvl, n)) ≡ false)
          × (has_space (print_limit (lvl, n)) ≡ false)
    unfolding has_byte has_space is_space
    print_limit_plain lvl n p = ground (
      arith,
      p,
      has_byte-append comma (print_level lvl) (equals ∷ print_uint n),
      has_space-append (print_level lvl) (equals ∷ print_uint n),
    )

    parse_limit-print_limit :
        (lvl : ℤ) (n : ℕ)
        → IsPrintable lvl n
        → parse_limit parse_level parse_uint (print_limit (lvl, n)) ≡ some (lvl, n)
    unfolding parse_limit
    parse_limit-print_limit lvl n p =
        rw
          (
            trim_space_same (print_limit (lvl, n)) (print_limit_plain lvl n p).1,
            cut-append equals (print_level lvl) (print_uint n) p.level_equals,
            trim_space_same (print_level lvl) p.level_space,
            p.level_back,
            trim_space_same (print_uint n) p.uint_space,
            p.uint_back,
            parse_limit,
          )
          refl

    parse_limits-print_limit :
        (ls : List (ℤ × ℕ)) (out : Map ℤ ℕ)
        → AllPrintable ls
        → parse_limits parse_level parse_uint out (map print_limit ls) ≡ add_limits out ls
    unfolding parse_limits add_limits
    parse_limits-print_limit [] out h = refl
    parse_limits-print_limit ((lvl, n) ∷ ls) out (p, ps) =
        rw (parse_limit-print_limit lvl n p, parse_limits)
          (parse_limits-print_limit ls (insert out lvl n) ps)

    parts_plain :
        (ls : List (ℤ × ℕ))
        → AllPrintable ls
        → AllLack comma (map print_limit ls) × NoneSpaced (map print_limit ls)
    parts_plain [] h = (tt, tt)
    parts_plain ((lvl, n) ∷ ls) (p, ps) =
        let (lacks, spaced) = print_limit_plain lvl n p in
        let (lack, none_spaced) = parts_plain ls ps in ((lacks, lack), (spaced, none_spaced))

    -- Limits that are written as "level=number" with commas are read back, whatever their order:
    -- the map of them, where the last number of a level counts.
    pub parse_level_message_limits-print_limits :
        (lvl : ℤ) (n : ℕ) (ls : List (ℤ × ℕ))
        → AllPrintable ((lvl, n) ∷ ls)
        → parse_level_message_limits parse_level parse_uint (print_limits ((lvl, n) ∷ ls))
          ≡ some (add_limits [] ((lvl, n) ∷ ls))
    unfolding parse_level_message_limits print_limits is_space insert add_limits
    parse_level_message_limits-print_limits lvl n ls h =
        let parts = map print_limit ((lvl, n) ∷ ls) in
        let (lack, plain) = parts_plain ((lvl, n) ∷ ls) h in
        rw
          (
            trim_space_same (join comma parts) (has_space-join comma parts refl plain),
            split-join comma (print_limit (lvl, n)) (map print_limit ls) lack,
            parse_limits-print_limit ((lvl, n) ∷ ls) [] h,
            is_empty-join (print_level lvl) (print_uint n) equals (map print_limit ls),
          )
          (some_limits-add_limits (lvl, n) [] ls)
