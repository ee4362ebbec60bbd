-- ===== src/Tests/LimitRuns.antt =====
-- The limits of levels at a concrete text.
use tel.Base.{ℕ, ◌≡◌, refl, some, [], ◌∷◌, if◌then◌else◌, ◌==◌}
use tel.Base.Int.{ℤ, pos, eq_ℤ}
use tel.Base.Text.{Text, bytes, text_eq, is_space}
use tel.Base.Parts.{has_byte, has_space}
use tel.LogSampler.Limits.{
  parse_level_message_limits, parse_level_message_limits-print_limits, add_limits, print_limits,
  IsPrintable,
}
use tel.Tests.Surroundings.{read_digits, read_number, read_level}

-- How the levels and the numbers of the run are written.
unfoldable print_level : ℤ → Text
print_level lvl = if eq_ℤ lvl (pos 0) then bytes "debug" else bytes "info"

unfoldable print_uint : ℕ → Text
print_uint n = if n == 50 then bytes "50" else bytes "200"

debug_IsPrintable : IsPrintable print_level print_uint read_level read_number (pos 0) 50
unfolding print_level print_uint read_level read_number read_digits eq_ℤ text_eq has_byte has_space
    is_space
debug_IsPrintable = record {
  level_back = refl;
  uint_back = refl;
  level_comma = refl;
  level_equals = refl;
  level_space = refl;
  uint_comma = refl;
  uint_space = refl;
}

info_IsPrintable : IsPrintable print_level print_uint read_level read_number (pos 1) 200
unfolding print_level print_uint read_level read_number read_digits eq_ℤ text_eq has_byte has_space
    is_space
info_IsPrintable = record {
  level_back = refl;
  uint_back = refl;
  level_comma = refl;
  level_equals = refl;
  level_space = refl;
  uint_comma = refl;
  uint_space = refl;
}

parse_level_message_limits-print_limits_example :
    parse_level_message_limits read_level read_number
      (print_limits print_level print_uint ((pos 0, 50) ∷ (pos 1, 200) ∷ []))
    ≡ some (add_limits [] ((pos 0, 50) ∷ (pos 1, 200) ∷ []))
parse_level_message_limits-print_limits_example =
    parse_level_message_limits-print_limits print_level print_uint read_level read_number (pos 0) 50
      ((pos 1, 200) ∷ []) (debug_IsPrintable, (info_IsPrintable, tt))
