-- ===== src/Tests/Surroundings.antt =====
-- Concrete surroundings for the runs: a host without a .env file, and a zerolog whose logger is the
-- list of the texts that it was given.
use tel.Base.{
  ℕ, ◌+◌, ◌-◌, ◌*◌, Bool, true, false, ◌&&◌, Option, none, some, List, [], ◌∷◌, ◌++◌, if◌then◌else◌,
  leb,
}
use tel.Base.Int.{ℤ, pos}
use tel.Base.Text.{Text, bytes, text_eq, is_empty}
use tel.Environment.{Outside, not_exist}
use tel.Logger.{Zerolog}

unfoldable pub read_bool : Text → Option Bool
read_bool s =
    if text_eq s (bytes "true")
    then some true
    else if text_eq s (bytes "false")
    then some false
    else none

-- the decimal number of the digits, after those that gave `n`
unfoldable pub read_digits : ℕ → Text → Option ℕ
read_digits n [] = some n
read_digits n (c ∷ s) =
    let rest = read_digits (10 * n + (c - 48)) s in if leb 48 c && leb c 57 then rest else none

unfoldable pub read_number : Text → Option ℕ
read_number [] = none
read_number (c ∷ s) = read_digits 0 (c ∷ s)

abbrev pub read_int : Text → Option ℤ
read_int s = elim (read_number s) [ none ↦ none | some n ↦ some (pos n) ]

unfoldable pub read_level : Text → Option ℤ
read_level s =
    if text_eq s (bytes "debug")
    then some (pos 0)
    else if text_eq s (bytes "info")
    then some (pos 1)
    else none

abbrev pub lone_host : Outside
lone_host = record {
  parse_bool = read_bool;
  atoi = read_int;
  parse_duration = λ s. none;
  env_is_empty = λ s. is_empty s;
  env_parse_bool = read_bool;
  env_parse_int = read_int;
  hostname = some (bytes "web-1");
  env_load_dot_env = λ path e. not_exist;
}

abbrev pub listing : Zerolog
listing = record {
  Logger = List Text;
  new_logger = λ writer. [];
  str = λ l key val. l ++ (key ∷ val ∷ []);
  int64 = λ l key val. l ++ (key ∷ []);
  bool = λ l key val. l ++ (key ∷ []);
  sampled = λ l s. l ++ (bytes "sampled" ∷ []);
  parse_level = read_level;
  parse_uint = read_number;
  debug_level = pos 0;
  info_level = pos 1;
  fatal_level = pos 4;
}
