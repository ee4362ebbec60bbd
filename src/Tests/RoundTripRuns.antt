-- ===== src/Tests/RoundTripRuns.antt =====
-- A configuration that is written and read back, with numbers as tallies after a sign.
use tel.Base.{
  ℕ, zero, suc, Bool, true, false, Option, none, some, [], ◌∷◌, ◌≡◌, refl, inr, if◌then◌else◌, ◌==◌,
}
use tel.Base.Int.{ℤ, pos, negsuc, wrap_int64}
use tel.Base.Text.{Text, bytes, is_empty, is_space, trim_space, trim_left, text_eq}
use tel.Base.Parts.{has_space, trim_space_same}
use tel.Config.{Config, default_config}
use tel.Environment.{Outside, not_exist}
use tel.Environment.Load.{config, get_config_from_env}
use tel.Environment.Written.{Printer, written, IsGiven, ReadsBack, IsWritable}
use tel.Environment.RoundTrip.{get_config_from_env-written}
use tel.Tests.Surroundings.{read_bool}

unfoldable tally : ℕ → Text
tally zero = []
tally (suc n) = 49 ∷ tally n

unfoldable count_tally : Text → Option ℕ
count_tally [] = some 0
count_tally (c ∷ s) =
    let rest = count_tally s in
    if c == 49 then elim rest [ none ↦ none | some n ↦ some (suc n) ] else none

unfoldable print_signed : ℤ → Text
print_signed (pos n) = 43 ∷ tally n
print_signed (negsuc n) = 45 ∷ tally n

unfoldable read_signed : Text → Option ℤ
read_signed [] = none
read_signed (c ∷ s) =
    let n = count_tally s in
    if c == 43
    then elim n [ none ↦ none | some n ↦ some (pos n) ]
    else if c == 45
    then elim n [ none ↦ none | some n ↦ some (negsuc n) ]
    else none

count_tally-tally : (n : ℕ) → count_tally (tally n) ≡ some n
unfolding tally count_tally
count_tally-tally zero = refl
count_tally-tally (suc n) = rw (count_tally-tally n) refl

read_signed-print_signed : (z : ℤ) → read_signed (print_signed z) ≡ some z
unfolding print_signed read_signed
read_signed-print_signed (pos n) = rw (count_tally-tally n) refl
read_signed-print_signed (negsuc n) = rw (count_tally-tally n) refl

has_space-tally : (n : ℕ) → has_space (tally n) ≡ false
unfolding tally has_space is_space
has_space-tally zero = refl
has_space-tally (suc n) = has_space-tally n

has_space-print_signed : (z : ℤ) → has_space (print_signed z) ≡ false
unfolding print_signed has_space is_space
has_space-print_signed (pos n) = has_space-tally n
has_space-print_signed (negsuc n) = has_space-tally n

abbrev tallying : Printer
tallying = record {
  print_bool = λ b. if b then bytes "true" else bytes "false";
  print_int = print_signed;
  print_duration = print_signed;
}

abbrev tally_host : Outside
tally_host = record {
  parse_bool = read_bool;
  atoi = read_signed;
  parse_duration = read_signed;
  env_is_empty = λ s. is_empty s;
  env_parse_bool = read_bool;
  env_parse_int = read_signed;
  hostname = none;
  env_load_dot_env = λ path e. not_exist;
}

print_signed_full : (z : ℤ) → is_empty (print_signed z) ≡ false
unfolding print_signed is_empty
print_signed_full (pos n) = refl
print_signed_full (negsuc n) = refl

print_signed-IsGiven : (z : ℤ) → IsGiven tally_host (print_signed z)
print_signed-IsGiven z = record {
  taken = print_signed_full z;
  not_blank =
      rw (trim_space_same (print_signed z) (has_space-print_signed z)) (print_signed_full z);
}

bool-IsGiven : (b : Bool) → IsGiven tally_host (tallying.print_bool b)
unfolding is_empty trim_space trim_left is_space
bool-IsGiven true = record { taken = refl; not_blank = refl }
bool-IsGiven false = record { taken = refl; not_blank = refl }

read_bool-bool : (b : Bool) → read_bool (tallying.print_bool b) ≡ some b
unfolding read_bool text_eq
read_bool-bool true = refl
read_bool-bool false = refl

tallying-ReadsBack : ReadsBack tally_host tallying
tallying-ReadsBack = record {
  bool_given = bool-IsGiven;
  bool_env = read_bool-bool;
  bool_back = read_bool-bool;
  int_given = print_signed-IsGiven;
  int_env = λ n fits. read_signed-print_signed n;
  int_back = λ n fits. read_signed-print_signed n;
  duration_given = print_signed-IsGiven;
  duration_back = λ n fits. read_signed-print_signed n;
}

-- The default configuration with another address, a negative number and certificates.
abbrev changed : Config
changed =
    let d = default_config (bytes "web-1") (bytes "web_1") in
    let tel = d.tel_config in
    record d {
      max_messages_per_second = negsuc 4;
      debug = true;
      tel_config = record tel {
        address = bytes "collector:4317";
        raw = record { ca = bytes "CA"; cert = []; key = bytes "KEY" };
      };
    }

changed-IsWritable : IsWritable tally_host changed
unfolding default_config is_empty trim_space trim_left is_space wrap_int64
changed-IsWritable = record {
  monitor_addr = record { taken = refl; not_blank = refl };
  address = record { taken = refl; not_blank = refl };
  server_name = inr refl;
  service = record { taken = refl; not_blank = refl };
  pod = record { taken = refl; not_blank = refl };
  namespace = record { taken = refl; not_blank = refl };
  environment = record { taken = refl; not_blank = refl };
  version = record { taken = refl; not_blank = refl };
  log_level = record { taken = refl; not_blank = refl };
  log_encode = record { taken = refl; not_blank = refl };
  level_limits = inr refl;
  sampler = record { taken = refl; not_blank = refl };
  periodic = refl;
  export = refl;
  messages = refl;
  max_cardinality = refl;
  max_instruments = refl;
  interval = refl;
  warn_pct = refl;
  buckets = refl;
}

get_config_from_env-written_example :
    get_config_from_env tally_host (written tallying changed) ≡ config changed
get_config_from_env-written_example =
    get_config_from_env-written tally_host tallying changed tallying-ReadsBack changed-IsWritable
      refl
