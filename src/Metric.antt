-- ===== src/Metric.antt =====
-- metric.go: the attribute cache. A Go string is a list of bytes, a map is an association list, the
-- array of shards is a function of the index, and a method returns the cache after the call.
-- The three maps of a shard hold keys of one, two and three labels; `Key` is any of the three, and
-- a function named `..._at` is the body that the source writes once for each number of labels.
-- Locks: a function here is a critical section, or a sequence of them with no other caller between.
pub mod Keys
pub mod Entries
pub mod Shards
pub mod Invariant
pub mod Preserve
pub mod Refine
pub mod Deny
pub mod Account
pub mod History
pub mod Subjects
pub mod Reserve
pub mod Rounds
use tel.Base.{
  ℕ, ◌+◌, ◌*◌, ◌%◌, ◌^◌, ◌≡◌, ◌↔◌, Bool, true, false, not, ◌&&◌, Option, none, some, List, [], ◌∷◌,
  ◌++◌, map, arith, length, update, leb, if◌then◌else◌, ◌==◌, ◌||◌, zero, suc, is_some, get_or,
}
use tel.Base.Int.{ℤ, or_default}
use tel.Base.Text.{Text, bytes, text_eq, text_eq_iff, is_empty}
use tel.Base.Assoc.{Eq, text_Eq, Map, lookup as map_lookup, insert as map_insert}
use tel.Otel.{Otel}
use tel.Cardinality.{CardinalityDetector, default_max_cardinality, observe_miss, observe_denied}
use Keys.{
  Key, DuoKey, TrioKey, duo_Eq, trio_Eq, one, duo, trio, attr_cache_shards, shard_index,
  shard_index2, shard_index3, index_of, key_name, labels_of, attrs_of,
}

abbrev pub overflow_subject : Text
overflow_subject = bytes "_overflow"

pub record SubjectEntry (o : Otel) : Type 0 where
  pub attrs : o.AttrSet
  pub add_opts : List o.AddOption
  pub record_opts : List o.RecordOption

pub record AttrShard (o : Otel) : Type 0 where
  pub cache : Map Text (SubjectEntry o)
  pub cache2 : Map DuoKey (SubjectEntry o)
  pub cache3 : Map TrioKey (SubjectEntry o)

pub record AttrCache (o : Otel) : Type 0 where
  pub detector : Option CardinalityDetector
  pub allowed : Option (Map Text (Unit {0}))
  pub deny_once : Map Text (Unit {0})
  -- set by overflowOnce
  pub overflow : Option (SubjectEntry o)
  pub shards : ℕ → AttrShard o
  pub max_entries : ℕ
  pub size : ℕ
  pub deny_unknown : Bool

module _ (o : Otel) where
  open o use {
    new_set, empty_set, AttrSet, set_len, AddOption, RecordOption, with_attribute_set_add,
    with_attribute_set_record,
  }

  unfoldable pub new_subject_entry : AttrSet → SubjectEntry o
  new_subject_entry attrs = record {
    attrs = attrs;
    add_opts = with_attribute_set_add attrs ∷ [];
    record_opts = with_attribute_set_record attrs ∷ [];
  }

  unfoldable pub attrs_to_add_opts : AttrSet → List AddOption
  attrs_to_add_opts attrs = if set_len attrs == 0 then [] else with_attribute_set_add attrs ∷ []

  unfoldable pub attrs_to_record_opts : AttrSet → List RecordOption
  attrs_to_record_opts attrs =
      if set_len attrs == 0 then [] else with_attribute_set_record attrs ∷ []

  unfoldable pub empty_shard : AttrShard o
  empty_shard = record { cache = []; cache2 = []; cache3 = [] }

  unfoldable pub new_attr_cache : ℤ → AttrCache o
  unfolding empty_shard
  new_attr_cache max_entries = record {
    detector = none;
    allowed = none;
    deny_once = [];
    overflow = none;
    shards = λ _. empty_shard;
    max_entries = or_default max_entries default_max_cardinality;
    size = 0;
    deny_unknown = false;
  }

  unfoldable pub set_detector : AttrCache o → Option CardinalityDetector → AttrCache o
  set_detector c d = record c { detector = d }

  unfoldable pub set_deny_unknown : AttrCache o → Bool → AttrCache o
  set_deny_unknown c deny = record c { deny_unknown = deny }

  -- the loop of `Allow` over its arguments
  unfoldable pub allow_labels : Map Text (Unit {0}) → List Text → Map Text (Unit {0})
  allow_labels next [] = next
  allow_labels next (l ∷ labels) =
      allow_labels (if is_empty l then next else map_insert next l tt) labels

  unfoldable pub allow : AttrCache o → List Text → AttrCache o
  allow c [] = c
  allow c (l ∷ labels) = record c {
    allowed = some (allow_labels (get_or c.allowed []) (l ∷ labels));
  }

  -- the loop of `isAllowed` over its arguments
  unfoldable pub all_allowed : Map Text (Unit {0}) → List Text → Bool
  all_allowed allowed [] = true
  all_allowed allowed (l ∷ labels) =
      (is_empty l || is_some (map_lookup allowed l)) && all_allowed allowed labels

  unfoldable pub is_allowed : AttrCache o → List Text → Bool
  is_allowed c labels = elim c.deny_unknown [
    | false ↦ true
    | true ↦ elim c.allowed [
      | none ↦ false
      | some allowed ↦ elim allowed [ [] ↦ false | e ∷ m ↦ all_allowed (e ∷ m) labels ]
    ]
  ]

  -- The warning is logged, and the detector told, the first time that a label is denied.
  unfoldable pub note_denied : AttrCache o → Text → AttrCache o
  note_denied c label = elim (map_lookup c.deny_once label) [
    | some _ ↦ c
    | none ↦ record c {
      deny_once = map_insert c.deny_once label tt;
      detector = observe_denied c.detector label;
    }
  ]
