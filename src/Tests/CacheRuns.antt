-- ===== src/Tests/CacheRuns.antt =====
-- The attribute cache at concrete inputs.
use tel.Base.{
  ℕ, ◌+◌, ◌*◌, sum_below, ◌≤◌, ◌≡◌, ◌↔◌, ◌⊎◌, inl, inr, refl, Bool, true, false, not, ◌&&◌, ◌||◌,
  Option, none, some, List, [], ◌∷◌, arith, length, is_some,
}
use tel.Base.Int.{pos, negsuc, or_default}
use tel.Base.Text.{Text, bytes, is_empty, text_eq, among}
use tel.Base.Assoc.{text_Eq, lookup as map_lookup, insert as map_insert}
use tel.Cardinality.{
  CardinalitySettings, default_max_cardinality, new_cardinality_detector, observe_miss,
  observe_denied,
}
use tel.Metric.Keys.{
  Key, one, duo, trio, fnv32a_string, shard_index, shard_index2, labels_of, key_name,
}
use tel.Metric.{
  AttrCache, new_attr_cache, set_detector, set_deny_unknown, allow, allow_labels, is_allowed,
  all_allowed, note_denied, new_subject_entry,
}
use tel.Metric.Entries.{
  entry_at, entry_hit, entry_miss, lookup_at, find, put, reserve_slot, overflow_entry, len,
  subjects,
}
use tel.Metric.Invariant.{IsValid, entry_of, overflow_value, total_entries}
use tel.Metric.Preserve.{new_attr_cache-IsValid, entry_at-IsValid}
use tel.Metric.Refine.{view, intern, entry_at-intern}
use tel.Metric.Deny.{lookup_at-intern}
use tel.Metric.History.{Op, looks_up, allows, denies, run, step, run-keeps, len-run-le}
use tel.Metric.Subjects.{subjects-cached}
use tel.Metric.Reserve.{
  Race, Reach, Step, IsSafe, start, Reach-IsSafe, here, next, loads, loads_full, swaps, at_swap,
}
use tel.Metric.Rounds.{steps, finished, Reach-ends}
use tel.Tests.Setting.{plain, orders, done, late}

program : Unit {0}
unfolding map_lookup map_insert fnv32a_string shard_index shard_index2 new_attr_cache allow
    allow_labels is_allowed all_allowed note_denied new_subject_entry entry_at entry_hit entry_miss
    lookup_at find put reserve_slot overflow_entry len subjects observe_miss observe_denied
    new_cardinality_detector set_detector set_deny_unknown run step text_eq is_empty
program = tt

-- FNV-1a of "a", and of the empty string.
fnv_runs : (fnv32a_string (bytes "a") ≡ 0xe40c292c) × (fnv32a_string [] ≡ 2166136261)
unfolding fnv32a_string
fnv_runs = (refl, refl)

-- A cache of two slots.
abbrev two_slots : AttrCache plain
two_slots = new_attr_cache plain (pos 2)

abbrev after_one : AttrCache plain
after_one = (entry_at plain two_slots (one orders)).0

-- The third key of a cache with two slots shares the overflow entry; the first is kept.
third_overflows :
    let c =
      run plain two_slots
        (looks_up (one orders) ∷ looks_up (duo orders done) ∷ looks_up (one late) ∷ []) in
    (len plain c ≡ 2)
    × ((entry_at plain c (one late)).1 ≡ overflow_value plain)
    × ((entry_at plain c (one orders)).1 ≡ entry_of plain (one orders))
unfolding program
third_overflows = (refl, refl, refl)

new_IsValid : IsValid plain two_slots
new_IsValid = new_attr_cache-IsValid plain (pos 2)

entry_at-intern_example :
    (view plain (entry_at plain two_slots (one orders)).0
      ≡ (intern plain (view plain two_slots) (one orders)).0)
    × ((entry_at plain two_slots (one orders)).1
        ≡ (intern plain (view plain two_slots) (one orders)).1)
entry_at-intern_example = entry_at-intern plain two_slots (one orders) new_IsValid

-- The same cache, which denies every label but "orders".
abbrev guarded : AttrCache plain
guarded = run plain two_slots (denies true ∷ allows (orders ∷ []) ∷ [])

guarded-IsValid : IsValid plain guarded
unfolding program entry_hit
guarded-IsValid = record {
  bounded = new_IsValid.bounded;
  counted = new_IsValid.counted;
  placed = new_IsValid.placed;
  interned = new_IsValid.interned;
  overflowed = new_IsValid.overflowed;
}

guarded_denies :
    ((lookup_at plain guarded (one late)).1 ≡ none)
    × (len plain (lookup_at plain guarded (one orders)).0 ≡ 1)
unfolding program
guarded_denies = (refl, refl)

lookup_at-intern_example :
    ((is_allowed plain guarded (labels_of (one late)) ≡ false)
      × ((lookup_at plain guarded (one late)).1 ≡ none)
      × (view plain (lookup_at plain guarded (one late)).0 ≡ view plain guarded))
    ⊎ ((is_allowed plain guarded (labels_of (one late)) ≡ true)
        × ((lookup_at plain guarded (one late)).1
            ≡ some (intern plain (view plain guarded) (one late)).1)
        × (view plain (lookup_at plain guarded (one late)).0
            ≡ (intern plain (view plain guarded) (one late)).0))
lookup_at-intern_example = lookup_at-intern plain guarded (one late) guarded-IsValid

abbrev history : List Op
history =
    looks_up (one orders)
    ∷ looks_up (duo orders done)
    ∷ denies true
    ∷ allows (late ∷ [])
    ∷ looks_up (one late)
    ∷ looks_up (trio orders done late)
    ∷ []

len-run-le_example :
    let c = run plain two_slots history in
    (len plain c ≡ total_entries plain c.shards)
    × (len plain c ≤ or_default (pos 2) default_max_cardinality)
len-run-le_example = len-run-le plain (pos 2) history

after_one-IsValid : IsValid plain after_one
after_one-IsValid = entry_at-IsValid plain two_slots (one orders) new_IsValid

run-keeps_example :
    entry_hit plain (run plain after_one history) (one orders) ≡ some (entry_of plain (one orders))
unfolding program
run-keeps_example =
    run-keeps plain after_one history (one orders) (entry_of plain (one orders)) after_one-IsValid
      refl

subjects-cached_example :
    (length (subjects plain after_one) ≡ len plain after_one)
    × ((n : Text)
        → (among n (subjects plain after_one) ≡ true)
          ↔ ((k : Key) × (key_name k ≡ n) × (is_some (entry_hit plain after_one k) ≡ true)))
subjects-cached_example = subjects-cached plain after_one after_one-IsValid

abbrev settings : CardinalitySettings
settings = record {
  max_cardinality = pos 2;
  max_instruments = negsuc 0;
  diagnostic_interval = pos 0;
  warn_utilization_pct = pos 80;
  enable = true;
  deny_unknown = false;
}

abbrev watched : AttrCache plain
watched = set_detector plain two_slots (some (new_cardinality_detector settings))

-- Two goroutines load the size 1 of a cache with a limit of 2; one swap succeeds, the other retries
-- and is refused.
abbrev both_loaded : Race
both_loaded = record {
  size = 1;
  place = tel.Base.update (tel.Base.update (start 1).place 0 (at_swap 1)) 1 (at_swap 1);
}

both_load : Reach 2 2 (start 1) both_loaded
both_load =
    next (next here (loads (start 1) 0 (omega arith) refl (omega arith)))
      (loads _ 1 (omega arith) refl (omega arith))

Reach-IsSafe_example :
    IsSafe 2 2 1
      (record { size = 2; place = tel.Base.update both_loaded.place 0 tel.Metric.Reserve.reserved })
Reach-IsSafe_example =
    Reach-IsSafe (omega arith) (next both_load (swaps both_loaded 0 1 (omega arith) refl refl))

Reach-ends_example :
    (steps both_load ≤ 2 * (2 * 2 + 2))
    × (((s : Race) × Step 2 2 both_loaded s)
        ⊎ (sum_below 2 (λ i. finished (both_loaded.place i)) ≡ 2))
Reach-ends_example = Reach-ends both_load
