-- ===== src/Metric/Keys.antt =====
-- metric.go: the keys of the attribute cache, of one, two and three labels, and the shard of a key.
use Prim.Native.Nat.{bit_xor}
use tel.Base.{ℕ, ◌*◌, ◌%◌, ◌^◌, ◌<◌, ◌≡◌, ◌↔◌, Bool, true, false, ◌&&◌, List, [], ◌∷◌, ◌++◌, arith}
use tel.Base.Text.{Text, bytes, text_eq, text_eq_iff}
use tel.Base.Assoc.{Eq, text_Eq}

abbrev pub attr_cache_shards : ℕ
attr_cache_shards = 16

-- defaults.go
abbrev pub attr_key_subject : Text
attr_key_subject = bytes "subject"

abbrev pub attr_key_status : Text
attr_key_status = bytes "status"

abbrev pub attr_key_consumer : Text
attr_key_consumer = bytes "consumer"

pub record DuoKey : Type 0 where
  pub a : Text
  pub b : Text

pub record TrioKey : Type 0 where
  pub a : Text
  pub b : Text
  pub c : Text

pub duo_eq_iff : (x y : DuoKey) → ((text_eq x.a y.a && text_eq x.b y.b) ≡ true) ↔ (x ≡ y)
duo_eq_iff x y = ground (arith, text_eq_iff x.a y.a, text_eq_iff x.b y.b)

pub trio_eq_iff :
    (x y : TrioKey) → ((text_eq x.a y.a && (text_eq x.b y.b && text_eq x.c y.c)) ≡ true) ↔ (x ≡ y)
trio_eq_iff x y = ground (arith, text_eq_iff x.a y.a, text_eq_iff x.b y.b, text_eq_iff x.c y.c)

instance abbrev pub duo_Eq : Eq DuoKey
duo_Eq = record { beq = λ x y. text_eq x.a y.a && text_eq x.b y.b; beq_iff = duo_eq_iff }

instance abbrev pub trio_Eq : Eq TrioKey
trio_Eq = record {
  beq = λ x y. text_eq x.a y.a && (text_eq x.b y.b && text_eq x.c y.c);
  beq_iff = trio_eq_iff;
}

pub data Key : Type 0 where
  one : Text → Key
  duo : Text → Text → Key
  trio : Text → Text → Text → Key

unfoldable pub key_eq : Key → Key → Bool
key_eq (one a) (one a') = text_eq a a'
key_eq (one a) (duo _ _) = false
key_eq (one a) (trio _ _ _) = false
key_eq (duo a b) (one _) = false
key_eq (duo a b) (duo a' b') = text_eq a a' && text_eq b b'
key_eq (duo a b) (trio _ _ _) = false
key_eq (trio a b c) (one _) = false
key_eq (trio a b c) (duo _ _) = false
key_eq (trio a b c) (trio a' b' c') = text_eq a a' && (text_eq b b' && text_eq c c')

pub key_eq_iff : (x y : Key) → (key_eq x y ≡ true) ↔ (x ≡ y)
unfolding key_eq
key_eq_iff (one a) (one a') = ground (arith, text_eq_iff a a')
key_eq_iff (duo a b) (duo a' b') = ground (arith, text_eq_iff a a', text_eq_iff b b')
key_eq_iff (trio a b c) (trio a' b' c') =
    ground (arith, text_eq_iff a a', text_eq_iff b b', text_eq_iff c c')
key_eq_iff _ _ = ground arith

instance abbrev pub key_Eq : Eq Key
key_Eq = record { beq = key_eq; beq_iff = key_eq_iff }

-- uint32: xor with the byte, then the product wraps.
unfoldable pub fnv32a_string : Text → ℕ
fnv32a_string s = step 2166136261 s
  where
    step : ℕ → Text → ℕ
    step h [] = h
    step h (c ∷ s) = step ((bit_xor h c * 16777619) % 2 ^ 32) s

unfoldable pub shard_index : Text → ℕ
shard_index subject = fnv32a_string subject % attr_cache_shards

unfoldable pub shard_index2 : Text → Text → ℕ
shard_index2 a b = bit_xor (fnv32a_string a) (fnv32a_string b) % attr_cache_shards

unfoldable pub shard_index3 : Text → Text → Text → ℕ
shard_index3 a b c3 =
    bit_xor (bit_xor (fnv32a_string a) (fnv32a_string b)) (fnv32a_string c3) % attr_cache_shards

-- The shard that a lookup of the key goes to.
abbrev pub index_of : Key → ℕ
index_of (one a) = shard_index a
index_of (duo a b) = shard_index2 a b
index_of (trio a b c) = shard_index3 a b c

pub index_of-lt : (k : Key) → index_of k < attr_cache_shards
unfolding shard_index shard_index2 shard_index3
index_of-lt (one a) = omega arith
index_of-lt (duo a b) = omega arith
index_of-lt (trio a b c) = omega arith

-- `a`, `a + "|" + b`, `a + "|" + b + "|" + c`: how misses, denials and snapshots name a key.
abbrev pub key_name : Key → Text
key_name (one a) = a
key_name (duo a b) = a ++ bytes "|" ++ b
key_name (trio a b c) = a ++ bytes "|" ++ b ++ bytes "|" ++ c

-- The labels that `isAllowed` is asked about.
abbrev pub labels_of : Key → List Text
labels_of (one a) = a ∷ []
labels_of (duo a b) = a ∷ b ∷ []
labels_of (trio a b c) = a ∷ b ∷ c ∷ []

-- The attributes that are interned for the key.
abbrev pub attrs_of : Key → List (Text × Text)
attrs_of (one a) = (attr_key_subject, a) ∷ []
attrs_of (duo a b) = (attr_key_subject, a) ∷ (attr_key_status, b) ∷ []
attrs_of (trio a b c) = (attr_key_subject, a) ∷ (attr_key_status, b) ∷ (attr_key_consumer, c) ∷ []
