-- ===== src/Tests/Memory.antt =====
-- Documents as lists of entries in memory: a value of the interface `Bson` that meets its laws.
use aevum.Prelude.{
  ℕ, ◌<◌, ◌≡◌, refl, ◌≢◌, ap, ◌∙◌, Bool, [], ◌∷◌, ◌++◌, some, Str, Map, ℤ, arith, lookup, codes,
  drop, ◌==◌, if◌then◌else◌,
}
use aevum.Bson.{Bson, BsonLaws, Value, utf8, int32, int64, double, boolean, document, other}

pub data Plain : Type 0 where
  small large : ℤ → Plain
  truth : Bool → Plain
  real rest : Unit {0} → Plain

pub data Node : Type 0 where
  nil : Node
  text : Str → Str → Node → Node
  nested : Str → Node → Node → Node
  plain : Str → Plain → Node → Node

abbrev pub NodeValue : Type 0
NodeValue = Value Node (Unit {0}) (Unit {0})

abbrev plain_value : Plain → NodeValue
plain_value (small n) = int32 n
plain_value (large n) = int64 n
plain_value (truth x) = boolean x
plain_value (real x) = double x
plain_value (rest x) = other x

abbrev node_entries : Node → Map NodeValue
node_entries nil = []
node_entries (text k v n) = (k, utf8 v) ∷ node_entries n
node_entries (nested k d n) = (k, document d) ∷ node_entries n
node_entries (plain k p n) = (k, plain_value p) ∷ node_entries n

abbrev join : Node → Node → Node
join nil m = m
join (text k v n) m = text k v (join n m)
join (nested k d n) m = nested k d (join n m)
join (plain k p n) m = plain k p (join n m)

abbrev single : Str → NodeValue → Node
single k (utf8 v) = text k v nil
single k (int32 n) = plain k (small n) nil
single k (int64 n) = plain k (large n) nil
single k (boolean x) = plain k (truth x) nil
single k (double x) = plain k (real x) nil
single k (other x) = plain k (rest x) nil
single k (document d) = nested k d nil

abbrev node_len : Node → ℕ
node_len nil = 5
node_len (text k v n) = 10
node_len (nested k d n) = 10
node_len (plain k p n) = 10

abbrev pub node_bytes : Node → Str
node_bytes nil = []
node_bytes (text k v n) = 1 ∷ (k ++ v ++ node_bytes n)
node_bytes (nested k d n) = 2 ∷ (k ++ node_bytes d ++ node_bytes n)
node_bytes (plain k p n) = 3 ∷ (k ++ node_bytes n)

-- A text that begins with a bracket reads as an array of one document, with the rest for its
-- `_id`; any other text reads as a document with that text for its `_id`.
abbrev read_json : Str → Node
read_json [] = nil
read_json (c ∷ s) =
    if c == b'['
    then nested (codes "0") (text (codes "_id") s nil) nil
    else text (codes "_id") (c ∷ s) nil

abbrev pub memory : Bson
memory = record {
  Doc = Node;
  Double = Unit {0};
  Other = Unit {0};
  len = node_len;
  entries = node_entries;
  find_field = λ d k. lookup k (node_entries d);
  fresh = nil;
  append_utf8 = λ d k v. join d (text k v nil);
  append_document = λ d k c. join d (nested k c nil);
  append_value = λ d k v. join d (single k v);
  concat = join;
  bytes_of = node_bytes;
  from_data = λ s. some (text (codes "_id") (drop 4 s) nil);
  from_json = λ s. some (read_json s);
  json_error = λ s. s;
  as_json = λ d. some (node_bytes d);
  double_to_string = λ x. codes "0.000000";
}

entries-join : (d c : Node) → node_entries (join d c) ≡ node_entries d ++ node_entries c
entries-join nil c = refl
entries-join (text k v n) c = ap (λ es. (k, utf8 v) ∷ es) (entries-join n c)
entries-join (nested k d n) c = ap (λ es. (k, document d) ∷ es) (entries-join n c)
entries-join (plain k p n) c = ap (λ es. (k, plain_value p) ∷ es) (entries-join n c)

entries-single : (k : Str) (v : NodeValue) → node_entries (single k v) ≡ (k, v) ∷ []
entries-single k (utf8 v) = refl
entries-single k (int32 n) = refl
entries-single k (int64 n) = refl
entries-single k (boolean x) = refl
entries-single k (double x) = refl
entries-single k (other x) = refl
entries-single k (document d) = refl

node_len-lt : (d : Node) → node_entries d ≢ [] → 5 < node_len d
node_len-lt nil h = absurd (h refl)
node_len-lt (text k v n) h = omega arith
node_len-lt (nested k d n) h = omega arith
node_len-lt (plain k p n) h = omega arith

pub memory_laws : BsonLaws memory
memory_laws = record {
  entries-fresh = refl;
  entries-append_utf8 = λ d k v. entries-join d (text k v nil);
  entries-append_document = λ d k c. entries-join d (nested k c nil);
  entries-append_value =
      λ d k v. entries-join d (single k v) ∙ ap (λ es. node_entries d ++ es) (entries-single k v);
  entries-concat = entries-join;
  find_field-lookup = λ d k. refl;
  len-lt = node_len-lt;
}
