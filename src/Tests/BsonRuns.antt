-- ===== src/Tests/BsonRuns.antt =====
-- The builder and the iterator at documents in memory.
use aevum.Prelude.{
  ℕ, ◌≡◌, refl, [], ◌∷◌, ◌++◌, List, some, none, Str, Map, codes, Bool, true, false, pos, length,
  lookup, c_str, str_eq, arith, map,
}
use aevum.Bson.{utf8, int32, int64, double, boolean, document, other}
use aevum.Bson.Builder.{
  Appends, AppendsLaws, Append, string, word, nested, new_builder, finalize, append_all, append,
  Builder, returns, aborts, has_nul,
}
use aevum.Bson.Builder.Entries.{added_all, finalize-append_all}
use aevum.Bson.Iterator.{IterApi, IterLaws, begin, end, key, type, walk}
use aevum.Bson.Iterator.Walk.{walk-begin}
use aevum.Tests.Memory.{Node, NodeValue, memory, memory_laws}
use aevum.Tests.CoreRuns.{doc_a}

abbrev appends : Appends memory
appends = record {
  bson_append_int32 = λ d k v. memory.append_value d k (int32 v);
  bson_append_int64 = λ d k v. memory.append_value d k (int64 v);
  bson_append_double = λ d k v. memory.append_value d k (double v);
  bson_append_bool = λ d k v. memory.append_value d k (boolean v);
  bson_append_null = λ d k. memory.append_value d k (other tt);
}

appends_laws : AppendsLaws memory appends
appends_laws = record {
  null = tt;
  entries-int32 = λ d k v. memory_laws.entries-append_value d k (int32 v);
  entries-int64 = λ d k v. memory_laws.entries-append_value d k (int64 v);
  entries-double = λ d k v. memory_laws.entries-append_value d k (double v);
  entries-bool = λ d k v. memory_laws.entries-append_value d k (boolean v);
  entries-null = λ d k. memory_laws.entries-append_value d k (other tt);
}

-- A view of the first two bytes of `abc`, and a number and a sub-document.
abbrev calls : List (Append memory appends)
calls =
    string (codes "s") (record { bytes = codes "abc" ++ 0 ∷ []; size = 2 })
    ∷ word (codes "n") (pos 7)
    ∷ nested (codes "d") (some doc_a)
    ∷ []

finalize-append_all_example :
    (m : Builder memory) × (d : Node) × (append_all memory appends calls (new_builder memory)
      ≡ returns m)
    × ((finalize memory m).0 ≡ some d)
    × (memory.entries d ≡ added_all memory appends appends_laws calls)
    × (memory.find_field d (codes "s") ≡ some (utf8 (codes "abc")))
    × ((finalize memory (finalize memory m).1).0 ≡ none)
    × (append memory appends (word (codes "n") (pos 7)) (finalize memory m).1 ≡ aborts)
unfolding lookup c_str str_eq has_nul
finalize-append_all_example =
    finalize-append_all memory appends appends_laws memory_laws calls (word (codes "n") (pos 7))
      (codes "s") refl refl

abbrev type_code : NodeValue → ℕ
type_code (double x) = 1
type_code (utf8 s) = 2
type_code (document d) = 3
type_code (boolean x) = 8
type_code (int32 n) = 16
type_code (int64 n) = 18
type_code (other x) = 10

-- An iterator is the element that it is at and those ahead.
abbrev advance : (Str × ℕ) × Map ℕ → Bool × ((Str × ℕ) × Map ℕ)
advance (at, []) = (false, (at, []))
advance (at, e ∷ es) = (true, (e, es))

abbrev iterators : IterApi memory
iterators = record {
  Iter = (Str × ℕ) × Map ℕ;
  cleared = (([], 0), []);
  bson_iter_init =
      λ d it. (true, (([], 0), map (λ entry. (entry.0, type_code entry.1)) (memory.entries d)));
  bson_iter_next = advance;
  bson_iter_key = λ it. it.0.0;
  bson_iter_type = λ it. it.0.1;
  bson_type = type_code;
  raw = λ it. 1;
  bson_iter_offset = λ it. length it.1;
}

at_end : (it : (Str × ℕ) × Map ℕ) → it.1 ≡ [] → (advance it).0 ≡ false
at_end (at, []) h = refl
at_end (at, e ∷ es) h = absurd (ground (arith, h))

at_element :
    (it : (Str × ℕ) × Map ℕ) (k : Str) (t : ℕ) (rest : Map ℕ)
    → it.1 ≡ (k, t) ∷ rest
    → ((advance it).0 ≡ true)
      × ((advance it).1.0.0 ≡ k)
      × ((advance it).1.0.1 ≡ t)
      × ((advance it).1.1 ≡ rest)
at_element (at, []) k t rest h = absurd (ground (arith, h))
at_element (at, e ∷ es) k t rest h = (refl, ground (arith, h), ground (arith, h), ground (arith, h))

iterators_laws : IterLaws memory iterators
iterators_laws = record {
  ahead = λ it. it.1;
  ahead-init = λ d it fine. refl;
  next_end = at_end;
  next_element = at_element;
}

walk-begin_example :
    walk memory iterators 3 (begin memory iterators (some doc_a)) (end memory iterators)
    ≡ some (([], 0) ∷ (codes "_id", 2) ∷ [])
unfolding begin key type
walk-begin_example = walk-begin memory iterators iterators_laws doc_a 3 refl (omega arith)
