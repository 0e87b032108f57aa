-- ===== src/Bson/Iterator.antt =====
-- bson/doc/iterator.cpp, over libbson's bson_iter_t.
pub mod Walk
use aevum.Prelude.{
  ◌≡◌, refl, [], ◌∷◌, List, Option, none, some, Str, ℕ, Bool, true, false, not, ◌&&◌, ◌==◌, zero,
  suc, if◌then◌else◌, Map, map,
}
use aevum.Bson.{Bson, Value}

pub record IterApi (b : Bson) : Type 1 where
  -- bson_iter_t, and the one that `iter_{}` makes
  pub Iter : Type 0
  pub cleared : Iter
  -- bson_iter_init: false where the document is malformed
  pub bson_iter_init : b.Doc → Iter → Bool × Iter
  pub bson_iter_next : Iter → Bool × Iter
  pub bson_iter_key : Iter → Str
  pub bson_iter_type : Iter → ℕ
  pub bson_type : Value b.Doc b.Double b.Other → ℕ
  pub raw : Iter → ℕ
  pub bson_iter_offset : Iter → ℕ

-- The elements of a document by key and type.
abbrev pub elements : (b : Bson) → IterApi b → b.Doc → Map ℕ
elements b l d = map (λ entry. (entry.0, l.bson_type entry.1)) (b.entries d)

-- An iterator is initialised before the first element, and advanced to the next one while there is
-- one.
pub record IterLaws (b : Bson) (l : IterApi b) : Type 0 where
  -- the elements that are still ahead
  pub ahead : l.Iter → Map ℕ
  pub ahead-init :
      (d : b.Doc) (it : l.Iter)
      → (l.bson_iter_init d it).0 ≡ true
      → ahead (l.bson_iter_init d it).1 ≡ elements b l d
  pub next_end : (it : l.Iter) → ahead it ≡ [] → (l.bson_iter_next it).0 ≡ false
  pub next_element :
      (it : l.Iter) (k : Str) (t : ℕ) (rest : Map ℕ)
      → ahead it ≡ (k, t) ∷ rest
      → let (more, it') = l.bson_iter_next it in
        (more ≡ true) × (l.bson_iter_key it' ≡ k) × (l.bson_iter_type it' ≡ t) × (ahead it' ≡ rest)

abbrev pub cons_some : Str × ℕ → Option (Map ℕ) → Option (Map ℕ)
cons_some e none = none
cons_some e (some es) = some (e ∷ es)

module _ (b : Bson) (l : IterApi b) where
  pub record Iterator : Type 0 where
    pub iter_ : l.Iter
    pub valid_ : Bool

  -- Iterator(), and end
  unfoldable pub end : Iterator
  end = record { iter_ = l.cleared; valid_ = false }

  -- Iterator(doc), and begin; a document without a pointer is `none`.
  unfoldable pub begin : Option b.Doc → Iterator
  unfolding end
  begin none = end
  begin (some d) =
      let (fine, it) = l.bson_iter_init d l.cleared in record { iter_ = it; valid_ = fine }

  unfoldable pub key : Iterator → Str
  key i = if not i.valid_ then [] else l.bson_iter_key i.iter_

  -- BSON_TYPE_EOD is 0.
  unfoldable pub type : Iterator → ℕ
  type i = if not i.valid_ then 0 else l.bson_iter_type i.iter_

  -- operator++()
  unfoldable pub increment : Iterator → Iterator
  increment i =
      if i.valid_
      then (let (more, it) = l.bson_iter_next i.iter_ in record { iter_ = it; valid_ = more })
      else i

  -- operator++(int): the copy from before, and the iterator.
  unfoldable pub post_increment : Iterator → Iterator × Iterator
  unfolding increment
  post_increment i = (i, increment i)

  -- operator==
  unfoldable pub equal : Iterator → Iterator → Bool
  equal x y =
      if not x.valid_ && not y.valid_
      then true
      else if (if x.valid_ then not y.valid_ else y.valid_)
      then false
      else (l.raw x.iter_ == l.raw y.iter_)
        && (l.bson_iter_offset x.iter_ == l.bson_iter_offset y.iter_)

  -- operator!=
  unfoldable pub unequal : Iterator → Iterator → Bool
  unfolding equal
  unequal x y = not (equal x y)

  -- `for (const auto &element : doc)`: the elements that the body is given, by key and type, and
  -- `none` where the fuel runs out.
  unfoldable pub walk : ℕ → Iterator → Iterator → Option (Map ℕ)
  unfolding unequal key type increment
  walk zero i last = none
  walk (suc fuel) i last =
      let rest = walk fuel (increment i) last in
      if unequal i last then cons_some (key i, type i) rest else some []
