-- ===== src/Bson/Iterator/Walk.antt =====
-- What a loop over the elements of a document visits.
use aevum.Prelude.{◌≡◌, refl, [], ◌∷◌, some, ℕ, zero, suc, ◌+◌, ◌<◌, true, Map, length, arith}
use aevum.Bson.{Bson}
use aevum.Bson.Iterator.{
  IterApi, IterLaws, begin, end, key, type, increment, unequal, equal, walk, elements,
}

module _ (b : Bson) (l : IterApi b) (laws : IterLaws b l) where
  walk_ahead :
      (fuel : ℕ) (it : l.Iter) (es : Map ℕ)
      → laws.ahead it ≡ es
      → length es + 1 < fuel
      → walk b l fuel (record { iter_ = it; valid_ = true }) (end b l)
        ≡ some ((l.bson_iter_key it, l.bson_iter_type it) ∷ es)
  unfolding walk unequal equal key type increment end
  walk_ahead zero it es h f = absurd (omega arith)
  walk_ahead (suc zero) it es h f = absurd (omega arith)
  walk_ahead (suc (suc fuel)) it [] h f = rw (laws.next_end it h) refl
  walk_ahead (suc (suc fuel)) it ((k, t) ∷ rest) h f =
      let (more, named, typed, left) = laws.next_element it k t rest h in
      let next = l.bson_iter_next it in
      rw (more, walk_ahead (suc fuel) next.1 rest left (omega arith), named, typed) refl

  -- With fuel for two rounds more than there are elements, the loop over a well-formed document
  -- ends, and it visits the elements in their order; but its first round comes before the first
  -- element, where the iterator was not advanced yet, so that also an empty document has a round.
  pub walk-begin :
      (d : b.Doc) (fuel : ℕ)
      → (l.bson_iter_init d l.cleared).0 ≡ true
      → length (elements b l d) + 1 < fuel
      → walk b l fuel (begin b l (some d)) (end b l)
        ≡ some ((key b l (begin b l (some d)), type b l (begin b l (some d))) ∷ elements b l d)
  unfolding begin key type
  walk-begin d fuel fine f = rw fine (
      walk_ahead fuel (l.bson_iter_init d l.cleared).1 (elements b l d)
        (laws.ahead-init d l.cleared fine) f)
