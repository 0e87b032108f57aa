-- ===== src/Core/Spec/Remove.antt =====
-- `remove` against the abstract database.
use mathlib.Core.Path.{fun_ext}
use aevum.Prelude.{
  ℕ, ◌+◌, ◌≡◌, refl, subst, false, [], ◌∷◌, List, Option, none, some, Str, is_empty, length, arith,
  Option-cases, inl, inr, Bool-cases,
}
use aevum.Util.Status.{is_ok}
use aevum.Bson.{Bson}
use aevum.Ffi.{Ffi}
use aevum.Storage.{Engine}
use aevum.Storage
use aevum.Index.Manager.{extract_id, get_document_by_id, remove_document_from_indexes}
use aevum.Index.Manager.Laws.{get_document_by_id-remove}
use aevum.Core.{Core}
use aevum.Core.Write.{array_ids, remove_ids, remove_found, remove}
use aevum.Core.Mirror.{IsKeyed}
use aevum.Core.Spec
use aevum.Core.Spec.{Allowed, remove_op, removed, unmatched, erased, Erases, finished, gone, view}

module _ (b : Bson) (e : Engine) where
  abbrev without : Str → Str → b.Doc → Core b e → Core b e
  without coll id doc core = record core {
    storage = (Storage.remove e coll id core.storage).1;
    index_manager = remove_document_from_indexes b coll doc core.index_manager;
  }

  abbrev kept : Str → Str → Core b e → Core b e
  kept coll id core = record core { storage = (Storage.remove e coll id core.storage).1 }

  view-without :
      (coll id : Str) (doc : b.Doc) (core : Core b e)
      → (extract_id b doc ≡ id) × (is_empty id ≡ false)
      → view b e (without coll id doc core) ≡ Spec.erase b coll id (view b e core)
  view-without coll id doc core files = fun_ext λ c. fun_ext λ i.
      ground (arith, files.0, files.1, get_document_by_id-remove b core.index_manager coll doc c i)

  without-IsKeyed :
      (coll id : Str) (doc : b.Doc) (core : Core b e)
      → IsKeyed b core.index_manager
      → IsKeyed b (without coll id doc core).index_manager
  without-IsKeyed coll id doc core k = record {
    keyed = λ c i d h.
        ground
          (arith, get_document_by_id-remove b core.index_manager coll doc c i, k.keyed c i d, h);
  }

  remove_ids-Erases :
      (coll : Str) (ids : List Str) (n : ℕ) (core : Core b e)
      → IsKeyed b core.index_manager
      → let (count, core') = remove_ids b e coll ids n core in
        ((erased_ids : List Str) × (count ≡ n + length erased_ids)
          × Erases b coll (view b e core) erased_ids (view b e core'))
        × IsKeyed b core'.index_manager
  unfolding remove_ids
  remove_ids-Erases coll [] n core k = (([], omega arith, finished), k)
  remove_ids-Erases coll (id ∷ ids) n core k =
      elim (Option-cases (get_document_by_id b core.index_manager coll id)) [
        | inl miss ↦ rw (miss, remove_ids) (remove_ids-Erases coll ids n core k)
        | inr (doc, hit) ↦ elim (Bool-cases (is_ok (Storage.remove e coll id core.storage).0)) [
          | inl good ↦
              let next = without coll id doc core in
              let ((more, counted, rest), k') =
                remove_ids-Erases coll ids (n + 1) next (without-IsKeyed coll id doc core k) in
              let last = view b e (remove_ids b e coll ids (n + 1) next).1 in
              rw (hit, good, remove_ids)
                (
                  (
                    id ∷ more,
                    omega (arith, counted),
                    gone id more doc hit (
                        subst (λ db. Erases b coll db more last)
                          (view-without coll id doc core (k.keyed coll id doc hit)) rest),
                  ),
                  k',
                )
          | inr stays ↦
              rw (hit, stays, remove_ids) (remove_ids-Erases coll ids n (kept coll id core) k)
        ]
      ]

  remove_found-Allowed :
      (coll query : Str) (found : Option b.Doc) (core : Core b e)
      → IsKeyed b core.index_manager
      → let ((s, n), core') = remove_found b e coll found core in
        Allowed b (view b e core) (view b e core') (remove_op coll query) (removed s n)
        × IsKeyed b core'.index_manager
  unfolding remove_found
  remove_found-Allowed coll query none core k = (unmatched coll query _ _ refl refl refl, k)
  remove_found-Allowed coll query (some found) core k =
      elim (Bool-cases (is_empty (array_ids b (b.entries found)))) [
        | inl nothing ↦ rw nothing (unmatched coll query _ _ refl refl refl, k)
        | inr some_ids ↦
            let ((ids, counted, steps), k') =
              remove_ids-Erases coll (array_ids b (b.entries found)) 0 core k in
            rw some_ids (erased coll query _ _ ids refl (omega (arith, counted)) steps, k')
      ]

  pub remove-Allowed :
      (ffi : Ffi) (coll query : Str) (core : Core b e)
      → IsKeyed b core.index_manager
      → let ((s, n), core') = remove b e ffi coll query core in
        Allowed b (view b e core) (view b e core') (remove_op coll query) (removed s n)
        × IsKeyed b core'.index_manager
  unfolding remove
  remove-Allowed ffi coll query core k = remove_found-Allowed coll query _ core k
