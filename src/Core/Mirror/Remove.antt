-- ===== src/Core/Mirror/Remove.antt =====
-- `remove` against the mirror.
use aevum.Prelude.{
  ℕ, ◌+◌, ◌≡◌, true, false, [], ◌∷◌, List, Option, none, some, Str, lit, c_str, NoNul, is_empty,
  arith, Option-cases, inl, inr, Bool-cases, c_str_lem, c_str-NoNul,
}
use aevum.Util.Status.{is_ok}
use aevum.Bson.{Bson, Value, utf8, int32, int64, double, boolean, document, other, find_utf8}
use aevum.Ffi.{Ffi}
use aevum.Storage.{Engine, Store, make_uri}
use aevum.Storage
use aevum.Storage.Laws.{EngineLaws}
use aevum.Storage.Laws.Put.{remove_stored}
use aevum.Index.Manager.{extract_id, get_document_by_id, remove_document_from_indexes}
use aevum.Index.Manager.Laws.{get_document_by_id-remove}
use aevum.Core.{Core}
use aevum.Core.Write.{array_ids, remove_ids, remove_found, remove}
use aevum.Core.Mirror.{uri_eq, IsKeyed, Mirrors}

-- Each text of the list is read whole as a C string.
abbrev pub AreClean : List Str → Type 0
AreClean [] = Unit {0}
AreClean (s ∷ ss) = (c_str s ≡ s) × AreClean ss

module _ (b : Bson) where
  array_ids-AreClean : (es : List (Str × Value b.Doc b.Double b.Other)) → AreClean (array_ids b es)
  unfolding array_ids
  array_ids-AreClean [] = tt
  array_ids-AreClean ((k, utf8 s) ∷ es) = array_ids-AreClean es
  array_ids-AreClean ((k, int32 n) ∷ es) = array_ids-AreClean es
  array_ids-AreClean ((k, int64 n) ∷ es) = array_ids-AreClean es
  array_ids-AreClean ((k, double x) ∷ es) = array_ids-AreClean es
  array_ids-AreClean ((k, boolean x) ∷ es) = array_ids-AreClean es
  array_ids-AreClean ((k, other o) ∷ es) = array_ids-AreClean es
  array_ids-AreClean ((k, document d) ∷ es) = elim (Option-cases (find_utf8 b d (lit "_id"))) [
    | inl e ↦ rw e (array_ids-AreClean es)
    | inr (s, e) ↦ rw e (c_str_lem (c_str s) (c_str-NoNul s), array_ids-AreClean es)
  ]

module _ (b : Bson) (e : Engine) (laws : EngineLaws e) where
  -- The state after one id of the loop was found, and the storage gave it up.
  abbrev without : Str → Str → b.Doc → Core b e → Core b e
  without coll id doc core = record core {
    storage = (Storage.remove e coll id core.storage).1;
    index_manager = remove_document_from_indexes b coll doc core.index_manager;
  }

  abbrev kept : Str → Str → Core b e → Core b e
  kept coll id core = record core { storage = (Storage.remove e coll id core.storage).1 }

  without-Mirrors :
      (coll id : Str) (doc : b.Doc) (core : Core b e) (c : Str)
      → (extract_id b doc ≡ id) × (is_empty id ≡ false)
      → c_str id ≡ id
      → NoNul coll
      → NoNul c
      → is_ok (Storage.remove e coll id core.storage).0 ≡ true
      → Mirrors b e core c
      → Mirrors b e (without coll id doc core) c
  without-Mirrors coll id doc core c files clean nc nc' gone mirrors i ne = ground (
    arith,
    mirrors i ne,
    uri_eq coll c nc nc',
    remove_stored e laws coll id core.storage (c_str (make_uri c)) i,
    get_document_by_id-remove b core.index_manager coll doc c i,
  )

  kept-Mirrors :
      (coll id : Str) (core : Core b e) (c : Str)
      → is_ok (Storage.remove e coll id core.storage).0 ≡ false
      → Mirrors b e core c
      → Mirrors b e (kept coll id core) c
  kept-Mirrors coll id core c stays mirrors i ne =
      ground (arith, mirrors i ne, remove_stored e laws coll id core.storage (c_str (make_uri c)) i)

  without-IsKeyed :
      (coll id : Str) (doc : b.Doc) (core : Core b e)
      → IsKeyed b core.index_manager
      → IsKeyed b (without coll id doc core).index_manager
  without-IsKeyed coll id doc core k = record {
    keyed = λ c i d h.
        ground
          (arith, get_document_by_id-remove b core.index_manager coll doc c i, k.keyed c i d, h);
  }

  remove_ids-Mirrors :
      (coll : Str) (ids : List Str) (n : ℕ) (core : Core b e) (c : Str)
      → AreClean ids
      → NoNul coll
      → NoNul c
      → IsKeyed b core.index_manager
      → Mirrors b e core c
      → Mirrors b e (remove_ids b e coll ids n core).1 c
        × IsKeyed b (remove_ids b e coll ids n core).1.index_manager
  unfolding remove_ids
  remove_ids-Mirrors coll [] n core c clean nc nc' keyed mirrors = (mirrors, keyed)
  remove_ids-Mirrors coll (id ∷ ids) n core c clean nc nc' k mirrors =
      elim (Option-cases (get_document_by_id b core.index_manager coll id)) [
        | inl miss ↦
            rw (miss, remove_ids) (remove_ids-Mirrors coll ids n core c clean.1 nc nc' k mirrors)
        | inr (doc, hit) ↦ elim (Bool-cases (is_ok (Storage.remove e coll id core.storage).0)) [
          | inl gone ↦
              rw (hit, gone, remove_ids)
                (remove_ids-Mirrors coll ids (n + 1) (without coll id doc core) c clean.1 nc nc'
                  (without-IsKeyed coll id doc core k)
                  (without-Mirrors coll id doc core c (k.keyed coll id doc hit) clean.0 nc nc' gone
                    mirrors))
          | inr stays ↦
              rw (hit, stays, remove_ids)
                (remove_ids-Mirrors coll ids n (kept coll id core) c clean.1 nc nc' k
                  (kept-Mirrors coll id core c stays mirrors))
        ]
      ]

  remove_found-Mirrors :
      (coll : Str) (found : Option b.Doc) (core : Core b e) (c : Str)
      → NoNul coll
      → NoNul c
      → IsKeyed b core.index_manager
      → Mirrors b e core c
      → Mirrors b e (remove_found b e coll found core).1 c
        × IsKeyed b (remove_found b e coll found core).1.index_manager
  unfolding remove_found
  remove_found-Mirrors coll none core c nc nc' k mirrors = (mirrors, k)
  remove_found-Mirrors coll (some found) core c nc nc' k mirrors =
      elim (Bool-cases (is_empty (array_ids b (b.entries found)))) [
        | inl nothing ↦ rw nothing (mirrors, k)
        | inr some_ids ↦ rw some_ids (
            remove_ids-Mirrors coll (array_ids b (b.entries found)) 0 core c
              (array_ids-AreClean b (b.entries found)) nc nc' k mirrors)
      ]

  -- From indexes that file every document under its id, a removal keeps them so and keeps the
  -- primary index of every collection a mirror of its table, also where the storage fails on
  -- some of the ids; the names of the collections hold no NUL.
  pub remove-Mirrors :
      (ffi : Ffi) (coll query : Str) (core : Core b e) (c : Str)
      → NoNul coll
      → NoNul c
      → IsKeyed b core.index_manager
      → Mirrors b e core c
      → Mirrors b e (remove b e ffi coll query core).1 c
        × IsKeyed b (remove b e ffi coll query core).1.index_manager
  unfolding remove
  remove-Mirrors ffi coll query core c nc nc' k mirrors =
      remove_found-Mirrors coll _ core c nc nc' k mirrors
