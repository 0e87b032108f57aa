-- ===== src/Core/Mirror/Insert.antt =====
-- `insert` against the mirror: what is readable after it, and what a refused one leaves.
use aevum.Prelude.{
  ℕ, ◌≡◌, true, false, [], ◌∷◌, some, Str, ℤ, c_str, NoNul, str_eq_iff, str_eq_refl, lookup, arith,
  inl, inr, Bool-cases,
}
use aevum.Util.Status.{is_ok}
use aevum.Util.Uuid.{generate_v4}
use aevum.Bson.{Bson, BsonLaws, parse}
use aevum.Ffi.{Ffi}
use aevum.Storage.{Engine, make_uri}
use aevum.Storage.Laws.{EngineLaws}
use aevum.Storage.Laws.Put.{put_stored}
use aevum.Schema.{validate}
use aevum.Index.Manager.{extract_id, get_document_by_id}
use aevum.Index.Manager.Laws.{get_document_by_id-add}
use aevum.Core.{Core}
use aevum.Core.Read.{find, id_query, to_results}
use aevum.Core.Write.{identify, store_document, insert}
use aevum.Core.Mirror.{uri_eq, IsKeyed, HasCleanId, IsFiledUnder, identify-IsFiledUnder, Mirrors}

module _ (b : Bson) (e : Engine) where
  store_document_found :
      (coll id : Str) (doc : b.Doc) (core : Core b e)
      → IsFiledUnder b id doc
      → is_ok (store_document b e coll id doc core).0.0 ≡ true
      → (get_document_by_id b (store_document b e coll id doc core).1.index_manager coll id
          ≡ some doc)
        × ((store_document b e coll id doc core).0.1 ≡ id)
  unfolding store_document
  store_document_found coll id doc core filed h = ground (
    arith,
    filed.files,
    filed.nonempty,
    get_document_by_id-add b core.index_manager coll doc coll id,
    str_eq_refl coll,
    str_eq_refl id,
  )

  store_document_refused :
      (laws : EngineLaws e) (coll id : Str) (doc : b.Doc) (core : Core b e) (other j : Str)
      → is_ok (store_document b e coll id doc core).0.0 ≡ false
      → ((store_document b e coll id doc core).1.index_manager ≡ core.index_manager)
        × (lookup j (e.scan other (store_document b e coll id doc core).1.storage.disk)
            ≡ lookup j (e.scan other core.storage.disk))
  unfolding store_document
  store_document_refused laws coll id doc core other j h =
      ground (arith, put_stored b e laws coll id doc core.storage other j)

  pub store_document-Mirrors :
      (laws : EngineLaws e) (coll id : Str) (doc : b.Doc) (core : Core b e) (c : Str)
      → IsFiledUnder b id doc
      → NoNul coll
      → NoNul c
      → Mirrors b e core c
      → Mirrors b e (store_document b e coll id doc core).1 c
  unfolding store_document
  store_document-Mirrors laws coll id doc core c filed nc nc' mirrors i ne = ground (
    arith,
    filed.files,
    filed.nonempty,
    filed.clean,
    mirrors i ne,
    uri_eq coll c nc nc',
    put_stored b e laws coll id doc core.storage (c_str (make_uri c)) i,
    get_document_by_id-add b core.index_manager coll doc c i,
  )

  store_document-IsKeyed :
      (coll id : Str) (doc : b.Doc) (core : Core b e)
      → IsKeyed b core.index_manager
      → IsKeyed b (store_document b e coll id doc core).1.index_manager
  unfolding store_document
  store_document-IsKeyed coll id doc core k = record {
    keyed = λ c i d h. ground (
      arith,
      get_document_by_id-add b core.index_manager coll doc c i,
      str_eq_iff (extract_id b doc) i,
      k.keyed c i d,
      h,
    );
  }

module _ (b : Bson) (e : Engine) (ffi : Ffi) where
  -- An insert, of a document whose text id, if it has one, is clean, that reports OK is read
  -- back: a query for just the id that it reports finds the document that was stored, and
  -- nothing else, whatever the sort, projection, limit and skip.
  pub find-insert :
      (blaws : BsonLaws b) (word1 word2 : ℕ) (coll : Str) (doc : b.Doc) (core : Core b e)
      (query sort projection : Str) (limit skip : ℤ)
      → HasCleanId b doc
      → is_ok (insert b e ffi word1 word2 coll doc core).0.0 ≡ true
      → id_query b (parse b query).1 ≡ some (insert b e ffi word1 word2 coll doc core).0.1
      → find b e ffi
          (insert b e ffi word1 word2 coll doc core).1
          coll
          query
          sort
          projection
          limit
          skip
        ≡ (identify b (generate_v4 word1 word2) doc).1 ∷ []
  unfolding insert find to_results
  find-insert blaws p q coll doc core query sort projection limit skip clean h asked =
      let (id, doc') = identify b (generate_v4 p q) doc in
      let filed = identify-IsFiledUnder b blaws p q doc clean in
      ground (arith, asked, h, filed.clean, store_document_found b e coll id doc' core filed)

  -- Over an engine with the documented laws, an insert that reports an error leaves the indexes
  -- as they were, and every stored record.
  pub insert_refused :
      (laws : EngineLaws e) (word1 word2 : ℕ) (coll : Str) (doc : b.Doc) (core : Core b e)
      (other j : Str)
      → is_ok (insert b e ffi word1 word2 coll doc core).0.0 ≡ false
      → ((insert b e ffi word1 word2 coll doc core).1.index_manager ≡ core.index_manager)
        × (lookup j (e.scan other (insert b e ffi word1 word2 coll doc core).1.storage.disk)
            ≡ lookup j (e.scan other core.storage.disk))
  unfolding insert
  insert_refused laws p q coll doc core other j h =
      let (id, doc') = identify b (generate_v4 p q) doc in
      ground (arith, store_document_refused b e laws coll id doc' core other j)

  -- An insert of a document whose text id, if it has one, is clean keeps, refused or not, the
  -- primary index of every collection a mirror of its table, where the names of the collections
  -- hold no NUL.
  pub insert-Mirrors :
      (blaws : BsonLaws b) (laws : EngineLaws e) (word1 word2 : ℕ) (coll : Str) (doc : b.Doc)
      (core : Core b e) (c : Str)
      → HasCleanId b doc
      → NoNul coll
      → NoNul c
      → Mirrors b e core c
      → Mirrors b e (insert b e ffi word1 word2 coll doc core).1 c
  unfolding insert
  insert-Mirrors blaws laws p q coll doc core c clean nc nc' mirrors i ne =
      let (id, doc') = identify b (generate_v4 p q) doc in
      let filed = identify-IsFiledUnder b blaws p q doc clean in
      ground (
        arith,
        mirrors i ne,
        store_document-Mirrors b e laws coll id doc' core c filed nc nc' mirrors i ne,
      )

  -- Nor does an insert file a document under any text but its id.
  pub insert-IsKeyed :
      (word1 word2 : ℕ) (coll : Str) (doc : b.Doc) (core : Core b e)
      → IsKeyed b core.index_manager
      → IsKeyed b (insert b e ffi word1 word2 coll doc core).1.index_manager
  unfolding insert
  insert-IsKeyed p q coll doc core k =
      let (id, doc') = identify b (generate_v4 p q) doc in
      elim (Bool-cases (is_ok (validate b ffi core.schema_manager coll doc'))) [
        | inl fits ↦ rw fits (store_document-IsKeyed b e coll id doc' core k)
        | inr bad ↦ rw bad k
      ]
