-- ===== src/Core/Spec/Insert.antt =====
-- `insert` against the abstract database.
use mathlib.Core.Path.{fun_ext}
use aevum.Prelude.{ℕ, ◌≡◌, refl, ap, sym, ◌∙◌, true, false, Str, inl, inr, Bool-cases, arith}
use aevum.Util.Status.{is_ok}
use aevum.Util.Uuid.{generate_v4}
use aevum.Bson.{Bson, BsonLaws}
use aevum.Ffi.{Ffi}
use aevum.Storage.{Engine}
use aevum.Schema.{validate}
use aevum.Index.Manager.Laws.{get_document_by_id-add}
use aevum.Core.{Core}
use aevum.Core.Write.{identify, store_document, insert}
use aevum.Core.Mirror.{HasCleanId, IsFiledUnder, identify-IsFiledUnder}
use aevum.Core.Spec
use aevum.Core.Spec.{Allowed, insert_op, inserted, refused, stored, view}

module _ (b : Bson) (e : Engine) where
  view-store_document :
      (coll id : Str) (doc : b.Doc) (core : Core b e)
      → IsFiledUnder b id doc
      → is_ok (store_document b e coll id doc core).0.0 ≡ true
      → ((store_document b e coll id doc core).0.1 ≡ id)
        × (view b e (store_document b e coll id doc core).1
            ≡ Spec.put b coll id doc (view b e core))
  unfolding store_document
  view-store_document coll id doc core filed h = (
    ground (arith, h),
    fun_ext λ c. fun_ext λ i. ground (
      arith,
      h,
      filed.files,
      filed.nonempty,
      get_document_by_id-add b core.index_manager coll doc c i,
    ),
  )

  view-store_document_refused :
      (coll id : Str) (doc : b.Doc) (core : Core b e)
      → is_ok (store_document b e coll id doc core).0.0 ≡ false
      → view b e (store_document b e coll id doc core).1 ≡ view b e core
  unfolding store_document
  view-store_document_refused coll id doc core h = fun_ext λ c. fun_ext λ i. ground (arith, h)

  store_document-Allowed :
      (p q : ℕ) (coll : Str) (doc : b.Doc) (core : Core b e)
      → let (id, doc') = identify b (generate_v4 p q) doc in
        IsFiledUnder b id doc'
        → let ((s, reported), core') = store_document b e coll id doc' core in
          Allowed b (view b e core) (view b e core') (insert_op p q coll doc) (inserted s reported)
  store_document-Allowed p q coll doc core filed =
      let (id, doc') = identify b (generate_v4 p q) doc in
      elim (Bool-cases (is_ok (store_document b e coll id doc' core).0.0)) [
        | inl good ↦
            let (same, changed) = view-store_document coll id doc' core filed good in
            stored p q coll doc _ _ good same
              (changed ∙ ap (λ i. Spec.put b coll i doc' (view b e core)) (sym same))
        | inr bad ↦ refused p q coll doc _ _ bad (view-store_document_refused coll id doc' core bad)
      ]

  pub insert-Allowed :
      (ffi : Ffi) (blaws : BsonLaws b) (p q : ℕ) (coll : Str) (doc : b.Doc) (core : Core b e)
      → HasCleanId b doc
      → let ((s, id), core') = insert b e ffi p q coll doc core in
        Allowed b (view b e core) (view b e core') (insert_op p q coll doc) (inserted s id)
  unfolding insert
  insert-Allowed ffi blaws p q coll doc core clean =
      let (id, doc') = identify b (generate_v4 p q) doc in
      elim (Bool-cases (is_ok (validate b ffi core.schema_manager coll doc'))) [
        | inl fits ↦
            rw fits (
              store_document-Allowed p q coll doc core
                (identify-IsFiledUnder b blaws p q doc clean))
        | inr bad ↦ rw bad (refused p q coll doc _ _ bad refl)
      ]
