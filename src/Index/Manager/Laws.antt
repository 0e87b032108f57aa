-- ===== src/Index/Manager/Laws.antt =====
-- One document added to the indexes, or removed from them.
use aevum.Prelude.{
  ◌≡◌, refl, Bool, true, false, not, ◌&&◌, [], ◌∷◌, ◌++◌, List, none, some, Str, sym, subst,
  lookup_or, str_eq, str_eq_refl, is_empty, contains, keep, all, if◌then◌else◌, arith, append-nil,
}
use aevum.Bson.{Bson}
use aevum.Index.Primary.Laws.{get_by_id-add, get_by_id-remove}
use aevum.Index.Secondary.{get_doc_id, changed_bucket}
use aevum.Index.Secondary.Laws.{
  Distinct, has_value, fields_of, update_custom_index_bucket, update_custom_index_fields,
}
use aevum.Index.Manager.{
  IndexManager, extract_id, add_document_to_indexes, remove_document_from_indexes,
  get_document_by_id, get_documents_by_secondary_index,
}

module _ (b : Bson) where
  -- The set of indexed fields of the collection has no element twice.
  abbrev pub IsDistinct : IndexManager b → Str → Type 0
  IsDistinct m coll = Distinct b (fields_of b m.secondary coll)

  -- A document that the field's index would list under the text.
  abbrev pub listed : b.Doc → Str → Str → Bool
  listed doc f v = not (is_empty (get_doc_id b doc)) && has_value b doc f v

  abbrev pub is_indexed : IndexManager b → Str → Str → Bool
  is_indexed m coll f = contains f (fields_of b m.secondary coll)

  pub get_document_by_id-add :
      (m : IndexManager b) (coll : Str) (doc : b.Doc) (c i : Str)
      → get_document_by_id b (add_document_to_indexes b coll doc m) c i ≡ (
          if not (is_empty (extract_id b doc)) && (str_eq coll c && str_eq (extract_id b doc) i)
          then some doc
          else get_document_by_id b m c i)
  unfolding get_document_by_id add_document_to_indexes
  get_document_by_id-add m coll doc c i =
      ground (arith, get_by_id-add b m.primary coll (extract_id b doc) doc c i)

  pub get_document_by_id-remove :
      (m : IndexManager b) (coll : Str) (doc : b.Doc) (c i : Str)
      → get_document_by_id b (remove_document_from_indexes b coll doc m) c i ≡ (
          if not (is_empty (extract_id b doc)) && (str_eq coll c && str_eq (extract_id b doc) i)
          then none
          else get_document_by_id b m c i)
  unfolding get_document_by_id remove_document_from_indexes
  get_document_by_id-remove m coll doc c i =
      ground (arith, get_by_id-remove b m.primary coll (extract_id b doc) c i)

  pub secondary_add :
      (m : IndexManager b) (coll : Str) (doc : b.Doc) (c f v : Str)
      → IsDistinct m coll
      → get_documents_by_secondary_index b (add_document_to_indexes b coll doc m) c f v ≡ (
          if str_eq coll c && (is_indexed m coll f && listed doc f v)
          then get_documents_by_secondary_index b m c f v ++ doc ∷ []
          else get_documents_by_secondary_index b m c f v)
  unfolding get_documents_by_secondary_index add_document_to_indexes changed_bucket contains
  secondary_add m coll doc c f v h =
      ground (arith, update_custom_index_bucket b m.secondary coll doc true c f v h)

  pub secondary_remove :
      (m : IndexManager b) (coll : Str) (doc : b.Doc) (c f v : Str)
      → IsDistinct m coll
      → get_documents_by_secondary_index b (remove_document_from_indexes b coll doc m) c f v ≡ (
          if str_eq coll c && (is_indexed m coll f && listed doc f v)
          then keep
              (λ d. not (str_eq (get_doc_id b d) (get_doc_id b doc)))
              (get_documents_by_secondary_index b m c f v)
          else get_documents_by_secondary_index b m c f v)
  unfolding get_documents_by_secondary_index remove_document_from_indexes changed_bucket contains
  secondary_remove m coll doc c f v h =
      ground (arith, update_custom_index_bucket b m.secondary coll doc false c f v h)

  pub add_fields :
      (m : IndexManager b) (coll : Str) (doc : b.Doc)
      → (add_document_to_indexes b coll doc m).secondary.indexed_fields ≡ m.secondary.indexed_fields
  unfolding add_document_to_indexes
  add_fields m coll doc = update_custom_index_fields b m.secondary coll doc true

  keep-append : (p : b.Doc → Bool) (xs ys : List b.Doc) → keep p (xs ++ ys) ≡ keep p xs ++ keep p ys
  keep-append p [] ys = refl
  keep-append p (x ∷ xs) ys = ground (arith, keep-append p xs ys)

  keep-all : (p : b.Doc → Bool) (xs : List b.Doc) → all p xs ≡ true → keep p xs ≡ xs
  keep-all p [] h = refl
  keep-all p (x ∷ xs) h = ground (arith, keep-all p xs)

  keep_but_last :
      (p : b.Doc → Bool) (xs : List b.Doc) (y : b.Doc)
      → all p xs ≡ true
      → p y ≡ false
      → keep p (xs ++ y ∷ []) ≡ xs
  keep_but_last p xs y h k =
      ground (arith, keep-append p xs (y ∷ []), keep-all p xs h, append-nil xs)

  -- Adding a document with a non-empty id and removing it again leaves nothing under its id,
  -- and a bucket of the secondary index as it was, if that held no other document with its id
  -- and no field is registered twice.
  pub remove-add :
      (m : IndexManager b) (coll : Str) (doc : b.Doc) (f v : Str)
      → IsDistinct m coll
      → is_empty (extract_id b doc) ≡ false
      → all
          (λ d. not (str_eq (get_doc_id b d) (get_doc_id b doc)))
          (get_documents_by_secondary_index b m coll f v)
        ≡ true
      → let m' = remove_document_from_indexes b coll doc (add_document_to_indexes b coll doc m) in
        (get_document_by_id b m' coll (extract_id b doc) ≡ none)
        × (get_documents_by_secondary_index b m' coll f v
            ≡ get_documents_by_secondary_index b m coll f v)
  remove-add m coll doc f v h ne fresh =
      let m1 = add_document_to_indexes b coll doc m in
      let old = get_documents_by_secondary_index b m coll f v in
      (
        ground (
          arith,
          get_document_by_id-remove m1 coll doc coll (extract_id b doc),
          str_eq_refl coll,
          str_eq_refl (extract_id b doc),
        ),
        ground (
          arith,
          str_eq_refl coll,
          secondary_add m coll doc coll f v h,
          secondary_remove m1 coll doc coll f v
              (subst (λ fs. Distinct b (lookup_or [] coll fs)) (sym (add_fields m coll doc)) h),
          add_fields m coll doc,
          keep_but_last (λ d. not (str_eq (get_doc_id b d) (get_doc_id b doc))) old doc fresh,
          str_eq_refl (get_doc_id b doc),
        ),
      )

  -- A second document with the id of the first takes its place in the primary index alone:
  -- under the value of a registered field that only the first has, the secondary index still
  -- lists the first, where no field is registered twice and the id is not empty.
  pub add-add_stale :
      (m : IndexManager b) (coll : Str) (old new : b.Doc) (f v : Str)
      → IsDistinct m coll
      → is_indexed m coll f ≡ true
      → extract_id b old ≡ extract_id b new
      → is_empty (extract_id b new) ≡ false
      → listed old f v ≡ true
      → has_value b new f v ≡ false
      → let m' = add_document_to_indexes b coll new (add_document_to_indexes b coll old m) in
        (get_document_by_id b m' coll (extract_id b old) ≡ some new)
        × (get_documents_by_secondary_index b m' coll f v
            ≡ get_documents_by_secondary_index b m coll f v ++ old ∷ [])
  unfolding contains
  add-add_stale m coll old new f v h idx same ne was gone =
      let m1 = add_document_to_indexes b coll old m in
      (
        ground (
          arith,
          get_document_by_id-add m1 coll new coll (extract_id b old),
          str_eq_refl coll,
          str_eq_refl (extract_id b new),
        ),
        ground (
          arith,
          str_eq_refl coll,
          secondary_add m coll old coll f v h,
          secondary_add m1 coll new coll f v
              (subst (λ fs. Distinct b (lookup_or [] coll fs)) (sym (add_fields m coll old)) h),
        ),
      )
