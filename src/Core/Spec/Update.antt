-- ===== src/Core/Spec/Update.antt =====
-- `update` against the abstract database.
use mathlib.Core.Path.{fun_ext}
use aevum.Prelude.{
  ◌≡◌, refl, false, not, ◌&&◌, ◌||◌, [], ◌∷◌, List, Option, none, some, Str, lit, c_str, str_eq,
  str_eq_iff, is_empty, if◌then◌else◌, arith, inl, inr, Bool-cases, ℤ,
}
use aevum.Util.Status.{Status, is_ok}
use aevum.Bson.{Bson, parse}
use aevum.Ffi.{Ffi, UpdateResult, is_int}
use aevum.Storage.{Engine}
use aevum.Storage
use aevum.Index.Manager.{extract_id}
use aevum.Index.Manager.Rebuild.{last_with_id, rebuild_index-primary}
use aevum.Core.{Core}
use aevum.Core.Read.{array_documents, or_text}
use aevum.Core.Batch.{
  sync_batch, index_batch, replace_collection, parsed_update, apply_update, update, update_answer,
}
use aevum.Core.Mirror.{IsKeyed}
use aevum.Core.Spec.{Allowed, update_op, updated, unchanged, replaced, view}

module _ (b : Bson) where
  last_with_id_keyed :
      (i : Str) (docs : List b.Doc) (old : Option b.Doc) (doc : b.Doc)
      → (old ≡ some doc → (extract_id b doc ≡ i) × (is_empty i ≡ false))
      → last_with_id b i docs old ≡ some doc
      → (extract_id b doc ≡ i) × (is_empty i ≡ false)
  last_with_id_keyed i [] old doc known h = known h
  last_with_id_keyed i (d ∷ docs) old doc known h =
      last_with_id_keyed i docs
        (if not (is_empty (extract_id b d)) && str_eq (extract_id b d) i then some d else old) doc
        (λ now. ground (arith, known, now, str_eq_iff (extract_id b d) i)) h

module _ (b : Bson) (e : Engine) (coll query change : Str) where
  -- What an update may report and leave.
  abbrev Fits : (Status × ℤ) × Core b e → Core b e → Type 0
  Fits ((s, n), core') core =
      Allowed b (view b e core) (view b e core') (update_op coll query change) (updated s n)
      × IsKeyed b core'.index_manager

  replace_collection-Fits :
      (batch : List (Str × b.Doc)) (n : ℤ) (core : Core b e)
      → IsKeyed b core.index_manager
      → Fits (replace_collection b e coll batch n core) core
  unfolding replace_collection
  replace_collection-Fits batch n core k =
      let docs = index_batch b batch in
      elim (Bool-cases (is_ok (Storage.sync_collection b e coll batch core.storage).0)) [
        | inl good ↦ rw good (
          replaced coll query change _ n docs refl
              (fun_ext λ c. fun_ext λ i. rebuild_index-primary b coll docs core.index_manager c i),
          record {
            keyed = λ c i doc h. ground (
              arith,
              h,
              k.keyed c i doc,
              rebuild_index-primary b coll docs core.index_manager c i,
              last_with_id_keyed b i docs none doc,
            );
          },
        )
        | inr bad ↦ rw bad (unchanged coll query change _ _ bad refl, k)
      ]

  parsed_update-Fits :
      (parsed : Status × Option b.Doc) (n : ℤ) (core : Core b e)
      → (parsed.1 ≡ none → is_ok parsed.0 ≡ false)
      → IsKeyed b core.index_manager
      → Fits (parsed_update b e coll parsed n core) core
  unfolding parsed_update
  parsed_update-Fits (status, none) n core failed k =
      (unchanged coll query change _ _ (failed refl) refl, k)
  parsed_update-Fits (status, some d) n core failed k =
      replace_collection-Fits (sync_batch b (array_documents b (b.entries d))) n core k

  parse_failed : (s : Str) → (parse b s).1 ≡ none → is_ok (parse b s).0 ≡ false
  unfolding parse
  parse_failed s h = ground arith

  apply_update-Fits :
      (result : UpdateResult) (core : Core b e)
      → IsKeyed b core.index_manager
      → Fits (apply_update b e coll result core) core
  unfolding apply_update
  apply_update-Fits result core k =
      let text = c_str (or_text b [] result.update_data) in
      let nothing = (is_empty text || str_eq text (lit "[]")) && is_int result.modified_count 0 in
      elim (Bool-cases nothing) [
        | inl stop ↦ rw stop (unchanged coll query change _ _ refl refl, k)
        | inr go ↦
            rw go
              (parsed_update-Fits (parse b text) result.modified_count core (parse_failed text) k)
      ]

  pub update-Allowed :
      (ffi : Ffi) (core : Core b e)
      → IsKeyed b core.index_manager
      → Fits (update b e ffi coll query change core) core
  unfolding update
  update-Allowed ffi core k =
      apply_update-Fits (update_answer b e ffi coll query change core) core k
