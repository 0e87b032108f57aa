-- ===== src/Core/Mirror/Update.antt =====
-- `update` against the mirror.
use aevum.Prelude.{
  ◌≡◌, refl, true, ◌&&◌, ◌||◌, [], ◌∷◌, List, Option, none, some, Str, lit, c_str, NoNul, str_eq,
  is_empty, if◌then◌else◌, arith, Option-cases, inl, inr, Bool-cases, c_str_lem, ℤ,
}
use aevum.Util.Status.{Status, is_ok}
use aevum.Bson.{Bson, BsonLaws, find_utf8, parse}
use aevum.Ffi.{Ffi, UpdateResult, is_int}
use aevum.Storage.{Engine, make_uri}
use aevum.Storage.Laws.{EngineLaws}
use aevum.Storage.Laws.Sync.{TakesInserts, last_of, sync_collection_stored}
use aevum.Index.Manager.Rebuild.{last_with_id, rebuild_index-primary}
use aevum.Core.{Core}
use aevum.Core.Read.{array_documents, or_text}
use aevum.Core.Batch.{
  sync_batch, index_batch, replace_collection, parsed_update, apply_update, update, update_answer,
}
use aevum.Core.Mirror.{
  uri_eq, bytes_in, HasCleanId, extract_id-find_utf8, find_utf8-nonempty, Mirrors,
}

module _ (b : Bson) where
  abbrev pub AllClean : List b.Doc → Type 0
  AllClean [] = Unit {0}
  AllClean (doc ∷ docs) = HasCleanId b doc × AllClean docs

-- What the answer of the query engine parses to.
abbrev pub answered : (b : Bson) → Option b.Doc → List b.Doc
answered b none = []
answered b (some d) = array_documents b (b.entries d)

module _ (b : Bson) (laws : BsonLaws b) where
  -- The batch for the storage and the batch for the indexes agree on the last document of an id.
  last_of-sync_batch :
      (docs : List b.Doc) (j : Str) (old : Option b.Doc)
      → AllClean b docs
      → last_of b j (sync_batch b docs) (bytes_in b old)
        ≡ bytes_in b (last_with_id b j (index_batch b (sync_batch b docs)) old)
  unfolding sync_batch index_batch
  last_of-sync_batch [] j old h = refl
  last_of-sync_batch (doc ∷ docs) j old h = elim (Option-cases (find_utf8 b doc (lit "_id"))) [
    | inl e ↦ rw (e, sync_batch) (last_of-sync_batch docs j old h.1)
    | inr (s, e) ↦
        let next = if str_eq s j then some doc else old in
        rw (e, sync_batch, index_batch)
          (ground (
            arith,
            c_str_lem s (h.0 s e).0,
            (h.0 s e).1,
            extract_id-find_utf8 b laws doc s e,
            find_utf8-nonempty b laws doc (lit "_id") s e,
            last_of-sync_batch docs j next h.1,
          ))
  ]

module _ (b : Bson) (e : Engine) where
  replace_collection-Mirrors :
      (blaws : BsonLaws b) (laws : EngineLaws e) (takes : TakesInserts e) (coll : Str)
      (docs : List b.Doc) (n : ℤ) (core : Core b e) (c : Str)
      → AllClean b docs
      → NoNul coll
      → NoNul c
      → is_ok (replace_collection b e coll (sync_batch b docs) n core).0.0 ≡ true
      → Mirrors b e core c
      → Mirrors b e (replace_collection b e coll (sync_batch b docs) n core).1 c
  unfolding replace_collection
  replace_collection-Mirrors blaws laws takes coll docs n core c clean nc nc' h mirrors i ne =
      ground (
        arith,
        mirrors i ne,
        uri_eq coll c nc nc',
        sync_collection_stored b e laws takes coll (sync_batch b docs) core.storage
            (c_str (make_uri c)) i,
        rebuild_index-primary b coll (index_batch b (sync_batch b docs)) core.index_manager c i,
        last_of-sync_batch b blaws docs i none clean,
      )

  parsed_update-Mirrors :
      (blaws : BsonLaws b) (laws : EngineLaws e) (takes : TakesInserts e) (coll : Str)
      (parsed : Status × Option b.Doc) (n : ℤ) (core : Core b e) (c : Str)
      → AllClean b (answered b parsed.1)
      → NoNul coll
      → NoNul c
      → is_ok (parsed_update b e coll parsed n core).0.0 ≡ true
      → Mirrors b e core c
      → Mirrors b e (parsed_update b e coll parsed n core).1 c
  unfolding parsed_update
  parsed_update-Mirrors blaws laws takes coll (status, none) n core c clean nc nc' h mirrors =
      mirrors
  parsed_update-Mirrors blaws laws takes coll (status, some d) n core c clean nc nc' h mirrors =
      replace_collection-Mirrors blaws laws takes coll (array_documents b (b.entries d)) n core c
        clean nc nc' h mirrors

  apply_update-Mirrors :
      (blaws : BsonLaws b) (laws : EngineLaws e) (takes : TakesInserts e) (coll : Str)
      (result : UpdateResult) (core : Core b e) (c : Str)
      → AllClean b (answered b (parse b (c_str (or_text b [] result.update_data))).1)
      → NoNul coll
      → NoNul c
      → is_ok (apply_update b e coll result core).0.0 ≡ true
      → Mirrors b e core c
      → Mirrors b e (apply_update b e coll result core).1 c
  unfolding apply_update
  apply_update-Mirrors blaws laws takes coll result core c clean nc nc' h mirrors =
      let updated = c_str (or_text b [] result.update_data) in
      let nothing =
        (is_empty updated || str_eq updated (lit "[]")) && is_int result.modified_count 0 in
      elim (Bool-cases nothing) [
        | inl stop ↦ rw stop mirrors
        | inr go ↦ rw go (
            parsed_update-Mirrors blaws laws takes coll (parse b updated) result.modified_count core
              c clean nc nc' (rw go at h) mirrors)
      ]

module _ (b : Bson) (e : Engine) (ffi : Ffi) where
  -- What the query engine answers to an update parses to documents with clean ids.
  abbrev pub AnswersClean : Str → Str → Str → Core b e → Type 0
  AnswersClean coll query change core = AllClean b (
      answered b
        (parse b
          (c_str (or_text b [] (update_answer b e ffi coll query change core).update_data))).1)

  -- An update that reports OK, over an engine that takes every insert and with an answer of
  -- clean ids, keeps the primary index of every collection a mirror of its table, where the
  -- names of the collections hold no NUL.
  pub update-Mirrors :
      (blaws : BsonLaws b) (laws : EngineLaws e) (takes : TakesInserts e) (coll query change : Str)
      (core : Core b e) (c : Str)
      → AnswersClean coll query change core
      → NoNul coll
      → NoNul c
      → is_ok (update b e ffi coll query change core).0.0 ≡ true
      → Mirrors b e core c
      → Mirrors b e (update b e ffi coll query change core).1 c
  unfolding update
  update-Mirrors blaws laws takes coll query change core c clean nc nc' h mirrors =
      apply_update-Mirrors b e blaws laws takes coll (update_answer b e ffi coll query change core)
        core c clean nc nc' h mirrors
