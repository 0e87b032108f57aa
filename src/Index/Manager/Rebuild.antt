-- ===== src/Index/Manager/Rebuild.antt =====
-- A rebuilt collection against the list of its documents.
use aevum.Prelude.{
  ◌≡◌, ◌∙◌, not, ◌&&◌, [], ◌∷◌, List, Option, none, some, Str, str_eq, is_empty, if◌then◌else◌,
  arith,
}
use aevum.Bson.{Bson}
use aevum.Index.Primary.Laws.{get_by_id-clear}
use aevum.Index.Manager.Laws.{get_document_by_id-add}
use aevum.Index.Manager.{
  IndexManager, extract_id, add_document_to_indexes, add_all, clear_collection, rebuild_index,
  get_document_by_id,
}

module _ (b : Bson) where
  -- The last document of the list with the id, and else what was there.
  abbrev pub last_with_id : Str → List b.Doc → Option b.Doc → Option b.Doc
  last_with_id i [] old = old
  last_with_id i (doc ∷ docs) old =
      last_with_id i docs
        (if not (is_empty (extract_id b doc)) && str_eq (extract_id b doc) i then some doc else old)

  add_all_primary :
      (coll : Str) (docs : List b.Doc) (m : IndexManager b) (c i : Str)
      → get_document_by_id b (add_all b coll docs m) c i ≡ (
          if str_eq coll c
          then last_with_id i docs (get_document_by_id b m c i)
          else get_document_by_id b m c i)
  unfolding add_all
  add_all_primary coll [] m c i = ground arith
  add_all_primary coll (doc ∷ docs) m c i =
      add_all_primary coll docs (add_document_to_indexes b coll doc m) c i
      ∙ ground (arith, get_document_by_id-add b m coll doc c i)

  clear_primary :
      (coll : Str) (m : IndexManager b) (c i : Str)
      → get_document_by_id b (clear_collection b coll m) c i
        ≡ (if str_eq coll c then none else get_document_by_id b m c i)
  unfolding get_document_by_id clear_collection
  clear_primary coll m c i = get_by_id-clear b m.primary coll c i

  -- After a rebuild an id of the collection finds the last of the given documents with that id,
  -- or nothing; the other collections are as before.
  pub rebuild_index-primary :
      (coll : Str) (docs : List b.Doc) (m : IndexManager b) (c i : Str)
      → get_document_by_id b (rebuild_index b coll docs m) c i
        ≡ (if str_eq coll c then last_with_id i docs none else get_document_by_id b m c i)
  unfolding rebuild_index
  rebuild_index-primary coll docs m c i =
      let m0 = clear_collection b coll m in
      ground (arith, add_all_primary coll docs m0 c i, clear_primary coll m c i)
