-- ===== src/Storage/Laws/Sync.antt =====
-- `sync_collection`: what it leaves readable when it reports success, and what it has already lost
-- when it reports that the table could not be made anew.
use aevum.Prelude.{
  ◌≡◌, refl, true, false, [], List, ◌∷◌, Option, none, some, Str, lookup, str_eq, str_eq_iff,
  str_eq_refl, c_str, if◌then◌else◌, arith, ◌∙◌, ap,
}
use aevum.Util.Status.{is_ok}
use aevum.Bson.{Bson, doc_empty}
use aevum.Storage.{
  Engine, Store, ret_ok, ret_gone, make_uri, ensure_table, write_batch, fill_table, sync_collection,
}
use aevum.Storage.Laws.{EngineLaws}
use aevum.Storage.Laws.Put.{ensure_table_keeps, stored}

-- The engine takes every insert.
abbrev pub TakesInserts : Engine → Type 0
TakesInserts e = (uri key value : Str) (d : e.State) → ret_ok (e.insert uri key value d).0 ≡ true

module _ (b : Bson) where
  -- The bytes that a batch leaves under a key: those of its last document for it that is not
  -- empty, and else what was there.
  abbrev pub last_of : Str → List (Str × b.Doc) → Option Str → Option Str
  last_of j [] old = old
  last_of j ((id, doc) ∷ rest) old =
      last_of j rest (
        if doc_empty b doc then old else if str_eq (c_str id) j then some (b.bytes_of doc) else old)

module _ (b : Bson) (e : Engine) (laws : EngineLaws e) where
  write_batch_other :
      (uri : Str) (docs : List (Str × b.Doc)) (d : e.State) (other j : Str)
      → str_eq uri other ≡ false
      → lookup j (e.scan other (write_batch b e uri docs d)) ≡ lookup j (e.scan other d)
  unfolding write_batch
  write_batch_other uri [] d other j h = refl
  write_batch_other uri ((id, doc) ∷ rest) d other j h =
      write_batch_other uri rest _ other j h
      ∙ ground (arith, laws.insert_stores uri (c_str id) (b.bytes_of doc) d other j)

  write_batch_stored :
      (takes : TakesInserts e) (uri : Str) (docs : List (Str × b.Doc)) (d : e.State) (j : Str)
      → lookup j (e.scan uri (write_batch b e uri docs d))
        ≡ last_of b j docs (lookup j (e.scan uri d))
  unfolding write_batch
  write_batch_stored takes uri [] d j = refl
  write_batch_stored takes uri ((id, doc) ∷ rest) d j =
      write_batch_stored takes uri rest _ j
      ∙ ap (last_of b j rest) (
          ground (
            arith,
            laws.insert_stores uri (c_str id) (b.bytes_of doc) d uri j,
            takes uri (c_str id) (b.bytes_of doc) d,
            str_eq_refl uri,
          ))

  fill_table_stored :
      (takes : TakesInserts e) (session : Option e.Session) (coll : Str) (docs : List (Str × b.Doc))
      (d : e.State) (other j : Str)
      → is_ok (fill_table b e session coll docs d).0 ≡ true
      → lookup j (e.scan other (fill_table b e session coll docs d).1) ≡ (
          if str_eq (c_str (make_uri coll)) other
          then last_of b j docs (lookup j (e.scan other d))
          else lookup j (e.scan other d))
  unfolding fill_table
  fill_table_stored takes session coll docs d other j h =
      let uri = c_str (make_uri coll) in
      let d' = (ensure_table e session coll d).1 in
      ground (
        arith,
        str_eq_iff uri other,
        ensure_table_keeps e laws session coll d other,
        write_batch_stored takes uri docs d' j,
        write_batch_other uri docs d' other j,
      )

  -- If the engine takes every insert, a sync with status OK leaves in the table exactly the batch
  -- (for each key its last document that is not empty), and every other table as it was.
  pub sync_collection_stored :
      (takes : TakesInserts e) (coll : Str) (docs : List (Str × b.Doc)) (st : Store e)
      (other j : Str)
      → is_ok (sync_collection b e coll docs st).0 ≡ true
      → lookup j (e.scan other (sync_collection b e coll docs st).1.disk) ≡ (
          if str_eq (c_str (make_uri coll)) other
          then last_of b j docs none
          else lookup j (e.scan other st.disk))
  unfolding sync_collection lookup
  sync_collection_stored takes coll docs st other j h =
      let session = e.open_session st.disk in
      let uri = c_str (make_uri coll) in
      ground (
        arith,
        laws.drop_empties session uri st.disk other,
        fill_table_stored takes session coll docs (e.drop_table session uri st.disk).1 other j,
      )

  -- With a connection, once the drop has gone through and the table cannot be created again,
  -- the sync reports an error and the table reads empty: the old records are lost and the new
  -- ones are not written.
  pub sync_collection-loses :
      (coll : Str) (docs : List (Str × b.Doc)) (st : Store e)
      → st.conn ≡ true
      → let session = e.open_session st.disk in
        let (r, d) = e.drop_table session (c_str (make_uri coll)) st.disk in
        ret_gone r ≡ true
        → is_ok (ensure_table e session coll d).0 ≡ false
        → (is_ok (sync_collection b e coll docs st).0 ≡ false)
          × ((j : Str) → stored e (sync_collection b e coll docs st).1 coll j ≡ none)
  unfolding sync_collection fill_table lookup
  sync_collection-loses coll docs st conn gone failed =
      let session = e.open_session st.disk in
      let uri = c_str (make_uri coll) in
      let d = (e.drop_table session uri st.disk).1 in
      (
        ground arith,
        λ j. ground (
          arith,
          laws.drop_empties session uri st.disk uri,
          ensure_table_keeps e laws session coll d uri,
          str_eq_refl uri,
        ),
      )
