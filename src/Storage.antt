-- ===== src/Storage.antt =====
-- db/storage/wiredtiger_store.cpp in the build with WiredTiger. The engine itself is third-party
-- code, and stands here as the interface `Engine`, a null session included.
pub mod Laws
use aevum.Prelude.{
  ℕ, ◌≡◌, Bool, true, false, not, ◌&&◌, List, [], ◌∷◌, ◌++◌, Option, none, some, Str, Map, lookup,
  lit, c_str, take, drop, str_eq, if◌then◌else◌, ◌<◌, leb, length,
}
use aevum.Util.Status.{Status, ok, is_ok, corruption, invalid_argument, io_error}
use aevum.Bson.{Bson, doc_empty}

-- The return codes that the source tells apart.
pub data Ret : Type 0 where
  success exists_already wt_notfound : Ret
  failure : ℕ → Ret

-- ret == 0
abbrev pub ret_ok : Ret → Bool
ret_ok success = true
ret_ok _ = false

-- ret == 0 || ret == WT_NOTFOUND
abbrev pub ret_gone : Ret → Bool
ret_gone success = true
ret_gone wt_notfound = true
ret_gone _ = false

pub record Engine : Type 1 where
  pub State : Type 0
  pub Session : Type 0
  pub strerror : Ret → Str
  pub path_exists : State → Str → Bool
  pub create_directories : State → Str → Bool × State
  pub directory_error : State → Str → Str
  pub wiredtiger_open : State → Str → Ret × State
  pub open_session : State → Option Session
  pub create : Option Session → Str → State → Ret × State
  pub drop_table : Option Session → Str → State → Ret × State
  pub open_cursor : Option Session → Str → State → Ret
  -- the records that a fresh cursor walks over, and the keys of the `metadata:` cursor
  pub scan : Str → State → List (Str × Str)
  pub metadata : State → List Str
  pub insert : Str → Str → Str → State → Ret × State
  pub remove : Str → Str → State → Ret × State

pub record Store (e : Engine) : Type 0 where
  pub base_path : Str
  -- conn_ != nullptr
  pub conn : Bool
  pub disk : e.State

unfoldable pub make_uri : Str → Str
make_uri coll = lit "table:" ++ coll

module _ (e : Engine) where
  abbrev pub with_disk : Store e → e.State → Store e
  with_disk st d = record st { disk = d }

  open_status : Ret → Status
  open_status success = ok
  open_status r = io_error (lit "WT Open failed: " ++ e.strerror r)

  open_store : Store e → Status × Store e
  unfolding open_status
  open_store st =
      let (r, d) = e.wiredtiger_open st.disk (c_str st.base_path) in
      (open_status r, record st { conn = ret_ok r; disk = d })

  unfoldable pub init : Store e → Status × Store e
  unfolding open_store
  init st =
      if e.path_exists st.disk st.base_path
      then open_store st
      else let (made, d) = e.create_directories st.disk st.base_path in
        if made then open_store (with_disk st d) else (
          io_error
              (lit "Failed to create db directory: " ++ e.directory_error st.disk st.base_path),
          with_disk st d,
        )

  table_status : Ret → Status
  table_status success = ok
  table_status exists_already = ok
  table_status r = io_error (lit "WT Create Table failed: " ++ e.strerror r)

  unfoldable pub ensure_table : Option e.Session → Str → e.State → Status × e.State
  unfolding table_status
  ensure_table none coll d = (corruption (lit "WT Session is null"), d)
  ensure_table (some session) coll d =
      let (r, d') = e.create (some session) (c_str (make_uri coll)) d in (table_status r, d')

  -- The part of a metadata key behind `table:`.
  table_names : List Str → List Str
  table_names [] = []
  table_names (key ∷ keys) =
      let rest = table_names keys in
      if leb 6 (length key) && str_eq (take 6 key) (lit "table:") then drop 6 key ∷ rest else rest

  unfoldable pub list_collections : Store e → List Str
  unfolding table_names
  list_collections st =
      if st.conn && ret_ok (e.open_cursor (e.open_session st.disk) (lit "metadata:") st.disk)
      then table_names (e.metadata st.disk)
      else []

  insert_status : Ret → Status
  insert_status success = ok
  insert_status r = io_error (lit "WT Insert failed: " ++ e.strerror r)

  remove_status : Ret → Status
  remove_status success = ok
  remove_status wt_notfound = ok
  remove_status r = io_error (lit "WT Remove failed: " ++ e.strerror r)

  cursor_error : Str → Status
  cursor_error uri = io_error (lit "WT Open Cursor failed for '" ++ (uri ++ lit "'."))

  -- The body of `remove` once the table is there.
  remove_key : Option e.Session → Str → Str → e.State → Status × e.State
  unfolding remove_status cursor_error
  remove_key session coll id d =
      if not (ret_ok (e.open_cursor session (c_str (make_uri coll)) d))
      then (cursor_error (make_uri coll), d)
      else let (r, d') = e.remove (c_str (make_uri coll)) (c_str id) d in (remove_status r, d')

  unfoldable pub remove : Str → Str → Store e → Status × Store e
  unfolding ensure_table remove_key
  remove coll id st =
      if not st.conn
      then (corruption (lit "WT Connection is null"), st)
      else let session = e.open_session st.disk in
        let (status, d) = ensure_table session coll st.disk in
        if not (is_ok status)
        then (status, with_disk st d)
        else let (status', d') = remove_key session coll id d in (status', with_disk st d')

module _ (b : Bson) (e : Engine) where
  -- The documents of a scan; a value that libbson refuses is left out.
  unfoldable pub decode : List (Str × Str) → List b.Doc
  decode [] = []
  decode ((key, value) ∷ rest) = elim (b.from_data value) [
    | none ↦ decode rest
    | some doc ↦ doc ∷ decode rest
  ]

  unfoldable pub load_collection : Str → Store e → List b.Doc × Store e
  unfolding decode
  load_collection coll st =
      if not st.conn
      then ([], st)
      else let session = e.open_session st.disk in
        let (status, d) = ensure_table e session coll st.disk in
        if is_ok status && ret_ok (e.open_cursor session (c_str (make_uri coll)) d)
        then (decode (e.scan (c_str (make_uri coll)) d), with_disk e st d)
        else ([], with_disk e st d)

  -- The body of `put` once the table is there.
  put_value : Option e.Session → Str → Str → b.Doc → e.State → Status × e.State
  unfolding insert_status cursor_error
  put_value session coll id doc d =
      if not (ret_ok (e.open_cursor session (c_str (make_uri coll)) d))
      then (cursor_error e (make_uri coll), d)
      else let (r, d') = e.insert (c_str (make_uri coll)) (c_str id) (b.bytes_of doc) d in
        (insert_status e r, d')

  unfoldable pub put : Str → Str → b.Doc → Store e → Status × Store e
  unfolding ensure_table put_value
  put coll id doc st =
      if not st.conn
      then (corruption (lit "WT Connection is null"), st)
      else if doc_empty b doc
      then (invalid_argument (lit "Empty BSON document"), st)
      else let session = e.open_session st.disk in
        let (status, d) = ensure_table e session coll st.disk in
        if not (is_ok status)
        then (status, with_disk e st d)
        else let (status', d') = put_value session coll id doc d in (status', with_disk e st d')

  -- The loop of `sync_collection`: an empty document is skipped, a failed insert only logged.
  unfoldable pub write_batch : Str → List (Str × b.Doc) → e.State → e.State
  write_batch uri [] d = d
  write_batch uri ((id, doc) ∷ rest) d =
      write_batch uri rest
        (if doc_empty b doc then d else (e.insert uri (c_str id) (b.bytes_of doc) d).1)

  -- The part of `sync_collection` behind the drop.
  fill_table : Option e.Session → Str → List (Str × b.Doc) → e.State → Status × e.State
  unfolding cursor_error
  fill_table session coll docs d =
      let (status, d') = ensure_table e session coll d in
      if not (is_ok status)
      then (status, d')
      else if ret_ok (e.open_cursor session (c_str (make_uri coll)) d')
      then (ok, write_batch (c_str (make_uri coll)) docs d')
      else (cursor_error e (make_uri coll), d')

  unfoldable pub sync_collection : Str → List (Str × b.Doc) → Store e → Status × Store e
  unfolding fill_table
  sync_collection coll docs st =
      if not st.conn
      then (corruption (lit "WT Connection is null"), st)
      else let session = e.open_session st.disk in
        let (r, d) = e.drop_table session (c_str (make_uri coll)) st.disk in
        if not (ret_gone r)
        then (io_error (lit "WT Drop failed: " ++ e.strerror r), with_disk e st d)
        else let (status, d') = fill_table session coll docs d in (status, with_disk e st d')
