-- ===== src/Storage/Laws/Put.antt =====
-- `put` and `remove`: what is readable after each, on every branch.
use aevum.Prelude.{
  ◌≡◌, refl, ◌&&◌, Option, none, some, Str, lookup, str_eq, c_str, if◌then◌else◌, arith,
}
use aevum.Util.Status.{is_ok}
use aevum.Bson.{Bson}
use aevum.Storage.{Engine, Store, make_uri, ensure_table, remove_key, remove, put_value, put}
use aevum.Storage.Laws.{EngineLaws}

-- What a table of the store holds under a key.
abbrev pub stored : (e : Engine) → Store e → Str → Str → Option Str
stored e st coll key = lookup key (e.scan (c_str (make_uri coll)) st.disk)

module _ (e : Engine) (laws : EngineLaws e) where
  pub ensure_table_keeps :
      (session : Option e.Session) (coll : Str) (d : e.State) (other : Str)
      → e.scan other (ensure_table e session coll d).1 ≡ e.scan other d
  unfolding ensure_table
  ensure_table_keeps none coll d other = refl
  ensure_table_keeps (some x) coll d other = laws.create_keeps x (c_str (make_uri coll)) other d

  remove_key_stored :
      (session : Option e.Session) (coll id : Str) (d : e.State) (other j : Str)
      → lookup j (e.scan other (remove_key e session coll id d).1) ≡ (
          if is_ok (remove_key e session coll id d).0
            && (str_eq (c_str (make_uri coll)) other && str_eq (c_str id) j)
          then none
          else lookup j (e.scan other d))
  unfolding remove_key
  remove_key_stored session coll id d other j =
      ground (arith, laws.remove_erases (c_str (make_uri coll)) (c_str id) d other j)

  -- After `remove` every record is as before, but for the one under the key if the status is OK.
  pub remove_stored :
      (coll id : Str) (st : Store e) (other j : Str)
      → lookup j (e.scan other (remove e coll id st).1.disk) ≡ (
          if is_ok (remove e coll id st).0
            && (str_eq (c_str (make_uri coll)) other && str_eq (c_str id) j)
          then none
          else lookup j (e.scan other st.disk))
  unfolding remove
  remove_stored coll id st other j = ground (
    arith,
    ensure_table_keeps (e.open_session st.disk) coll st.disk other,
    remove_key_stored (e.open_session st.disk) coll id
        (ensure_table e (e.open_session st.disk) coll st.disk).1 other j,
  )

module _ (b : Bson) (e : Engine) (laws : EngineLaws e) where
  put_value_stored :
      (session : Option e.Session) (coll id : Str) (doc : b.Doc) (d : e.State) (other j : Str)
      → lookup j (e.scan other (put_value b e session coll id doc d).1) ≡ (
          if is_ok (put_value b e session coll id doc d).0
            && (str_eq (c_str (make_uri coll)) other && str_eq (c_str id) j)
          then some (b.bytes_of doc)
          else lookup j (e.scan other d))
  unfolding put_value
  put_value_stored session coll id doc d other j =
      ground
        (arith, laws.insert_stores (c_str (make_uri coll)) (c_str id) (b.bytes_of doc) d other j)

  -- After `put` every record is as before, but for the one under the key if the status is OK: that
  -- one holds the bytes of the document.
  pub put_stored :
      (coll id : Str) (doc : b.Doc) (st : Store e) (other j : Str)
      → lookup j (e.scan other (put b e coll id doc st).1.disk) ≡ (
          if is_ok (put b e coll id doc st).0
            && (str_eq (c_str (make_uri coll)) other && str_eq (c_str id) j)
          then some (b.bytes_of doc)
          else lookup j (e.scan other st.disk))
  unfolding put
  put_stored coll id doc st other j = ground (
    arith,
    ensure_table_keeps e laws (e.open_session st.disk) coll st.disk other,
    put_value_stored (e.open_session st.disk) coll id doc
        (ensure_table e (e.open_session st.disk) coll st.disk).1 other j,
  )
