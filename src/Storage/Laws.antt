-- ===== src/Storage/Laws.antt =====
-- The store against the documented behaviour of the engine: what each operation leaves readable.
pub mod Put
pub mod Sync
use aevum.Prelude.{
  ◌≡◌, Bool, true, false, ◌&&◌, [], Option, none, some, Str, lookup, str_eq, if◌then◌else◌,
}
use aevum.Storage.{Engine, Ret, ret_ok, ret_gone}

-- The engine's documented behaviour, by what a fresh cursor reads afterwards.
pub record EngineLaws (e : Engine) : Type 0 where
  -- Creating a table keeps every record, whether it was there or not.
  pub create_keeps :
      (session : e.Session) (uri other : Str) (d : e.State)
      → e.scan other (e.create (some session) uri d).1 ≡ e.scan other d
  -- An insert that succeeds writes the one key, over what it held; one that fails writes nothing.
  pub insert_stores :
      (uri key value : Str) (d : e.State) (other j : Str)
      → lookup j (e.scan other (e.insert uri key value d).1) ≡ (
          if ret_ok (e.insert uri key value d).0 && (str_eq uri other && str_eq key j)
          then some value
          else lookup j (e.scan other d))
  -- A removal that succeeds takes the one key away; one that fails takes nothing.
  pub remove_erases :
      (uri key : Str) (d : e.State) (other j : Str)
      → lookup j (e.scan other (e.remove uri key d).1) ≡ (
          if ret_gone (e.remove uri key d).0 && (str_eq uri other && str_eq key j)
          then none
          else lookup j (e.scan other d))
  -- A drop that succeeds empties the one table; one that fails leaves it.
  pub drop_empties :
      (session : Option e.Session) (uri : Str) (d : e.State) (other : Str)
      → e.scan other (e.drop_table session uri d).1 ≡ (
          if ret_gone (e.drop_table session uri d).0 && str_eq uri other
          then []
          else e.scan other d)
