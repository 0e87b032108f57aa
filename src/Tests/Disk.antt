-- ===== src/Tests/Disk.antt =====
-- Tables in memory: a value of the interface `Engine` that meets its laws, and one that refuses to
-- create tables.
use aevum.Prelude.{
  refl, true, [], some, Str, Map, lookup, lookup_or, insert, erase, map, lookup-insert,
  lookup-erase, str_eq_iff, arith,
}
use aevum.Storage.{Engine, success, failure, Store}
use aevum.Storage.Laws.{EngineLaws}

abbrev Tables : Type 0
Tables = Map (Map Str)

abbrev scan_table : Str → Tables → Map Str
scan_table uri t = lookup_or [] uri t

abbrev pub disk : Engine
disk = record {
  State = Tables;
  Session = Unit {0};
  strerror = λ r. [];
  path_exists = λ t p. true;
  create_directories = λ t p. (true, t);
  directory_error = λ t p. [];
  wiredtiger_open = λ t p. (success, t);
  open_session = λ t. some tt;
  create = λ s uri t. (success, insert uri (scan_table uri t) t);
  drop_table = λ s uri t. (success, erase uri t);
  open_cursor = λ s uri t. success;
  scan = scan_table;
  metadata = map (λ entry. entry.0);
  insert = λ uri k v t. (success, insert uri (insert k v (scan_table uri t)) t);
  remove = λ uri k t. (success, insert uri (erase k (scan_table uri t)) t);
}

pub disk_laws : EngineLaws disk
unfolding lookup_or lookup
disk_laws = record {
  create_keeps = λ s uri other t.
      ground (arith, str_eq_iff uri other, lookup-insert uri other (scan_table uri t) t);
  insert_stores = λ uri k v t other j. ground (
    arith,
    str_eq_iff uri other,
    lookup-insert uri other (insert k v (scan_table uri t)) t,
    lookup-insert k j v (scan_table uri t),
  );
  remove_erases = λ uri k t other j. ground (
    arith,
    str_eq_iff uri other,
    lookup-insert uri other (erase k (scan_table uri t)) t,
    lookup-erase k j (scan_table uri t),
  );
  drop_empties = λ s uri t other. ground (arith, lookup-erase uri other t);
}

-- The device is full: no table can be created.
abbrev pub full_disk : Engine
full_disk = record disk { create = λ s uri t. (failure 28, t) }

pub full_disk_laws : EngineLaws full_disk
full_disk_laws = record {
  create_keeps = λ s uri other t. refl;
  insert_stores = disk_laws.insert_stores;
  remove_erases = disk_laws.remove_erases;
  drop_empties = disk_laws.drop_empties;
}

-- An open store over no tables.
abbrev pub empty_store : Store disk
empty_store = record { base_path = []; conn = true; disk = [] }

abbrev pub full_store : Store full_disk
full_store = record { base_path = []; conn = true; disk = [] }
