-- ===== src/Tests/StorageRuns.antt =====
-- The theorems of the storage at concrete tables.
use aevum.Prelude.{◌≡◌, refl, false, [], ◌∷◌, none, Str, codes}
use aevum.Util.Status.{is_ok}
use aevum.Storage.{Store, sync_collection, ensure_table}
use aevum.Storage.Laws.Put.{stored}
use aevum.Storage.Laws.Sync.{sync_collection-loses}
use aevum.Tests.Memory.{Node, nil, text, memory}
use aevum.Tests.Disk.{full_disk, full_disk_laws, full_store}

abbrev users : Str
users = codes "users"

abbrev key_a : Str
key_a = codes "a"

abbrev doc_a : Node
doc_a = text (codes "_id") (codes "a") nil

abbrev uri : Str
uri = codes "table:users"

-- The table of the collection holds a record already, and the device is full.
abbrev stocked : Store full_disk
stocked = record full_store { disk = (uri, (key_a, codes "old") ∷ []) ∷ [] }

sync_collection-loses_example :
    (is_ok (sync_collection memory full_disk users ((key_a, doc_a) ∷ []) stocked).0 ≡ false)
    × ((j : Str)
        → stored full_disk
            (sync_collection memory full_disk users ((key_a, doc_a) ∷ []) stocked).1
            users
            j
          ≡ none)
unfolding ensure_table
sync_collection-loses_example =
    sync_collection-loses memory full_disk full_disk_laws users ((key_a, doc_a) ∷ []) stocked refl
      refl refl
