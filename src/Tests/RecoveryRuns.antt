-- ===== src/Tests/RecoveryRuns.antt =====
-- The recovery of a collection, and a removal from it, at an engine over tables in memory that holds one
-- document.
use aevum.Prelude.{
  none, ◌≡◌, refl, ◌∷◌, [], Str, codes, lit, c_str, lookup, lookup_or, str_eq, inl, inr, Bool-cases,
  arith, str_eq_iff, some, true, false, sym, subst, is_empty,
}
use aevum.Storage.{make_uri, ensure_table}
use aevum.Bson.{find_utf8, doc_empty}
use aevum.Index.Primary.{get_by_id}
use aevum.Index.Manager.{get_document_by_id, extract_id}
use aevum.Core.{Core}
use aevum.Core.Load.{load_named}
use aevum.Core.Mirror.{IsKeyed, Mirrors}
use aevum.Core.Recovery.{IsReadable, load_named-recovers}
use aevum.Tests.Memory.{Node, memory, node_bytes}
use aevum.Tests.Disk.{disk, disk_laws}
use aevum.Core.Write.{remove}
use aevum.Core.Mirror.Remove.{remove-Mirrors}
use aevum.Tests.CoreRuns.{answers, users-NoNul, users, doc_a, new_core}

abbrev running : Core memory disk
running = record new_core {
  storage = record {
    base_path = [];
    conn = true;
    disk = (codes "table:users", (codes "a", node_bytes doc_a) ∷ []) ∷ [];
  };
  index_manager = record new_core.index_manager {
    primary = record { id_indexes = (users, (codes "a", doc_a) ∷ []) ∷ [] };
  };
}

-- What has the same storage and no index yet.
abbrev restarted : Core memory disk
restarted = record new_core { storage = running.storage }

found_a :
    (c i : Str) (d : Node)
    → get_document_by_id memory running.index_manager c i ≡ some d
    → (d ≡ doc_a) × (i ≡ codes "a")
unfolding lookup get_document_by_id get_by_id
found_a c i d h = elim (Bool-cases (str_eq (codes "users") c)) [
  | inr other ↦ absurd (ground (arith, h, other))
  | inl same ↦ elim (Bool-cases (str_eq (codes "a") i)) [
    | inr other ↦ absurd (ground (arith, h, same, other))
    | inl key ↦ (ground (arith, h, same, key), sym ((str_eq_iff (codes "a") i).0 key))
  ]
]

filed_a : (extract_id memory doc_a ≡ codes "a") × (is_empty (codes "a") ≡ false)
unfolding extract_id find_utf8 doc_empty lit c_str lookup str_eq
filed_a = (refl, refl)

running-IsKeyed : IsKeyed memory running.index_manager
running-IsKeyed = record {
  keyed = λ c i d h.
      let (doc, id) = found_a c i d h in
      subst (λ x. (extract_id memory x ≡ i) × (is_empty i ≡ false)) (sym doc)
        (subst (λ j. (extract_id memory doc_a ≡ j) × (is_empty j ≡ false)) (sym id) filed_a);
}

running-Mirrors : Mirrors memory disk running users
unfolding lookup lookup_or get_document_by_id get_by_id make_uri c_str lit str_eq
running-Mirrors i ne = elim (Bool-cases (str_eq (codes "a") i)) [
  | inr other ↦ ground (arith, other)
  | inl same ↦ ground (arith, same)
]

running-IsReadable : IsReadable memory disk users running
unfolding lookup lookup_or get_document_by_id get_by_id make_uri ensure_table c_str lit str_eq
running-IsReadable = record {
  connected = refl;
  opens = (refl, refl);
  unique = (refl, tt);
  no_empty_key = refl;
  reads_back = λ i d h.
      subst (λ x. memory.from_data (memory.bytes_of x) ≡ some x) (sym (found_a users i d h).0) refl;
}

load_named-recovers_example :
    get_document_by_id memory
      (load_named memory disk users restarted).index_manager
      users
      (codes "a")
    ≡ get_document_by_id memory running.index_manager users (codes "a")
unfolding lit str_eq
load_named-recovers_example =
    load_named-recovers memory disk disk_laws users running restarted (codes "a") refl refl
      running-IsReadable running-IsKeyed running-Mirrors

-- The query engine names the document of the collection, which is removed.
remove-Mirrors_example :
    Mirrors memory disk (remove memory disk answers users [] running).1 users
    × IsKeyed memory (remove memory disk answers users [] running).1.index_manager
remove-Mirrors_example =
    remove-Mirrors memory disk disk_laws answers users [] running users users-NoNul users-NoNul
      running-IsKeyed running-Mirrors

-- It is gone, and the removal is counted.
removed_a :
    ((remove memory disk answers users [] running).0.1 ≡ 1)
    × (get_document_by_id memory
          (remove memory disk answers users [] running).1.index_manager
          users
          (codes "a")
        ≡ none)
unfolding remove aevum.Bson.parse aevum.Core.Write.array_ids c_str aevum.Core.Read.or_text find_utf8
    lookup str_eq lit aevum.Core.Write.remove_ids get_document_by_id get_by_id aevum.Storage.remove
    aevum.Index.Manager.remove_document_from_indexes extract_id doc_empty
    aevum.Index.Primary.remove_document_from_primary_index aevum.Core.Write.remove_found
    aevum.Prelude.insert aevum.Prelude.erase lookup_or ensure_table make_uri
removed_a = (refl, refl)
