-- ===== src/Core/Recovery.antt =====
-- What `load_all` recovers of the documents of a collection.
use aevum.Prelude.{
  ◌≡◌, refl, ap, sym, ◌∙◌, subst, true, false, [], ◌∷◌, List, Option, none, some, Str, c_str,
  lookup, str_eq, str_eq_iff, str_eq_refl, is_empty, if◌then◌else◌, arith, inl, inr, Bool-cases,
  Option-cases,
}
use aevum.Util.Status.{is_ok}
use aevum.Bson.{Bson}
use aevum.Storage.{Engine, make_uri, ensure_table, decode, load_collection, ret_ok}
use aevum.Storage.Laws.{EngineLaws}
use aevum.Storage.Laws.Put.{stored, ensure_table_keeps}
use aevum.Index.Manager.{extract_id, get_document_by_id}
use aevum.Index.Manager.Rebuild.{last_with_id, rebuild_index-primary}
use aevum.Core.{Core}
use aevum.Core.Load.{load_named}
use aevum.Core.Restart.{is_system, not_system}
use aevum.Core.Mirror.{IsKeyed, Mirrors}

-- No key has two records.
abbrev pub AreUnique : List (Str × Str) → Type 0
AreUnique [] = Unit {0}
AreUnique ((k, v) ∷ rs) = (lookup k rs ≡ none) × AreUnique rs

module _ (b : Bson) where
  -- The record is that of a document, under the document's id.
  abbrev IsRecord : Str → Str → Type 0
  IsRecord k v =
      (doc : b.Doc) × (b.from_data v ≡ some doc) × (extract_id b doc ≡ k) × (is_empty k ≡ false)

  abbrev AreRecords : List (Str × Str) → Type 0
  AreRecords [] = Unit {0}
  AreRecords ((k, v) ∷ rs) = IsRecord k v × AreRecords rs

  -- What a found record says of the document.
  abbrev found : Option Str → Option b.Doc → Option b.Doc
  found none old = old
  found (some v) old = b.from_data v

  AreRecords-lookup :
      (rs : List (Str × Str))
      → AreUnique rs
      → ((k v : Str) → lookup k rs ≡ some v → IsRecord k v)
      → AreRecords rs
  unfolding lookup
  AreRecords-lookup [] unique all = tt
  AreRecords-lookup ((k, v) ∷ rs) (fresh, unique) all = (
    all k v (ground (arith, str_eq_refl k)),
    AreRecords-lookup rs unique (λ j w h. all j w (later j w h)),
  )
    where
      later :
          (j w : Str) → lookup j rs ≡ some w → (if str_eq k j then some v else lookup j rs) ≡ some w
      later j w h = elim (Bool-cases (str_eq k j)) [
        | inr other ↦ rw other h
        | inl same ↦
            let none_there : lookup j rs ≡ none =
              subst (λ x. lookup x rs ≡ none) ((str_eq_iff k j).0 same) fresh in
            absurd (ground (arith, none_there, h))
      ]

  last_found :
      (k v : Str) (rs : List (Str × Str)) (i : Str) (old : Option b.Doc) (doc : b.Doc)
      → b.from_data v ≡ some doc
      → lookup k rs ≡ none
      → found (lookup i rs) (if str_eq k i then some doc else old)
        ≡ found (if str_eq k i then some v else lookup i rs) old
  last_found k v rs i old doc reads fresh = elim (Bool-cases (str_eq k i)) [
    | inr other ↦ rw other refl
    | inl same ↦
        let none_there : lookup i rs ≡ none =
          subst (λ x. lookup x rs ≡ none) ((str_eq_iff k i).0 same) fresh in
        rw (same, none_there) (sym reads)
  ]

module _ (b : Bson) (e : Engine) where
  last_with_id-decode :
      (rs : List (Str × Str)) (i : Str) (old : Option b.Doc)
      → AreUnique rs
      → AreRecords b rs
      → last_with_id b i (decode b e rs) old ≡ found b (lookup i rs) old
  unfolding decode lookup
  last_with_id-decode [] i old unique records = refl
  last_with_id-decode ((k, v) ∷ rs) i old (fresh, unique) ((doc, reads, files, ne), records) =
      let next = if str_eq k i then some doc else old in
      rw (reads, decode, files, ne)
        (last_with_id-decode rs i next unique records ∙ last_found b k v rs i old doc reads fresh)

  -- The records of the collection can be read: no key has two or is empty, the table opens, and
  -- libbson reads back what it wrote of the documents that the index has.
  pub record IsReadable (coll : Str) (core : Core b e) : Type 0 where
    pub connected : core.storage.conn ≡ true
    pub opens :
        let (status, d) =
          ensure_table e (e.open_session core.storage.disk) coll core.storage.disk in
        (is_ok status ≡ true)
        × (ret_ok (e.open_cursor (e.open_session core.storage.disk) (c_str (make_uri coll)) d)
            ≡ true)
    pub unique : AreUnique (e.scan (c_str (make_uri coll)) core.storage.disk)
    pub no_empty_key : stored e core.storage coll [] ≡ none
    pub reads_back :
        (i : Str) (doc : b.Doc)
        → get_document_by_id b core.index_manager coll i ≡ some doc
        → b.from_data (b.bytes_of doc) ≡ some doc

  load_collection-decode :
      (laws : EngineLaws e) (coll : Str) (core : Core b e)
      → IsReadable coll core
      → (load_collection b e coll core.storage).0
        ≡ decode b e (e.scan (c_str (make_uri coll)) core.storage.disk)
  unfolding load_collection
  load_collection-decode laws coll core r =
      let session = e.open_session core.storage.disk in
      rw (r.connected, r.opens.0, r.opens.1)
        (ap (decode b e)
          (ensure_table_keeps e laws session coll core.storage.disk (c_str (make_uri coll))))

  stored_document :
      (coll : Str) (core : Core b e) (i v : Str)
      → IsReadable coll core
      → IsKeyed b core.index_manager
      → Mirrors b e core coll
      → stored e core.storage coll i ≡ some v
      → IsRecord b i v
  stored_document coll core [] v r k mirrors there = absurd (ground (arith, r.no_empty_key, there))
  stored_document coll core (c ∷ s) v r k mirrors there =
      let i = c ∷ s in
      elim (Option-cases (get_document_by_id b core.index_manager coll i)) [
        | inl miss ↦ absurd (ground (arith, mirrors i refl, there, miss))
        | inr (doc, hit) ↦
            let wrote : b.bytes_of doc ≡ v = ground (arith, mirrors i refl, there, hit) in
            (
              doc,
              subst (λ x. b.from_data x ≡ some doc) wrote (r.reads_back i doc hit),
              (k.keyed coll i doc hit).0,
              refl,
            )
      ]

  loaded_document :
      (coll : Str) (core : Core b e) (i : Str)
      → IsReadable coll core
      → IsKeyed b core.index_manager
      → Mirrors b e core coll
      → found b (stored e core.storage coll i) none ≡ get_document_by_id b core.index_manager coll i
  loaded_document coll core [] r k mirrors =
      elim (Option-cases (get_document_by_id b core.index_manager coll [])) [
        | inl miss ↦ rw (r.no_empty_key, miss) refl
        | inr (doc, hit) ↦ absurd (ground (arith, (k.keyed coll [] doc hit).1))
      ]
  loaded_document coll core (c ∷ s) r k mirrors =
      let i = c ∷ s in
      elim (Option-cases (get_document_by_id b core.index_manager coll i)) [
        | inl miss ↦ rw (mirrors i refl, miss) refl
        | inr (doc, hit) ↦ rw (mirrors i refl, hit) (r.reads_back i doc hit)
      ]

  -- Where the primary index mirrors the table of a user collection, files documents under their
  -- ids, and the table can be read, the engine that starts over that table, whatever it has loaded
  -- before, finds under every id of the collection what was found before the restart.
  pub load_named-recovers :
      (laws : EngineLaws e) (coll : Str) (core fresh : Core b e) (i : Str)
      → is_system coll ≡ false
      → fresh.storage ≡ core.storage
      → IsReadable coll core
      → IsKeyed b core.index_manager
      → Mirrors b e core coll
      → get_document_by_id b (load_named b e coll fresh).index_manager coll i
        ≡ get_document_by_id b core.index_manager coll i
  unfolding load_named
  load_named-recovers laws coll core fresh i user same r k mirrors =
      let tests = not_system coll user in
      let docs = (load_collection b e coll fresh.storage).0 in
      let records = e.scan (c_str (make_uri coll)) core.storage.disk in
      let loaded : docs ≡ decode b e records =
        ap (λ st. (load_collection b e coll st).0) same ∙ load_collection-decode laws coll core r in
      rw (tests.0, tests.1, tests.2, load_named)
        (rebuild_index-primary b coll docs fresh.index_manager coll i
          ∙ ap
              (λ t.
                if t
                then last_with_id b i docs none
                else get_document_by_id b fresh.index_manager coll i)
              (str_eq_refl coll)
          ∙ ap (λ ds. last_with_id b i ds none) loaded
          ∙ last_with_id-decode records i none r.unique (
              AreRecords-lookup b records r.unique
                (λ j v h. stored_document coll core j v r k mirrors h))
          ∙ loaded_document coll core i r k mirrors)
