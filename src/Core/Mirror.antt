-- ===== src/Core/Mirror.antt =====
-- The primary index as a mirror of the storage: the relation, and the ids that keep to it.
pub mod Insert
pub mod Remove
pub mod Update
use aevum.Prelude.{
  ◌≡◌, refl, ◌≢◌, ◌∙◌, ap, Bool, true, false, not, [], ◌∷◌, ◌++◌, List, Option, none, some, Str,
  lit, c_str, c_str_lem, NoNul, str_eq, str_eq_refl, is_empty, lookup, if◌then◌else◌, arith,
  Option-cases, inl, inr, ℕ, ◌<◌,
}
use aevum.Util.Uuid.{generate_v4}
use aevum.Util.Uuid.Format.{generate_v4-NoNul}
use aevum.Bson.{
  Bson, BsonLaws, Value, utf8, int32, int64, double, boolean, document, other, doc_empty, find_utf8,
  utf8_of,
}
use aevum.Storage.{Engine, make_uri}
use aevum.Storage.Laws.Put.{stored}
use aevum.Index.Manager.{IndexManager, extract_id, get_document_by_id}
use aevum.Core.{Core}
use aevum.Core.Write.{identify}

-- Collections whose names hold no NUL have tables of their own.
pub uri_eq :
    (a c : Str) → NoNul a → NoNul c → str_eq (c_str (make_uri a)) (c_str (make_uri c)) ≡ str_eq a c
unfolding make_uri lit c_str str_eq
uri_eq a c na nc = ap (λ s. str_eq s (c_str c)) (c_str_lem a na) ∙ ap (str_eq a) (c_str_lem c nc)

module _ (b : Bson) where
  abbrev pub bytes_in : Option b.Doc → Option Str
  bytes_in none = none
  bytes_in (some doc) = some (b.bytes_of doc)

  -- Every document of the index stands under its own id.
  pub record IsKeyed (m : IndexManager b) : Type 0 where
    pub keyed :
        (c i : Str) (doc : b.Doc)
        → get_document_by_id b m c i ≡ some doc
        → (extract_id b doc ≡ i) × (is_empty i ≡ false)

  -- The document's id, if it has a string for it, is not empty and holds no NUL.
  abbrev pub HasCleanId : b.Doc → Type 0
  HasCleanId doc = (s : Str) → find_utf8 b doc (lit "_id") ≡ some s → NoNul s × (is_empty s ≡ false)

  -- The index will file the document under the text.
  pub record IsFiledUnder (id : Str) (doc : b.Doc) : Type 0 where
    pub files : extract_id b doc ≡ id
    pub clean : c_str id ≡ id
    pub nonempty : is_empty id ≡ false

module _ (b : Bson) (laws : BsonLaws b) where
  pub find_utf8-nonempty :
      (doc : b.Doc) (k s : Str) → find_utf8 b doc k ≡ some s → doc_empty b doc ≡ false
  unfolding find_utf8 doc_empty
  find_utf8-nonempty doc k s h = ground (arith, laws.len-lt doc nonempty)
    where
      nonempty : b.entries doc ≢ []
      nonempty e = unfold lookup in cc (h, laws.find_field-lookup doc k, e)

  pub extract_id-find_utf8 :
      (doc : b.Doc) (s : Str) → find_utf8 b doc (lit "_id") ≡ some s → extract_id b doc ≡ s
  unfolding extract_id
  extract_id-find_utf8 doc s h = ground (arith, find_utf8-nonempty doc (lit "_id") s h)

  find_utf8-prepend :
      (id : Str) (doc : b.Doc)
      → find_utf8 b (b.concat (b.append_utf8 b.fresh (lit "_id") id) doc) (lit "_id") ≡ some id
  unfolding find_utf8 lookup
  find_utf8-prepend id doc =
      let d = b.append_utf8 b.fresh (lit "_id") id in
      let es =
        ap (λ xs. xs ++ b.entries doc)
          (laws.entries-append_utf8 b.fresh (lit "_id") id
            ∙ ap (λ xs. xs ++ (lit "_id", utf8 id) ∷ []) laws.entries-fresh) in
      ap (utf8_of b) (
        laws.find_field-lookup (b.concat d doc) (lit "_id")
        ∙ (ap (lookup (lit "_id")) (laws.entries-concat d doc ∙ es)
            ∙ ap (λ t. if t then some (utf8 id) else lookup (lit "_id") (b.entries doc))
                (str_eq_refl (lit "_id"))))

  fresh_IsFiledUnder :
      (p q : ℕ) (doc : b.Doc)
      → let id = generate_v4 p q in
        IsFiledUnder b id (b.concat (b.append_utf8 b.fresh (lit "_id") (c_str id)) doc)
  fresh_IsFiledUnder p q doc =
      let same = c_str_lem (generate_v4 p q) (generate_v4-NoNul p q).0 in
      record {
        files = extract_id-find_utf8 _ _ (find_utf8-prepend (c_str (generate_v4 p q)) doc) ∙ same;
        clean = same;
        nonempty = unfold generate_v4 in refl;
      }

  -- Whatever document is inserted, the index files it under the id that `insert` reports.
  pub identify-IsFiledUnder :
      (p q : ℕ) (doc : b.Doc)
      → HasCleanId b doc
      → IsFiledUnder b (identify b (generate_v4 p q) doc).0 (identify b (generate_v4 p q) doc).1
  unfolding identify
  identify-IsFiledUnder p q doc h = elim (Option-cases (find_utf8 b doc (lit "_id"))) [
    | inl e ↦ rw (e, identify) (fresh_IsFiledUnder p q doc)
    | inr (s, e) ↦
        rw (e, identify)
          (record {
            files = rw (c_str_lem s (h s e).0) (extract_id-find_utf8 doc s e);
            clean = rw (c_str_lem s (h s e).0) (c_str_lem s (h s e).0);
            nonempty = rw (c_str_lem s (h s e).0) (h s e).1;
          })
  ]

module _ (b : Bson) (e : Engine) where
  -- For every non-empty id the table of the collection holds the bytes of the document that the
  -- primary index has, and nothing where that has nothing.
  abbrev pub Mirrors : Core b e → Str → Type 0
  Mirrors core c =
      (i : Str)
      → is_empty i ≡ false
      → stored e core.storage c i ≡ bytes_in b (get_document_by_id b core.index_manager c i)
