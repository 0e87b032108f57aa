-- ===== src/Bson.antt =====
-- libbson, which the sources call and do not contain: documents and their operations as an
-- interface, with the documented behaviour that the theorems rely on as named laws. The wrappers
-- of bson/doc and bson/json are defined over it.

pub mod Ownership
pub mod Builder
pub mod Iterator
use aevum.Prelude.{
  ℕ, ◌<◌, ◌≡◌, ◌≢◌, Bool, true, false, [], ◌∷◌, ◌++◌, Option, none, some, Str, Map, lookup, lit,
  leb, ℤ,
}
use aevum.Util.Status.{Status, ok, invalid_argument}

-- The value under an iterator, by the types that the sources tell apart; `other` is the rest.
pub data Value (Doc Double Other : Type 0) : Type 0 where
  utf8 : Str → Value Doc Double Other
  int32 : ℤ → Value Doc Double Other
  int64 : ℤ → Value Doc Double Other
  double : Double → Value Doc Double Other
  boolean : Bool → Value Doc Double Other
  document : Doc → Value Doc Double Other
  other : Other → Value Doc Double Other

pub record Bson : Type 1 where
  pub Doc : Type 0
  pub Double : Type 0
  pub Other : Type 0
  -- bson_t.len
  pub len : Doc → ℕ
  -- bson_iter_init and bson_iter_next, to the end
  pub entries : Doc → Map (Value Doc Double Other)
  -- bson_iter_init_find
  pub find_field : Doc → Str → Option (Value Doc Double Other)
  -- bson_new
  pub fresh : Doc
  pub append_utf8 : Doc → Str → Str → Doc
  pub append_document : Doc → Str → Doc → Doc
  pub append_value : Doc → Str → Value Doc Double Other → Doc
  pub concat : Doc → Doc → Doc
  -- bson_get_data, and bson_new_from_data, which may refuse
  pub bytes_of : Doc → Str
  pub from_data : Str → Option Doc
  -- bson_new_from_json; the text is the message of the error
  pub from_json : Str → Option Doc
  pub json_error : Str → Str
  -- bson_as_relaxed_extended_json
  pub as_json : Doc → Option Str
  pub double_to_string : Double → Str

pub record BsonLaws (b : Bson) : Type 0 where
  pub entries-fresh : b.entries b.fresh ≡ []
  pub entries-append_utf8 :
      (d : b.Doc) (k v : Str) → b.entries (b.append_utf8 d k v) ≡ b.entries d ++ (k, utf8 v) ∷ []
  pub entries-append_document :
      (d : b.Doc) (k : Str) (c : b.Doc)
      → b.entries (b.append_document d k c) ≡ b.entries d ++ (k, document c) ∷ []
  pub entries-append_value :
      (d : b.Doc) (k : Str) (v : Value b.Doc b.Double b.Other)
      → b.entries (b.append_value d k v) ≡ b.entries d ++ (k, v) ∷ []
  pub entries-concat : (d c : b.Doc) → b.entries (b.concat d c) ≡ b.entries d ++ b.entries c
  pub find_field-lookup : (d : b.Doc) (k : Str) → b.find_field d k ≡ lookup k (b.entries d)
  pub len-lt : (d : b.Doc) → b.entries d ≢ [] → 5 < b.len d

module _ (b : Bson) where
  -- Document::empty()
  unfoldable pub doc_empty : b.Doc → Bool
  doc_empty d = leb (b.len d) 5

  -- The text of a UTF-8 value, through an iterator that holds one.
  abbrev pub utf8_of : Option (Value b.Doc b.Double b.Other) → Option Str
  utf8_of (some (utf8 s)) = some s
  utf8_of _ = none

  -- bson_iter_init_find(&iter, doc, key) && BSON_ITER_HOLDS_UTF8(&iter), with bson_iter_utf8
  unfoldable pub find_utf8 : b.Doc → Str → Option Str
  find_utf8 d k = utf8_of (b.find_field d k)

  -- bson::json::parse: the status, and the document where there is one
  unfoldable pub parse : Str → Status × Option b.Doc
  parse s = elim (b.from_json s) [
    | none ↦ (invalid_argument (b.json_error s), none)
    | some d ↦ (ok, some d)
  ]

  abbrev or_braces : Option Str → Str
  or_braces none = lit "{}"
  or_braces (some s) = s

  -- bson::json::to_string
  unfoldable pub to_json : b.Doc → Str
  to_json d = elim (doc_empty d) [ true ↦ lit "{}" | false ↦ or_braces (b.as_json d) ]
