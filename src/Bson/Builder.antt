-- ===== src/Bson/Builder.antt =====
-- bson/builder.cpp. A builder has one document, whose pointer `finalize` hands over: `none` is a
-- null pointer.
pub mod Entries
use aevum.Prelude.{
  ◌≡◌, [], ◌∷◌, ◌++◌, ◌||◌, List, Option, none, some, Str, ℕ, ℤ, Bool, true, false, c_str, ◌==◌,
  if◌then◌else◌,
}
use aevum.Bson.{Bson, Value, utf8, int32, int64, double, boolean, document, other}

-- std::string_view: the bytes from its pointer on, to the end of the memory that may be read, and
-- its length.
pub record StringView : Type 0 where
  pub bytes : Str
  pub size : ℕ

-- How a call ends: it returns, libbson's check of a null pointer aborts the program, or bytes are
-- read that do not belong to the memory of the string, which is undefined.
pub data Outcome {ℓ} (A : Type ℓ) : Type ℓ where
  returns : A → Outcome A
  aborts overreads : Outcome A

-- The other appending functions of libbson.
pub record Appends (b : Bson) : Type 0 where
  pub bson_append_int32 : b.Doc → Str → ℤ → b.Doc
  pub bson_append_int64 : b.Doc → Str → ℤ → b.Doc
  pub bson_append_double : b.Doc → Str → b.Double → b.Doc
  pub bson_append_bool : b.Doc → Str → Bool → b.Doc
  pub bson_append_null : b.Doc → Str → b.Doc

pub record AppendsLaws (b : Bson) (a : Appends b) : Type 0 where
  pub null : b.Other
  pub entries-int32 :
      (d : b.Doc) (k : Str) (v : ℤ)
      → b.entries (a.bson_append_int32 d k v) ≡ b.entries d ++ (k, int32 v) ∷ []
  pub entries-int64 :
      (d : b.Doc) (k : Str) (v : ℤ)
      → b.entries (a.bson_append_int64 d k v) ≡ b.entries d ++ (k, int64 v) ∷ []
  pub entries-double :
      (d : b.Doc) (k : Str) (v : b.Double)
      → b.entries (a.bson_append_double d k v) ≡ b.entries d ++ (k, double v) ∷ []
  pub entries-bool :
      (d : b.Doc) (k : Str) (v : Bool)
      → b.entries (a.bson_append_bool d k v) ≡ b.entries d ++ (k, boolean v) ∷ []
  pub entries-null :
      (d : b.Doc) (k : Str)
      → b.entries (a.bson_append_null d k) ≡ b.entries d ++ (k, other null) ∷ []

-- Whether the scan for the NUL ends within the memory.
unfoldable pub has_nul : Str → Bool
has_nul [] = false
has_nul (c ∷ s) = (c == 0) || has_nul s

module _ (b : Bson) where
  pub record Builder : Type 0 where
    pub document_ : Option b.Doc

  unfoldable pub new_builder : Builder
  new_builder = record { document_ = some b.fresh }

  -- A call of libbson on the builder's pointer, which it asserts not to be null.
  abbrev pub on_document : (b.Doc → b.Doc) → Builder → Outcome Builder
  on_document f m = elim m.document_ [
    | none ↦ aborts
    | some d ↦ returns (record { document_ = some (f d) })
  ]

  -- The macro takes the length with strlen, whatever the length of the view is.
  unfoldable pub append_string : Str → StringView → Builder → Outcome Builder
  append_string k v m =
      if has_nul v.bytes then on_document (λ d. b.append_utf8 d k (c_str v.bytes)) m else overreads

  -- libbson asserts the pointer of the sub-document not to be null, too.
  unfoldable pub append_document : Str → Option b.Doc → Builder → Outcome Builder
  append_document k none m = aborts
  append_document k (some sub) m = on_document (λ d. b.append_document d k sub) m

  -- The document, and what is left of the builder.
  unfoldable pub finalize : Builder → Option b.Doc × Builder
  finalize m = (m.document_, record { document_ = none })

module _ (b : Bson) (a : Appends b) where
  unfoldable pub append_int32 : Str → ℤ → Builder b → Outcome (Builder b)
  append_int32 k v = on_document b (λ d. a.bson_append_int32 d k v)

  unfoldable pub append_int64 : Str → ℤ → Builder b → Outcome (Builder b)
  append_int64 k v = on_document b (λ d. a.bson_append_int64 d k v)

  unfoldable pub append_double : Str → b.Double → Builder b → Outcome (Builder b)
  append_double k v = on_document b (λ d. a.bson_append_double d k v)

  unfoldable pub append_bool : Str → Bool → Builder b → Outcome (Builder b)
  append_bool k v = on_document b (λ d. a.bson_append_bool d k v)

  unfoldable pub append_null : Str → Builder b → Outcome (Builder b)
  append_null k = on_document b (λ d. a.bson_append_null d k)

  -- A call of the builder.
  pub data Append : Type 0 where
    string : Str → StringView → Append
    word : Str → ℤ → Append
    long : Str → ℤ → Append
    real : Str → b.Double → Append
    truth : Str → Bool → Append
    nothing : Str → Append
    nested : Str → Option b.Doc → Append

  unfoldable pub append : Append → Builder b → Outcome (Builder b)
  append (string k v) m = append_string b k v m
  append (word k v) m = append_int32 k v m
  append (long k v) m = append_int64 k v m
  append (real k v) m = append_double k v m
  append (truth k v) m = append_bool k v m
  append (nothing k) m = append_null k m
  append (nested k sub) m = append_document b k sub m

  -- A chain of calls, to the first that does not return.
  unfoldable pub append_all : List Append → Builder b → Outcome (Builder b)
  unfolding append
  append_all [] m = returns m
  append_all (x ∷ xs) m = elim (append x m) [
    | returns m' ↦ append_all xs m'
    | aborts ↦ aborts
    | overreads ↦ overreads
  ]
