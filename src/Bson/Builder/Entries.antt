-- ===== src/Bson/Builder/Entries.antt =====
-- What a chain of calls of the builder puts into the document.
use aevum.Prelude.{
  ◌≡◌, refl, ap, sym, ◌∙◌, [], ◌∷◌, ◌++◌, List, none, some, Str, Map, Bool, true, false, c_str,
  append-nil, append_assoc, lookup, arith, all,
}
use aevum.Bson.{Bson, BsonLaws, Value, utf8, int32, int64, double, boolean, document, other}
use aevum.Bson.Builder.{
  returns, aborts, Appends, AppendsLaws, Builder, new_builder, finalize, append_string,
  append_document, append_int32, append_int64, append_double, append_bool, append_null, Append,
  string, word, long, real, truth, nothing, nested, append, append_all, has_nul,
}

module _ (b : Bson) (a : Appends b) where
  -- The memory of a string holds a NUL, and a sub-document has a pointer.
  abbrev pub is_sound : Append b a → Bool
  is_sound (string k v) = has_nul v.bytes
  is_sound (nested k none) = false
  is_sound _ = true

  at : b.Doc → Builder b
  at d = record { document_ = some d }

  -- After `finalize` such a call aborts.
  append-null :
      (x : Append b a) → is_sound x ≡ true → append b a x (record { document_ = none }) ≡ aborts
  unfolding append append_string append_document append_int32 append_int64 append_double append_bool
      append_null
  append-null (string k v) h = rw h refl
  append-null (word k v) h = refl
  append-null (long k v) h = refl
  append-null (real k v) h = refl
  append-null (truth k v) h = refl
  append-null (nothing k) h = refl
  append-null (nested k none) h = refl
  append-null (nested k (some sub)) h = refl

module _ (b : Bson) (a : Appends b) (laws : AppendsLaws b a) where
  -- The elements that a call adds: a string ends at the first NUL of its memory.
  abbrev pub added : Append b a → Map (Value b.Doc b.Double b.Other)
  added (string k v) = (k, utf8 (c_str v.bytes)) ∷ []
  added (word k v) = (k, int32 v) ∷ []
  added (long k v) = (k, int64 v) ∷ []
  added (real k v) = (k, double v) ∷ []
  added (truth k v) = (k, boolean v) ∷ []
  added (nothing k) = (k, other laws.null) ∷ []
  added (nested k none) = []
  added (nested k (some sub)) = (k, document sub) ∷ []

  abbrev pub added_all : List (Append b a) → Map (Value b.Doc b.Double b.Other)
  added_all [] = []
  added_all (x ∷ xs) = added x ++ added_all xs

  -- A builder with a document has one after a call, with the elements of the call behind.
  append_entries :
      (blaws : BsonLaws b) (x : Append b a) (d : b.Doc)
      → is_sound b a x ≡ true
      → (d' : b.Doc) × (append b a x (at b a d) ≡ returns (at b a d'))
        × (b.entries d' ≡ b.entries d ++ added x)
  unfolding at append append_string append_document append_int32 append_int64 append_double
      append_bool append_null
  append_entries blaws (string k v) d h =
      (_, rw h refl, blaws.entries-append_utf8 d k (c_str v.bytes))
  append_entries blaws (word k v) d h = (_, refl, laws.entries-int32 d k v)
  append_entries blaws (long k v) d h = (_, refl, laws.entries-int64 d k v)
  append_entries blaws (real k v) d h = (_, refl, laws.entries-double d k v)
  append_entries blaws (truth k v) d h = (_, refl, laws.entries-bool d k v)
  append_entries blaws (nothing k) d h = (_, refl, laws.entries-null d k)
  append_entries blaws (nested k none) d h = absurd cc
  append_entries blaws (nested k (some sub)) d h = (_, refl, blaws.entries-append_document d k sub)

  append_all_entries :
      (blaws : BsonLaws b) (xs : List (Append b a)) (d : b.Doc)
      → all (is_sound b a) xs ≡ true
      → (d' : b.Doc) × (append_all b a xs (at b a d) ≡ returns (at b a d'))
        × (b.entries d' ≡ b.entries d ++ added_all xs)
  unfolding append_all
  append_all_entries blaws [] d h = (d, refl, sym (append-nil _))
  append_all_entries blaws (x ∷ xs) d h =
      let (d1, step, es) = append_entries blaws x d (ground (arith, h)) in
      let (d2, steps, rest) = append_all_entries blaws xs d1 (ground (arith, h)) in
      (
        d2,
        rw (step, append_all) steps,
        rest
            ∙ ap (λ ys. ys ++ added_all xs) es
            ∙ append_assoc (b.entries d) (added x) (added_all xs),
      )

  -- A chain of calls on a new builder returns, where the memory of every string holds a NUL and no
  -- sub-document is null. It is finalized to a document with the elements of the calls in their
  -- order, in which a key finds its first element; a string is what its memory holds up to a NUL,
  -- whatever the length of the view. Then a second `finalize` gives a null document, and a further
  -- call of this kind aborts.
  pub finalize-append_all :
      (blaws : BsonLaws b) (xs : List (Append b a)) (later : Append b a) (k : Str)
      → all (is_sound b a) xs ≡ true
      → is_sound b a later ≡ true
      → (m : Builder b) × (d : b.Doc) × (append_all b a xs (new_builder b) ≡ returns m)
        × ((finalize b m).0 ≡ some d)
        × (b.entries d ≡ added_all xs)
        × (b.find_field d k ≡ lookup k (added_all xs))
        × ((finalize b (finalize b m).1).0 ≡ none)
        × (append b a later (finalize b m).1 ≡ aborts)
  unfolding finalize new_builder at
  finalize-append_all blaws xs later k sound late =
      let (d, built, es) = append_all_entries blaws xs b.fresh sound in
      let holds : b.entries d ≡ added_all xs =
        es ∙ ap (λ ys. ys ++ added_all xs) blaws.entries-fresh in
      (
        record { document_ = some d },
        d,
        built,
        refl,
        holds,
        blaws.find_field-lookup d k ∙ ap (lookup k) holds,
        refl,
        append-null b a later late,
      )
