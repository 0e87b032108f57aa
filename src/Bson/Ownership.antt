-- ===== src/Bson/Ownership.antt =====
-- bson/doc/document.cpp: who owns a `bson_t`. A document is a place in a list that holds its pointer
-- `bson_`; a `bson_t` is a number, and libbson's allocations are counted.
pub mod Balance
pub mod Runs
use aevum.Prelude.{
  ℕ, zero, suc, ◌+◌, Bool, true, false, not, ◌||◌, [], ◌∷◌, List, Option, none, some, if◌then◌else◌,
  ◌==◌,
}

pub record Memory : Type 0 where
  -- `bson_` of each document; `none` is a null pointer
  pub documents : List (Option ℕ)
  -- the pointers that other code owns
  pub outside : List ℕ
  -- which numbers are allocated; those from `fresh` on never were
  pub live : ℕ → Bool
  pub fresh : ℕ
  -- whether something was freed or read that was not allocated
  pub faulty : Bool

module _ {A : Type 0} where
  -- The document at a place, and the list with another one there.
  abbrev pub at : A → ℕ → List A → A
  at d n [] = d
  at d zero (x ∷ xs) = x
  at d (suc n) (x ∷ xs) = at d n xs

  abbrev pub put_at : ℕ → A → List A → List A
  put_at n v [] = []
  put_at zero v (x ∷ xs) = v ∷ xs
  put_at (suc n) v (x ∷ xs) = x ∷ put_at n v xs

abbrev pub bson_of : ℕ → Memory → Option ℕ
bson_of d m = at none d m.documents

abbrev pub set_bson : ℕ → Option ℕ → Memory → Memory
set_bson d p m = record m { documents = put_at d p m.documents }

-- bson_new and bson_copy of a document that is allocated
unfoldable pub allocate : Memory → Option ℕ × Memory
allocate m = (
  some m.fresh,
  record m { live = λ h. if h == m.fresh then true else m.live h; fresh = m.fresh + 1 },
)

unfoldable pub bson_destroy : ℕ → Memory → Memory
bson_destroy h m = record m {
  live = λ x. if x == h then false else m.live x;
  faulty = m.faulty || not (m.live h);
}

-- bson_copy; a null pointer fails libbson's check of its parameter.
unfoldable pub bson_copy : Option ℕ → Memory → Option ℕ × Memory
unfolding allocate
bson_copy none m = (none, record m { faulty = true })
bson_copy (some h) m = allocate (record m { faulty = m.faulty || not (m.live h) })

-- `if (bson_) bson_destroy(bson_)`
unfoldable pub destroy_held : Option ℕ → Memory → Memory
unfolding bson_destroy
destroy_held none m = m
destroy_held (some h) m = bson_destroy h m

-- Document()
unfoldable pub construct : ℕ → Memory → Memory
unfolding allocate
construct d m = let (p, m') = allocate m in set_bson d p m'

-- Document(bson_t *), for a pointer that the caller owns
unfoldable pub adopt : ℕ → Option ℕ → Memory → Memory
adopt d p m = set_bson d p m

-- ~Document()
unfoldable pub destruct : ℕ → Memory → Memory
unfolding destroy_held
destruct d m = set_bson d none (destroy_held (bson_of d m) m)

-- Document(const Document &)
unfoldable pub copy_construct : ℕ → ℕ → Memory → Memory
unfolding bson_copy
copy_construct d other m = let (p, m') = bson_copy (bson_of other m) m in set_bson d p m'

-- operator=(const Document &)
unfoldable pub copy_assign : ℕ → ℕ → Memory → Memory
unfolding destroy_held bson_copy
copy_assign d other m =
    if d == other
    then m
    else let (p, m') = bson_copy (bson_of other m) (destroy_held (bson_of d m) m) in set_bson d p m'

-- Document(Document &&), which swaps with a null pointer
unfoldable pub move_construct : ℕ → ℕ → Memory → Memory
move_construct d other m = set_bson other none (set_bson d (bson_of other m) m)

-- operator=(Document &&)
unfoldable pub move_assign : ℕ → ℕ → Memory → Memory
unfolding destroy_held
move_assign d other m =
    if d == other
    then m
    else set_bson other none (set_bson d (bson_of other m) (destroy_held (bson_of d m) m))

-- release, with the pointer that the caller gets
unfoldable pub release : ℕ → Memory → Option ℕ × Memory
release d m = (bson_of d m, set_bson d none m)
