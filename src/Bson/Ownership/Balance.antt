-- ===== src/Bson/Ownership/Balance.antt =====
-- Every allocated `bson_t` has one owner.
use aevum.Prelude.{
  ℕ, zero, suc, ◌+◌, ◌≡◌, ◌≤◌, ◌<◌, refl, ap, true, false, not, ◌||◌, [], ◌∷◌, List, Option, none,
  some, length, if◌then◌else◌, ◌==◌, ==_iff, arith,
}
use aevum.Bson.Ownership.{
  Memory, at, put_at, bson_of, set_bson, allocate, bson_destroy, bson_copy, destroy_held,
}

-- How often a pointer, the documents and the other code hold the `bson_t`.
abbrev pub own : ℕ → Option ℕ → ℕ
own h none = 0
own h (some g) = if g == h then 1 else 0

abbrev pub own_all : ℕ → List (Option ℕ) → ℕ
own_all h [] = 0
own_all h (p ∷ ps) = own h p + own_all h ps

abbrev pub own_outside : ℕ → List ℕ → ℕ
own_outside h [] = 0
own_outside h (g ∷ gs) = (if g == h then 1 else 0) + own_outside h gs

-- What is allocated has one owner, with a pointer on its way between two of them counted, what is
-- not allocated has none, and nothing went wrong.
pub record Holds (loose : Option ℕ) (m : Memory) : Type 0 where
  pub one :
      (h : ℕ)
      → own_all h m.documents + own_outside h m.outside + own h loose ≡ (if m.live h then 1 else 0)
  pub below : (h : ℕ) → m.fresh ≤ h → m.live h ≡ false
  pub sound : m.faulty ≡ false

own_all-put :
    (h d : ℕ) (p : Option ℕ) (ps : List (Option ℕ))
    → d < length ps
    → own_all h (put_at d p ps) + own h (at none d ps) ≡ own_all h ps + own h p
own_all-put h d p [] l = absurd (omega arith)
own_all-put h zero p (q ∷ ps) l = omega arith
own_all-put h (suc d) p (q ∷ ps) l = omega (arith, own_all-put h d p ps (omega arith))

own-at : (h d : ℕ) (ps : List (Option ℕ)) → own h (at none d ps) ≤ own_all h ps
own-at h d [] = omega arith
own-at h zero (q ∷ ps) = omega arith
own-at h (suc d) (q ∷ ps) = omega (arith, own-at h d ps)

pub put-put :
    (d : ℕ) (p q : Option ℕ) (ps : List (Option ℕ)) → put_at d p (put_at d q ps) ≡ put_at d p ps
put-put d p q [] = refl
put-put zero p q (x ∷ ps) = refl
put-put (suc d) p q (x ∷ ps) = ap (λ xs. x ∷ xs) (put-put d p q ps)

pub at-put :
    (d : ℕ) (p : Option ℕ) (ps : List (Option ℕ)) → d < length ps → at none d (put_at d p ps) ≡ p
at-put d p [] l = absurd (omega arith)
at-put zero p (x ∷ ps) l = refl
at-put (suc d) p (x ∷ ps) l = at-put d p ps (omega arith)

pub at-put_other :
    (d s : ℕ) (p : Option ℕ) (ps : List (Option ℕ))
    → (d == s) ≡ false
    → at none s (put_at d p ps) ≡ at none s ps
at-put_other d s p [] ne = refl
at-put_other zero zero p (x ∷ ps) ne = absurd (ground arith)
at-put_other zero (suc s) p (x ∷ ps) ne = refl
at-put_other (suc d) zero p (x ∷ ps) ne = refl
at-put_other (suc d) (suc s) p (x ∷ ps) ne = at-put_other d s p ps (ground (arith, ne))

pub length-put : (d : ℕ) (p : Option ℕ) (ps : List (Option ℕ)) → length (put_at d p ps) ≡ length ps
length-put d p [] = refl
length-put zero p (x ∷ ps) = refl
length-put (suc d) p (x ∷ ps) = ap suc (length-put d p ps)

-- A document's pointer is taken out of it.
pub take-Holds :
    (d : ℕ) (m : Memory)
    → d < length m.documents
    → Holds none m
    → Holds (bson_of d m) (set_bson d none m)
take-Holds d m l k = record {
  one = λ h. omega (arith, own_all-put h d none m.documents l, k.one h);
  below = k.below;
  sound = k.sound;
}

-- A pointer is put into a document that has none.
pub place-Holds :
    (d : ℕ) (p : Option ℕ) (m : Memory)
    → d < length m.documents
    → bson_of d m ≡ none
    → Holds p m
    → Holds none (set_bson d p m)
place-Holds d p m l vacant k = record {
  one = λ h. omega (arith, own_all-put h d p m.documents l, ap (own h) vacant, k.one h);
  below = k.below;
  sound = k.sound;
}

pub allocate-Holds : (m : Memory) → Holds none m → Holds (allocate m).0 (allocate m).1
unfolding allocate
allocate-Holds m k = record {
  one = λ h. ground (arith, k.one h, k.below h);
  below = λ h l. ground (arith, k.below h, l);
  sound = k.sound;
}

-- What somebody owns is allocated.
live_loose : (h : ℕ) (p : Option ℕ) (m : Memory) → Holds p m → 0 < own h p → m.live h ≡ true
live_loose h p m k owned = ground (arith, k.one h, owned)

live_held :
    (h : ℕ) (p : Option ℕ) (m : Memory) → Holds p m → 0 < own_all h m.documents → m.live h ≡ true
live_held h p m k owned = ground (arith, k.one h, owned)

pub destroy-Holds : (p : Option ℕ) (m : Memory) → Holds p m → Holds none (destroy_held p m)
unfolding destroy_held bson_destroy
destroy-Holds none m k = k
destroy-Holds (some g) m k =
    let was_live = live_loose g (some g) m k (ground arith) in
    record {
      one = λ h. ground (arith, k.one h, ==_iff h g, was_live);
      below = λ h l. ground (arith, k.below h, l);
      sound = ground (arith, k.sound, was_live);
    }

pub copy-Holds :
    (s g : ℕ) (m : Memory)
    → bson_of s m ≡ some g
    → Holds none m
    → Holds (bson_copy (bson_of s m) m).0 (bson_copy (bson_of s m) m).1
unfolding bson_copy
copy-Holds s g m there k =
    let held : 0 < own_all g m.documents =
      ground (arith, own-at g s m.documents, ap (own g) there) in
    let was_live = live_held g none m k held in
    let m' : Memory = record m { faulty = m.faulty || not (m.live g) } in
    rw there (
      allocate-Holds m'
        (record { one = k.one; below = k.below; sound = ground (arith, k.sound, was_live) }))
