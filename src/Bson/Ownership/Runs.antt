-- ===== src/Bson/Ownership/Runs.antt =====
-- The operations of documents, in any order that a program can call them in.
use aevum.Prelude.{
  ℕ, zero, suc, ◌+◌, ◌≡◌, ◌<◌, refl, ap, sym, subst, ◌∙◌, false, [], ◌∷◌, List, Option, none, some,
  length, if◌then◌else◌, ◌==◌, arith, inl, inr, Bool-cases,
}
use aevum.Bson.Ownership.{
  Memory, at, put_at, bson_of, set_bson, allocate, bson_destroy, bson_copy, destroy_held, construct,
  adopt, destruct, copy_construct, copy_assign, move_construct, move_assign, release,
}
use aevum.Bson.Ownership.Balance.{
  Holds, own, own_outside, take-Holds, place-Holds, allocate-Holds, destroy-Holds, copy-Holds,
  put-put, at-put, at-put_other, length-put,
}

-- The first number of an event is the document that an operation is called on, the second the
-- document that it is given, or the pointer.
pub data Event : Type 0 where
  constructs destructs releases : ℕ → Event
  copies copy_assigns moves move_assigns adopts : ℕ → ℕ → Event

abbrev give_up : ℕ → List ℕ → List ℕ
give_up h [] = []
give_up h (g ∷ gs) = if g == h then gs else g ∷ give_up h gs

abbrev hand_out : Option ℕ → Memory → Memory
hand_out none m = m
hand_out (some h) m = record m { outside = h ∷ m.outside }

unfoldable pub step : Event → Memory → Memory
step (constructs d) m = construct d m
step (destructs d) m = destruct d m
step (releases d) m = let (p, m') = release d m in hand_out p m'
step (copies d s) m = copy_construct d s m
step (copy_assigns d s) m = copy_assign d s m
step (moves d s) m = move_construct d s m
step (move_assigns d s) m = move_assign d s m
step (adopts d h) m = adopt d (some h) (record m { outside = give_up h m.outside })

unfoldable pub run : List Event → Memory → Memory
unfolding step
run [] m = m
run (event ∷ events) m = run events (step event m)

abbrev IsPlace : ℕ → Memory → Type 0
IsPlace d m = d < length m.documents

-- A document is constructed at a place with a null pointer, one that is copied from has a pointer,
-- and a pointer that a document adopts is owned by other code.
abbrev pub IsAllowed : Event → Memory → Type 0
IsAllowed (constructs d) m = IsPlace d m × (bson_of d m ≡ none)
IsAllowed (destructs d) m = IsPlace d m
IsAllowed (releases d) m = IsPlace d m
IsAllowed (copies d s) m = IsPlace d m × ((bson_of d m ≡ none) × ((h : ℕ) × (bson_of s m ≡ some h)))
IsAllowed (copy_assigns d s) m = IsPlace d m × ((h : ℕ) × (bson_of s m ≡ some h))
IsAllowed (moves d s) m = IsPlace d m × (IsPlace s m × ((bson_of d m ≡ none) × ((d == s) ≡ false)))
IsAllowed (move_assigns d s) m = IsPlace d m × IsPlace s m
IsAllowed (adopts d h) m = IsPlace d m × ((bson_of d m ≡ none) × (0 < own_outside h m.outside))

abbrev pub AreAllowed : List Event → Memory → Type 0
AreAllowed [] m = Unit {0}
AreAllowed (event ∷ events) m = IsAllowed event m × AreAllowed events (step event m)

destroy-set :
    (d : ℕ) (q p : Option ℕ) (m : Memory)
    → destroy_held p (set_bson d q m) ≡ set_bson d q (destroy_held p m)
unfolding destroy_held bson_destroy
destroy-set d q none m = refl
destroy-set d q (some h) m = refl

destroy-documents : (p : Option ℕ) (m : Memory) → (destroy_held p m).documents ≡ m.documents
unfolding destroy_held bson_destroy
destroy-documents none m = refl
destroy-documents (some h) m = refl

copy-set :
    (d : ℕ) (v q : Option ℕ) (m : Memory)
    → bson_copy q (set_bson d v m) ≡ ((bson_copy q m).0, set_bson d v (bson_copy q m).1)
unfolding bson_copy allocate
copy-set d v none m = refl
copy-set d v (some h) m = refl

copy-documents : (q : Option ℕ) (m : Memory) → (bson_copy q m).1.documents ≡ m.documents
unfolding bson_copy allocate
copy-documents none m = refl
copy-documents (some h) m = refl

set-set : (d : ℕ) (p q : Option ℕ) (m : Memory) → set_bson d p (set_bson d q m) ≡ set_bson d p m
set-set d p q m = ap (λ ps. record m { documents = ps }) (put-put d p q m.documents)

put-swap :
    (d s : ℕ) (p q : Option ℕ) (ps : List (Option ℕ))
    → (d == s) ≡ false
    → put_at s q (put_at d p ps) ≡ put_at d p (put_at s q ps)
put-swap d s p q [] ne = refl
put-swap zero zero p q (x ∷ ps) ne = absurd (ground arith)
put-swap zero (suc s) p q (x ∷ ps) ne = refl
put-swap (suc d) zero p q (x ∷ ps) ne = refl
put-swap (suc d) (suc s) p q (x ∷ ps) ne =
    ap (λ xs. x ∷ xs) (put-swap d s p q ps (ground (arith, ne)))

place_in :
    (d : ℕ) (p : Option ℕ) (m : Memory) (ps : List (Option ℕ))
    → m.documents ≡ ps
    → d < length ps
    → at none d ps ≡ none
    → Holds p m
    → Holds none (set_bson d p m)
place_in d p m ps same l vacant k =
    place-Holds d p m (subst (λ xs. d < length xs) (sym same) l)
      (ap (λ xs. at none d xs) same ∙ vacant) k

construct-Holds :
    (d : ℕ) (m : Memory) → IsAllowed (constructs d) m → Holds none m → Holds none (construct d m)
unfolding construct allocate
construct-Holds d m (l, vacant) k =
    place-Holds d (allocate m).0 (allocate m).1 l vacant (allocate-Holds m k)

destruct-Holds : (d : ℕ) (m : Memory) → IsPlace d m → Holds none m → Holds none (destruct d m)
unfolding destruct
destruct-Holds d m l k =
    subst (Holds none) (destroy-set d none (bson_of d m) m)
      (destroy-Holds (bson_of d m) (set_bson d none m) (take-Holds d m l k))

release-Holds : (d : ℕ) (m : Memory) → IsPlace d m → Holds none m → Holds none (step (releases d) m)
unfolding step release
release-Holds d m l k = hand_out-Holds (bson_of d m) (set_bson d none m) (take-Holds d m l k)
  where
    hand_out-Holds : (p : Option ℕ) (m : Memory) → Holds p m → Holds none (hand_out p m)
    hand_out-Holds none m k = k
    hand_out-Holds (some h) m k = record {
      one = λ x. omega (arith, k.one x);
      below = k.below;
      sound = k.sound;
    }

copy_construct-Holds :
    (d s : ℕ) (m : Memory)
    → IsAllowed (copies d s) m
    → Holds none m
    → Holds none (copy_construct d s m)
unfolding copy_construct
copy_construct-Holds d s m (l, (vacant, (h, there))) k =
    let q = bson_of s m in
    place_in d (bson_copy q m).0 (bson_copy q m).1 m.documents (copy-documents q m) l vacant
      (copy-Holds s h m there k)

-- A pointer is given to a document that was destructed.
assign-Holds :
    (d : ℕ) (p : Option ℕ) (m : Memory)
    → IsPlace d m
    → Holds p (set_bson d none m)
    → Holds none (set_bson d p m)
assign-Holds d p m l k = subst (Holds none) (set-set d p none m) (
    place-Holds d p (set_bson d none m) (subst (λ n. d < n) (sym (length-put d none m.documents)) l)
      (at-put d none m.documents l) k)

copy_assign-Holds :
    (d s : ℕ) (m : Memory)
    → IsAllowed (copy_assigns d s) m
    → Holds none m
    → Holds none (copy_assign d s m)
unfolding copy_assign
copy_assign-Holds d s m (l, (h, there)) k = elim (Bool-cases (d == s)) [
  | inl same ↦ rw same k
  | inr ne ↦
      let m1 = destroy_held (bson_of d m) m in
      let docs = destroy-documents (bson_of d m) m in
      let freed : Holds none (set_bson d none m1) =
        subst (Holds none) (destroy-set d none (bson_of d m) m)
          (destroy-Holds (bson_of d m) (set_bson d none m) (take-Holds d m l k)) in
      let still : bson_of s (set_bson d none m1) ≡ bson_of s m =
        at-put_other d s none m1.documents ne ∙ ap (λ ps. at none s ps) docs in
      let copied : Holds (bson_copy (bson_of s m) (set_bson d none m1)).0
          (bson_copy (bson_of s m) (set_bson d none m1)).1 =
        subst (λ q. Holds (bson_copy q (set_bson d none m1)).0 (bson_copy q (set_bson d none m1)).1)
          still (copy-Holds s h (set_bson d none m1) (still ∙ there) freed) in
      rw ne (
        assign-Holds d (bson_copy (bson_of s m) m1).0 (bson_copy (bson_of s m) m1).1
          (subst (λ ps. d < length ps) (sym (copy-documents (bson_of s m) m1 ∙ docs)) l)
          (subst (λ r. Holds r.0 r.1) (copy-set d none (bson_of s m) m1) copied))
]

move_construct-Holds :
    (d s : ℕ) (m : Memory)
    → IsAllowed (moves d s) m
    → Holds none m
    → Holds none (move_construct d s m)
unfolding move_construct
move_construct-Holds d s m (l, (l', (vacant, ne))) k =
    subst (λ ps. Holds none (record m { documents = ps }))
      (sym (put-swap d s (bson_of s m) none m.documents ne))
      (place-Holds d (bson_of s m) (set_bson s none m)
        (subst (λ n. d < n) (sym (length-put s none m.documents)) l)
        (at-put_other s d none m.documents (ground (arith, ne)) ∙ vacant) (take-Holds s m l' k))

move_assign-Holds :
    (d s : ℕ) (m : Memory)
    → IsAllowed (move_assigns d s) m
    → Holds none m
    → Holds none (move_assign d s m)
unfolding move_assign move_construct destruct
move_assign-Holds d s m (l, l') k = elim (Bool-cases (d == s)) [
  | inl same ↦ rw same k
  | inr ne ↦
      let m1 = destroy_held (bson_of d m) m in
      let m2 = set_bson d none m1 in
      let docs = destroy-documents (bson_of d m) m in
      let l1 : d < length m1.documents = subst (λ ps. d < length ps) (sym docs) l in
      let s1 : s < length m1.documents = subst (λ ps. s < length ps) (sym docs) l' in
      let still : bson_of s m2 ≡ bson_of s m =
        at-put_other d s none m1.documents ne ∙ ap (λ ps. at none s ps) docs in
      let moved =
        move_construct-Holds d s m2
          (
            subst (λ n. d < n) (sym (length-put d none m1.documents)) l1,
            (
              subst (λ n. s < n) (sym (length-put d none m1.documents)) s1,
              (at-put d none m1.documents l1, ne),
            ),
          )
          (destruct-Holds d m l k) in
      rw ne (
        subst (λ x. Holds none (set_bson s none x)) (set-set d (bson_of s m) none m1)
          (subst (λ q. Holds none (set_bson s none (set_bson d q m2))) still moved))
]

own_outside-give_up :
    (x h : ℕ) (gs : List ℕ)
    → 0 < own_outside h gs
    → own_outside x (give_up h gs) + own x (some h) ≡ own_outside x gs
own_outside-give_up x h [] l = absurd (omega arith)
own_outside-give_up x h (g ∷ gs) l = ground (arith, own_outside-give_up x h gs, l)

adopt-Holds :
    (d h : ℕ) (m : Memory)
    → IsAllowed (adopts d h) m
    → Holds none m
    → Holds none (step (adopts d h) m)
unfolding step adopt
adopt-Holds d h m (l, (vacant, owned)) k =
    place-Holds d (some h) (record m { outside = give_up h m.outside }) l vacant
      (record {
        one = λ x. omega (arith, k.one x, own_outside-give_up x h m.outside owned);
        below = k.below;
        sound = k.sound;
      })

step-Holds :
    (event : Event) (m : Memory) → IsAllowed event m → Holds none m → Holds none (step event m)
step-Holds (constructs d) m a k = unfold step in construct-Holds d m a k
step-Holds (destructs d) m a k = unfold step in destruct-Holds d m a k
step-Holds (releases d) m a k = release-Holds d m a k
step-Holds (copies d s) m a k = unfold step in copy_construct-Holds d s m a k
step-Holds (copy_assigns d s) m a k = unfold step in copy_assign-Holds d s m a k
step-Holds (moves d s) m a k = unfold step in move_construct-Holds d s m a k
step-Holds (move_assigns d s) m a k = unfold step in move_assign-Holds d s m a k
step-Holds (adopts d h) m a k = adopt-Holds d h m a k

-- However documents are constructed, copied, moved, assigned, released, adopted and destructed,
-- where one is constructed at a place with a null pointer, one that is copied from has a pointer
-- and an adopted pointer is owned by other code: every `bson_t` that is allocated has exactly one
-- owner, no other has one, and nothing is freed or read that is not allocated.
pub run-Holds :
    (events : List Event) (m : Memory)
    → AreAllowed events m
    → Holds none m
    → Holds none (run events m)
unfolding run
run-Holds [] m allowed k = k
run-Holds (event ∷ events) m allowed k =
    run-Holds events (step event m) allowed.1 (step-Holds event m allowed.0 k)
