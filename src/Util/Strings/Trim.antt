-- ===== src/Util/Strings/Trim.antt =====
-- What `trim` takes away and what it leaves.
use aevum.Prelude.{
  ◌≡◌, refl, true, [], ◌∷◌, ◌++◌, Str, all, is_empty, if◌then◌else◌, arith, Bool-cases, inl, inr,
}
use aevum.Util.Strings.{is_space, drop_leading, drop_trailing, trim}

abbrev pub IsBlank : Str → Type 0
IsBlank s = all is_space s ≡ true

drop_leading-blank : (s t : Str) → IsBlank s → drop_leading (s ++ t) ≡ drop_leading t
unfolding drop_leading
drop_leading-blank [] t h = refl
drop_leading-blank (c ∷ s) t h = ground (arith, drop_leading-blank s t (ground (arith, h)), h)

drop_leading-none : (t : Str) → IsBlank t → drop_leading t ≡ []
unfolding drop_leading
drop_leading-none [] h = refl
drop_leading-none (c ∷ t) h = ground (arith, drop_leading-none t (ground (arith, h)), h)

drop_trailing-none : (t : Str) → IsBlank t → drop_trailing t ≡ []
unfolding drop_trailing
drop_trailing-none [] h = refl
drop_trailing-none (c ∷ t) h = ground (arith, drop_trailing-none t (ground (arith, h)), h)

drop_trailing-blank : (s t : Str) → IsBlank t → drop_trailing (s ++ t) ≡ drop_trailing s
unfolding drop_trailing
drop_trailing-blank [] t h = drop_trailing-none t h
drop_trailing-blank (c ∷ s) t h = rw (drop_trailing-blank s t h) refl

drop_leading-append :
    (s t : Str)
    → IsBlank t
    → drop_leading (s ++ t) ≡ (if is_empty (drop_leading s) then [] else drop_leading s ++ t)
unfolding drop_leading
drop_leading-append [] t h = drop_leading-none t h
drop_leading-append (c ∷ s) t h = ground (arith, drop_leading-append s t h)

drop_leading-drop_trailing :
    (s : Str) → drop_leading (drop_trailing (drop_leading s)) ≡ drop_trailing (drop_leading s)
unfolding drop_leading drop_trailing
drop_leading-drop_trailing [] = refl
drop_leading-drop_trailing (c ∷ s) = elim (Bool-cases (is_space c)) [
  | inl space ↦ ground (arith, drop_leading-drop_trailing s)
  | inr other ↦ ground (arith, other)
]

drop_trailing-drop_trailing : (s : Str) → drop_trailing (drop_trailing s) ≡ drop_trailing s
unfolding drop_trailing
drop_trailing-drop_trailing [] = refl
drop_trailing-drop_trailing (c ∷ s) = ground (arith, drop_trailing-drop_trailing s)

-- Spaces around a text do not change what `trim` leaves of it, and what it leaves it leaves again.
pub trim-append :
    (before s after : Str)
    → IsBlank before
    → IsBlank after
    → (trim (before ++ (s ++ after)) ≡ trim s) × (trim (trim s) ≡ trim s)
unfolding trim
trim-append before s after hb ha = (
  ground (
    arith,
    drop_leading-blank before (s ++ after) hb,
    drop_leading-append s after ha,
    drop_trailing-blank (drop_leading s) after ha,
  ),
  ground (arith, drop_leading-drop_trailing s, drop_trailing-drop_trailing (drop_leading s)),
)
