-- ===== src/Util/Strings/Cases.antt =====
-- The two conversions of case together.
use aevum.Prelude.{ℕ, ◌≡◌, refl, ap, [], ◌∷◌, Str, arith}
use aevum.Util.Strings.{upper, lower, to_upper, to_lower}

lower-upper : (c : ℕ) → lower (upper c) ≡ lower c
unfolding lower upper
lower-upper c = ground arith

upper-lower : (c : ℕ) → upper (lower c) ≡ upper c
unfolding lower upper
upper-lower c = ground arith

-- After the other conversion a conversion of case gives what it gives without it.
pub to_lower-to_upper :
    (s : Str) → (to_lower (to_upper s) ≡ to_lower s) × (to_upper (to_lower s) ≡ to_upper s)
unfolding to_lower to_upper
to_lower-to_upper [] = (refl, refl)
to_lower-to_upper (c ∷ s) =
    let (l, u) = to_lower-to_upper s in
    (rw (lower-upper c) (ap (λ t. lower c ∷ t) l), rw (upper-lower c) (ap (λ t. upper c ∷ t) u))
