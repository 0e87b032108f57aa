-- ===== src/Util/Strings/Split.antt =====
-- Splitting and joining again, both ways.
use aevum.Prelude.{
  ℕ, zero, suc, ◌<◌, ◌≡◌, refl, ap, sym, ◌∙◌, Bool, true, false, not, [], ◌∷◌, ◌++◌, List, Option,
  none, some, Str, length, all, arith, ◌==◌,
}
use aevum.Prelude.{==_iff, Bool-cases, inl, inr, is_empty}
use aevum.Util.Strings.{cut, split_from, split}

-- The tokens with the delimiter between them.
pub join : ℕ → List Str → Str
join d [] = []
join d (t ∷ []) = t
join d (t ∷ u ∷ ts) = t ++ (d ∷ join d (u ∷ ts))

-- No byte of the token is the delimiter.
abbrev pub is_token : ℕ → Str → Bool
is_token d t = all (λ c. not (c == d)) t

-- What a cut says of the text.
abbrev CutsAs : ℕ → Str → Option (Str × Str) → Type 0
CutsAs d s none = is_token d s ≡ true
CutsAs d s (some (token, rest)) =
    (s ≡ token ++ (d ∷ rest)) × ((is_token d token ≡ true) × (length rest < length s))

cut_at :
    (d c : ℕ) (s : Str) (found : Option (Str × Str))
    → (c == d) ≡ false
    → CutsAs d s found
    → CutsAs d (c ∷ s) (elim found [ none ↦ none | some (token, rest) ↦ some (c ∷ token, rest) ])
cut_at d c s none ne h = ground (arith, ne, h)
cut_at d c s (some (token, rest)) ne h =
    (ap (λ t. c ∷ t) h.0, (ground (arith, ne, h.1.0), omega (arith, h.1.1)))

cut-CutsAs : (d : ℕ) (s : Str) → CutsAs d s (cut d s)
unfolding cut
cut-CutsAs d [] = refl
cut-CutsAs d (c ∷ s) = elim (Bool-cases (c == d)) [
  | inl same ↦ rw (same, cut) (ap (λ x. x ∷ s) ((==_iff c d).0 same), (refl, omega arith))
  | inr ne ↦ rw (ne, cut) (cut_at d c s (cut d s) ne (cut-CutsAs d s))
]

join_behind :
    (d : ℕ) (t : Str) (ts : List Str) → is_empty ts ≡ false → join d (t ∷ ts) ≡ t ++ (d ∷ join d ts)
unfolding join
join_behind d t [] h = absurd cc
join_behind d t (u ∷ ts) h = refl

split_from-nonempty :
    (fuel d : ℕ) (s : Str) → length s < fuel → is_empty (split_from fuel d s) ≡ false
unfolding split_from
split_from-nonempty zero d s h = absurd (omega arith)
split_from-nonempty (suc fuel) d s h = ground arith

split_step :
    (fuel d : ℕ) (s : Str) (found : Option (Str × Str))
    → length s < suc fuel
    → CutsAs d s found
    → ((rest : Str)
        → length rest < fuel
        → (join d (split_from fuel d rest) ≡ rest)
          × (all (is_token d) (split_from fuel d rest) ≡ true))
    → let tokens = elim found as (λ x. List Str) [
      | none ↦ s ∷ []
      | some (token, rest) ↦ token ∷ split_from fuel d rest
    ] in
      (join d tokens ≡ s) × (all (is_token d) tokens ≡ true)
unfolding join
split_step fuel d s none h cuts later = (refl, ground (arith, cuts))
split_step fuel d s (some (token, rest)) h cuts later =
    let below : length rest < fuel = omega (arith, cuts.1.1) in
    (
      join_behind d token (split_from fuel d rest) (split_from-nonempty fuel d rest below)
          ∙ (ap (λ r. token ++ (d ∷ r)) (later rest below).0 ∙ sym cuts.0),
      ground (arith, cuts.1.0, (later rest below).1),
    )

split_from-joins :
    (fuel d : ℕ) (s : Str)
    → length s < fuel
    → (join d (split_from fuel d s) ≡ s) × (all (is_token d) (split_from fuel d s) ≡ true)
unfolding split_from
split_from-joins zero d s h = absurd (omega arith)
split_from-joins (suc fuel) d s h =
    split_step fuel d s (cut d s) h (cut-CutsAs d s)
      (λ rest below. split_from-joins fuel d rest below)

-- The tokens of a split hold no delimiter, and joined by it they are the text again.
pub join-split :
    (s : Str) (d : ℕ) → (join d (split s d) ≡ s) × (all (is_token d) (split s d) ≡ true)
unfolding split
join-split s d = split_from-joins (suc (length s)) d s (omega arith)
