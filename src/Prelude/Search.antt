-- ===== src/Prelude/Search.antt =====
-- Searching a text: `std::string::find` and `rfind(prefix, 0) == 0`.
use Prim.Native.Nat.{ℕ}
use mathlib.Core.Path.{◌≡◌, refl}
use mathlib.Core.Bool.{Bool, true, false, ◌&&◌, ◌||◌}
use mathlib.Core.List.{[], ◌∷◌, ◌++◌}
use mathlib.Core.Option.{Option, none, some}
use native.Mathlib.Omega.{arith}
use aevum.Prelude.Booleans.{◌==◌, if◌then◌else◌, ==_iff}
use aevum.Prelude.Lists.{drop, length}
use aevum.Prelude.Text.{Str}

-- s.rfind(p, 0) == 0
unfoldable pub starts_with : Str → Str → Bool
starts_with [] s = true
starts_with (c ∷ p) [] = false
starts_with (c ∷ p) (d ∷ s) = c == d && starts_with p s

-- s.find(p) != npos, for a text `p` that is not empty
unfoldable pub has_text : Str → Str → Bool
unfolding starts_with
has_text p [] = false
has_text p (c ∷ s) = starts_with p (c ∷ s) || has_text p s

-- The text behind the first occurrence of `p`, which is s.substr(s.find(p) + p.length()).
unfoldable pub behind_text : Str → Str → Option Str
unfolding starts_with
behind_text p [] = none
behind_text p (c ∷ s) =
    if starts_with p (c ∷ s) then some (drop (length p) (c ∷ s)) else behind_text p s

pub starts_with-append : (p s : Str) → starts_with p (p ++ s) ≡ true
unfolding starts_with
starts_with-append [] s = refl
starts_with-append (c ∷ p) s = ground (arith, starts_with-append p s, ==_iff c c)

starts_with-longer : (p s t : Str) → starts_with p s ≡ true → starts_with p (s ++ t) ≡ true
unfolding starts_with
starts_with-longer [] s t h = refl
starts_with-longer (c ∷ p) [] t h = absurd cc
starts_with-longer (c ∷ p) (d ∷ s) t h = ground (arith, starts_with-longer p s t)

-- A text that is found is found in any longer text.
pub has_text-append : (p s t : Str) → has_text p s ≡ true → has_text p (s ++ t) ≡ true
unfolding has_text
has_text-append p [] t h = absurd cc
has_text-append p (c ∷ s) t h =
    ground (arith, starts_with-longer p (c ∷ s) t, has_text-append p s t)

pub has_text-behind : (p s t : Str) → has_text p t ≡ true → has_text p (s ++ t) ≡ true
unfolding has_text
has_text-behind p [] t h = h
has_text-behind p (c ∷ s) t h = ground (arith, has_text-behind p s t h)

pub has_text_self : (c : ℕ) (p s : Str) → has_text (c ∷ p) ((c ∷ p) ++ s) ≡ true
unfolding has_text
has_text_self c p s = ground (arith, starts_with-append (c ∷ p) s)
