-- ===== src/Util/Strings.antt =====
-- util/string: trim.cpp, split.cpp and case_conversion.cpp, in the "C" locale of a program that
-- never calls `setlocale`.
pub mod Trim
pub mod Split
pub mod Cases
use aevum.Prelude.{
  ℕ, zero, suc, ◌+◌, ◌-◌, Bool, true, false, ◌&&◌, ◌||◌, [], ◌∷◌, List, map, Option, none, some,
  Str, leb, is_empty, length, if◌then◌else◌, ◌==◌,
}

-- std::isspace: the space, and tab to carriage return.
unfoldable pub is_space : ℕ → Bool
is_space c = (c == 32) || (leb 9 c && leb c 13)

-- The text from the first byte that is no space.
unfoldable pub drop_leading : Str → Str
drop_leading [] = []
drop_leading (c ∷ s) = let rest = drop_leading s in if is_space c then rest else c ∷ s

-- The text up to the last byte that is no space.
unfoldable pub drop_trailing : Str → Str
drop_trailing [] = []
drop_trailing (c ∷ s) =
    let rest = drop_trailing s in if is_empty rest && is_space c then [] else c ∷ rest

unfoldable pub trim : Str → Str
unfolding drop_leading drop_trailing
trim str = let start = drop_leading str in if is_empty start then [] else drop_trailing start

-- `find` and the two `substr` around it: the text before the first delimiter and the text behind
-- it, if there is one.
unfoldable pub cut : ℕ → Str → Option (Str × Str)
cut delimiter [] = none
cut delimiter (c ∷ s) =
    let found = cut delimiter s in
    if c == delimiter
    then some ([], s)
    else elim found [ none ↦ none | some (token, rest) ↦ some (c ∷ token, rest) ]

-- The loop, which finds a delimiter at most once for each byte.
unfoldable pub split_from : ℕ → ℕ → Str → List Str
unfolding cut
split_from zero delimiter s = []
split_from (suc fuel) delimiter s = elim (cut delimiter s) [
  | none ↦ s ∷ []
  | some (token, rest) ↦ token ∷ split_from fuel delimiter rest
]

unfoldable pub split : Str → ℕ → List Str
unfolding split_from
split str delimiter = split_from (suc (length str)) delimiter str

-- std::toupper and std::tolower
unfoldable pub upper : ℕ → ℕ
upper c = if leb b'a' c && leb c b'z' then c - 32 else c

unfoldable pub lower : ℕ → ℕ
lower c = if leb b'A' c && leb c b'Z' then c + 32 else c

unfoldable pub to_upper : Str → Str
unfolding upper
to_upper str = map upper str

unfoldable pub to_lower : Str → Str
unfolding lower
to_lower str = map lower str
