-- ===== src/Prelude/Maps.antt =====
-- `std::unordered_map<std::string, V>` as an association list with one entry for each key.
-- The order of its entries stands for the unspecified order of the hash table's iteration.
use mathlib.Core.Path.{◌≡◌, refl}
use mathlib.Core.Bool.{Bool, false, ◌||◌}
use mathlib.Core.List.{List, [], ◌∷◌, ◌++◌}
use mathlib.Core.Option.{Option, none, some}
use native.Mathlib.Omega.{arith}
use aevum.Prelude.Booleans.{if◌then◌else◌}
use aevum.Prelude.Text.{Str, str_eq, str_eq_iff, str_eq_refl}

abbrev pub Map {ℓ} : Type ℓ → Type ℓ
Map V = List (Str × V)

module _ {ℓ} {V : Type ℓ} where
  -- m.find(k)
  unfoldable pub lookup : Str → Map V → Option V
  lookup k [] = none
  lookup k ((j, v) ∷ m) = if str_eq j k then some v else lookup k m

  -- m[k] = v, m.insert_or_assign(k, v)
  unfoldable pub insert : Str → V → Map V → Map V
  insert k v [] = (k, v) ∷ []
  insert k v ((j, w) ∷ m) = if str_eq j k then (j, v) ∷ m else (j, w) ∷ insert k v m

  -- m.erase(k)
  unfoldable pub erase : Str → Map V → Map V
  erase k [] = []
  erase k ((j, w) ∷ m) = let rest = erase k m in if str_eq j k then rest else (j, w) ∷ rest

  -- m.emplace(k, v): an entry that is there stays.
  unfoldable pub emplace : Str → V → Map V → Map V
  emplace k v m = elim (lookup k m) [ none ↦ insert k v m | some w ↦ m ]

  -- m[k] with a default for a key that is not there.
  unfoldable pub lookup_or : V → Str → Map V → V
  lookup_or d k m = elim (lookup k m) [ none ↦ d | some v ↦ v ]

  pub lookup-insert :
      (k j : Str) (v : V) (m : Map V)
      → lookup j (insert k v m) ≡ (if str_eq k j then some v else lookup j m)
  unfolding lookup insert
  lookup-insert k j v [] = refl
  lookup-insert k j v ((i, w) ∷ m) =
      ground (arith, str_eq_iff k j, str_eq_iff i k, str_eq_iff i j, lookup-insert k j v m)

  pub lookup-erase :
      (k j : Str) (m : Map V) → lookup j (erase k m) ≡ (if str_eq k j then none else lookup j m)
  unfolding lookup erase
  lookup-erase k j [] = ground arith
  lookup-erase k j ((i, w) ∷ m) =
      ground (arith, str_eq_iff k j, str_eq_iff i k, str_eq_iff i j, lookup-erase k j m)

  pub lookup-insert_self : (k : Str) (v : V) (m : Map V) → lookup k (insert k v m) ≡ some v
  lookup-insert_self k v m = rw (lookup-insert, str_eq_refl k)

  pub lookup-emplace :
      (k j : Str) (v : V) (m : Map V)
      → lookup j (emplace k v m)
        ≡ (elim (lookup j m) [ none ↦ if str_eq k j then some v else none | some w ↦ some w ])
  unfolding emplace
  lookup-emplace k j v m = ground (arith, lookup-insert k j v m, str_eq_iff k j)

-- `std::unordered_set<std::string>`: the list of its elements.
unfoldable pub contains : Str → List Str → Bool
contains k [] = false
contains k (j ∷ s) = str_eq j k || contains k s

unfoldable pub add : Str → List Str → List Str
add k s = if contains k s then s else s ++ k ∷ []
