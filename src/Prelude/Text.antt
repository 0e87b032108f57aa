-- ===== src/Prelude/Text.antt =====
-- A `std::string` or `std::string_view` is the list of its bytes.
use Prim.Native.Char.{code}
use Prim.Native.String.{String}
use Prim.Native.Nat.{ℕ, zero, suc, ◌+◌, ◌/◌, ◌%◌, ◌<◌}
use mathlib.Core.Path.{◌≡◌, refl}
use mathlib.Core.Logic.{◌↔◌, inl, inr}
use mathlib.Core.Bool.{Bool, true, false, ◌&&◌}
use mathlib.Core.List.{List, [], ◌∷◌}
use native.Mathlib.Omega.{arith}
use aevum.Prelude.Booleans.{◌==◌, if◌then◌else◌, ltb, Bool-cases}

abbrev pub Str : Type 0
Str = List ℕ

-- The bytes of a literal in ASCII.
abbrev pub codes : String → Str
codes String.[] = []
codes (String.◌∷◌ c s) = code c ∷ codes s

-- `operator==` on strings.
unfoldable pub str_eq : Str → Str → Bool
str_eq [] [] = true
str_eq [] (d ∷ t) = false
str_eq (c ∷ s) [] = false
str_eq (c ∷ s) (d ∷ t) = c == d && str_eq s t

str_eq_sound : (s t : Str) → str_eq s t ≡ true → s ≡ t
unfolding str_eq
str_eq_sound [] [] h = refl
str_eq_sound [] (d ∷ t) h = cc
str_eq_sound (c ∷ s) [] h = cc
str_eq_sound (c ∷ s) (d ∷ t) h = ground (arith, str_eq_sound s t)

pub str_eq_refl : (s : Str) → str_eq s s ≡ true
unfolding str_eq
str_eq_refl [] = refl
str_eq_refl (c ∷ s) = ground (arith, str_eq_refl s)

pub str_eq_iff : (s t : Str) → (str_eq s t ≡ true) ↔ (s ≡ t)
str_eq_iff s t = (str_eq_sound s t, λ e. rw e (str_eq_refl t))

-- `std::to_string` of a natural number: its decimal digits, most significant first.
digits_fuel : ℕ → ℕ → Str → Str
digits_fuel zero n acc = acc
digits_fuel (suc f) n acc =
    let rest = digits_fuel f (n / 10) ((n % 10 + b'0') ∷ acc) in
    if ltb n 10 then (n + b'0') ∷ acc else rest

unfoldable pub to_decimal : ℕ → Str
unfolding digits_fuel
to_decimal n = digits_fuel (suc n) n []

-- A string literal of the source, shut so that goals stay small.
unfoldable pub lit : String → Str
lit s = codes s

-- What a function that reads a `const char *` sees of a string: the bytes before the first NUL.
unfoldable pub c_str : Str → Str
c_str [] = []
c_str (c ∷ s) = if c == 0 then [] else c ∷ c_str s

-- No byte of the string is a NUL.
abbrev pub NoNul : Str → Type 0
NoNul [] = Unit {0}
NoNul (c ∷ s) = (0 < c) × NoNul s

pub c_str_lem : (s : Str) → NoNul s → c_str s ≡ s
unfolding c_str
c_str_lem [] h = refl
c_str_lem (c ∷ s) h = ground (arith, c_str_lem s h.1)

-- Cutting at a NUL leaves nothing to cut.
pub c_str-NoNul : (s : Str) → NoNul (c_str s)
unfolding c_str
c_str-NoNul [] = tt
c_str-NoNul (c ∷ s) = elim (Bool-cases (c == 0)) [
  | inl e ↦ rw e tt
  | inr e ↦ rw e (ground arith, c_str-NoNul s)
]
