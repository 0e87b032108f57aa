-- ===== src/Prelude/Int.antt =====
-- Signed integers: `negsuc n` is -(n + 1).
use Prim.Native.Nat.{ℕ, ◌+◌}
use mathlib.Core.List.{◌∷◌}
use aevum.Prelude.Text.{Str, to_decimal}

pub data ℤ : Type 0 where
  pos : ℕ → ℤ
  negsuc : ℕ → ℤ

-- std::to_string of a signed integer
unfoldable pub int_to_string : ℤ → Str
int_to_string (pos n) = to_decimal n
int_to_string (negsuc n) = b'-' ∷ to_decimal (n + 1)
