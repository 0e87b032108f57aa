-- ===== src/Ffi.antt =====
-- db/ffi.hpp: the query engine, a library in Rust that is called through C strings holding JSON.
-- It stands here as an interface; a string argument reaches it up to its first NUL byte.
use aevum.Prelude.{ℕ, zero, suc, true, ℤ, pos, negsuc, Option, Str, Bool, false, ◌==◌}

-- rust_update_result
pub record UpdateResult : Type 0 where
  pub update_data : Option Str
  pub modified_count : ℤ

pub record Ffi : Type 0 where
  pub rust_count : Str → Str → ℤ
  pub rust_find : Str → Str → Str → Str → ℤ → ℤ → Option Str
  pub rust_update : Str → Str → Str → Str → UpdateResult
  pub rust_validate : Str → Str → ℤ

-- z == n
abbrev pub is_int : ℤ → ℕ → Bool
is_int (pos m) n = m == n
is_int (negsuc m) n = false

-- z > 0
abbrev pub is_positive : ℤ → Bool
is_positive (pos zero) = false
is_positive (pos (suc m)) = true
is_positive (negsuc m) = false
