-- ===== src/Util/Hash.antt =====
-- util/hash/djb2.cpp and util/hash/fnv1a.cpp, over `uint64_t` with its wrap-around.
pub mod Laws
use Prim.Native.Nat.{bit_xor}
use aevum.Prelude.{ℕ, ◌+◌, ◌-◌, ◌*◌, ◌%◌, ◌^◌, List, [], ◌∷◌, Str, ltb, if◌then◌else◌, to_decimal}

-- 2^64
abbrev pub u64_mod : ℕ
u64_mod = 18446744073709551616

-- static_cast<uint64_t>(c) for a `char` that is signed, as on the platforms the build names: a
-- byte from 128 up is negative, and is sign-extended.
pub widen_char : ℕ → ℕ
widen_char c = if ltb c 128 then c else c + (u64_mod - 256)

-- hash = ((hash << 5) + hash) + static_cast<uint64_t>(c)
pub djb2_step : ℕ → ℕ → ℕ
unfolding widen_char
djb2_step hash c = (((hash * 32) % u64_mod + hash) % u64_mod + widen_char c) % u64_mod

pub djb2_from : ℕ → Str → ℕ
unfolding djb2_step
djb2_from hash [] = hash
djb2_from hash (c ∷ s) = djb2_from (djb2_step hash c) s

unfoldable pub djb2 : Str → ℕ
unfolding djb2_from
djb2 s = djb2_from 5381 s

unfoldable pub djb2_string : Str → Str
unfolding djb2 to_decimal
djb2_string s = to_decimal (djb2 s)

abbrev pub fnv_prime : ℕ
fnv_prime = 0x100000001b3

-- hash ^= static_cast<uint8_t>(c); hash *= prime
pub fnv1a_step : ℕ → ℕ → ℕ
fnv1a_step hash c = (bit_xor hash (c % 256) * fnv_prime) % u64_mod

pub fnv1a_from : ℕ → Str → ℕ
unfolding fnv1a_step
fnv1a_from hash [] = hash
fnv1a_from hash (c ∷ s) = fnv1a_from (fnv1a_step hash c) s

pub fnv1a_64 : Str → ℕ
unfolding fnv1a_from
fnv1a_64 s = fnv1a_from 0xcbf29ce484222325 s
