-- ===== src/Util/Uuid.antt =====
-- util/uuid/v4.cpp: a UUID from two random words, which `next_uint64` draws and the model takes as
-- arguments.
pub mod Bits
pub mod Format
use Prim.Native.Nat.{bit_and, bit_or}
use aevum.Prelude.{ℕ, ◌+◌, ◌-◌, ◌/◌, ◌%◌, ◌^◌, [], ◌∷◌, Str, ltb, if◌then◌else◌}

-- The table `hex_chars`.
pub hex_char : ℕ → ℕ
hex_char n = if ltb n 10 then b'0' + n else b'a' + (n - 10)

-- hex_chars[(val >> shift) & 0x0F]
pub to_hex : ℕ → ℕ → ℕ
unfolding hex_char
to_hex val shift = hex_char (bit_and (val / 2 ^ shift) 15)

pub version_bits : ℕ → ℕ
version_bits part1 = bit_or (bit_and part1 0xffffffffffff0fff) 0x4000

pub variant_bits : ℕ → ℕ
variant_bits part2 = bit_or (bit_and part2 0x3fffffffffffffff) 0x8000000000000000

pub format : ℕ → ℕ → Str
format p q =
    to_hex p 60
    ∷ to_hex p 56
    ∷ to_hex p 52
    ∷ to_hex p 48
    ∷ to_hex p 44
    ∷ to_hex p 40
    ∷ to_hex p 36
    ∷ to_hex p 32
    ∷ b'-'
    ∷ to_hex p 28
    ∷ to_hex p 24
    ∷ to_hex p 20
    ∷ to_hex p 16
    ∷ b'-'
    ∷ to_hex p 12
    ∷ to_hex p 8
    ∷ to_hex p 4
    ∷ to_hex p 0
    ∷ b'-'
    ∷ to_hex q 60
    ∷ to_hex q 56
    ∷ to_hex q 52
    ∷ to_hex q 48
    ∷ b'-'
    ∷ to_hex q 44
    ∷ to_hex q 40
    ∷ to_hex q 36
    ∷ to_hex q 32
    ∷ to_hex q 28
    ∷ to_hex q 24
    ∷ to_hex q 20
    ∷ to_hex q 16
    ∷ to_hex q 12
    ∷ to_hex q 8
    ∷ to_hex q 4
    ∷ to_hex q 0
    ∷ []

unfoldable pub generate_v4 : ℕ → ℕ → Str
unfolding format
generate_v4 part1 part2 = format (version_bits part1) (variant_bits part2)
