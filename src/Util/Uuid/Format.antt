-- ===== src/Util/Uuid/Format.antt =====
-- The form of a generated UUID, whatever the random words are.
use Prim.Native.Nat.{bit_and, bit_or}
use aevum.Prelude.{
  ℕ, ◌/◌, ◌^◌, ◌<◌, ◌≡◌, refl, ap, ◌∙◌, Bool, true, ◌||◌, some, NoNul, length, get_elem?, arith,
  ◌==◌,
}
use aevum.Util.Uuid.{hex_char, to_hex, generate_v4, version_bits, variant_bits}
use aevum.Util.Uuid.Bits.{
  shifted, shifted-bit_and, shifted-bit_or, shifted_twelve, shifted_sixty, bit_and_fifteen,
  version_nibble, variant_nibble,
}

to_hex_pos : (v s : ℕ) → 0 < to_hex v s
unfolding to_hex
to_hex_pos v s = ground arith

version_digit : (p : ℕ) → to_hex (version_bits p) 12 ≡ b'4'
unfolding to_hex hex_char version_bits shifted
version_digit p =
    let x = bit_and p 0xffffffffffff0fff in
    let moved : version_bits p / 4096 ≡ bit_or (bit_and (shifted 12 p) 0xffffffffffff0) 4 =
      shifted_twelve (version_bits p)
      ∙ (shifted-bit_or 12 x 0x4000
          ∙ ap (λ n. bit_or n 4) (shifted-bit_and 12 p 0xffffffffffff0fff)) in
    ground (arith, moved, bit_and_fifteen (version_bits p / 4096), version_nibble (shifted 12 p))

-- One of the digits 8, 9, a and b.
abbrev pub is_variant_digit : ℕ → Bool
is_variant_digit c = (c == b'8') || ((c == b'9') || ((c == b'a') || (c == b'b')))

variant_digit : (q : ℕ) → is_variant_digit (to_hex (variant_bits q) 60) ≡ true
unfolding to_hex hex_char variant_bits shifted
variant_digit q =
    let x = bit_and q 0x3fffffffffffffff in
    let moved : variant_bits q / 2 ^ 60 ≡ bit_or (bit_and (shifted 60 q) 3) 8 =
      shifted_sixty (variant_bits q)
      ∙ (shifted-bit_or 60 x 0x8000000000000000
          ∙ ap (λ n. bit_or n 8) (shifted-bit_and 60 q 0x3fffffffffffffff)) in
    ground (arith, moved, bit_and_fifteen (variant_bits q / 2 ^ 60), variant_nibble (shifted 60 q))

-- Whatever the random words are, the id has 36 bytes without a NUL, so that it is the same read as
-- a C string; its digit for the version is 4, and that for the variant one of 8, 9, a and b.
pub generate_v4-NoNul :
    (p q : ℕ)
    → NoNul (generate_v4 p q)
      × ((length (generate_v4 p q) ≡ 36)
          × ((get_elem? (generate_v4 p q) 14 ≡ some b'4')
              × ((c : ℕ) × ((get_elem? (generate_v4 p q) 19 ≡ some c)
                    × (is_variant_digit c ≡ true)))))
unfolding generate_v4
generate_v4-NoNul p q = (
  omega (arith, to_hex_pos),
  (
    refl,
    (ap (λ c. some c) (version_digit p), (to_hex (variant_bits q) 60, (refl, variant_digit q))),
  ),
)
