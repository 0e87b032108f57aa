-- ===== src/Util/Uuid/Bits.antt =====
-- The operations on bits that the UUIDs are made with, digit by digit.
use Prim.Native.Nat.{min, max, bit_and, bit_or, digits, bit_and-bitwise, bit_or-bitwise}
use aevum.Prelude.{ℕ, zero, suc, ◌+◌, ◌*◌, ◌^◌, ◌/◌, ◌%◌, ◌≤◌, ◌≡◌, refl, ap, sym, ◌∙◌, arith}

module _ (z : ℕ → ℕ) (f : ℕ → ℕ → ℕ) where
  -- The count of digits does not matter where it is large enough.
  digits_enough : (n m a b : ℕ) → a ≤ n → a ≤ m → digits z f n a b ≡ digits z f m a b
  digits_enough zero zero a b p q = refl
  digits_enough zero (suc m) zero b p q = refl
  digits_enough zero (suc m) (suc a) b p q = absurd (omega arith)
  digits_enough (suc n) zero zero b p q = refl
  digits_enough (suc n) zero (suc a) b p q = absurd (omega arith)
  digits_enough (suc n) (suc m) zero b p q = refl
  digits_enough (suc n) (suc m) (suc a) b p q =
      ap (λ d. d * 2 + f (suc a % 2) (b % 2))
        (digits_enough n m (suc a / 2) (b / 2) (omega arith) (omega arith))

  digits_lowest :
      (a b : ℕ)
      → ((c : ℕ) → z c ≡ z (c / 2) * 2 + f 0 (c % 2))
      → digits z f a a b ≡ digits z f (a / 2) (a / 2) (b / 2) * 2 + f (a % 2) (b % 2)
  digits_lowest zero b rest = rest b
  digits_lowest (suc a) b rest =
      ap (λ d. d * 2 + f (suc a % 2) (b % 2))
        (digits_enough a (suc a / 2) (suc a / 2) (b / 2) (omega arith) (omega arith))

pub bit_and_lowest : (a b : ℕ) → bit_and a b ≡ bit_and (a / 2) (b / 2) * 2 + min (a % 2) (b % 2)
bit_and_lowest a b =
    bit_and-bitwise a b
    ∙ (digits_lowest (λ c. 0) min a b (λ c. omega arith)
        ∙ ap (λ d. d * 2 + min (a % 2) (b % 2)) (sym (bit_and-bitwise (a / 2) (b / 2))))

pub bit_or_lowest : (a b : ℕ) → bit_or a b ≡ bit_or (a / 2) (b / 2) * 2 + max (a % 2) (b % 2)
bit_or_lowest a b =
    bit_or-bitwise a b
    ∙ (digits_lowest (λ c. c) max a b (λ c. omega arith)
        ∙ ap (λ d. d * 2 + max (a % 2) (b % 2)) (sym (bit_or-bitwise (a / 2) (b / 2))))

-- A shift to the right by one place at a time.
unfoldable pub shifted : ℕ → ℕ → ℕ
shifted zero a = a
shifted (suc k) a = shifted k (a / 2)

bit_and-half : (a b : ℕ) → bit_and a b / 2 ≡ bit_and (a / 2) (b / 2)
bit_and-half a b = omega (arith, bit_and_lowest a b)

bit_or-half : (a b : ℕ) → bit_or a b / 2 ≡ bit_or (a / 2) (b / 2)
bit_or-half a b = omega (arith, bit_or_lowest a b)

pub shifted-bit_and : (k a b : ℕ) → shifted k (bit_and a b) ≡ bit_and (shifted k a) (shifted k b)
unfolding shifted
shifted-bit_and zero a b = refl
shifted-bit_and (suc k) a b = ap (shifted k) (bit_and-half a b) ∙ shifted-bit_and k (a / 2) (b / 2)

pub shifted-bit_or : (k a b : ℕ) → shifted k (bit_or a b) ≡ bit_or (shifted k a) (shifted k b)
unfolding shifted
shifted-bit_or zero a b = refl
shifted-bit_or (suc k) a b = ap (shifted k) (bit_or-half a b) ∙ shifted-bit_or k (a / 2) (b / 2)

pub shifted_twelve : (a : ℕ) → a / 4096 ≡ shifted 12 a
unfolding shifted
shifted_twelve a = omega arith

bit_and-zero_below : (n a : ℕ) → a ≤ n → bit_and a 0 ≡ 0
bit_and-zero_below zero zero h = refl
bit_and-zero_below zero (suc a) h = absurd (omega arith)
bit_and-zero_below (suc n) zero h = refl
bit_and-zero_below (suc n) (suc a) h =
    omega (arith, bit_and_lowest (suc a) 0, bit_and-zero_below n (suc a / 2) (omega arith))

-- The mask of four ones is the remainder by 16.
pub bit_and_fifteen : (a : ℕ) → bit_and a 15 ≡ a % 16
bit_and_fifteen a =
    let zeros : bit_and (a / 2 / 2 / 2 / 2) 0 ≡ 0 =
      bit_and-zero_below a (a / 2 / 2 / 2 / 2) (omega arith) in
    omega (
      arith,
      bit_and_lowest a 15,
      bit_and_lowest (a / 2) 7,
      bit_and_lowest (a / 2 / 2) 3,
      bit_and_lowest (a / 2 / 2 / 2) 1,
      zeros,
    )

-- Four digits that the mask clears, and the third of them set: the last four are 4.
pub version_nibble : (x : ℕ) → bit_or (bit_and x 0xffffffffffff0) 4 % 16 ≡ 4
version_nibble x =
    let w = bit_and x 0xffffffffffff0 in
    let cleared : w % 16 ≡ 0 = omega (
      arith,
      bit_and_lowest x 0xffffffffffff0,
      bit_and_lowest (x / 2) 0x7fffffffffff8,
      bit_and_lowest (x / 2 / 2) 0x3fffffffffffc,
      bit_and_lowest (x / 2 / 2 / 2) 0x1fffffffffffe,
    ) in
    omega (
      arith,
      cleared,
      bit_or_lowest w 4,
      bit_or_lowest (w / 2) 2,
      bit_or_lowest (w / 2 / 2) 1,
      bit_or_lowest (w / 2 / 2 / 2) 0,
    )

bit_or-zero : (a : ℕ) → a ≡ 0 → bit_or a 1 ≡ 1
bit_or-zero zero h = refl
bit_or-zero (suc a) h = absurd (omega arith)

-- Above bits that the mask keeps, a set bit is the fourth digit of the last four: they are 8 to 11.
pub variant_nibble :
    (x : ℕ) → (8 ≤ bit_or (bit_and x 3) 8 % 16) × (bit_or (bit_and x 3) 8 % 16 ≤ 11)
variant_nibble x =
    let w = bit_and x 3 in
    let kept : w ≤ 3 = omega (
      arith,
      bit_and_lowest x 3,
      bit_and_lowest (x / 2) 1,
      bit_and-zero_below (x / 2 / 2) (x / 2 / 2) (omega arith),
    ) in
    let set : bit_or w 8 ≡ 8 + w = omega (
      arith,
      kept,
      bit_or_lowest w 8,
      bit_or_lowest (w / 2) 4,
      bit_or_lowest (w / 2 / 2) 2,
      bit_or-zero (w / 2 / 2 / 2) (omega (arith, kept)),
    ) in
    omega (arith, kept, set)

shifted_ten : (a : ℕ) → a / 1024 ≡ shifted 10 a
unfolding shifted
shifted_ten a = omega arith

zero_plus : (k : ℕ) → k ≡ 0 + k
zero_plus k = omega arith

plus_suc : (m k : ℕ) → suc (m + k) ≡ suc m + k
plus_suc m k = omega arith

shifted_more : (k m a : ℕ) → shifted k (shifted m a) ≡ shifted (m + k) a
unfolding shifted
shifted_more k zero a = ap (λ n. shifted n a) (zero_plus k)
shifted_more k (suc m) a = shifted_more k m (a / 2) ∙ ap (λ n. shifted n a) (plus_suc m k)

pub shifted_sixty : (a : ℕ) → a / 2 ^ 60 ≡ shifted 60 a
unfolding shifted
shifted_sixty a =
    let b = shifted 10 a in
    let c = shifted 10 b in
    let d = shifted 10 c in
    let g = shifted 10 d in
    let h = shifted 10 g in
    omega (
      arith,
      shifted_ten a,
      shifted_ten b,
      shifted_ten c,
      shifted_ten d,
      shifted_ten g,
      shifted_ten h,
      shifted_more 10 10 a,
      shifted_more 10 20 a,
      shifted_more 10 30 a,
      shifted_more 10 40 a,
      shifted_more 10 50 a,
    )
