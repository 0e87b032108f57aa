-- ===== src/Util/Hash/Laws.antt =====
-- The hashes as numbers: the shift is a product by 33, they stay in range, and they extend over a
-- longer text.
use aevum.Prelude.{ℕ, ◌+◌, ◌*◌, ◌%◌, ◌<◌, ◌≡◌, refl, ap, [], ◌∷◌, ◌++◌, arith, Str}
use aevum.Util.Hash.{u64_mod, widen_char, djb2_step, djb2_from, djb2}

-- The shift and add of one step is `hash * 33 + c` modulo 2^64.
pub djb2_step-eq-mul : (h c : ℕ) → djb2_step h c ≡ (h * 33 + widen_char c) % u64_mod
unfolding djb2_step
djb2_step-eq-mul h c = omega arith

djb2_from-lt : (h : ℕ) (s : Str) → h < u64_mod → djb2_from h s < u64_mod
unfolding djb2_from djb2_step
djb2_from-lt h [] p = p
djb2_from-lt h (c ∷ s) p = djb2_from-lt (djb2_step h c) s (omega arith)

-- The value of a text as a number written in base 33.
pub polynomial : ℕ → Str → ℕ
polynomial acc [] = acc
polynomial acc (c ∷ s) = polynomial (acc * 33 + widen_char c) s

djb2_from-mod :
    (h acc : ℕ) (s : Str) → h ≡ acc % u64_mod → djb2_from h s ≡ polynomial acc s % u64_mod
unfolding djb2_from polynomial djb2_step
djb2_from-mod h acc [] e = e
djb2_from-mod h acc (c ∷ s) e =
    djb2_from-mod (djb2_step h c) (acc * 33 + widen_char c) s (omega arith)

-- `djb2` is the base-33 polynomial of the text with the seed 5381, reduced modulo 2^64 once at
-- the end.
pub djb2-polynomial : (s : Str) → djb2 s ≡ polynomial 5381 s % u64_mod
unfolding djb2
djb2-polynomial s = djb2_from-mod 5381 5381 s (omega arith)

djb2_from-append : (h : ℕ) (s t : Str) → djb2_from h (s ++ t) ≡ djb2_from (djb2_from h s) t
unfolding djb2_from
djb2_from-append h [] t = refl
djb2_from-append h (c ∷ s) t = djb2_from-append (djb2_step h c) s t

djb2_pair :
    (a b : ℕ)
    → a + 1 < 128
    → b + 33 < 128
    → djb2_step (djb2_step 5381 a) (b + 33) ≡ djb2_step (djb2_step 5381 (a + 1)) b
unfolding djb2_step
djb2_pair a b p q = ground arith

-- Two texts of two bytes below 128, the first one up and the second 33 down, have one hash: a
-- collision for every such pair, before any text that follows.
pub djb2_collision :
    (a b : ℕ) (s : Str)
    → a + 1 < 128
    → b + 33 < 128
    → djb2 (a ∷ (b + 33) ∷ s) ≡ djb2 ((a + 1) ∷ b ∷ s)
unfolding djb2 djb2_from
djb2_collision a b s p q = ap (λ h. djb2_from h s) (djb2_pair a b p q)
