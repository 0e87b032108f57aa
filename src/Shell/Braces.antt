-- ===== src/Shell/Braces.antt =====
-- The brace that is found closes the one at the start.
use aevum.Prelude.{
  ℕ, suc, ◌+◌, ◌≡◌, refl, ap, ◌∙◌, ◌≢◌, [], ◌∷◌, ◌++◌, some, Str, ℤ, pos, drop, length,
  length-append, ==_iff, arith,
}
use mathlib.Core.List.{append_assoc}
use aevum.Shell.{opened, closed, is_zero, scan_braces, find_matching_brace}

-- A text in which every brace has its partner.
pub data Balanced (o c : ℕ) : Str → Type 0 where
  nothing : Balanced o c []
  byte : (x : ℕ) (s : Str) → x ≢ o → x ≢ c → Balanced o c s → Balanced o c (x ∷ s)
  block :
      (inner s : Str) → Balanced o c inner → Balanced o c s → Balanced o c (o ∷ (inner ++ (c ∷ s)))

scan_other :
    (o c x : ℕ) (n i : ℕ) (s : Str)
    → x ≢ o
    → x ≢ c
    → scan_braces o c (pos n) i (x ∷ s) ≡ scan_braces o c (pos n) (i + 1) s
unfolding scan_braces
scan_other o c x n i s p q = ground (arith, ==_iff x o, ==_iff x c, p, q)

scan_open :
    (o c : ℕ) (n i : ℕ) (s : Str)
    → scan_braces o c (pos n) i (o ∷ s) ≡ scan_braces o c (pos (n + 1)) (i + 1) s
unfolding scan_braces opened
scan_open o c n i s = ground (arith, ==_iff o o)

scan_close :
    (o c : ℕ) (n i : ℕ) (s : Str)
    → c ≢ o
    → scan_braces o c (pos (suc (suc n))) i (c ∷ s) ≡ scan_braces o c (pos (suc n)) (i + 1) s
unfolding scan_braces closed is_zero
scan_close o c n i s d = ground (arith, ==_iff c o, ==_iff c c, d)

scan_last : (o c : ℕ) (i : ℕ) (s : Str) → c ≢ o → scan_braces o c (pos 1) i (c ∷ s) ≡ some i
unfolding scan_braces closed is_zero
scan_last o c i s d = ground (arith, ==_iff c o, ==_iff c c, d)

plus_one : (n : ℕ) → n + 1 ≡ suc n
plus_one n = omega arith

scan_at :
    (o c : ℕ) (balance : ℤ) (i k : ℕ) (s : Str)
    → i ≡ k
    → scan_braces o c balance i s ≡ scan_braces o c balance k s
scan_at o c balance i k s e = ap (λ n. scan_braces o c balance n s) e

-- A balanced text inside a block is passed over.
scan-Balanced :
    (o c : ℕ) (s t : Str) (n i : ℕ)
    → c ≢ o
    → Balanced o c s
    → scan_braces o c (pos (suc n)) i (s ++ t) ≡ scan_braces o c (pos (suc n)) (i + length s) t
scan-Balanced o c _ t n i d nothing = scan_at o c (pos (suc n)) i (i + 0) t (omega arith)
scan-Balanced o c _ t n i d (byte x s p q h) =
    scan_other o c x (suc n) i (s ++ t) p q
    ∙ (scan-Balanced o c s t n (i + 1) d h
        ∙ scan_at o c (pos (suc n)) (i + 1 + length s) (i + length (x ∷ s)) t (omega arith))
scan-Balanced o c _ t n i d (block inner s h k) =
    scan_open o c (suc n) i ((inner ++ (c ∷ s)) ++ t)
    ∙ (ap (λ r. scan_braces o c (pos (suc n + 1)) (i + 1) r) (append_assoc inner (c ∷ s) t)
        ∙ (ap (λ m. scan_braces o c (pos m) (i + 1) (inner ++ (c ∷ (s ++ t)))) (plus_one (suc n))
            ∙ (scan-Balanced o c inner (c ∷ (s ++ t)) (suc n) (i + 1) d h
                ∙ (scan_close o c n (i + 1 + length inner) (s ++ t) d
                    ∙ (scan-Balanced o c s t n (i + 1 + length inner + 1) d k
                        ∙ scan_at o c (pos (suc n)) (i + 1 + length inner + 1 + length s)
                            (i + length (o ∷ (inner ++ (c ∷ s)))) t
                            (omega (arith, length-append inner (c ∷ s))))))))

drop-length : (s t : Str) → drop (length s) (s ++ t) ≡ t
drop-length [] t = refl
drop-length (x ∷ s) t = drop-length s t

-- For two different bytes as braces, the search from an opening brace finds the brace that closes
-- it, over a balanced text between the two and whatever stands behind.
pub find_matching_brace-Balanced :
    (o c : ℕ) (before inner rest : Str)
    → c ≢ o
    → Balanced o c inner
    → find_matching_brace (before ++ (o ∷ (inner ++ (c ∷ rest)))) (length before) o c
      ≡ some (length before + 1 + length inner)
unfolding find_matching_brace
find_matching_brace-Balanced o c before inner rest d h =
    let i = length before in
    ap (λ s. scan_braces o c (pos 0) i s) (drop-length before (o ∷ (inner ++ (c ∷ rest))))
    ∙ (scan_open o c 0 i (inner ++ (c ∷ rest))
        ∙ (ap (λ m. scan_braces o c (pos m) (i + 1) (inner ++ (c ∷ rest))) (plus_one 0)
            ∙ (scan-Balanced o c inner (c ∷ rest) 0 (i + 1) d h
                ∙ scan_last o c (i + 1 + length inner) rest d)))
