-- ===== src/Tests/UtilRuns.antt =====
-- The theorems of the hashes at concrete inputs.
use aevum.Prelude.{◌≡◌, ◌%◌, codes}
use aevum.Util.Hash.{djb2, u64_mod}
use aevum.Util.Hash.Laws.{polynomial, djb2-polynomial}

djb2-polynomial_example : djb2 (codes "ab") ≡ polynomial 5381 (codes "ab") % u64_mod
djb2-polynomial_example = djb2-polynomial (codes "ab")
