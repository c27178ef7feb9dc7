-- ===== src/Tests.antt =====
-- The theorems on the arithmetic, the regions and the algorithms at concrete numbers.
use pinyon.Prelude.{ℕ, zero, suc, ◌≡◌, ltb, some, List, [], ◌∷◌, arith, get_elem?}
use pinyon.Algorithm.{lower_bound}
use pinyon.Algorithm.Search.{lower_bound-parted}

abbrev sorted : List ℕ
sorted = 1 ∷ 4 ∷ 6 ∷ 9 ∷ []

sorted-parted : (i a : ℕ) → get_elem? sorted i ≡ some a → ltb a 5 ≡ ltb i 2
sorted-parted zero a e = ground (arith, e)
sorted-parted (suc zero) a e = ground (arith, e)
sorted-parted (suc (suc zero)) a e = ground (arith, e)
sorted-parted (suc (suc (suc zero))) a e = ground (arith, e)
sorted-parted (suc (suc (suc (suc i)))) a e = cc

lower_bound-parted_example : lower_bound (get_elem? sorted) suc (λ a. ltb a 5) 0 4 ≡ some 2
lower_bound-parted_example = lower_bound-parted sorted (λ a. ltb a 5) 2 sorted-parted (omega arith)
