-- ===== src/Region/Order.antt =====
-- The comparisons of regions.
use pinyon.Prelude.{ℕ, ◌+◌, ◌-◌, ◌≤◌, ◌<◌, ◌≡◌, ◌↔◌, ◌⊎◌, arith, true, false}
use pinyon.Region.{Region, words, region, contains, inside, lt, gt, le, eq}

-- Exactly one of `<`, `==` and `>` holds of two regions.
pub compare_cases :
    (a b : Region)
    → ((lt a b ≡ true) × (eq a b ≡ false) × (gt a b ≡ false))
      ⊎ ((lt a b ≡ false) × (eq a b ≡ true) × (gt a b ≡ false))
      ⊎ ((lt a b ≡ false) × (eq a b ≡ false) × (gt a b ≡ true))
unfolding lt eq gt
compare_cases a b = ground arith

pub lt_trans : (a b c : Region) → lt a b ≡ true → lt b c ≡ true → lt a c ≡ true
unfolding lt
lt_trans a b c h k = ground arith

-- At equal offsets `<=` and `>=` pass over the lengths, so the longer region is `<=` the shorter.
pub le_longer :
    (offset long short : ℕ)
    → short < long
    → (le (region offset long) (region offset short) ≡ true)
      × (gt (region offset long) (region offset short) ≡ true)
unfolding le gt
le_longer offset long short h = ground arith

-- For regions that stay in the word, the second not empty, `contains` says that each page of the
-- second lies in the first.
pub contains_iff :
    (r other : Region)
    → r.offset + r.length < words
    → other.offset + other.length < words
    → 0 < other.length
    → (contains r other ≡ true) ↔ ((p : ℕ) → inside p other ≤ inside p r)
unfolding contains
contains_iff r other h k pos = (
  λ c p. ground arith,
  λ all. ground (arith, all other.offset, all (other.offset + other.length - 1)),
)
