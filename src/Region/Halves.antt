-- ===== src/Region/Halves.antt =====
-- Splitting loses no page and makes none up.
use pinyon.Prelude.{ℕ, ◌+◌, ◌≤◌, ◌<◌, ◌≡◌, arith}
use pinyon.Region.{Region, words, halve, split_left, inside}

module _ (r : Region) (small : r.offset + r.length < words) where
  -- The halves of a region that stays in the word hold each of its pages once.
  pub inside-halve : (p : ℕ) → inside p (halve r).0 + inside p (halve r).1 ≡ inside p r
  unfolding halve
  inside-halve p = ground arith

  -- The halves stay in the word, and their lengths differ by at most one.
  pub halve_lengths :
      ((halve r).0.length ≤ (halve r).1.length)
      × ((halve r).1.length ≤ (halve r).0.length + 1)
      × ((halve r).0.offset + (halve r).0.length < words)
      × ((halve r).1.offset + (halve r).1.length < words)
  unfolding halve
  halve_lengths = omega arith

  -- So do the parts that `split_left` makes, if the region has that many pages.
  pub inside-split_left :
      (num_pages p : ℕ)
      → num_pages ≤ r.length
      → inside p (split_left r num_pages).0 + inside p (split_left r num_pages).1 ≡ inside p r
  unfolding split_left
  inside-split_left num_pages p h = ground arith
