-- ===== src/PageAllocator/Depth.antt =====
-- Depths and lengths: list `d` is for regions of `2 ^ d` pages.
use pinyon.Prelude.{ℕ, suc, ◌*◌, ◌^◌, ◌≤◌, ◌<◌, ◌≡◌, arith, two_pow-pos}
use pinyon.TwoMath.{align_up_to_power}
use pinyon.TwoMath.Width.{bit_width-two_pow, bit_width_highest, align_up_to_power_least}
use pinyon.PageAllocator.{depth_from_page_length}

pub depth_from_page_length-two_pow : (d : ℕ) → depth_from_page_length (2 ^ d) ≡ d
unfolding depth_from_page_length
depth_from_page_length-two_pow d = ground (arith, bit_width-two_pow d, two_pow-pos d)

-- The depth of a length is the exponent of the highest power of two in it.
pub depth_from_page_length_floor :
    (n : ℕ) → 0 < n → (2 ^ depth_from_page_length n ≤ n) × (n < 2 ^ suc (depth_from_page_length n))
unfolding depth_from_page_length
depth_from_page_length_floor n pos =
    let (d, found, lo, hi) = bit_width_highest n pos in
    let same : depth_from_page_length n ≡ d = ground (arith, found) in rw same (lo, hi)

-- Up to 2 GiB of pages, the depth that `remove_and_trim_pages` trims to is the least that holds the
-- pages asked for.
pub min_depth_least :
    (n : ℕ)
    → 0 < n
    → n ≤ 2 ^ 31
    → (n ≤ 2 ^ depth_from_page_length (align_up_to_power 32 n))
      × (2 ^ depth_from_page_length (align_up_to_power 32 n) < 2 * n)
min_depth_least n pos h =
    let (d, found, lo, hi) = align_up_to_power_least 31 n (omega arith) pos h in
    rw (found, depth_from_page_length-two_pow d) (lo, hi)
