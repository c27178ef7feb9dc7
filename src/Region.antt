-- ===== src/Region.antt =====
-- pine/page.hpp: regions of pages or sections, on a machine with 32-bit `size_t` and `PtrData`.
-- The first argument `magnitude` is the template's, the bytes of one page or section.
pub mod Halves
pub mod Order
pub mod Bytes
use pinyon.Prelude.{
  ℕ, ◌+◌, ◌-◌, ◌*◌, ◌/◌, ◌%◌, ◌^◌, Bool, true, false, ◌&&◌, ◌||◌, ltb, leb, ◌==◌, if◌then◌else◌,
}
use pinyon.Math.{divide_up}

abbrev pub page_size : ℕ
page_size = 4096

abbrev pub section_size : ℕ
section_size = 1048576

-- The values of a 32-bit word.
abbrev pub words : ℕ
words = 4294967296

pub record Region : Type 0 where
  pub offset : ℕ
  pub length : ℕ

abbrev pub region : ℕ → ℕ → Region
region offset length = record { offset = offset; length = length }

unfoldable pub from_ptr : ℕ → ℕ → ℕ → Region
unfolding divide_up
from_ptr magnitude ptr size_in_bytes =
    region (ptr / magnitude) (divide_up 32 size_in_bytes magnitude)

unfoldable pub ptr : ℕ → Region → ℕ → ℕ
ptr magnitude r left_offset = (r.offset + left_offset) * magnitude % words

unfoldable pub size : ℕ → Region → ℕ
size magnitude r = r.length * magnitude % words

unfoldable pub fits : Region → ℕ → Bool
fits r other_length = leb other_length r.length

unfoldable pub end_offset : Region → ℕ
end_offset r = (r.offset + r.length) % words

unfoldable pub contains : Region → Region → Bool
unfolding end_offset
contains r other = leb r.offset other.offset && leb (end_offset other) (end_offset r)

unfoldable pub aligned_to : Region → ℕ → Bool
aligned_to r alignment = r.offset % alignment == 0

unfoldable pub end_ptr : ℕ → Region → ℕ
unfolding end_offset
end_ptr magnitude r = end_offset r * magnitude % words

unfoldable pub halve : Region → Region × Region
halve r =
    let remainder = r.length % 2 in
    let halved_length = r.length / 2 in
    (
      region r.offset halved_length,
      region ((r.offset + halved_length) % words) (halved_length + remainder),
    )

unfoldable pub split_left : Region → ℕ → Region × Region
split_left r num_pages = (
  region r.offset num_pages,
  region ((r.offset + num_pages) % words) ((r.length + words - num_pages) % words),
)

-- `operator bool` and the comparisons.
unfoldable pub not_empty : Region → Bool
not_empty r = if r.length == 0 then false else true

unfoldable pub eq : Region → Region → Bool
eq a b = a.offset == b.offset && a.length == b.length

unfoldable pub gt : Region → Region → Bool
gt a b = ltb b.offset a.offset || (a.offset == b.offset && ltb b.length a.length)

unfoldable pub ge : Region → Region → Bool
ge a b = leb b.offset a.offset || (a.offset == b.offset && leb b.length a.length)

unfoldable pub lt : Region → Region → Bool
lt a b = ltb a.offset b.offset || (a.offset == b.offset && ltb a.length b.length)

unfoldable pub le : Region → Region → Bool
le a b = leb a.offset b.offset || (a.offset == b.offset && leb a.length b.length)

unfoldable pub from_range : ℕ → ℕ → ℕ → Region
from_range magnitude start end =
    region (start / magnitude) ((end + words - start) % words / magnitude)

unfoldable pub convert_to : ℕ → ℕ → Region → Region
convert_to magnitude new_magnitude r =
    let factor = magnitude / new_magnitude in
    region (r.offset * factor % words) (r.length * factor % words)

unfoldable pub as_page_region : Region → Region
unfolding convert_to
as_page_region section_region = convert_to section_size page_size section_region

-- Whether a page lies in a region, as a count.
abbrev pub inside : ℕ → Region → ℕ
inside p r = if leb r.offset p && ltb p (r.offset + r.length) then 1 else 0
