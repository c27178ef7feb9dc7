-- ===== src/Region/Bytes.antt =====
-- Regions as byte ranges.
use pinyon.Prelude.{◌+◌, ◌<◌, ◌≡◌, arith}
use pinyon.Region.{
  Region, page_size, section_size, from_ptr, ptr, size, end_ptr, from_range, as_page_region,
}

-- A page region that ends within the 4 GiB address space, less the last page, is read back from its
-- first byte and its size.
pub from_ptr-ptr :
    (r : Region)
    → r.offset + r.length < 1048576
    → from_ptr page_size (ptr page_size r 0) (size page_size r) ≡ r
unfolding from_ptr ptr size
from_ptr-ptr r h = ground arith

-- A region is read back from its bounds.
pub from_range-ptr :
    (r : Region)
    → r.offset + r.length < 1048576
    → from_range page_size (ptr page_size r 0) (end_ptr page_size r) ≡ r
unfolding from_range ptr end_ptr
from_range-ptr r h = ground arith

-- The pages of a section region are those of its bytes: same first byte, same size, same end.
pub as_page_region_bytes :
    (r : Region)
    → r.offset + r.length < 4096
    → (ptr page_size (as_page_region r) 0 ≡ ptr section_size r 0)
      × (size page_size (as_page_region r) ≡ size section_size r)
      × (end_ptr page_size (as_page_region r) ≡ end_ptr section_size r)
unfolding as_page_region ptr size end_ptr
as_page_region_bytes r h = (omega arith, omega arith, omega arith)
