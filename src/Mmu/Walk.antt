-- ===== src/Mmu/Walk.antt =====
-- The walk of the two tables from an address, and the walk after pages were recorded in a new table.
use pinyon.Prelude.{ℕ, ◌+◌, ◌*◌, ◌%◌, ◌≤◌, ◌<◌, ◌≡◌, ◌≢◌, ◌⊎◌, Bool, true, Option, none, some}
use pinyon.Region.{Region, page_size, ptr}
use pinyon.Mmu.{
  L1Entry, L2Entry, L1Table, fault, l2_ptr, section, super_section, huge_page, page, l1_index,
  from_l2_base_addr, retrieve_entry,
}
use pinyon.Mmu.Pages.{L2Memory, PageAllocator, l2_retrieve_entry}

-- The frame that the processor reads from an entry of a second-level table: `base_addr` is the bits
-- from 12 on of a page's address, and the bits from 16 on of a huge page's.
abbrev pub frame_of : L2Entry → Option ℕ
frame_of fault = none
frame_of (huge_page base_addr) = some (base_addr % 65536 * 65536)
frame_of (page base_addr) = some (base_addr % 1048576 * 4096)

-- The frame of the page of an address by way of a second-level table.
abbrev pub walk_entry : L2Memory → (address : ℕ) → L1Entry → Option ℕ
walk_entry memory address fault = none
walk_entry memory address (section base_addr) = none
walk_entry memory address (super_section base_addr) = none
walk_entry memory address (l2_ptr base_addr) =
    frame_of (l2_retrieve_entry memory (from_l2_base_addr base_addr) address)

abbrev pub walk_tables : L1Table → L2Memory → (address : ℕ) → Option ℕ
walk_tables table memory address = walk_entry memory address (retrieve_entry table address)

-- The entry has no table that meets the one at `new`.
abbrev pub IsApart : (new : ℕ) → L1Entry → Type 0
IsApart new fault = Unit
IsApart new (section base_addr) = Unit
IsApart new (super_section base_addr) = Unit
IsApart new (l2_ptr base_addr) =
    (from_l2_base_addr base_addr + 1024 ≤ new) ⊎ (new + 1024 ≤ from_l2_base_addr base_addr)

module _ (table : ℕ) (aligned : table % 1024 ≡ 0) (in_word : table < 4294967296)
    (phys_region virt_region : Region)
    (no_carry : virt_region.offset % 256 + virt_region.length ≤ 256)
    (virt_fits : virt_region.offset + virt_region.length ≤ 1048576)
    (phys_fits : phys_region.offset + virt_region.length ≤ 262144) where
  abbrev first : ℕ
  first = ptr page_size virt_region 0

module _ {S : Type 0} (reserve : PageAllocator S → Option (ℕ × PageAllocator S))
    (s : PageAllocator S) where
  -- The outcome of recording in a new table, after which the walks are these.
  pub data Mapped (phys_region virt_region : Region) (table : ℕ) (s1 : PageAllocator S)
      (result : Option (Bool × PageAllocator S)) : Type 0 where
    mapped :
        (s' : PageAllocator S)
        → result ≡ some (true, s')
        → ((k : ℕ)
            → k < virt_region.length
            → walk_tables s'.l1_table s'.l2_tables (ptr page_size virt_region k)
              ≡ some (4 * ptr page_size phys_region k))
        → ((address : ℕ)
            → l1_index address ≢ l1_index (ptr page_size virt_region 0)
            → IsApart table (retrieve_entry s1.l1_table address)
            → walk_tables s'.l1_table s'.l2_tables address
              ≡ walk_tables s1.l1_table s1.l2_tables address)
        → Mapped phys_region virt_region table s1 result
