-- ===== src/Mmu/Pages.antt =====
-- The record of pages by PageAllocator of kernel/arch/aarch32/mmu.cpp. The second-level tables lie in
-- memory, where each entry takes 4 bytes from its address on.
use pinyon.Prelude.{
  ℕ, zero, suc, ◌+◌, ◌*◌, Bool, true, false, ◌&&◌, ltb, leb, ◌==◌, if◌then◌else◌, Option, none,
  some, ◌>>=◌,
}
use pinyon.Math.{divide_up}
use pinyon.Region.{Region, page_size, section_size, ptr, size}
use pinyon.PageBroker.{Broker}
use pinyon.Slab.{SlabAllocator}
use pinyon.Mmu.{
  L1Entry, L2Entry, L1Table, fault, l2_ptr, section, super_section, huge_page, page, l2_index,
  make_l2_ptr, make_page, from_l2_base_addr, retrieve_entry, assign_entry,
}

abbrev pub L2Memory : Type 0
L2Memory = ℕ → L2Entry

unfoldable pub l2_retrieve_entry : L2Memory → (table address : ℕ) → L2Entry
l2_retrieve_entry memory table address = memory (table + 4 * l2_index address)

unfoldable pub l2_assign_entry : (table address : ℕ) → L2Entry → L2Memory → L2Memory
l2_assign_entry table address entry memory place =
    if place == table + 4 * l2_index address then entry else memory place

-- `new (table) L2Table()`, of 256 entries.
unfoldable pub make_l2_table : (table : ℕ) → L2Memory → L2Memory
make_l2_table table memory place =
    if leb table place && ltb place (table + 1024) then L2Entry.fault else memory place

unfoldable pub l2_is_fault : L2Entry → Bool
l2_is_fault fault = true
l2_is_fault (huge_page base_addr) = false
l2_is_fault (page base_addr) = false

-- The state of PageAllocator, with the tables it writes; `S` is the state of the node allocators of
-- the two brokers. A null page is 0.
pub record PageAllocator (S : Type 0) : Type 0 where
  pub physical_page_allocator : Broker S
  pub virtual_page_allocator : Broker S
  pub l1_table : L1Table
  pub l2_tables : L2Memory
  pub l2_table_allocator : SlabAllocator
  pub spare_free_l2_page : ℕ

-- The loop over `l2_offset`, of which `left` rounds are left; `none` is the panic.
unfoldable pub record_pages :
    (left l1_offset l2_offset : ℕ) (phys_region virt_region : Region) (table : ℕ)
    → L2Memory
    → Option L2Memory
record_pages zero l1_offset l2_offset phys_region virt_region table memory = some memory
record_pages (suc left) l1_offset l2_offset phys_region virt_region table memory =
    let virt_ptr = ptr page_size virt_region (l1_offset * 256 + l2_offset) in
    let phys_ptr = ptr page_size phys_region (l1_offset * 256 + l2_offset) in
    let rest =
      record_pages left l1_offset (l2_offset + 1) phys_region virt_region table
        (l2_assign_entry table virt_ptr (make_page phys_ptr) memory) in
    let free = l2_is_fault (l2_retrieve_entry memory table virt_ptr) in
    if ltb (l1_offset * 256 + l2_offset) virt_region.length
    then if free then rest else none
    else some memory

module _ {S : Type 0} where
  -- A new table in memory, and its entry in the first-level table.
  unfoldable pub install_l2_table : (virt_ptr table : ℕ) → PageAllocator S → PageAllocator S
  install_l2_table virt_ptr table s = record s {
    l1_table = assign_entry virt_ptr (make_l2_ptr table) s.l1_table;
    l2_tables = make_l2_table table s.l2_tables;
  }

  -- The switch on an entry of the first-level table: the second-level table, or none if `reserve`
  -- failed. `reserve` is the call of `try_reserve_l2_table_entry`, which gives 0 on failure.
  unfoldable pub l2_table_of :
      (reserve : PageAllocator S → Option (ℕ × PageAllocator S)) (virt_ptr l2_backing : ℕ)
      → L1Entry
      → PageAllocator S
      → Option (Option ℕ × PageAllocator S)
  l2_table_of reserve virt_ptr l2_backing (section base_addr) s = none
  l2_table_of reserve virt_ptr l2_backing (super_section base_addr) s = none
  l2_table_of reserve virt_ptr l2_backing (l2_ptr base_addr) s =
      some (some (from_l2_base_addr base_addr), s)
  l2_table_of reserve virt_ptr l2_backing fault s =
      let reserved : Option (Option ℕ × PageAllocator S) = reserve s >>= λ (table, s').
      some (if table == 0 then (none, s') else (some table, install_l2_table virt_ptr table s')) in
      if l2_backing == 0
      then reserved
      else some (some l2_backing, install_l2_table virt_ptr l2_backing s)

  -- The loop over `l1_offset`.
  unfoldable pub record_tables :
      (reserve : PageAllocator S → Option (ℕ × PageAllocator S)) (left l1_offset : ℕ)
      (phys_region virt_region : Region) (l2_backing : ℕ)
      → PageAllocator S
      → Option (Bool × PageAllocator S)
  record_tables reserve zero l1_offset phys_region virt_region l2_backing s = some (true, s)
  record_tables reserve (suc left) l1_offset phys_region virt_region l2_backing s = do
    let virt_ptr = ptr page_size virt_region (l1_offset * 256)
    (found, s') ← l2_table_of reserve virt_ptr l2_backing (retrieve_entry s.l1_table virt_ptr) s
    elim found [
      | none ↦ some (false, s')
      | some table ↦ do
        memory ← record_pages 256 l1_offset 0 phys_region virt_region table s'.l2_tables
        record_tables reserve left (l1_offset + 1) phys_region virt_region l2_backing
            (record s' { l2_tables = memory })
    ]

  unfoldable pub try_record_page_in_l1 :
      (reserve : PageAllocator S → Option (ℕ × PageAllocator S)) (phys_region virt_region : Region)
      (l2_backing : ℕ)
      → PageAllocator S
      → Option (Bool × PageAllocator S)
  try_record_page_in_l1 reserve phys_region virt_region l2_backing =
      record_tables reserve (divide_up 32 (size page_size virt_region) section_size) 0 phys_region
        virt_region l2_backing
