-- ===== src/Mmu/Allocator.antt =====
-- The calls of PageAllocator of kernel/arch/aarch32/mmu.cpp, over two page brokers and the slab
-- allocator of second-level tables, and the start of the tables. `none` is a panic, or what is
-- undefined below.
use Prim.Native.Nat.{bit_and}
use pinyon.Prelude.{
  ◌-◌, ◌^◌, ℕ, zero, suc, ◌+◌, ◌/◌, ◌&&◌, ltb, leb, ◌==◌, if◌then◌else◌, Option, none, some, ◌>>=◌,
  [],
}
use pinyon.TwoMath.{align_up_two}
use pinyon.Region.{
  Region, region, page_size, section_size, words, from_ptr, from_range, as_page_region, ptr, size,
  halve, end_offset,
}
use pinyon.PageAllocator.Nodes.{NodeAllocator}
use pinyon.PageBroker.{
  Allocation, Broker, broker_init, broker_add, broker_allocate, broker_reserve_region, broker_free,
}
use pinyon.Slab.{SlabAllocator}
use pinyon.Slab
use pinyon.Mmu.{L1Entry, L1Table, try_record_section_in_l1}
use pinyon.Mmu.Pages.{L2Memory, PageAllocator, try_record_page_in_l1}

pub data Backing : Type 0 where
  mixed : Backing
  identity : Backing

abbrev pub empty : Allocation
empty = record { ptr = 0; size = 0 }

-- sizeof(L2Table)
abbrev pub l2_table_size : ℕ
l2_table_size = 1024

unfoldable pub preferred_size : ℕ → ℕ
preferred_size requested_size = align_up_two 32 requested_size page_size

unfoldable pub page_region_of : Allocation → Region
page_region_of alloc = from_ptr page_size alloc.ptr alloc.size

unfoldable pub section_region_of : Allocation → Region
section_region_of alloc = from_ptr section_size alloc.ptr alloc.size

-- DEVICES_START, DEVICES_END, PHYSICAL_MEMORY_END_PAGES and MEMORY_END_PAGES
abbrev pub devices_start : ℕ
devices_start = 1006632960

abbrev pub devices_end : ℕ
devices_end = 1073741824

abbrev pub physical_memory_end_pages : ℕ
physical_memory_end_pages = 131072

abbrev pub memory_end_pages : ℕ
memory_end_pages = 1048576

-- A slab allocator as it is constructed.
abbrev pub no_slabs : SlabAllocator
no_slabs = record {
  bitmaps = [];
  slab_pages = [];
  free_pages = record { size_at = λ address. 0; free_list = [] };
}

module _ {S : Type 0} (nodes : NodeAllocator S) where
  -- The virtual allocation for a physical one.
  unfoldable pub virt_for :
      Backing → (num_pages : ℕ) (phys_region : Region) → Broker S → Option (Allocation × Broker S)
  virt_for mixed num_pages phys_region virtual = broker_allocate nodes num_pages 1 virtual
  virt_for identity num_pages phys_region virtual = do
    (virt_alloc, virtual') ← broker_reserve_region nodes phys_region virtual
    if virt_alloc.size == 0 then none else some (virt_alloc, virtual')

  unfoldable pub try_reserve_page_unrecorded :
      (num_pages alignment : ℕ)
      → Backing
      → PageAllocator S
      → Option ((Allocation × Allocation) × PageAllocator S)
  try_reserve_page_unrecorded num_pages alignment backing s = do
    (phys_alloc, physical) ← broker_allocate nodes num_pages alignment s.physical_page_allocator
    let s' = record s { physical_page_allocator = physical }
    let given : Option ((Allocation × Allocation) × PageAllocator S) = do
      (virt_alloc, virtual) ←
          virt_for backing num_pages (page_region_of phys_alloc) s.virtual_page_allocator
      let s'' = record s' { virtual_page_allocator = virtual }
      let give_back : Option ((Allocation × Allocation) × PageAllocator S) = do
        physical' ← broker_free nodes phys_alloc physical
        some ((empty, empty), record s'' { physical_page_allocator = physical' })
      if virt_alloc.size == 0 then give_back else some ((phys_alloc, virt_alloc), s'')
    if phys_alloc.size == 0 then some ((empty, empty), s') else given

  -- The physical allocation for a virtual one.
  unfoldable pub phys_for :
      Backing → (num_pages : ℕ) (virt_region : Region) → Broker S → Option (Allocation × Broker S)
  phys_for mixed num_pages virt_region physical = broker_allocate nodes num_pages 1 physical
  phys_for identity num_pages virt_region physical =
      broker_reserve_region nodes virt_region physical

  unfoldable pub try_reserve_region_unrecorded :
      Region → Backing → PageAllocator S → Option ((Allocation × Allocation) × PageAllocator S)
  try_reserve_region_unrecorded region backing s = do
    (virt_alloc, virtual) ← broker_reserve_region nodes region s.virtual_page_allocator
    let s' = record s { virtual_page_allocator = virtual }
    let given : Option ((Allocation × Allocation) × PageAllocator S) = do
      (phys_alloc, physical) ←
          phys_for backing region.length (page_region_of virt_alloc) s.physical_page_allocator
      let s'' = record s' { physical_page_allocator = physical }
      let give_back : Option ((Allocation × Allocation) × PageAllocator S) = do
        virtual' ← broker_free nodes virt_alloc virtual
        some ((empty, empty), record s'' { virtual_page_allocator = virtual' })
      if phys_alloc.size == 0 then give_back else some ((phys_alloc, virt_alloc), s'')
    if virt_alloc.size == 0 then some ((empty, empty), s') else given

  -- A table from the slab allocator: its address, or 0.
  unfoldable pub take_l2_table : PageAllocator S → Option (ℕ × PageAllocator S)
  take_l2_table s = do
    (got, tables) ← Slab.allocate l2_table_size s.l2_table_allocator
    some (elim got [ none ↦ 0 | some table ↦ table ], record s { l2_table_allocator = tables })

  -- On fuel, for the calls of `try_record_page_in_l1` in it that need a table themselves; `none`
  -- is also the failed PANIC_IF.
  unfoldable pub try_reserve_l2_table_entry :
      (fuel : ℕ) → PageAllocator S → Option (ℕ × PageAllocator S)
  try_reserve_l2_table_entry zero s = none
  try_reserve_l2_table_entry (suc fuel) s = do
    (table, s1) ← take_l2_table s
    let again : Option (ℕ × PageAllocator S) = do
      ((alloc, virt_alloc), s2) ← try_reserve_page_unrecorded 1 1 identity s1
      let r = page_region_of alloc
      let backed : Option (ℕ × PageAllocator S) = do
        (recorded, s3) ←
            try_record_page_in_l1 (try_reserve_l2_table_entry fuel) r r s2.spare_free_l2_page s2
        tables ← Slab.add l2_table_size alloc.ptr alloc.size s3.l2_table_allocator
        (table', s4) ← take_l2_table (record s3 { l2_table_allocator = tables })
        (spare, s5) ← take_l2_table s4
        if recorded then some (table', record s5 { spare_free_l2_page = spare }) else none
      if alloc.size == 0 then some (0, s2) else backed
    if table == 0 then again else some (table, s1)

  -- The physical allocation is given to both brokers, when the pages could not be recorded.
  unfoldable pub free_phys : Allocation → PageAllocator S → Option (PageAllocator S)
  free_phys phys_alloc s = do
    physical ← broker_free nodes phys_alloc s.physical_page_allocator
    virtual ← broker_free nodes phys_alloc s.virtual_page_allocator
    some (record s { physical_page_allocator = physical; virtual_page_allocator = virtual })

  -- What follows a reservation of pages: they are recorded.
  unfoldable pub record_reserved :
      (fuel : ℕ) (phys_alloc : Allocation) (phys_region virt_region : Region)
      → PageAllocator S
      → Option ((Region × Region) × PageAllocator S)
  record_reserved fuel phys_alloc phys_region virt_region s = do
    (recorded, s') ←
        try_record_page_in_l1 (try_reserve_l2_table_entry fuel) phys_region virt_region 0 s
    s'' ← if recorded then some s' else free_phys phys_alloc s'
    some ((phys_region, virt_region), s'')

  unfoldable pub reserve_region :
      (fuel : ℕ) → Region → Backing → PageAllocator S → Option ((Region × Region) × PageAllocator S)
  reserve_region fuel r backing s = do
    ((phys_alloc, virt_alloc), s') ← try_reserve_region_unrecorded r backing s
    let phys_region = page_region_of phys_alloc
    let virt_region = page_region_of virt_alloc
    let reserved = record_reserved fuel phys_alloc phys_region virt_region s'
    if phys_alloc.size == 0
        then some ((region 0 0, region 0 0), s')
        else if virt_region.length == phys_region.length
        then reserved
        else none

  unfoldable pub reserve_section_region :
      Region → Backing → PageAllocator S → Option ((Region × Region) × PageAllocator S)
  reserve_section_region r backing s = do
    ((phys_alloc, virt_alloc), s') ← try_reserve_region_unrecorded (as_page_region r) backing s
    let phys_region = section_region_of phys_alloc
    let virt_region = section_region_of virt_alloc
    let reserved : Option ((Region × Region) × PageAllocator S) = do
      (recorded, table) ← try_record_section_in_l1 phys_region virt_region s'.l1_table
      let s1 = record s' { l1_table = table }
      s2 ← if recorded then some s1 else free_phys phys_alloc s1
      some ((phys_region, virt_region), s2)
    if phys_alloc.size == 0 then some ((region 0 0, region 0 0), s') else reserved

  unfoldable pub allocate_pages :
      (fuel num_pages alignment : ℕ)
      → Backing
      → PageAllocator S
      → Option ((Region × Region) × PageAllocator S)
  allocate_pages fuel num_pages alignment backing s = do
    ((phys_alloc, virt_alloc), s') ← try_reserve_page_unrecorded num_pages alignment backing s
    let reserved =
        record_reserved fuel phys_alloc (page_region_of phys_alloc) (page_region_of virt_alloc) s'
    if phys_alloc.size == 0 then some ((region 0 0, region 0 0), s') else reserved

  -- `bzero` on memory as bytes by address.
  unfoldable pub bzero : (start count : ℕ) → (ℕ → ℕ) → ℕ → ℕ
  bzero start count bytes place =
      if leb start place && ltb place (start + count) then 0 else bytes place

  -- The allocation, the state, and the bytes of memory.
  unfoldable pub allocate :
      (fuel requested : ℕ)
      → PageAllocator S
      → (ℕ → ℕ)
      → Option (Allocation × PageAllocator S × (ℕ → ℕ))
  allocate fuel requested s bytes = do
    let num_pages = align_up_two 32 requested page_size / page_size
    ((phys_region, virt_region), s') ← allocate_pages fuel num_pages 1 mixed s
    let start = ptr page_size virt_region 0
    let count = size page_size virt_region
    some (record { ptr = start; size = count }, s', bzero start count bytes)

  -- `free` panics.
  unfoldable pub free : Allocation → PageAllocator S → Option (PageAllocator S)
  free alloc s = none

  -- On the second-level table allocator as it is.
  unfoldable pub init :
      L1Table
      → (physical virtual : Broker S) (scratch_pages : Region) → L2Memory
      → SlabAllocator
      → Option (PageAllocator S)
  init l1_table physical virtual scratch_pages memory tables = do
    tables' ←
        Slab.add l2_table_size (ptr page_size scratch_pages 0) (size page_size scratch_pages) tables
    some (record {
      physical_page_allocator = physical;
      virtual_page_allocator = virtual;
      l1_table = l1_table;
      l2_tables = memory;
      l2_table_allocator = tables';
      spare_free_l2_page = 0;
    })

-- TTBR0 as `set_l1_table` writes it, and the table that `l1_table` reads from it.
unfoldable pub set_l1_table : ℕ → ℕ
set_l1_table l1_addr = bit_and l1_addr (words - 1 - 2 ^ 14)

unfoldable pub l1_table_at : ℕ → ℕ
l1_table_at ttbr0 = bit_and ttbr0 (words - 1 - 2 ^ 14)

-- The node allocator of a broker, after `add` gave it its scratch pages.
unfoldable pub with_scratch : Region → Option SlabAllocator
with_scratch scratch_pages =
    Slab.add 16 (ptr page_size scratch_pages 0) (size page_size scratch_pages) no_slabs

-- Over memory for the second-level tables: the state, and TTBR0.
unfoldable pub init_page_tables :
    NodeAllocator SlabAllocator
    → (code_end : ℕ) → L2Memory
    → Option (PageAllocator SlabAllocator × ℕ)
init_page_tables nodes code_end memory = do
  let code_region = from_range section_size 0 (align_up_two 32 code_end section_size)
  let l1_region = region (end_offset code_region) 1
  let scratch_region = region (end_offset l1_region) 1
  let (pv_scratch_region, page_scratch_region) = halve (as_page_region scratch_region)
  let (phys_scratch_region, virt_scratch_region) = halve pv_scratch_region
  let device_region = from_range section_size devices_start devices_end
  phys_nodes ← with_scratch phys_scratch_region
  initial ← broker_init nodes phys_nodes (region 0 physical_memory_end_pages) phys_scratch_region
  physical ← broker_add nodes (as_page_region device_region) initial
  virt_nodes ← with_scratch virt_scratch_region
  virtual ← broker_init nodes virt_nodes (region 0 memory_end_pages) virt_scratch_region
  s ← init nodes (λ index. L1Entry.fault) physical virtual page_scratch_region memory no_slabs
  (code, s1) ← reserve_section_region nodes code_region identity s
  (l1, s2) ← reserve_section_region nodes l1_region identity s1
  (scratch, s3) ← reserve_section_region nodes scratch_region mixed s2
  (devices, s4) ← reserve_section_region nodes device_region identity s3
  some (s4, set_l1_table (ptr section_size l1_region 0))
