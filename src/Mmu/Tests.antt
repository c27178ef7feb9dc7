-- ===== src/Mmu/Tests.antt =====
-- Runs of the tables.
use pinyon.Prelude.{ℕ, arith, Option, [], ◌==◌, if◌then◌else◌}
use pinyon.Region.{region}
use pinyon.PageAllocator.Counter.{Counter, counter_nodes, unused}
use pinyon.PageBroker.{Broker}
use pinyon.Mmu.{L1Table, L1Entry, L2Entry, try_record_section_in_l1}
use pinyon.Mmu.Sections.{Recorded, try_record_section_in_l1-Recorded}
use pinyon.Mmu.Pages.{PageAllocator, try_record_page_in_l1}
use pinyon.Mmu.PageRecords.{PageRecorded, try_record_page_in_l1-PageRecorded}
use pinyon.Mmu.Allocator.{no_slabs, try_reserve_l2_table_entry}

abbrev empty : L1Table
empty index = L1Entry.fault

try_record_section_in_l1-Recorded_example :
    Recorded
      (region 960 64)
      (region 8 64)
      empty
      (try_record_section_in_l1 (region 960 64) (region 8 64) empty)
try_record_section_in_l1-Recorded_example =
    try_record_section_in_l1-Recorded (region 960 64) (region 8 64) empty (omega arith)
      (omega arith)

abbrev no_pages : Broker Counter
no_pages = record {
  curr_runway = 4096;
  page_allocator = record { node_allocator = unused; free_lists = [] };
}

-- No section has an entry, and one page of tables is spare.
abbrev started : PageAllocator Counter
started = record {
  physical_page_allocator = no_pages;
  virtual_page_allocator = no_pages;
  l1_table = empty;
  l2_tables = λ place. L2Entry.fault;
  l2_table_allocator = no_slabs;
  spare_free_l2_page = 196608;
}

-- The last section below 5 MiB has a table at 64 KiB.
abbrev with_table : PageAllocator Counter
with_table = record started {
  l1_table = λ index. if index == 4 then L1Entry.l2_ptr 64 else L1Entry.fault;
}

abbrev reserve : PageAllocator Counter → Option (ℕ × PageAllocator Counter)
reserve = try_reserve_l2_table_entry counter_nodes 1

try_record_page_in_l1-PageRecorded_example :
    PageRecorded reserve
      (region 300 4)
      (region 1275 4)
      0
      with_table
      (try_record_page_in_l1 reserve (region 300 4) (region 1275 4) 0 with_table)
try_record_page_in_l1-PageRecorded_example =
    try_record_page_in_l1-PageRecorded reserve (region 300 4) (region 1275 4) 0 with_table
      (omega arith) (omega arith) (omega arith) (omega arith)
