-- ===== src/Mmu.antt =====
-- The translation tables of kernel/arch/aarch32/mmu.hpp and mmu.cpp: addresses, entries, and the record
-- of sections in the first-level table. An entry keeps its type and its base address, cut to the width
-- of the field; the other fields are constants.
pub mod Entries
pub mod Sections
pub mod Pages
pub mod Writes
pub mod PageRecords
pub mod Walk
pub mod Allocator
mod Tests
use pinyon.Prelude.{
  ℕ, zero, suc, ◌+◌, ◌-◌, ◌*◌, ◌/◌, ◌%◌, ◌^◌, Bool, true, false, not, ◌==◌, if◌then◌else◌, Option,
  none, some,
}
use pinyon.Region.{Region, section_size, ptr}

-- VirtualAddress: the indexes are bit fields of the address.
unfoldable pub l1_index : ℕ → ℕ
l1_index address = address / 2 ^ 20 % 2 ^ 10

unfoldable pub l2_index : ℕ → ℕ
l2_index address = address / 2 ^ 12 % 2 ^ 8

unfoldable pub from_l1_index : ℕ → ℕ
from_l1_index index = index % 2 ^ 10 * 2 ^ 20

unfoldable pub from_l2_index : ℕ → ℕ
from_l2_index index = index % 2 ^ 8 * 2 ^ 12

-- PhysicalAddress: the base addresses are its upper 12 and 22 bits.
unfoldable pub l1_base_addr : ℕ → ℕ
l1_base_addr address = address / 2 ^ 20 % 2 ^ 12

unfoldable pub l2_base_addr : ℕ → ℕ
l2_base_addr address = address / 2 ^ 10 % 2 ^ 22

unfoldable pub from_l1_base_addr : ℕ → ℕ
from_l1_base_addr base_addr = base_addr % 2 ^ 12 * 2 ^ 20

unfoldable pub from_l2_base_addr : ℕ → ℕ
from_l2_base_addr base_addr = base_addr % 2 ^ 22 * 2 ^ 10

pub data L1Entry : Type 0 where
  fault : L1Entry
  l2_ptr : ℕ → L1Entry
  section : ℕ → L1Entry
  super_section : ℕ → L1Entry

-- The constructors L2Ptr, Section and Page, as the base address of the entry.
unfoldable pub make_l2_ptr : ℕ → L1Entry
make_l2_ptr address = l2_ptr (l2_base_addr address % 2 ^ 22)

unfoldable pub make_section : ℕ → L1Entry
make_section address = section (l1_base_addr address % 2 ^ 10)

pub data L2Entry : Type 0 where
  fault : L2Entry
  huge_page : ℕ → L2Entry
  page : ℕ → L2Entry

unfoldable pub make_page : ℕ → L2Entry
make_page address = page (l2_base_addr address % 2 ^ 20)

-- The members `physical_address`; a fault has none.
unfoldable pub l1_physical_address : L1Entry → Option ℕ
l1_physical_address fault = none
l1_physical_address (l2_ptr base_addr) = some (from_l2_base_addr base_addr)
l1_physical_address (section base_addr) = some (from_l1_base_addr base_addr)
l1_physical_address (super_section base_addr) = some (from_l1_base_addr base_addr)

-- The entries of an L1Table, by index below 1024.
abbrev pub L1Table : Type 0
L1Table = ℕ → L1Entry

unfoldable pub retrieve_entry : L1Table → ℕ → L1Entry
retrieve_entry table address = table (l1_index address)

unfoldable pub assign_entry : ℕ → L1Entry → L1Table → L1Table
assign_entry address entry table index = if index == l1_index address then entry else table index

unfoldable pub is_fault : L1Entry → Bool
is_fault fault = true
is_fault (l2_ptr base_addr) = false
is_fault (section base_addr) = false
is_fault (super_section base_addr) = false

-- The loop of `try_record_section_in_l1`, of which `left` rounds are left; `none` is the panic.
unfoldable pub record_sections :
    (left l1_offset : ℕ) (phys_region virt_region : Region) → L1Table → Option L1Table
record_sections zero l1_offset phys_region virt_region table = some table
record_sections (suc left) l1_offset phys_region virt_region table =
    let virt_ptr = ptr section_size virt_region l1_offset in
    let phys_ptr = ptr section_size phys_region l1_offset in
    let rest =
      record_sections left (l1_offset + 1) phys_region virt_region
        (assign_entry virt_ptr (make_section phys_ptr) table) in
    if is_fault (retrieve_entry table virt_ptr) then rest else none

-- Whether the sections were recorded, and the table.
unfoldable pub try_record_section_in_l1 :
    (phys_region virt_region : Region) → L1Table → Option (Bool × L1Table)
try_record_section_in_l1 phys_region virt_region table =
    let recorded : Option (Bool × L1Table) =
      elim (record_sections virt_region.length 0 phys_region virt_region table) [
        | none ↦ none
        | some table' ↦ some (true, table')
      ] in
    if phys_region.length == virt_region.length then recorded else some (false, table)
