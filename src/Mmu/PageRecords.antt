-- ===== src/Mmu/PageRecords.antt =====
-- What `try_record_page_in_l1` does for a region within one section.
use pinyon.Prelude.{
  ℕ, ◌+◌, ◌%◌, ◌≤◌, ◌<◌, ◌≡◌, ◌≢◌, refl, ap, ◌∙◌, ◌⊎◌, inl, inr, arith, Bool, true, false, ◌&&◌,
  ltb, leb, ◌==◌, ==_iff, Bool-cases, Option, none, some, Option-cases,
}
use pinyon.Math.{divide_up}
use pinyon.Region.{Region, page_size, section_size, ptr, size}
use pinyon.Mmu.{
  L1Entry, fault, l2_ptr, section, super_section, make_l2_ptr, from_l2_base_addr, retrieve_entry,
  assign_entry,
}
use pinyon.Mmu.Pages.{
  L2Memory, PageAllocator, make_l2_table, install_l2_table, l2_is_fault, record_pages,
  record_tables, l2_table_of, try_record_page_in_l1,
}
use pinyon.Mmu.Writes.{slot, Written, record_pages-Written}

module _ {S : Type 0} (reserve : PageAllocator S → Option (ℕ × PageAllocator S))
    (phys_region virt_region : Region) (l2_backing : ℕ) (s : PageAllocator S) where
  -- The table that the switch on the first-level entry gives.
  abbrev pub table_found : Option (Option ℕ × PageAllocator S)
  table_found =
      let virt_ptr = ptr page_size virt_region 0 in
      l2_table_of reserve virt_ptr l2_backing (retrieve_entry s.l1_table virt_ptr) s

  abbrev entry : L1Entry
  entry = retrieve_entry s.l1_table (ptr page_size virt_region 0)

  -- The new table is the one behind the pointer `l2_backing`, or `reserve` gave it.
  abbrev pub Given : (table : ℕ) (s1 : PageAllocator S) → Type 0
  Given table s1 =
      ((l2_backing ≡ table) × (s1 ≡ s)) ⊎ ((l2_backing ≡ 0) × (reserve s ≡ some (table, s1)))

  -- The outcome of recording the pages of a region within one section, by the entry of the section.
  pub data PageRecorded (result : Option (Bool × PageAllocator S)) : Type 0 where
    recorded :
        (base_addr : ℕ) (memory : L2Memory)
        → entry ≡ l2_ptr base_addr
        → result ≡ some (true, record s { l2_tables = memory })
        → Written virt_region.length
            (from_l2_base_addr base_addr)
            phys_region
            virt_region
            0
            s.l2_tables
            memory
        → PageRecorded result
    recorded_before :
        (base_addr k : ℕ)
        → entry ≡ l2_ptr base_addr
        → k < virt_region.length
        → l2_is_fault (s.l2_tables (slot (from_l2_base_addr base_addr) virt_region k)) ≡ false
        → result ≡ none
        → PageRecorded result
    mapped_whole :
        (base_addr : ℕ)
        → (entry ≡ section base_addr) ⊎ (entry ≡ super_section base_addr)
        → result ≡ none
        → PageRecorded result
    new_table :
        (table : ℕ) (s1 : PageAllocator S) (memory : L2Memory)
        → entry ≡ fault
        → table ≢ 0
        → Given table s1
        → result
          ≡ some (
            true,
            record s1 {
              l1_table = assign_entry (ptr page_size virt_region 0) (make_l2_ptr table) s1.l1_table;
              l2_tables = memory;
            },
          )
        → Written virt_region.length table phys_region virt_region 0
            (make_l2_table table s1.l2_tables)
            memory
        → PageRecorded result
    refused :
        (s1 : PageAllocator S)
        → entry ≡ fault
        → l2_backing ≡ 0
        → reserve s ≡ some (0, s1)
        → result ≡ some (false, s1)
        → PageRecorded result
    not_reserved :
        entry ≡ fault → l2_backing ≡ 0 → reserve s ≡ none → result ≡ none → PageRecorded result

  table_found-l2_ptr :
      (base_addr : ℕ)
      → entry ≡ l2_ptr base_addr
      → table_found ≡ some (some (from_l2_base_addr base_addr), s)
  unfolding l2_table_of
  table_found-l2_ptr base_addr e = rw e refl

  table_found-section : (base_addr : ℕ) → entry ≡ section base_addr → table_found ≡ none
  unfolding l2_table_of
  table_found-section base_addr e = rw e refl

  table_found-super_section : (base_addr : ℕ) → entry ≡ super_section base_addr → table_found ≡ none
  unfolding l2_table_of
  table_found-super_section base_addr e = rw e refl

  table_found-none : entry ≡ fault → l2_backing ≡ 0 → reserve s ≡ none → table_found ≡ none
  unfolding l2_table_of
  table_found-none e null got = rw (e, null, got) refl

  table_found-refused :
      (s1 : PageAllocator S)
      → entry ≡ fault
      → l2_backing ≡ 0
      → reserve s ≡ some (0, s1)
      → table_found ≡ some (none, s1)
  unfolding l2_table_of
  table_found-refused s1 e null got = rw (e, null, got) refl

  pub table_found-Given :
      (table : ℕ) (s1 : PageAllocator S)
      → table ≢ 0
      → entry ≡ fault
      → Given table s1
      → table_found ≡ some (some table, install_l2_table (ptr page_size virt_region 0) table s1)
  unfolding l2_table_of
  table_found-Given table s1 given free (inl (backed, same)) =
      let d : (table == 0) ≡ false = ground (arith, given) in rw (free, backed, same, d) refl
  table_found-Given table s1 given free (inr (null, got)) =
      let d : (table == 0) ≡ false = ground (arith, given) in rw (free, null, got, d) refl

  new_free :
      (table k : ℕ) (memory : L2Memory)
      → virt_region.offset % 256 + virt_region.length ≤ 256
      → k < virt_region.length
      → l2_is_fault (make_l2_table table memory (slot table virt_region k)) ≡ true
  unfolding make_l2_table l2_is_fault
  new_free table k memory no_carry less =
      let on : (leb table (slot table virt_region k)
            && ltb (slot table virt_region k) (table + 1024))
          ≡ true =
        ground arith in
      rw on refl

  one_round :
      0 < virt_region.length
      → virt_region.length ≤ 256
      → divide_up 32 (size page_size virt_region) section_size ≡ 1
  unfolding divide_up size
  one_round some_page few = omega arith

  pub try_record-step :
      0 < virt_region.length
      → virt_region.length ≤ 256
      → try_record_page_in_l1 reserve phys_region virt_region l2_backing s
        ≡ record_tables reserve 1 0 phys_region virt_region l2_backing s
  unfolding try_record_page_in_l1
  try_record-step some_page few =
      ap (λ (n : ℕ). record_tables reserve n 0 phys_region virt_region l2_backing s)
        (one_round some_page few)

  record_tables-none :
      table_found ≡ none → record_tables reserve 1 0 phys_region virt_region l2_backing s ≡ none
  unfolding record_tables
  record_tables-none e = rw e refl

  record_tables-refused :
      (s' : PageAllocator S)
      → table_found ≡ some (none, s')
      → record_tables reserve 1 0 phys_region virt_region l2_backing s ≡ some (false, s')
  unfolding record_tables
  record_tables-refused s' e = rw e refl

  record_tables-panic :
      (table : ℕ) (s' : PageAllocator S)
      → table_found ≡ some (some table, s')
      → record_pages 256 0 0 phys_region virt_region table s'.l2_tables ≡ none
      → record_tables reserve 1 0 phys_region virt_region l2_backing s ≡ none
  unfolding record_tables
  record_tables-panic table s' e f = rw (e, f) refl

  pub record_tables-done :
      (table : ℕ) (s' : PageAllocator S) (memory : L2Memory)
      → table_found ≡ some (some table, s')
      → record_pages 256 0 0 phys_region virt_region table s'.l2_tables ≡ some memory
      → record_tables reserve 1 0 phys_region virt_region l2_backing s
        ≡ some (true, record s' { l2_tables = memory })
  unfolding record_tables
  record_tables-done table s' memory e f = rw (e, f) refl

  module _ (some_page : 0 < virt_region.length)
      (no_carry : virt_region.offset % 256 + virt_region.length ≤ 256)
      (virt_fits : virt_region.offset + virt_region.length ≤ 1048576)
      (phys_fits : phys_region.offset + virt_region.length ≤ 262144) where
    abbrev recording : Option (Bool × PageAllocator S)
    recording = try_record_page_in_l1 reserve phys_region virt_region l2_backing s

    step : recording ≡ record_tables reserve 1 0 phys_region virt_region l2_backing s
    step = try_record-step some_page (omega arith)

    in_new_table :
        (table : ℕ) (s1 : PageAllocator S)
        → entry ≡ fault
        → table ≢ 0
        → Given table s1
        → PageRecorded recording
    unfolding install_l2_table
    in_new_table table s1 e given from =
        let s2 : PageAllocator S = install_l2_table (ptr page_size virt_region 0) table s1 in
        let found = table_found-Given table s1 given e from in
        elim (record_pages-Written phys_region virt_region table 0 virt_region.length (omega arith)
          (omega arith) (omega arith) (omega arith) 256 (make_l2_table table s1.l2_tables)
          (inr (omega arith, omega arith))) [
            | inl (memory, run, written) ↦
                new_table table s1 memory e given from
                  (step ∙ record_tables-done table s2 memory found run) written
            | inr (run, (k, less, taken)) ↦
                let open_page = new_free table k s1.l2_tables no_carry less in absurd cc
          ]

    by_entry : (e : L1Entry) → entry ≡ e → PageRecorded recording
    by_entry (section base_addr) e =
        mapped_whole base_addr (inl e) (step ∙ record_tables-none (table_found-section base_addr e))
    by_entry (super_section base_addr) e =
        mapped_whole base_addr (inr e)
          (step ∙ record_tables-none (table_found-super_section base_addr e))
    by_entry (l2_ptr base_addr) e =
        let table = from_l2_base_addr base_addr in
        let found = table_found-l2_ptr base_addr e in
        elim (record_pages-Written phys_region virt_region table 0 virt_region.length (omega arith)
          (omega arith) (omega arith) (omega arith) 256 s.l2_tables
          (inr (omega arith, omega arith))) [
            | inl (memory, run, written) ↦
                recorded base_addr memory e (step ∙ record_tables-done table s memory found run)
                  written
            | inr (run, (k, less, taken)) ↦
                recorded_before base_addr k e less taken
                  (step ∙ record_tables-panic table s found run)
          ]
    by_entry fault e = elim (Bool-cases (l2_backing == 0)) [
      | inr backed ↦ in_new_table l2_backing s e (ground (arith, backed)) (inl (refl, refl))
      | inl null ↦
          let null' : l2_backing ≡ 0 = (==_iff l2_backing 0).0 null in
          elim (Option-cases (reserve s)) [
            | inl got ↦
                not_reserved e null' got (step ∙ record_tables-none (table_found-none e null' got))
            | inr ((table, s1), got) ↦ elim (Bool-cases (table == 0)) [
              | inl zero_table ↦
                  let got' : reserve s ≡ some (0, s1) =
                    got ∙ ap (λ (t : ℕ). some (t, s1)) ((==_iff table 0).0 zero_table) in
                  refused s1 e null' got'
                    (step ∙ record_tables-refused s1 (table_found-refused s1 e null' got'))
              | inr more ↦ in_new_table table s1 e (ground (arith, more)) (inr (null', got))
            ]
          ]
    ]

    -- For a region of at least one page within one section, with frames below 1 GiB: if the section
    -- has a second-level table, the pages are written there, each was free before, and nothing else
    -- changes; or the kernel panics, as one was recorded before. If the section is mapped as a whole,
    -- the kernel panics. If it has no entry, the table is the one given or, if that is null, the one
    -- that `reserve` gives: it is cleared and entered, and the pages are written there; if `reserve`
    -- gives none the result is false, and if it is undefined so is the call.
    pub try_record_page_in_l1-PageRecorded : PageRecorded recording
    try_record_page_in_l1-PageRecorded = by_entry entry refl
