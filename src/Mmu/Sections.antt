-- ===== src/Mmu/Sections.antt =====
-- The sections that are recorded are translated to their physical addresses.
use pinyon.Prelude.{
  ℕ, zero, suc, ◌+◌, ◌≤◌, ◌<◌, ◌≡◌, refl, sym, ap, ◌∙◌, ◌⊎◌, inl, inr, arith, Bool, true, false,
  ltb, leb, ◌&&◌, ◌==◌, ==_iff, if◌then◌else◌, Bool-cases, Option, none, some,
}
use pinyon.Region.{Region, section_size, ptr}
use pinyon.Mmu.{
  L1Table, section, make_section, retrieve_entry, assign_entry, is_fault, record_sections,
  try_record_section_in_l1,
}
use pinyon.Mmu.Entries.{
  mapped, l1_index-ptr, make_section-ptr, with_section, mapped-same, mapped-next,
}

module _ (phys_region virt_region : Region)
    (virt_fits : virt_region.offset + virt_region.length ≤ 1024)
    (phys_fits : phys_region.offset + virt_region.length ≤ 1024) where
  assign_entry-section :
      (k : ℕ) (table : L1Table) (index : ℕ)
      → k < virt_region.length
      → assign_entry
          (ptr section_size virt_region k)
          (make_section (ptr section_size phys_region k))
          table
          index
        ≡ with_section (virt_region.offset + k) (phys_region.offset + k) table index
  unfolding assign_entry with_section
  assign_entry-section k table index less =
      rw (l1_index-ptr virt_region k (omega arith), make_section-ptr phys_region k (omega arith))
        refl

  -- What the loop does from round `k` on.
  abbrev Looped : (left k : ℕ) → L1Table → Option L1Table → Type 0
  Looped left k table result =
      ((table' : L1Table) × (result ≡ some table')
        × ((i : ℕ) → i < left → is_fault (table (virt_region.offset + k + i)) ≡ true)
        × ((index : ℕ)
            → table' index
              ≡ mapped (phys_region.offset + k) (virt_region.offset + k) left table index))
      ⊎ ((result ≡ none)
          × ((i : ℕ) × (i < left) × (is_fault (table (virt_region.offset + k + i)) ≡ false)))

  record_sections-step :
      (left k : ℕ) (table : L1Table)
      → k < virt_region.length
      → is_fault (table (virt_region.offset + k)) ≡ true
      → record_sections (suc left) k phys_region virt_region table
        ≡ record_sections left (k + 1) phys_region virt_region (
            assign_entry
              (ptr section_size virt_region k)
              (make_section (ptr section_size phys_region k))
              table)
  unfolding record_sections retrieve_entry
  record_sections-step left k table less free =
      rw (l1_index-ptr virt_region k (omega arith), free) refl

  later_free :
      (k i : ℕ) (table : L1Table)
      → k < virt_region.length
      → is_fault (
          assign_entry
            (ptr section_size virt_region k)
            (make_section (ptr section_size phys_region k))
            table
            (virt_region.offset + (k + 1) + i))
        ≡ is_fault (table (virt_region.offset + k + suc i))
  unfolding with_section
  later_free k i table less =
      let e : virt_region.offset + (k + 1) + i ≡ virt_region.offset + k + suc i = omega arith in
      let d : (virt_region.offset + k + suc i == virt_region.offset + k) ≡ false = ground arith in
      ap is_fault (
        assign_entry-section k table (virt_region.offset + (k + 1) + i) less
        ∙ ap (with_section (virt_region.offset + k) (phys_region.offset + k) table) e
        ∙ ap
            (λ (b : Bool).
              if b
              then section (phys_region.offset + k)
              else table (virt_region.offset + k + suc i))
            d)

  all_free :
      (k left : ℕ) (table : L1Table)
      → k < virt_region.length
      → is_fault (table (virt_region.offset + k)) ≡ true
      → ((i : ℕ)
          → i < left
          → is_fault (
              assign_entry
                (ptr section_size virt_region k)
                (make_section (ptr section_size phys_region k))
                table
                (virt_region.offset + (k + 1) + i))
            ≡ true)
      → (i : ℕ) → i < suc left
      → is_fault (table (virt_region.offset + k + i)) ≡ true
  all_free k left table less free all zero lt =
      let z : virt_region.offset + k ≡ virt_region.offset + k + 0 = omega arith in
      ap (λ n. is_fault (table n)) (sym z) ∙ free
  all_free k left table less free all (suc i) lt =
      sym (later_free k i table less) ∙ all i (omega arith)

  record_sections-panic :
      (left k : ℕ) (table : L1Table)
      → k < virt_region.length
      → is_fault (table (virt_region.offset + k)) ≡ false
      → record_sections (suc left) k phys_region virt_region table ≡ none
  unfolding record_sections retrieve_entry
  record_sections-panic left k table less taken =
      rw (l1_index-ptr virt_region k (omega arith), taken) refl

  record_sections-Looped :
      (left k : ℕ) (table : L1Table)
      → k + left ≡ virt_region.length
      → Looped left k table (record_sections left k phys_region virt_region table)
  unfolding record_sections retrieve_entry
  record_sections-Looped zero k table e = inl (
    table,
    refl,
    λ i less. absurd (omega arith),
    λ index.
        let off : (leb (virt_region.offset + k) index && ltb index (virt_region.offset + k + 0))
            ≡ false =
          ground arith in
        rw off refl,
  )
  record_sections-Looped (suc left) k table e =
      elim (Bool-cases (is_fault (table (virt_region.offset + k)))) [
        | inr taken ↦ inr (
          record_sections-panic left k table (omega arith) taken,
          (
            0,
            omega arith,
            let z : virt_region.offset + k ≡ virt_region.offset + k + 0 = omega arith in
                ap (λ n. is_fault (table n)) (sym z) ∙ taken,
          ),
        )
        | inl free ↦
            elim (record_sections-Looped left (k + 1)
              (assign_entry (ptr section_size virt_region k)
                (make_section (ptr section_size phys_region k)) table)
              (omega arith)) [
                | inl (table', run, all, is_mapped) ↦ inl (
                  table',
                  record_sections-step left k table (omega arith) free ∙ run,
                  all_free k left table (omega arith) free all,
                  λ index.
                      is_mapped index
                      ∙ mapped-same _ _ _ _ left
                          (assign_entry (ptr section_size virt_region k)
                            (make_section (ptr section_size phys_region k)) table)
                          (with_section (virt_region.offset + k) (phys_region.offset + k) table)
                          index (omega arith) (omega arith)
                          (assign_entry-section k table index (omega arith))
                      ∙ mapped-next (phys_region.offset + k) (virt_region.offset + k) left table
                          index,
                )
                | inr (run, (i, less, taken)) ↦ inr (
                  record_sections-step left k table (omega arith) free ∙ run,
                  (suc i, omega arith, sym (later_free k i table (omega arith)) ∙ taken),
                )
              ]
      ]

-- The outcome of recording sections.
pub data Recorded (phys_region virt_region : Region) (table : L1Table) (r : Option (Bool × L1Table))
    : Type 0 where
  recorded :
      (table' : L1Table)
      → r ≡ some (true, table')
      → phys_region.length ≡ virt_region.length
      → ((i : ℕ) → i < virt_region.length → is_fault (table (virt_region.offset + i)) ≡ true)
      → ((index : ℕ)
          → table' index
            ≡ mapped phys_region.offset virt_region.offset virt_region.length table index)
      → Recorded phys_region virt_region table r
  refused :
      r ≡ some (false, table)
      → (phys_region.length ≡ virt_region.length → ⊥)
      → Recorded phys_region virt_region table r
  panicked :
      r ≡ none
      → ((i : ℕ) × (i < virt_region.length) × (is_fault (table (virt_region.offset + i)) ≡ false))
      → Recorded phys_region virt_region table r

try_record-looped :
    (phys_region virt_region : Region) (table table' : L1Table)
    → (phys_region.length == virt_region.length) ≡ true
    → record_sections virt_region.length 0 phys_region virt_region table ≡ some table'
    → try_record_section_in_l1 phys_region virt_region table ≡ some (true, table')
unfolding try_record_section_in_l1
try_record-looped phys_region virt_region table table' same run = rw (same, run) refl

try_record-panic :
    (phys_region virt_region : Region) (table : L1Table)
    → (phys_region.length == virt_region.length) ≡ true
    → record_sections virt_region.length 0 phys_region virt_region table ≡ none
    → try_record_section_in_l1 phys_region virt_region table ≡ none
unfolding try_record_section_in_l1
try_record-panic phys_region virt_region table same run = rw (same, run) refl

try_record-refused :
    (phys_region virt_region : Region) (table : L1Table)
    → (phys_region.length == virt_region.length) ≡ false
    → try_record_section_in_l1 phys_region virt_region table ≡ some (false, table)
unfolding try_record_section_in_l1
try_record-refused phys_region virt_region table other = rw other refl

-- For regions within the first GiB, `try_record_section_in_l1` either maps each section of the virtual
-- region to the one of the physical region, all of which were free, and changes no other entry; or it
-- refuses, just when the lengths differ; or it panics, when a section was recorded before.
pub try_record_section_in_l1-Recorded :
    (phys_region virt_region : Region) (table : L1Table)
    → virt_region.offset + virt_region.length ≤ 1024
    → phys_region.offset + phys_region.length ≤ 1024
    → Recorded phys_region virt_region table
        (try_record_section_in_l1 phys_region virt_region table)
try_record_section_in_l1-Recorded phys_region virt_region table virt_fits phys_fits =
    elim (Bool-cases (phys_region.length == virt_region.length)) [
      | inr other ↦
          refused (try_record-refused phys_region virt_region table other)
            (λ e. ground (arith, other, e))
      | inl same ↦
          let e : phys_region.length ≡ virt_region.length =
            (==_iff phys_region.length virt_region.length).0 same in
          let p : phys_region.offset + 0 ≡ phys_region.offset = omega arith in
          let v : virt_region.offset + 0 ≡ virt_region.offset = omega arith in
          elim (record_sections-Looped phys_region virt_region virt_fits (omega arith)
            virt_region.length 0 table (omega arith)) [
              | inl (table', run, all, is_mapped) ↦
                  recorded table' (try_record-looped phys_region virt_region table table' same run)
                    e (λ i less. ap (λ (n : ℕ). is_fault (table (n + i))) (sym v) ∙ all i less)
                    (λ index.
                      is_mapped index
                      ∙ mapped-same _ _ _ _ virt_region.length table table index p v refl)
              | inr (run, (i, less, taken)) ↦
                  panicked (try_record-panic phys_region virt_region table same run)
                    (i, less, ap (λ (n : ℕ). is_fault (table (n + i))) (sym v) ∙ taken)
            ]
    ]
