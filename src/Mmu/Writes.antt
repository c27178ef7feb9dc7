-- ===== src/Mmu/Writes.antt =====
-- The pages that the inner loop of `try_record_page_in_l1` writes to one second-level table.
use pinyon.Prelude.{
  ℕ, zero, suc, ◌+◌, ◌*◌, ◌/◌, ◌%◌, ◌≤◌, ◌<◌, ◌≡◌, ◌≢◌, refl, sym, ap, ◌∙◌, ◌⊎◌, inl, inr, arith,
  Bool, true, false, ltb, ◌==◌, if◌then◌else◌, Bool-cases, Option, none, some,
}
use pinyon.Region.{Region, page_size, ptr}
use pinyon.Mmu.{L2Entry, page, l2_index, l2_base_addr, make_page}
use pinyon.Mmu.Pages.{L2Memory, l2_retrieve_entry, l2_assign_entry, l2_is_fault, record_pages}

-- The place in a table of the page counted `k` from the first of a region, without a carry to the next
-- table.
abbrev pub slot : (table : ℕ) → Region → ℕ → ℕ
slot table virt_region k = table + 4 * (virt_region.offset % 256 + k)

-- What pages were written: each was free and has its frame, and no other place changes.
abbrev pub Written :
    (count table : ℕ) (phys_region virt_region : Region) (from : ℕ)
    → (memory memory' : L2Memory) → Type 0
Written count table phys_region virt_region from memory memory' =
    ((k : ℕ) → k < count → l2_is_fault (memory (slot table virt_region k)) ≡ true)
    × ((k : ℕ)
        → k < count
        → memory' (slot table virt_region k) ≡ page (4 * (phys_region.offset + from + k)))
    × ((place : ℕ)
        → ((k : ℕ) → k < count → place ≢ slot table virt_region k)
        → memory' place ≡ memory place)

module _ (phys_region virt_region : Region) (table l1_offset count : ℕ)
    (virt_fits : virt_region.offset + l1_offset * 256 + count ≤ 1048576)
    (phys_fits : phys_region.offset + l1_offset * 256 + count ≤ 262144)
    (no_carry : virt_region.offset % 256 + count ≤ 256)
    (inside : l1_offset * 256 + count ≤ virt_region.length) where
  abbrev virt_ptr : ℕ → ℕ
  virt_ptr k = ptr page_size virt_region (l1_offset * 256 + k)

  abbrev pub entry : ℕ → L2Entry
  entry k = page (4 * (phys_region.offset + l1_offset * 256 + k))

  l2_index-ptr : (k : ℕ) → k < count → l2_index (virt_ptr k) ≡ virt_region.offset % 256 + k
  unfolding l2_index ptr
  l2_index-ptr k less = omega arith

  make_page-ptr :
      (k : ℕ) → k < count → make_page (ptr page_size phys_region (l1_offset * 256 + k)) ≡ entry k
  unfolding make_page l2_base_addr ptr
  make_page-ptr k less =
      let e : (phys_region.offset + (l1_offset * 256 + k))
            * page_size
            % 4294967296
            / 1024
            % 4194304
            % 1048576
          ≡ 4 * (phys_region.offset + l1_offset * 256 + k) =
        omega arith in
      ap page e

  -- One page is written.
  abbrev pub after : ℕ → L2Memory → L2Memory
  after k memory place = if place == slot table virt_region k then entry k else memory place

  after-assign :
      (k : ℕ) (memory : L2Memory)
      → k < count
      → l2_assign_entry table
          (virt_ptr k)
          (make_page (ptr page_size phys_region (l1_offset * 256 + k)))
          memory
        ≡ after k memory
  unfolding l2_assign_entry
  after-assign k memory less =
      ap {B = L2Memory}
        (λ (n : ℕ). λ (place : ℕ).
          if place == table + 4 * n
          then make_page (ptr page_size phys_region (l1_offset * 256 + k))
          else memory place)
        (l2_index-ptr k less)
      ∙ ap {B = L2Memory}
          (λ (e : L2Entry).
            λ (place : ℕ). if place == slot table virt_region k then e else memory place)
          (make_page-ptr k less)

  pub record_pages-step :
      (left k : ℕ) (memory : L2Memory)
      → k < count
      → l2_is_fault (memory (slot table virt_region k)) ≡ true
      → record_pages (suc left) l1_offset k phys_region virt_region table memory
        ≡ record_pages left l1_offset (k + 1) phys_region virt_region table (after k memory)
  unfolding record_pages l2_retrieve_entry
  record_pages-step left k memory less free =
      let go : ltb (l1_offset * 256 + k) virt_region.length ≡ true = ground arith in
      rw (go, after-assign k memory less, l2_index-ptr k less, free) refl

  record_pages-panic :
      (left k : ℕ) (memory : L2Memory)
      → k < count
      → l2_is_fault (memory (slot table virt_region k)) ≡ false
      → record_pages (suc left) l1_offset k phys_region virt_region table memory ≡ none
  unfolding record_pages l2_retrieve_entry
  record_pages-panic left k memory less taken =
      let go : ltb (l1_offset * 256 + k) virt_region.length ≡ true = ground arith in
      rw (go, l2_index-ptr k less, taken) refl

  pub record_pages-end :
      (left k : ℕ) (memory : L2Memory)
      → l1_offset * 256 + k ≡ virt_region.length
      → record_pages left l1_offset k phys_region virt_region table memory ≡ some memory
  unfolding record_pages
  record_pages-end zero k memory e = refl
  record_pages-end (suc left) k memory e =
      let stop : ltb (l1_offset * 256 + k) virt_region.length ≡ false = ground arith in rw stop refl

  -- From the page counted `k` on, with `rest` pages left.
  abbrev Later : (k rest : ℕ) → L2Memory → Option L2Memory → Type 0
  Later k rest memory result =
      ((memory' : L2Memory) × (result ≡ some memory')
        × ((i : ℕ) → i < rest → l2_is_fault (memory (slot table virt_region (k + i))) ≡ true)
        × ((i : ℕ) → i < rest → memory' (slot table virt_region (k + i)) ≡ entry (k + i))
        × ((place : ℕ)
            → ((i : ℕ) → i < rest → place ≢ slot table virt_region (k + i))
            → memory' place ≡ memory place))
      ⊎ ((result ≡ none)
          × ((i : ℕ) × (i < rest)
              × (l2_is_fault (memory (slot table virt_region (k + i))) ≡ false)))

  after-later :
      (k i : ℕ) (memory : L2Memory)
      → after k memory (slot table virt_region (k + 1 + i))
        ≡ memory (slot table virt_region (k + suc i))
  after-later k i memory =
      let e : slot table virt_region (k + 1 + i) ≡ slot table virt_region (k + suc i) =
        omega arith in
      let d : (slot table virt_region (k + suc i) == slot table virt_region k) ≡ false =
        ground arith in
      ap (after k memory) e
      ∙ ap (λ (b : Bool). if b then entry k else memory (slot table virt_region (k + suc i))) d

  after-here : (k : ℕ) (memory : L2Memory) → after k memory (slot table virt_region k) ≡ entry k
  after-here k memory = ground arith

  after-other :
      (k place : ℕ) (memory : L2Memory)
      → place ≢ slot table virt_region k
      → after k memory place ≡ memory place
  after-other k place memory other =
      let d : (place == slot table virt_region k) ≡ false = ground (arith, other) in rw d refl

  all_free :
      (k rest : ℕ) (memory : L2Memory)
      → l2_is_fault (memory (slot table virt_region k)) ≡ true
      → ((i : ℕ)
          → i < rest
          → l2_is_fault (after k memory (slot table virt_region (k + 1 + i))) ≡ true)
      → (i : ℕ) → i < suc rest
      → l2_is_fault (memory (slot table virt_region (k + i))) ≡ true
  all_free k rest memory free all zero less =
      let at_k : slot table virt_region (k + 0) ≡ slot table virt_region k = omega arith in
      ap (λ (n : ℕ). l2_is_fault (memory n)) at_k ∙ free
  all_free k rest memory free all (suc i) less =
      ap l2_is_fault (sym (after-later k i memory)) ∙ all i (omega arith)

  abbrev Kept : (k rest : ℕ) (memory memory' : L2Memory) → Type 0
  Kept k rest memory memory' =
      (place : ℕ)
      → ((i : ℕ) → i < rest → place ≢ slot table virt_region (k + i))
      → memory' place ≡ memory place

  all_set :
      (k rest : ℕ) (memory memory' : L2Memory)
      → ((i : ℕ) → i < rest → memory' (slot table virt_region (k + 1 + i)) ≡ entry (k + 1 + i))
      → Kept (k + 1) rest (after k memory) memory'
      → (i : ℕ) → i < suc rest
      → memory' (slot table virt_region (k + i)) ≡ entry (k + i)
  all_set k rest memory memory' set kept zero less =
      let at_k : k + 0 ≡ k = omega arith in
      let here : memory' (slot table virt_region k) ≡ entry k =
        kept (slot table virt_region k) (λ i less'. λ e. absurd (omega arith))
        ∙ after-here k memory in
      ap (λ (n : ℕ). memory' (slot table virt_region n)) at_k ∙ here ∙ sym (ap entry at_k)
  all_set k rest memory memory' set kept (suc i) less =
      let at_i : k + suc i ≡ k + 1 + i = omega arith in
      ap (λ (n : ℕ). memory' (slot table virt_region n)) at_i
      ∙ set i (omega arith)
      ∙ sym (ap entry at_i)

  others-Kept :
      (k rest : ℕ) (memory memory' : L2Memory)
      → Kept (k + 1) rest (after k memory) memory'
      → Kept k (suc rest) memory memory'
  others-Kept k rest memory memory' kept place other =
      kept place (λ i less. λ e. other (suc i) (omega arith) (omega arith))
      ∙ after-other k place memory (λ e. other 0 (omega arith) (omega arith))

  record_pages-Later :
      (rest left k : ℕ) (memory : L2Memory)
      → k + rest ≡ count
      → (left ≡ rest) ⊎ ((rest ≤ left) × (l1_offset * 256 + count ≡ virt_region.length))
      → Later k rest memory (record_pages left l1_offset k phys_region virt_region table memory)
  unfolding record_pages
  record_pages-Later zero left k memory e (inl same) = inl (
    memory,
    ap (λ (n : ℕ). record_pages n l1_offset k phys_region virt_region table memory) same,
    λ i less. absurd (omega arith),
    λ i less. absurd (omega arith),
    λ place other. refl,
  )
  record_pages-Later zero left k memory e (inr (enough, last)) = inl (
    memory,
    record_pages-end left k memory (omega arith),
    λ i less. absurd (omega arith),
    λ i less. absurd (omega arith),
    λ place other. refl,
  )
  record_pages-Later (suc rest) zero k memory e (inl same) = absurd (omega arith)
  record_pages-Later (suc rest) zero k memory e (inr (enough, last)) = absurd (omega arith)
  record_pages-Later (suc rest) (suc left) k memory e bound =
      let bound' : (left ≡ rest)
          ⊎ ((rest ≤ left) × (l1_offset * 256 + count ≡ virt_region.length)) =
        elim bound [
          | inl same ↦ inl (omega arith)
          | inr (enough, last) ↦ inr (omega arith, last)
        ] in
      elim (Bool-cases (l2_is_fault (memory (slot table virt_region k)))) [
        | inr taken ↦ inr (
          record_pages-panic left k memory (omega arith) taken,
          (
            0,
            omega arith,
            let at_k : slot table virt_region (k + 0) ≡ slot table virt_region k = omega arith in
                ap (λ (n : ℕ). l2_is_fault (memory n)) at_k ∙ taken,
          ),
        )
        | inl free ↦
            elim (record_pages-Later rest left (k + 1) (after k memory) (omega arith) bound') [
              | inl (memory', run, all, set, kept) ↦ inl (
                memory',
                record_pages-step left k memory (omega arith) free ∙ run,
                all_free k rest memory free all,
                all_set k rest memory memory' set kept,
                others-Kept k rest memory memory' kept,
              )
              | inr (run, (i, less, taken)) ↦ inr (
                record_pages-step left k memory (omega arith) free ∙ run,
                (suc i, omega arith, ap l2_is_fault (sym (after-later k i memory)) ∙ taken),
              )
            ]
      ]

  -- The whole loop: the pages are written, or one was recorded and the kernel panics.
  pub record_pages-Written :
      (left : ℕ) (memory : L2Memory)
      → (left ≡ count) ⊎ ((count ≤ left) × (l1_offset * 256 + count ≡ virt_region.length))
      → ((memory' : L2Memory) × (record_pages left l1_offset 0 phys_region virt_region table memory
            ≡ some memory')
          × Written count table phys_region virt_region (l1_offset * 256) memory memory')
        ⊎ ((record_pages left l1_offset 0 phys_region virt_region table memory ≡ none)
            × ((k : ℕ) × (k < count) × (l2_is_fault (memory (slot table virt_region k)) ≡ false)))
  record_pages-Written left memory bound =
      let z : (k : ℕ) → 0 + k ≡ k = λ k. omega arith in
      elim (record_pages-Later count left 0 memory (omega arith) bound) [
        | inl (memory', run, all, set, kept) ↦ inl (
          memory',
          run,
          (
            λ k less.
                ap (λ (n : ℕ). l2_is_fault (memory (slot table virt_region n))) (sym (z k))
                ∙ all k less,
            λ k less.
                ap (λ (n : ℕ). memory' (slot table virt_region n)) (sym (z k))
                ∙ set k less
                ∙ ap entry (z k),
            λ place other.
                kept place λ k less. λ e. other k less (e ∙ ap (slot table virt_region) (z k)),
          ),
        )
        | inr (run, (k, less, taken)) ↦ inr (
          run,
          (
            k,
            less,
            ap (λ (n : ℕ). l2_is_fault (memory (slot table virt_region n))) (sym (z k)) ∙ taken,
          ),
        )
      ]
