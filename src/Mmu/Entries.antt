-- ===== src/Mmu/Entries.antt =====
-- The entries of a table after sections were mapped.
use pinyon.Prelude.{
  ℕ, suc, ◌+◌, ◌-◌, ◌*◌, ◌/◌, ◌%◌, ◌<◌, ◌≡◌, refl, sym, ap, ◌∙◌, inl, inr, arith, Bool, true, false,
  ltb, leb, ◌&&◌, ◌==◌, ==_iff, if◌then◌else◌, Bool-cases,
}
use pinyon.Region.{Region, section_size, ptr}
use pinyon.Mmu.{L1Entry, L1Table, section, l1_index, l1_base_addr, make_section}

-- The first-level entry of the section with a number, after `count` sections from `virt` were mapped
-- to those from `phys`.
abbrev pub mapped : (phys virt count : ℕ) → L1Table → ℕ → L1Entry
mapped phys virt count table index =
    if leb virt index && ltb index (virt + count)
    then section (phys + (index - virt))
    else table index

pub l1_index-ptr :
    (r : Region) (i : ℕ) → r.offset + i < 1024 → l1_index (ptr section_size r i) ≡ r.offset + i
unfolding l1_index ptr
l1_index-ptr r i small = omega arith

pub make_section-ptr :
    (r : Region) (i : ℕ)
    → r.offset + i < 1024
    → make_section (ptr section_size r i) ≡ section (r.offset + i)
unfolding make_section l1_base_addr ptr
make_section-ptr r i small =
    let e : (r.offset + i) * section_size % 4294967296 / 1048576 % 4096 % 1024 ≡ r.offset + i =
      omega arith in
    ap section e

-- The table after one section was recorded.
unfoldable pub with_section : ℕ → ℕ → L1Table → L1Table
with_section virt phys table index = if index == virt then section phys else table index

same_if :
    (c : Bool) (x y z : L1Entry) → (c ≡ true → x ≡ y) → (if c then x else z) ≡ (if c then y else z)
same_if true x y z e = e refl
same_if false x y z e = refl

pub mapped-same :
    (phys phys' virt virt' count : ℕ) (table table' : L1Table) (index : ℕ)
    → phys ≡ phys'
    → virt ≡ virt'
    → table index ≡ table' index
    → mapped phys virt count table index ≡ mapped phys' virt' count table' index
mapped-same phys phys' virt virt' count table table' index p v t =
    ap (λ (n : ℕ). mapped n virt count table index) p
    ∙ ap (λ (n : ℕ). mapped phys' n count table index) v
    ∙ ap
        (λ (x : L1Entry).
          if leb virt' index && ltb index (virt' + count)
          then section (phys' + (index - virt'))
          else x)
        t

pub mapped-next :
    (phys virt left : ℕ) (table : L1Table) (index : ℕ)
    → mapped (phys + 1) (virt + 1) left (with_section virt phys table) index
      ≡ mapped phys virt (suc left) table index
unfolding with_section
mapped-next phys virt left table index = elim (Bool-cases (index == virt)) [
  | inl same ↦
      let e : index ≡ virt = (==_iff index virt).0 same in
      let f : phys + (index - virt) ≡ phys = omega arith in
      let g : (leb (virt + 1) index && ltb index (virt + 1 + left)) ≡ false = ground arith in
      let h : (leb virt index && ltb index (virt + suc left)) ≡ true = ground arith in
      ap
        (λ (b : Bool).
          if b
          then section (phys + 1 + (index - (virt + 1)))
          else with_section virt phys table index)
        g
      ∙ ap (λ (b : Bool). if b then section phys else table index) same
      ∙ sym (
          ap (λ (b : Bool). if b then section (phys + (index - virt)) else table index) h
          ∙ ap section f)
  | inr other ↦
      let d : leb (virt + 1) index ≡ leb virt index = ground (arith, other) in
      let e : ltb index (virt + 1 + left) ≡ ltb index (virt + suc left) = ground arith in
      ap
        (λ (b : Bool).
          if b && ltb index (virt + 1 + left)
          then section (phys + 1 + (index - (virt + 1)))
          else with_section virt phys table index)
        d
      ∙ ap
          (λ (b : Bool).
            if leb virt index && b
            then section (phys + 1 + (index - (virt + 1)))
            else with_section virt phys table index)
          e
      ∙ ap
          (λ (b : Bool).
            if leb virt index && ltb index (virt + suc left)
            then section (phys + 1 + (index - (virt + 1)))
            else if b
            then section phys
            else table index)
          other
      ∙ same_if (leb virt index && ltb index (virt + suc left)) _ _ (table index)
          (λ in_range. ap section (ground (arith, other, in_range)))
]
