-- ===== src/Slab/Nodes.antt =====
-- The slab allocator as the allocator of nodes that the page allocator asks for, on 32 slots.
use pinyon.Prelude.{
  ℕ, ◌+◌, ◌-◌, ◌*◌, ◌%◌, ◌^◌, ◌≤◌, ◌<◌, ◌≡◌, refl, sym, ap, ◌∙◌, inl, inr, arith, Bool, false, ◌==◌,
  if◌then◌else◌, Option, none, some, List, length,
}
use pinyon.BitMap.{has}
use pinyon.FreeList.{FreeList}
use pinyon.PageAllocator.Nodes.{NodeAllocator}
use pinyon.Slab.{SlabAllocator, allocate, free}
use pinyon.Slab.Single.{slabs_at, allocate-first, free-at, floor_at}
use pinyon.Slab.Slots.{
  first_word, free_slots, free_slots-add, free_slots-sub, free_slots-full, live_at, live_at_le,
  live_at-slot, live_at-inside, live_at-add, live_at-sub,
}

module _ (ws : List ℕ) (rest : List (List ℕ)) (page : ℕ) (pages : List ℕ) (free_pages : FreeList)
    (few : length pages < 1048575) (aligned : page % 4096 ≡ 0)
    (bound : page + 4096 ≤ 4294967296) where
  abbrev pub at : ℕ → SlabAllocator
  at w = slabs_at w ws rest page pages free_pages

  abbrev pub word_of : SlabAllocator → ℕ
  word_of s = first_word s.bitmaps

  abbrev pub IsAt : SlabAllocator → Type 0
  IsAt s = s ≡ at (word_of s)

  word_of-at : (w : ℕ) → word_of (at w) ≡ w
  unfolding first_word
  word_of-at w = refl

  pub at_lem : (w : ℕ) → IsAt (at w)
  at_lem w = ap at (sym (word_of-at w))

  -- What an allocation that is defined gives.
  allocated :
      (w : ℕ) (r : Option ℕ × SlabAllocator)
      → allocate 16 (at w) ≡ some r
      → (j : ℕ) × (j < 32) × (has w j ≡ false) × (r ≡ (some (page + j * 16), at (w + 2 ^ j)))
  allocated w r e = elim (allocate-first ws rest page pages free_pages few w) [
    | inl (run, all) ↦ absurd cc
    | inr (j, low, clear, before, run) ↦ (j, low, clear, cc)
  ]

  abbrev pub Live : (s t : SlabAllocator) (p n : ℕ) → Type 0
  Live s t p n =
      (q : ℕ) → live_at page (word_of t) q ≡ (if p == q then n else live_at page (word_of s) q)

  pub allocate_some :
      (s t : SlabAllocator) (p : ℕ)
      → IsAt s
      → allocate 16 s ≡ some (some p, t)
      → IsAt t
        × (live_at page (word_of s) p ≡ 0)
        × Live s t p 1
        × (free_slots (word_of s) 32 ≤ free_slots (word_of t) 32 + 1)
  unfolding first_word
  allocate_some s t p v e =
      let (j, low, clear, same) =
        allocated (word_of s) (some p, t) (ap (allocate 16) (sym v) ∙ e) in
      let first : p ≡ page + j * 16 = cc in
      let next : t ≡ at (word_of s + 2 ^ j) = cc in
      rw (first, next)
        (
          at_lem (word_of s + 2 ^ j),
          live_at-slot page (word_of s) j low ∙ ap (λ (b : Bool). if b then 1 else 0) clear,
          λ q. live_at-add page (word_of s) j q low clear,
          let n = free_slots-add (word_of s) j 32 clear in ground (arith, n, low),
        )

  pub allocate_none : (s t : SlabAllocator) → IsAt s → allocate 16 s ≡ some (none, t) → ⊥
  allocate_none s t v e =
      let (j, low, clear, same) = allocated (word_of s) (none, t) (ap (allocate 16) (sym v) ∙ e) in
      cc

  pub allocate_defined :
      (s : SlabAllocator)
      → IsAt s
      → 0 < free_slots (word_of s) 32
      → (r : Option ℕ × SlabAllocator) × (allocate 16 s ≡ some r)
  allocate_defined s v spare = elim (allocate-first ws rest page pages free_pages few (word_of s)) [
    | inl (run, all) ↦ absurd (let n = free_slots-full (word_of s) 32 all in omega arith)
    | inr (j, low, clear, before, run) ↦ (_, ap (allocate 16) v ∙ run)
  ]

  pub free_slab :
      (s : SlabAllocator) (p : ℕ)
      → IsAt s
      → live_at page (word_of s) p ≡ 1
      → (t : SlabAllocator) × (free 16 s p ≡ some t)
        × IsAt t
        × Live s t p 0
        × (free_slots (word_of s) 32 ≤ free_slots (word_of t) 32)
  unfolding first_word
  free_slab s p v l =
      let (j, low, place, taken) = live_at-inside page (word_of s) p l in
      let floor = floor_at ws rest page pages free_pages few j (omega arith) aligned bound in
      rw place (
        at (word_of s - 2 ^ j),
        ap (λ u. free 16 u (page + j * 16)) v
            ∙ free-at ws rest page pages free_pages few (word_of s) j low floor taken,
        at_lem (word_of s - 2 ^ j),
        λ q. live_at-sub page (word_of s) j q low taken,
        free_slots-sub (word_of s) j 32 taken,
      )

  -- The allocator of nodes that the page allocator asks for.
  abbrev pub slab_nodes : NodeAllocator SlabAllocator
  slab_nodes = record {
    allocate = allocate 16;
    free = free 16;
    IsValid = IsAt;
    live = λ s q. live_at page (word_of s) q;
    spare = λ s. free_slots (word_of s) 32;
    live_le = λ s p v. live_at_le page (word_of s) p;
    allocate_some = allocate_some;
    allocate_none = λ s t v e. absurd (allocate_none s t v e);
    allocate_defined = allocate_defined;
    free_lem = free_slab;
  }
