-- ===== src/Slab/Single.antt =====
-- The allocator of 16-byte values while its bitmap's first word lasts: 32 slots of the first page.
use pinyon.Prelude.{
  ℕ, ◌+◌, ◌-◌, ◌*◌, ◌/◌, ◌%◌, ◌^◌, ◌≤◌, ◌<◌, ◌≡◌, refl, ◌⊎◌, inl, inr, arith, true, false, ◌==◌,
  Option, none, some, List, ◌∷◌, length,
}
use pinyon.TwoMath.{align_down_two}
use pinyon.TwoMath.Align.{align_down_two_floor}
use pinyon.Algorithm.{ptr_begin, ptr_next, ptr_deref, advance}
use pinyon.BitMap.{has}
use pinyon.FreeList.{FreeList}
use pinyon.Slab.{
  SlabAllocator, nth, bits_per_bitmap, num_slabs, find_bit, try_find_free_bit,
  calculate_slab_indexes, calculate_bitmap_indexes, allocate, index_of, find_associated_slab_page,
  free,
}
use pinyon.Slab.Scan.{
  find_bit-first, find_in_bitmaps-first, find_in_bitmaps-undefined, set_bit-first, clear_bit-first,
}

-- A state with at least one bitmap and one page.
abbrev pub slabs_at :
    (w : ℕ) (ws : List ℕ) (rest : List (List ℕ)) (page : ℕ) (pages : List ℕ)
    → FreeList
    → SlabAllocator
slabs_at w ws rest page pages free_pages = record {
  bitmaps = (w ∷ ws) ∷ rest;
  slab_pages = page ∷ pages;
  free_pages = free_pages;
}

pub nth-first : {A : Type 0} (x : A) (xs : List A) → nth (x ∷ xs) 0 ≡ some x
unfolding nth ptr_begin ptr_next ptr_deref advance
nth-first x xs = refl

module _ (ws : List ℕ) (rest : List (List ℕ)) (page : ℕ) (pages : List ℕ) (free_pages : FreeList)
    (few : length pages < 1048575) where
  enough : (w : ℕ) → 32 < num_slabs 16 (slabs_at w ws rest page pages free_pages)
  unfolding num_slabs
  enough w = omega arith

  module _ (w j : ℕ) (low : j < 32) where
    slab_indexes : calculate_slab_indexes 16 0 j ≡ (0, j)
    unfolding calculate_slab_indexes
    slab_indexes = ground arith

    bitmap_indexes : calculate_bitmap_indexes 16 0 j ≡ (0, j)
    unfolding calculate_bitmap_indexes
    bitmap_indexes = ground arith

    allocate-at :
        try_find_free_bit 16 (slabs_at w ws rest page pages free_pages) ≡ some (some (0, j))
        → has w j ≡ false
        → allocate 16 (slabs_at w ws rest page pages free_pages)
          ≡ some (some (page + j * 16), slabs_at (w + 2 ^ j) ws rest page pages free_pages)
    unfolding allocate
    allocate-at found clear =
        let put = set_bit-first (bits_per_bitmap 16) j w ws (omega arith) low in
        ground
          (arith, found, nth-first (w ∷ ws) rest, put, clear, slab_indexes, nth-first page pages)

  pub floor_at :
      (j : ℕ)
      → j < 256
      → page % 4096 ≡ 0
      → page + 4096 ≤ 4294967296
      → align_down_two 32 (page + j * 16) 4096 ≡ page
  floor_at j low aligned bound =
      let (whole, under, over) =
        align_down_two_floor 32 12 (page + j * 16) (omega arith) (omega arith) in
      omega arith

  pub free-at :
      (w j : ℕ)
      → j < 32
      → align_down_two 32 (page + j * 16) 4096 ≡ page
      → has w j ≡ true
      → free 16 (slabs_at w ws rest page pages free_pages) (page + j * 16)
        ≡ some (slabs_at (w - 2 ^ j) ws rest page pages free_pages)
  unfolding free find_associated_slab_page index_of
  free-at w j low floor taken =
      let slot : (page + j * 16 - page) / 16 ≡ j = omega arith in
      let same : (page == page) ≡ true = ground arith in
      let put = clear_bit-first (bits_per_bitmap 16) j w ws (omega arith) low in
      rw (floor, same, slot)
        (ground (arith, bitmap_indexes w j low, nth-first (w ∷ ws) rest, put, taken))

  allocate-full :
      (w : ℕ)
      → try_find_free_bit 16 (slabs_at w ws rest page pages free_pages) ≡ none
      → allocate 16 (slabs_at w ws rest page pages free_pages) ≡ none
  unfolding allocate
  allocate-full w run = rw run refl

  search-first :
      (w : ℕ) (found : Option ℕ)
      → find_bit 16
          (bits_per_bitmap 16 + 1)
          (num_slabs 16 (slabs_at w ws rest page pages free_pages))
          0
          0
          (w ∷ ws)
        ≡ some found
      → (j : ℕ) → found ≡ some j
      → try_find_free_bit 16 (slabs_at w ws rest page pages free_pages) ≡ some (some (0, j))
  unfolding try_find_free_bit
  search-first w found run j e =
      find_in_bitmaps-first 16 (num_slabs 16 (slabs_at w ws rest page pages free_pages)) w ws
        (omega arith) (enough w) rest found run j e

  search-full :
      (w : ℕ)
      → find_bit 16
          (bits_per_bitmap 16 + 1)
          (num_slabs 16 (slabs_at w ws rest page pages free_pages))
          0
          0
          (w ∷ ws)
        ≡ none
      → try_find_free_bit 16 (slabs_at w ws rest page pages free_pages) ≡ none
  unfolding try_find_free_bit
  search-full w run =
      find_in_bitmaps-undefined 16 (num_slabs 16 (slabs_at w ws rest page pages free_pages)) w ws
        (omega arith) (enough w) rest run

  -- With at least one bitmap and one page, and less than `2 ^ 20` pages, `allocate` of 16 bytes
  -- gives the first of the page's 32 lowest slots that is free and marks it; it is undefined just
  -- when all 32 are taken.
  pub allocate-first :
      (w : ℕ)
      → ((allocate 16 (slabs_at w ws rest page pages free_pages) ≡ none)
          × ((k : ℕ) → k < 32 → has w k ≡ true))
        ⊎ ((j : ℕ) × (j < 32)
            × (has w j ≡ false)
            × ((k : ℕ) → k < j → has w k ≡ true)
            × (allocate 16 (slabs_at w ws rest page pages free_pages)
                ≡ some (some (page + j * 16), slabs_at (w + 2 ^ j) ws rest page pages free_pages)))
  allocate-first w =
      elim (find_bit-first 16 (num_slabs 16 (slabs_at w ws rest page pages free_pages)) w ws
        (omega arith) (enough w) (bits_per_bitmap 16 + 1) 0 (omega arith) (omega arith)) [
          | inl (run, all) ↦
              inl (allocate-full w (search-full w run), λ k lt. all k (omega arith) lt)
          | inr (j, run, above, below, clear, all) ↦ inr (
            j,
            below,
            clear,
            λ k lt. all k (omega arith) lt,
            allocate-at w j below (search-first w (some j) run j refl) clear,
          )
        ]
