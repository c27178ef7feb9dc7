-- ===== src/Slab/Backend.antt =====
-- The page allocator's backend over the slab allocator, as kmalloc sets it up.
use pinyon.Prelude.{
  ℕ, ◌+◌, ◌*◌, ◌%◌, ◌^◌, ◌≤◌, ◌<◌, ◌≡◌, ◌⊎◌, inl, inr, arith, none, some, List, length,
}
use pinyon.Region.{Region, words, page_size, ptr, size, inside}
use pinyon.FreeList.{FreeList}
use pinyon.PageAllocator.{Backend, no_allocation, max_depth}
use pinyon.PageAllocator.Calls.{brokered, allocate, free, init}
use pinyon.PageAllocator.Nodes.{NodeAllocator}
use pinyon.PageAllocator.Invariant.{Inv, cover, spare}
use pinyon.PageAllocator.Allocate.{Suits, NoneFree, failed, given, allocate-Allocated}
use pinyon.PageAllocator.Free.{init_lem, free_restores}
use pinyon.Slab.{SlabAllocator}
use pinyon.Slab.Slots.{first_word, live_at-zero, free_slots-zero}
use pinyon.Slab.Nodes.{slab_nodes, at, allocate_none, at_lem}

module _ (ws : List ℕ) (rest : List (List ℕ)) (page : ℕ) (pages : List ℕ) (free_pages : FreeList)
    (few : length pages < 1048575) (aligned : page % 4096 ≡ 0)
    (bound : page + 4096 ≤ 4294967296) where
  abbrev nodes : NodeAllocator SlabAllocator
  nodes = slab_nodes ws rest page pages free_pages few aligned bound

  never_refused :
      (s : SlabAllocator) × (t : SlabAllocator) × nodes.IsValid s
        × (nodes.allocate s ≡ some (none, t))
      → ⊥
  never_refused (s, t, v, e) = allocate_none ws rest page pages free_pages few aligned bound s t v e

  -- After `init` over a slab allocator whose 32 slots are free, with a range of `2 ^ depth` pages
  -- within the word, exactly the pages of the range are free, each once, and the backend's
  -- invariant holds.
  pub init-slabs :
      (depth : ℕ) (range : Region)
      → depth < max_depth
      → range.length ≡ 2 ^ depth
      → range.offset + range.length < words
      → (b : Backend SlabAllocator) × (init nodes
            (at ws rest page pages free_pages few aligned bound 0)
            range
          ≡ some b)
        × Inv nodes b
        × ((p : ℕ) → cover p b.free_lists ≡ inside p range)
  unfolding first_word
  init-slabs depth range low e small =
      let (b, run, inv, pages_of) =
        init_lem nodes depth range (at ws rest page pages free_pages few aligned bound 0)
          (at_lem ws rest page pages free_pages few aligned bound 0) (live_at-zero page)
          (omega (arith, free_slots-zero)) low e small in
      elim pages_of [
        | inl exact ↦ (b, run, inv, exact)
        | inr (none', why) ↦ absurd (
            never_refused
              (_, why.0, at_lem ws rest page pages free_pages few aligned bound 0, why.1))
      ]

  -- Over a slab allocator on one page of slots, with a free slot for each depth, the backend's
  -- invariant, and a request of 1 to `2 ^ 20` pages, `allocate` gives no region and changes
  -- nothing, because none suits; or it keeps the invariant and gives an aligned region, at least as
  -- long as asked for and less than twice as long, which was free, and every other page stays as
  -- free as before.
  pub allocate-slabs :
      (num_pages page_alignment : ℕ) (b : Backend SlabAllocator)
      → Inv nodes b
      → max_depth ≤ spare nodes b
      → 0 < num_pages
      → num_pages ≤ 2 ^ 20
      → ((allocate nodes num_pages page_alignment b ≡ some (no_allocation, b))
          × NoneFree (Suits num_pages page_alignment) b.free_lists)
        ⊎ ((r : Region) × (cost : ℕ) × (b' : Backend SlabAllocator) × (allocate nodes num_pages
                page_alignment b
              ≡ some (brokered r cost, b'))
            × Inv nodes b'
            × (num_pages ≤ r.length)
            × (r.length < 2 * num_pages)
            × (r.offset % page_alignment ≡ 0)
            × ((p : ℕ) → cover p b'.free_lists + inside p r ≡ cover p b.free_lists))
  allocate-slabs num_pages page_alignment b inv room pos small =
      elim (allocate-Allocated nodes num_pages page_alignment b inv room pos small) [
        | failed run nothing ↦ inl (run, nothing)
        | given r exponent cost b' run inv' power inside' long whole sums short ↦ elim short [
          | inl tight ↦ inr (r, cost, b', run, inv', long, tight, whole, sums)
          | inr why ↦ absurd (never_refused why)
        ]
      ]

  -- When the backend has lost the pages of one region, as after `allocate`, and a slot is free, then
  -- `free` with the region's first byte and size gives back exactly the free pages of before.
  pub free-slabs :
      (depth : ℕ) (r : Region) (before b : Backend SlabAllocator)
      → Inv nodes b
      → 0 < spare nodes b
      → depth < max_depth
      → r.length ≡ 2 ^ depth
      → r.offset + r.length < 1048576
      → ((p : ℕ) → cover p b.free_lists + inside p r ≡ cover p before.free_lists)
      → (b' : Backend SlabAllocator) × (free nodes (ptr page_size r 0) (size page_size r) b
          ≡ some b')
        × Inv nodes b'
        × ((p : ℕ) → cover p b'.free_lists ≡ cover p before.free_lists)
  free-slabs depth r before b inv room low e small gone =
      let (b', run, inv', back) = free_restores nodes depth r before b inv room low e small gone in
      elim back [
        | inl exact ↦ (b', run, inv', exact)
        | inr why ↦ absurd (never_refused (_, why.0, inv.valid, why.1))
      ]
