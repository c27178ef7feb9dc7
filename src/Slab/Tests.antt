-- ===== src/Slab/Tests.antt =====
-- Runs of the slab allocator, and of the page allocator over it.
use pinyon.Prelude.{
  ℕ, ◌==◌, if◌then◌else◌, ap, ◌∙◌, set, replicate, ◌+◌, ◌*◌, ◌%◌, ◌≤◌, ◌<◌, ◌≡◌, ◌⊎◌, refl, arith,
  some, [], ◌∷◌,
}
use pinyon.BitMap.{has}
use pinyon.FreeList.{FreeList}
use pinyon.Region.{Region, region, inside}
use pinyon.PageAllocator.{Backend, no_allocation}
use pinyon.PageAllocator.Calls
use pinyon.PageAllocator.Calls.{brokered}
use pinyon.PageAllocator.Nodes.{NodeAllocator}
use pinyon.PageAllocator.Invariant.{Inv, cover}
use pinyon.PageAllocator.Allocate.{Suits, NoneFree}
use pinyon.Slab.{SlabAllocator}
use pinyon.Slab.Single.{slabs_at}
use pinyon.Slab.Slots.{live_at, live_at-add, live_at-zero, free_slots, first_word}
use pinyon.Slab.Nodes.{slab_nodes}
use pinyon.Slab.Backend.{init-slabs, allocate-slabs}

abbrev no_pages : FreeList
no_pages = record { size_at = λ _. 0; free_list = [] }

abbrev nodes : NodeAllocator SlabAllocator
nodes = slab_nodes [] [] 4096 [] no_pages (omega arith) (omega arith) (omega arith)

init-slabs_example :
    (b : Backend SlabAllocator) × (Calls.init nodes
        (slabs_at 0 [] [] 4096 [] no_pages)
        (region 32 16)
      ≡ some b)
    × Inv nodes b
    × ((p : ℕ) → cover p b.free_lists ≡ inside p (region 32 16))
init-slabs_example =
    init-slabs [] [] 4096 [] no_pages (omega arith) (omega arith) (omega arith) 4 (region 32 16)
      (omega arith) refl (omega arith)

-- The backend after `init` with pages 32 to 47: the first slot is a node's.
abbrev started : Backend SlabAllocator
started = record {
  node_allocator = slabs_at 1 [] [] 4096 [] no_pages;
  free_lists = set (replicate 21 []) 4 (record { ptr = 4096; region = region 32 16 } ∷ []);
}

one_live : (q : ℕ) → live_at 4096 1 q ≡ (if 4096 == q then 1 else 0)
unfolding has
one_live q =
    live_at-add 4096 0 0 q (omega arith) refl
    ∙ ap (λ (n : ℕ). if 4096 == q then 1 else n) (live_at-zero 4096 q)

started-Inv : Inv nodes started
unfolding first_word
started-Inv = record {
  valid = refl;
  depths = refl;
  placed = omega arith;
  owned = λ p. ground (arith, one_live p);
}

allocate-slabs_example :
    ((Calls.allocate nodes 3 1 started ≡ some (no_allocation, started))
      × NoneFree (Suits 3 1) started.free_lists)
    ⊎ ((r : Region) × (cost : ℕ) × (b' : Backend SlabAllocator) × (Calls.allocate nodes 3 1 started
          ≡ some (brokered r cost, b'))
        × Inv nodes b'
        × (3 ≤ r.length)
        × (r.length < 2 * 3)
        × (r.offset % 1 ≡ 0)
        × ((p : ℕ) → cover p b'.free_lists + inside p r ≡ cover p started.free_lists))
unfolding first_word free_slots has
allocate-slabs_example =
    allocate-slabs [] [] 4096 [] no_pages (omega arith) (omega arith) (omega arith) 3 1 started
      started-Inv (omega arith) (omega arith) (omega arith)
