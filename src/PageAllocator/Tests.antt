-- ===== src/PageAllocator/Tests.antt =====
-- Runs of the backend over the plain node allocator.
use pinyon.Prelude.{ℕ, ◌≡◌, refl, ◌⊎◌, arith, ◌==◌, if◌then◌else◌, none, some, [], ◌∷◌, set}
use pinyon.Region.{Region, region, page_size, ptr, size, not_empty, gt}
use pinyon.TwoMath.{bit_width, bit_width_loop}
use pinyon.Algorithm.{
  distance, distance_loop, lower_bound, lower_bound_loop, advance, ptr_begin, ptr_deref, ptr_end,
  ptr_next, ptr_eq,
}
use pinyon.PageAllocator.{
  Backend, depth_from_page_length, insert_node, create_node, insertion_point,
}
use pinyon.PageAllocator.Counter.{take, Counter, counter_nodes, unused}
use pinyon.PageAllocator.Calls.{allocate, reserve_region, free, init, add, free_region}
use pinyon.PageAllocator.Nodes.{insert_after, insert_after_ptr}
use pinyon.PageAllocator.Invariant.{cover, Inv}
use pinyon.PageAllocator.Allocate.{Allocated, allocate-Allocated}
use pinyon.PageAllocator.Reserve.{Reserved, reserve_region-Reserved}
use pinyon.PageAllocator.Free.{free_restores, free_region-Freed, Freed}
use pinyon.PageAllocator.Insertion.{insert_node-second}

-- Pages 32 to 47.
abbrev range : Region
range = region 32 16

abbrev started : Backend Counter
started = record {
  node_allocator = record { next = 2; held = λ q. if 1 == q then 1 else 0 };
  free_lists =
      []
      ∷ []
      ∷ []
      ∷ []
      ∷ (record { ptr = 1; region = range } ∷ [])
      ∷ []
      ∷ []
      ∷ []
      ∷ []
      ∷ []
      ∷ []
      ∷ []
      ∷ []
      ∷ []
      ∷ []
      ∷ []
      ∷ []
      ∷ []
      ∷ []
      ∷ []
      ∷ []
      ∷ [];
}

started-Inv : Inv counter_nodes started
started-Inv = record {
  valid = record { once = λ q. ground arith; above = λ q h. ground arith };
  depths = refl;
  placed = omega arith;
  owned = λ p. ground arith;
}

init_run : init counter_nodes unused range ≡ some started
unfolding init add free_region create_node insert_node insertion_point not_empty
    depth_from_page_length bit_width bit_width_loop distance distance_loop ptr_begin ptr_deref
    ptr_end ptr_next ptr_eq lower_bound lower_bound_loop advance gt insert_after insert_after_ptr
init_run = refl

allocate-Allocated_example :
    Allocated counter_nodes 3 1 started (allocate counter_nodes 3 1 started)
allocate-Allocated_example =
    allocate-Allocated counter_nodes 3 1 started started-Inv (omega arith) (omega arith)
      (omega arith)

reserve_region-Reserved_example :
    Reserved counter_nodes
      (region 40 4)
      started
      (reserve_region counter_nodes (region 40 4) started)
reserve_region-Reserved_example =
    reserve_region-Reserved counter_nodes (region 40 4) started started-Inv (omega arith)
      (omega arith) (omega arith) (omega arith)

free_region-Freed_example :
    Freed counter_nodes (region 8 4) started (free_region counter_nodes (region 8 4) started)
free_region-Freed_example =
    free_region-Freed counter_nodes 2 (region 8 4) started started-Inv (omega arith) (omega arith)
      refl (omega arith)

-- The pages of `started` and those of a region that was taken out of it.
abbrev before : Backend Counter
before = record started {
  free_lists = set started.free_lists 2 (record { ptr = 9; region = region 8 4 } ∷ []);
}

free_restores_example :
    (b' : Backend Counter) × (free counter_nodes
        (ptr page_size (region 8 4) 0)
        (size page_size (region 8 4))
        started
      ≡ some b')
    × Inv counter_nodes b'
    × (((p : ℕ) → cover p b'.free_lists ≡ cover p before.free_lists)
        ⊎ ((t : Counter) × (take started.node_allocator ≡ some (none, t))))
free_restores_example =
    free_restores counter_nodes 2 (region 8 4) before started started-Inv (omega arith)
      (omega arith) refl (omega arith) (λ p. omega arith)

insert_node-second_example :
    insert_node 4 (record { ptr = 5; region = region 64 16 }) started
    ≡ some (record started {
      free_lists =
          set started.free_lists 4
            (record { ptr = 1; region = range } ∷ record { ptr = 5; region = region 64 16 } ∷ []);
    })
insert_node-second_example =
    insert_node-second 4 (record { ptr = 1; region = range })
      (record { ptr = 5; region = region 64 16 }) [] started refl
