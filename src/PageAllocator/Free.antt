-- ===== src/PageAllocator/Free.antt =====
-- `free`, `add` and `init`.
use pinyon.Prelude.{
  ℕ, ◌+◌, ◌^◌, ◌<◌, ◌≡◌, ◌⊎◌, inl, inr, ap, sym, ◌∙◌, arith, true, Option, none, some, ◌>>=◌, List,
  [], replicate, length-replicate, two_pow-pos,
}
use pinyon.Region.{Region, words, page_size, ptr, size, inside, not_empty}
use pinyon.Region.Bytes.{from_ptr-ptr}
use pinyon.PageAllocator.{
  Backend, max_depth, node_size, depth_from_page_length, create_node, insert_node,
}
use pinyon.PageAllocator.Calls.{free_region, add, free, init}
use pinyon.PageAllocator.Nodes.{Node, NodeAllocator}
use pinyon.PageAllocator.Lists.{has_ptr, tally-replicate, Shaped-replicate}
use pinyon.PageAllocator.Depth.{depth_from_page_length-two_pow}
use pinyon.PageAllocator.Invariant.{Placed, cover, Inv, spare, refused, released, release}

module _ {S : Type 0} (nodes : NodeAllocator S) where
  -- Each page of the region becomes free once more, at the cost of one node; or the node allocator
  -- refuses in the state it is in, the cost is 0, and the free pages stay as they were.
  pub data Freed (r : Region) (b : Backend S) (res : Option (ℕ × Backend S)) : Type 0 where
    freed :
        (b' : Backend S)
        → res ≡ some (node_size, b')
        → Inv nodes b'
        → ((p : ℕ) → cover p b'.free_lists ≡ cover p b.free_lists + inside p r)
        → Freed r b res
    lost :
        (b' : Backend S)
        → res ≡ some (0, b')
        → Inv nodes b'
        → b'.free_lists ≡ b.free_lists
        → ((t : S) × (nodes.allocate b.node_allocator ≡ some (none, t)))
        → Freed r b res

  free_region_made :
      (r : Region) (b b' b'' : Backend S) (depth at : ℕ) (node : Node)
      → not_empty r ≡ true
      → create_node nodes r b ≡ some (some (at, node), b')
      → at ≡ depth
      → insert_node depth node b' ≡ some b''
      → free_region nodes r b ≡ some (node_size, b'')
  unfolding free_region
  free_region_made r b b' b'' depth at node full made same put =
      ground (arith, full, made, same, put)

  free_region_null :
      (r : Region) (b b' : Backend S)
      → not_empty r ≡ true
      → create_node nodes r b ≡ some (none, b')
      → free_region nodes r b ≡ some (0, b')
  unfolding free_region
  free_region_null r b b' full made = ground (arith, full, made)

  -- On a backend that satisfies the invariant and whose node allocator has room for a node, a region
  -- of `2 ^ depth` pages within the word, of a depth that has a list, is taken back: each of its pages
  -- is free once more and the invariant holds, at the cost of a node; or the node allocator, as it is,
  -- refuses the node, the cost is 0 and the free pages stay as they were.
  pub free_region-Freed :
      (depth : ℕ) (r : Region) (b : Backend S)
      → Inv nodes b
      → 0 < spare nodes b
      → depth < max_depth
      → r.length ≡ 2 ^ depth
      → r.offset + r.length < words
      → Freed r b (free_region nodes r b)
  unfolding not_empty
  free_region-Freed depth r b inv room low e small =
      let full : not_empty r ≡ true = ground (arith, two_pow-pos depth) in
      let same : depth_from_page_length r.length ≡ depth =
        ap depth_from_page_length e ∙ depth_from_page_length-two_pow depth in
      elim (release nodes depth r b inv room low e small) [
        | refused b' made why inv' still _ ↦
            lost b' (free_region_null r b b' full made) inv' still why
        | released node b' b'' made put inv' more _ ↦
            freed b'' (free_region_made r b b' b'' depth _ node full made same put) inv' more
      ]

  -- `free`, given the bytes of a region below the last page, takes that region back.
  pub free-region :
      (r : Region) (b : Backend S)
      → r.offset + r.length < 1048576
      → free nodes (ptr page_size r 0) (size page_size r) b
        ≡ (free_region nodes r b >>= λ (_, b'). some b')
  unfolding free
  free-region r b small = rw (from_ptr-ptr r small)

  -- Let a backend satisfy the invariant, its node allocator have room for a node, and its free pages
  -- be those of an earlier one without a region, as after `allocate`, of `2 ^ depth` pages below page
  -- `2 ^ 20`, of a depth that has a list. Then `free` with the region's first byte and size is defined,
  -- keeps the invariant and gives back the free pages of before, unless the node allocator, as it is,
  -- refuses the node.
  pub free_restores :
      (depth : ℕ) (r : Region) (before b : Backend S)
      → Inv nodes b
      → 0 < spare nodes b
      → depth < max_depth
      → r.length ≡ 2 ^ depth
      → r.offset + r.length < 1048576
      → ((p : ℕ) → cover p b.free_lists + inside p r ≡ cover p before.free_lists)
      → (b' : Backend S) × (free nodes (ptr page_size r 0) (size page_size r) b ≡ some b')
        × Inv nodes b'
        × (((p : ℕ) → cover p b'.free_lists ≡ cover p before.free_lists)
            ⊎ ((t : S) × (nodes.allocate b.node_allocator ≡ some (none, t))))
  free_restores depth r before b inv room low e small gone =
      elim (free_region-Freed depth r b inv room low e (omega arith)) [
        | freed b' done inv' more ↦
            (b', free-region r b small ∙ rw done, inv', inl λ p. omega (arith, more p, gone p))
        | lost b' done inv' still why ↦ (b', free-region r b small ∙ rw done, inv', inr why)
      ]

  -- The empty lists satisfy the invariant, if the node allocator has given out no node.
  empty-Inv :
      (s : S)
      → nodes.IsValid s
      → ((p : ℕ) → nodes.live s p ≡ 0)
      → Inv nodes (record { node_allocator = s; free_lists = replicate max_depth [] })
  empty-Inv s valid none' = record {
    valid = valid;
    depths = length-replicate {A = List Node} max_depth [];
    placed = Shaped-replicate Placed 0 max_depth;
    owned = λ p. tally-replicate (has_ptr p) max_depth ∙ sym (none' p);
  }

  -- After `init` with a range of `2 ^ depth` pages the invariant holds, and either exactly the pages
  -- of the range are free, each once, or the node allocator refused and none is.
  pub init_lem :
      (depth : ℕ) (range : Region) (s : S)
      → nodes.IsValid s
      → ((p : ℕ) → nodes.live s p ≡ 0)
      → 0 < nodes.spare s
      → depth < max_depth
      → range.length ≡ 2 ^ depth
      → range.offset + range.length < words
      → (b : Backend S) × (init nodes s range ≡ some b)
        × Inv nodes b
        × (((p : ℕ) → cover p b.free_lists ≡ inside p range)
            ⊎ (((p : ℕ) → cover p b.free_lists ≡ 0)
                × ((t : S) × (nodes.allocate s ≡ some (none, t)))))
  unfolding init add
  init_lem depth range s valid none' room low e small =
      let empty : Backend S = record { node_allocator = s; free_lists = replicate max_depth [] } in
      let zeros = λ (p : ℕ). tally-replicate (λ node. inside p node.region) max_depth in
      elim (free_region-Freed depth range empty (empty-Inv s valid none') room low e small) [
        | freed b done inv more ↦ (b, rw done, inv, inl λ p. omega (arith, more p, zeros p))
        | lost b done inv still why ↦
            (b, rw done, inv, inr (λ p. ap (cover p) still ∙ zeros p, why))
      ]
