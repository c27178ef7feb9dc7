-- ===== src/PageAllocator/Calls.antt =====
-- The calls of PageAllocatorBackend: allocate, reserve, add and free.
use pinyon.Prelude.{ℕ, ◌+◌, ◌-◌, ◌*◌, ◌%◌, if◌then◌else◌, Option, none, some, ◌>>=◌, [], replicate}
use pinyon.TwoMath.{align_up_to_power}
use pinyon.Region.{Region, words, page_size, ptr, size, contains, halve, not_empty, from_ptr}
use pinyon.PageAllocator.{
  Backend, BrokeredAllocation, no_allocation, max_depth, node_size, depth_from_page_length,
  find_free_pages, find_free_region, insert_node, create_node, remove_node, trim_loop,
}
use pinyon.PageAllocator.Nodes.{Node, NodeAllocator}

-- `trim_aligned_region` keeps the left half.
unfoldable pub left_half : Region → Option (Region × Region)
left_half r = some (halve r)

-- `remove_and_trim_region` keeps the half that holds the wanted region.
unfoldable pub half_around : Region → Region → Option (Region × Region)
half_around min_region r =
    let (left, right) = halve r in
    if contains left min_region
    then some (left, right)
    else if contains right min_region
    then some (right, left)
    else none

-- `(start_depth - curr_depth) * IntrusiveFreeList::max_overhead_per_allocation()`
abbrev pub trim_cost : ℕ → ℕ → ℕ
trim_cost start_depth curr_depth = (start_depth + words - curr_depth) % words * node_size % words

-- `{ region.ptr(), region.size(), num_splits * sizeof(Node) }`
abbrev pub brokered : Region → ℕ → BrokeredAllocation
brokered r num_splits = record {
  ptr = ptr page_size r 0;
  size = size page_size r;
  overhead_used = num_splits * node_size % words;
}

module _ {S : Type 0} (nodes : NodeAllocator S) where
  unfoldable pub trim_aligned_region :
      Region → ℕ → ℕ → Backend S → Option ((Region × ℕ) × Backend S)
  trim_aligned_region curr_region start_depth end_depth b = do
    ((r, depth), b') ←
        trim_loop nodes left_half (start_depth + 2) curr_region start_depth end_depth b
    some ((r, trim_cost start_depth depth), b')

  unfoldable pub remove_and_trim_pages : Node → ℕ → Backend S → Option ((Region × ℕ) × Backend S)
  remove_and_trim_pages node min_pages b = do
    let curr_depth = depth_from_page_length node.region.length
    b' ← remove_node nodes curr_depth node b
    let min_depth = depth_from_page_length (align_up_to_power 32 min_pages)
    trim_aligned_region node.region curr_depth min_depth b'

  -- The cost is computed from `end_depth - curr_depth`.
  unfoldable pub remove_and_trim_region :
      Node → Region → Backend S → Option ((Region × ℕ) × Backend S)
  remove_and_trim_region node min_region b = do
    let curr_depth = depth_from_page_length node.region.length
    b' ← remove_node nodes curr_depth node b
    let end_depth = depth_from_page_length min_region.length
    ((r, depth), b'') ←
        trim_loop nodes (half_around min_region) (curr_depth + 2) node.region curr_depth end_depth
          b'
    some ((r, trim_cost end_depth depth), b'')

  unfoldable pub allocate : ℕ → ℕ → Backend S → Option (BrokeredAllocation × Backend S)
  allocate num_pages page_alignment b = do
    found ← find_free_pages num_pages page_alignment b.free_lists
    elim found [
      | none ↦ some (no_allocation, b)
      | some node ↦ do
        ((r, num_splits), b') ← remove_and_trim_pages node num_pages b
        some (brokered r num_splits, b')
    ]

  unfoldable pub reserve_region : Region → Backend S → Option (BrokeredAllocation × Backend S)
  reserve_region wanted b = do
    found ← find_free_region wanted b.free_lists
    elim found [
      | none ↦ some (no_allocation, b)
      | some node ↦ do
        ((r, num_splits), b') ← remove_and_trim_region node wanted b
        some (brokered r num_splits, b')
    ]

  unfoldable pub free_region : Region → Backend S → Option (ℕ × Backend S)
  free_region r b =
      let body : Option (ℕ × Backend S) = do
        (made, b') ← create_node nodes r b
        elim made [
          | none ↦ some (0, b')
          | some (depth, node) ↦ do b'' ← insert_node depth node b'; some (node_size, b'')
        ]
      in if not_empty r then body else some (0, b)

  unfoldable pub add : Region → Backend S → Option (Backend S)
  add pages b = do (_, b') ← free_region pages b; some b'

  unfoldable pub free : ℕ → ℕ → Backend S → Option (Backend S)
  free allocation_ptr allocation_size b = do
    (_, b') ← free_region (from_ptr page_size allocation_ptr allocation_size) b
    some b'

  -- `init` on the node allocator as `m_node_allocator.add` left it.
  unfoldable pub init : S → Region → Option (Backend S)
  init node_allocator allocating_range =
      add allocating_range
        (record { node_allocator = node_allocator; free_lists = replicate max_depth [] })
