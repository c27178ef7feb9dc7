-- ===== src/PageAllocator.antt =====
-- PageAllocatorBackend of pine/malloc.hpp and pine/malloc.cpp: free page regions in lists by depth,
-- on a 32-bit machine. A list node is its address and its region. `none` is undefined behaviour: an
-- index outside `m_free_lists`, a node that is not in the list it is removed from, or a fault of the
-- node allocator.
pub mod Nodes
pub mod Lists
pub mod Depth
pub mod Calls
pub mod Invariant
pub mod Trim
pub mod Find
pub mod Allocate
pub mod Reserve
pub mod Free
pub mod Insertion
pub mod Counter
mod Tests
use pinyon.Prelude.{
  ℕ, zero, suc, ◌+◌, ◌-◌, ◌*◌, ◌%◌, ◌^◌, ◌≡◌, Bool, true, false, ◌&&◌, ◌==◌, if◌then◌else◌, Option,
  none, some, ◌>>=◌, List, [], ◌∷◌, length, get_elem?, set, replicate,
}
use pinyon.TwoMath.{bit_width, align_up_to_power}
use pinyon.Region.{Region, words, page_size, region, fits, contains, aligned_to, gt}
use pinyon.Algorithm.{find_if, ptr_begin, ptr_end, ptr_next, ptr_deref, distance, lower_bound}
use Nodes.{Node, NodeAllocator, remove, insert_after}

-- sizeof(size_t) * CHAR_BIT - bit_width(PageSize) + 2
abbrev pub max_depth : ℕ
max_depth = 21

-- IntrusiveFreeList::max_overhead_per_allocation() and sizeof(Node)
abbrev pub node_size : ℕ
node_size = 16

unfoldable pub depth_from_page_length : ℕ → ℕ
depth_from_page_length num_pages = if num_pages == 0 then 0 else bit_width num_pages - 1

unfoldable pub page_length_from_depth : ℕ → ℕ
page_length_from_depth depth = 2 ^ depth % words

-- `--depth` on an unsigned word.
abbrev pub pred_word : ℕ → ℕ
pred_word depth = (depth + words - 1) % words

pub record BrokeredAllocation : Type 0 where
  pub ptr : ℕ
  pub size : ℕ
  pub overhead_used : ℕ

abbrev pub no_allocation : BrokeredAllocation
no_allocation = record { ptr = 0; size = 0; overhead_used = 0 }

pub record Backend (S : Type 0) : Type 0 where
  pub node_allocator : S
  pub free_lists : List (List Node)

-- The loop of `find_free_pages` and `find_free_region` over the depths, `rounds` of them at most.
-- The result of `some none` is a null pointer.
unfoldable pub find_from :
    (rounds : ℕ) (pred : Node → Bool) (depth : ℕ) (lists : List (List Node)) → Option (Option Node)
find_from zero pred depth lists = none
find_from (suc rounds) pred depth lists =
    let rest = find_from rounds pred (depth + 1) lists in
    let here : Option (Option Node) = get_elem? lists depth >>= λ list. elim (find_if pred list) [
      | none ↦ rest
      | some node ↦ some (some node)
    ] in
    if depth == max_depth then some none else here

unfoldable pub find_free_pages : ℕ → ℕ → List (List Node) → Option (Option Node)
find_free_pages num_pages page_alignment lists =
    find_from (max_depth + 1)
      (λ node. fits node.region num_pages && aligned_to node.region page_alignment)
      (depth_from_page_length num_pages) lists

unfoldable pub find_free_region : Region → List (List Node) → Option (Option Node)
find_free_region r lists =
    find_from (max_depth + 1) (λ node. contains node.region r) (depth_from_page_length r.length)
      lists

-- `insert_node`: `lower_bound` with `Greater`, and `insert_after` the node that it points to.
unfoldable pub insertion_point : List Node → Region → Option (Option Node)
insertion_point list value = do
  len ← distance list (ptr_begin list) (ptr_end list)
  it ←
      lower_bound (ptr_deref list) (ptr_next list) (λ node. gt node.region value) (ptr_begin list)
        len
  some (ptr_deref list it)

module _ {S : Type 0} where
  unfoldable pub insert_node : ℕ → Node → Backend S → Option (Backend S)
  insert_node depth node b = do
    list ← get_elem? b.free_lists depth
    point ← insertion_point list node.region
    list' ← insert_after point node list
    some (record b { free_lists = set b.free_lists depth list' })

module _ {S : Type 0} (nodes : NodeAllocator S) where
  unfoldable pub create_node : Region → Backend S → Option (Option (ℕ × Node) × Backend S)
  create_node r b = do
    (got, s) ← nodes.allocate b.node_allocator
    some (
      elim got [
        | none ↦ none
        | some p ↦ some (depth_from_page_length r.length, record { ptr = p; region = r })
      ],
      record b { node_allocator = s },
    )

  unfoldable pub remove_node : ℕ → Node → Backend S → Option (Backend S)
  remove_node depth node b = do
    list ← get_elem? b.free_lists depth
    list' ← remove node.ptr list
    s ← nodes.free b.node_allocator node.ptr
    some (record { node_allocator = s; free_lists = set b.free_lists depth list' })

  -- The loop of `trim_aligned_region` and of `remove_and_trim_region`: `pick` gives the half that is
  -- kept and the one that is freed, or breaks. The result is the region and the depth at the end.
  unfoldable pub trim_loop :
      (pick : Region → Option (Region × Region)) (fuel : ℕ) (curr_region : Region)
      (curr_depth end_depth : ℕ) (b : Backend S)
      → Option ((Region × ℕ) × Backend S)
  trim_loop pick zero curr_region curr_depth end_depth b = none
  trim_loop pick (suc fuel) curr_region curr_depth end_depth b = elim (curr_depth == end_depth) [
    | true ↦ some ((curr_region, curr_depth), b)
    | false ↦ elim (pick curr_region) [
      | none ↦ some ((curr_region, curr_depth), b)
      | some (reserved, remainder) ↦ do
        (made, b') ← create_node remainder b
        elim made [
          | none ↦ some ((curr_region, pred_word curr_depth), b')
          | some (_, node) ↦ do
            b'' ← insert_node (pred_word curr_depth) node b'
            trim_loop pick fuel reserved (pred_word curr_depth) end_depth b''
        ]
    ]
  ]
