-- ===== src/FreeList.antt =====
-- IntrusiveFreeList of pine/malloc.hpp and pine/malloc.cpp, on a machine with 32-bit pointers and an
-- alignment of 8. A block is a header of 16 bytes at its address, and the bytes behind it; the
-- header's size stays in memory while the block is given out.
pub mod Blocks
pub mod Allocate
pub mod Free
mod Tests
use pinyon.Prelude.{
  ℕ, ◌+◌, ◌-◌, ◌*◌, ◌%◌, ◌^◌, Bool, true, false, ◌&&◌, ltb, leb, ◌==◌, if◌then◌else◌, Option, none,
  some, ◌>>=◌, List, [], ◌∷◌, ◌++◌,
}
use pinyon.TwoMath.{align_down_two, align_up_two}
use pinyon.Algorithm.{find_if}

abbrev pub alignment : ℕ
alignment = 8

-- The values of a pointer or a `size_t`.
abbrev pub words : ℕ
words = 2 ^ 32

-- sizeof(HeaderNode)
abbrev pub header : ℕ
header = 16

pub record FreeList : Type 0 where
  -- `contents().size` of the header at an address
  pub size_at : ℕ → ℕ
  -- `m_free_list`
  pub free_list : List ℕ

-- pine::Allocation; the null pointer is 0.
pub record Allocation : Type 0 where
  pub ptr : ℕ
  pub size : ℕ

abbrev pub update : (ℕ → ℕ) → ℕ → ℕ → ℕ → ℕ
update f p v q = if q == p then v else f q

unfoldable pub min_allocation_size : ℕ → ℕ
min_allocation_size requested_size = align_up_two 32 requested_size alignment + header

unfoldable pub preferred_size : ℕ → ℕ
preferred_size requested_size = align_up_two 32 (min_allocation_size requested_size) 4096

abbrev pub to_user_ptr : ℕ → ℕ → ℕ
to_user_ptr node offset = node + header + offset

unfoldable pub to_node_ptr : ℕ → ℕ
to_node_ptr addr = (addr + words - header) % words

-- ManualLinkedList::remove on addresses; `none` if the node is not in the list.
unfoldable pub remove : ℕ → List ℕ → Option (List ℕ)
remove p [] = none
remove p (x ∷ xs) =
    let rest : Option (List ℕ) = remove p xs >>= λ ys. some (x ∷ ys) in
    if x == p then some xs else rest

unfoldable pub construct_node : (region_size node_location : ℕ) → (ℕ → ℕ) → ℕ → ℕ
construct_node region_size node_location size_at =
    update size_at node_location ((region_size + words - header) % words)

unfoldable pub add : (new_location new_size : ℕ) → FreeList → FreeList
add new_location new_size s = record {
  size_at = construct_node new_size new_location s.size_at;
  free_list = s.free_list ++ (new_location ∷ []);
}

-- The part of `allocate` that gives the tail of a long block to a new node.
unfoldable pub split : (node requested_size : ℕ) → FreeList → FreeList
split node requested_size s =
    let alloc_size = s.size_at node in
    let remaining_size = align_down_two 32 (alloc_size - requested_size) alignment in
    let new_node = to_user_ptr node (alloc_size - remaining_size) in
    if ltb (min_allocation_size alignment) remaining_size
    then record {
      size_at =
          construct_node remaining_size new_node
            (update s.size_at node (alloc_size - remaining_size));
      free_list = s.free_list ++ (new_node ∷ []);
    }
    else s

unfoldable pub allocate : ℕ → FreeList → Option (Allocation × FreeList)
allocate requested_size s =
    elim (find_if (λ node. leb requested_size (s.size_at node)) s.free_list) [
      | none ↦ some (record { ptr = 0; size = 0 }, s)
      | some node ↦ do
        let s' = split node requested_size s
        list ← remove node s'.free_list
        some (
          record { ptr = to_user_ptr node 0; size = s'.size_at node },
          record s' { free_list = list },
        )
    ]

abbrev pub is_null : Option ℕ → Bool
is_null none = true
is_null (some _) = false

unfoldable pub are_contiguous : (ℕ → ℕ) → ℕ → ℕ → Bool
are_contiguous size_at left right = to_user_ptr left (size_at left) == right

-- The loop of `try_find_neighboring_memory_nodes`, with the two pointers found so far.
unfoldable pub find_neighbors :
    (size_at : ℕ → ℕ) (node : ℕ) → List ℕ → (left right : Option ℕ) → Option ℕ × Option ℕ
find_neighbors size_at node [] left right = (left, right)
find_neighbors size_at node (x ∷ xs) left right =
    let is_left = is_null left && (ltb x node && are_contiguous size_at x node) in
    let is_right = is_null right && (ltb node x && are_contiguous size_at node x) in
    let left' = if is_left then some x else left in
    let right' = if is_left then right else if is_right then some x else right in
    let rest = find_neighbors size_at node xs left' right' in
    if is_null left' then rest else if is_null right' then rest else (left', right')

-- `adopt_right_node_size`
unfoldable pub adopt_right_node_size : (left right : ℕ) → (ℕ → ℕ) → ℕ → ℕ
adopt_right_node_size left right size_at =
    update size_at left ((size_at left + size_at right) % words)

unfoldable pub adopt_right : (node : ℕ) (right : Option ℕ) → FreeList → Option FreeList
adopt_right node none s = some s
adopt_right node (some right) s = do
  list ← remove right s.free_list
  some (record { size_at = adopt_right_node_size node right s.size_at; free_list = list })

-- The result is the size freed.
unfoldable pub free : Allocation → FreeList → Option (ℕ × FreeList)
free alloc s =
    let node = to_node_ptr alloc.ptr in
    let size_freed = s.size_at node in
    let (left, right) = find_neighbors s.size_at node s.free_list none none in
    elim left [
      | none ↦ do
        s' ← adopt_right node right s
        some (size_freed, record s' { free_list = s'.free_list ++ (node ∷ []) })
      | some left' ↦ do
        s' ←
            adopt_right left' right
              (record s { size_at = adopt_right_node_size left' node s.size_at })
        some (size_freed, s')
    ]
